-- ===== src/Rabbit/Table.antt =====
-- amqp091.Table as the client uses it: a Go map, with the operations of package maps, and
-- AMQPCarrier and cloneTable of pkg/infrastructure/rabbitmq/rabbitmq.go. A map is an association
-- list in which the first entry of a key counts; `none` is the nil map.
pub mod Laws
use msa_core.Prelude.{
  ℕ, ◌-◌, ◌*◌, ◌/◌, ◌^◌, ◌≡◌, String, Bool, true, false, Option, none, some, List, [], ◌∷◌, ◌++◌,
  ◌==◌, ltb, leb, if◌then◌else◌, map,
}
use msa_core.Prelude.Int.{ℤ, pos, negsuc, int64_half}

-- A finite value is mantissa * 2^up / 2^down with its sign.
pub data Float64 : Type 0 where
  finite : Bool → ℕ → ℕ → ℕ → Float64
  not_finite : Float64

abbrev magnitude : ℕ → ℕ → ℕ → ℕ
magnitude m up down = m * 2 ^ up / 2 ^ down

-- `int(v)`: rounds towards zero; out of range it gives the least integer, as on amd64
abbrev pub truncate : Float64 → ℤ
truncate (finite false m up down) =
    if ltb (magnitude m up down) int64_half
    then pos (magnitude m up down)
    else negsuc (int64_half - 1)
truncate (finite true m up down) =
    if ltb (magnitude m up down) 1
    then pos 0
    else if leb (magnitude m up down) int64_half
    then negsuc (magnitude m up down - 1)
    else negsuc (int64_half - 1)
truncate not_finite = negsuc (int64_half - 1)

-- The dynamic types of a header's value that the client tells apart.
pub data HeaderValue : Type 0 where
  int int32 int64 : ℤ → HeaderValue
  float64 : Float64 → HeaderValue
  text : String → HeaderValue
  other : String → HeaderValue

abbrev pub Table : Type 0
Table = List (String × HeaderValue)

unfoldable pub lookup : Table → String → Option HeaderValue
lookup [] k = none
lookup ((j, v) ∷ t) k = if j == k then some v else lookup t k

-- `t[k] = v`
unfoldable pub insert : Table → String → HeaderValue → Table
insert [] k v = (k, v) ∷ []
insert ((j, w) ∷ t) k v = let rest = insert t k v in if j == k then (k, v) ∷ t else (j, w) ∷ rest

-- `delete(t, k)`
unfoldable pub delete : Table → String → Table
delete [] k = []
delete ((j, w) ∷ t) k = let rest = delete t k in if j == k then rest else (j, w) ∷ rest

-- `maps.Copy(dst, src)`; an entry that comes first in `src` is written last
unfoldable pub copy : Table → Table → Table
copy dst [] = dst
copy dst ((k, v) ∷ src) = insert (copy dst src) k v

-- `cloneTable`
unfoldable pub clone_table : Option Table → Option Table
clone_table none = none
clone_table (some t) = some (copy [] t)

-- `AMQPCarrier.Get`
unfoldable pub carrier_get : Option Table → String → String
carrier_get none key = ""
carrier_get (some t) key = elim (lookup t key) [ some (text s) ↦ s | _ ↦ "" ]

-- `AMQPCarrier.Set`
unfoldable pub carrier_set : Option Table → String → String → Option Table
carrier_set none key val = some (insert [] key (text val))
carrier_set (some t) key val = some (insert t key (text val))

-- `AMQPCarrier.Keys`
unfoldable pub carrier_keys : Option Table → List String
carrier_keys none = []
carrier_keys (some t) = map (λ kv. kv.0) t
