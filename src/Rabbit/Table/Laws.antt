-- ===== src/Rabbit/Table/Laws.antt =====
-- The laws of the map operations, in the form that later proofs rewrite by.
use msa_core.Prelude.{
  ◌≡◌, refl, String, Option, none, some, [], ◌∷◌, ◌==◌, eq_iff, arith, if◌then◌else◌,
}
use msa_core.Rabbit.Table.{
  HeaderValue, text, Table, lookup, insert, delete, copy, carrier_get, carrier_set,
}

pub lookup-insert :
    (t : Table) (k : String) (v : HeaderValue) (j : String)
    → lookup (insert t k v) j ≡ (if k == j then some v else lookup t j)
unfolding lookup insert
lookup-insert [] k v j = refl
lookup-insert ((i, w) ∷ t) k v j =
    ground (arith, eq_iff k j, eq_iff i k, eq_iff i j, lookup-insert t k v j)

pub lookup-delete :
    (t : Table) (k j : String) → lookup (delete t k) j ≡ (if k == j then none else lookup t j)
unfolding lookup delete
lookup-delete [] k j = ground arith
lookup-delete ((i, w) ∷ t) k j =
    ground (arith, eq_iff k j, eq_iff i k, eq_iff i j, lookup-delete t k j)

abbrev pub or_else : Option HeaderValue → Option HeaderValue → Option HeaderValue
or_else (some v) d = some v
or_else none d = d

pub lookup-copy :
    (dst src : Table) (j : String) → lookup (copy dst src) j ≡ or_else (lookup src j) (lookup dst j)
unfolding lookup copy
lookup-copy dst [] j = refl
lookup-copy dst ((k, v) ∷ src) j =
    ground (arith, lookup-insert (copy dst src) k v j, lookup-copy dst src j)

-- A value that the carrier sets is read back, and every other key reads as before.
pub carrier_get-carrier_set :
    (h : Option Table) (k v j : String)
    → carrier_get (carrier_set h k v) j ≡ (if k == j then v else carrier_get h j)
unfolding carrier_get carrier_set lookup
carrier_get-carrier_set none k v j = ground (arith, lookup-insert [] k (text v) j)
carrier_get-carrier_set (some t) k v j = ground (arith, lookup-insert t k (text v) j)
