-- ===== src/Redis/Tests.antt =====
-- The client on a small server, which keeps for each key and field a text; a plain text is kept under
-- the empty field. It knows the commands on texts and on the fields of hashes, and does nothing for
-- the others.
use mathlib.Core.Path.{fun_ext}
use Prim.Native.Char.{Char}
use Prim.Native.String.{[], ◌∷◌}
use msa_core.Prelude.{
  ℕ, String, true, false, ◌&&◌, ◌≡◌, ◌≢◌, ◌⊎◌, refl, sym, ap, Option, none, some, [], ◌∷◌, ◌==◌,
  eq_iff, arith, if◌then◌else◌,
}
use msa_core.Prelude.Int.{pos}
use msa_core.Prelude.Result.{Error, error, Result, ok, err}
use msa_core.Prelude.Text.{split, trim_space}
use msa_core.Redis.{
  cluster, single, uninitialized, new_redis_client, Outcome, value, absent, Kind, Val, Argument,
  given, encoded, Command, set_command, get_command, get_del_command, del_command, incr_command,
  exists_command, h_len_command, set_nx_command, expire_command, hm_set_command, hm_get_command,
  h_set_command, h_get_command, h_get_all_command, h_del_command, h_exists_command, h_keys_command,
  h_vals_command, h_set_nx_command, h_incr_by_command, h_incr_by_float_command, Server, full_key,
  send, failed, RedisClient,
}
use msa_core.Redis.Structs.{h_set_struct}
use msa_core.Redis.Structs.Connected.{client}
use msa_core.Redis.Structs.Laws.{StoresField, SetText, Hidden, h_get_typed-h_set_struct, h_get_lem}
use msa_core.Redis.Hashes.{h_set, h_get}
use msa_core.Redis.Methods.{effects, set_method, del_method, get_del_method}
use msa_core.Redis.Isolation.{effects-isolated}
use msa_core.Redis.Isolation.Effects.{Keyed}
use msa_core.Redis.Taking.{
  waiting, finished, got, made, answer, IsStore, race, race_single, race_cluster,
}

abbrev State : Type 0
State = String → String → Option String

abbrev put : State → String → String → Option String → State
put s k f v j g = if k == j then (if f == g then v else s j g) else s j g

abbrev drop_key : State → String → State
drop_key s k j g = if k == j then none else s j g

abbrev text_of : Argument String → String
text_of (given v) = v
text_of (encoded v) = v

abbrev respond : (k : Kind) → Command String ℕ k → State → Outcome (Val ℕ k) × State
respond _ (set_command k v exp) s = (value tt, put s k "" (some v))
respond _ (get_command k) s = (answer (s k ""), s)
respond _ (get_del_command k) s = (answer (s k ""), drop_key s k)
respond _ (del_command k) s = (value (pos 1), drop_key s k)
respond _ (incr_command k) s = (absent, s)
respond _ (exists_command k) s = (absent, s)
respond _ (h_len_command k) s = (absent, s)
respond _ (set_nx_command k v exp) s = (absent, s)
respond _ (expire_command k exp) s = (absent, s)
respond _ (hm_set_command k v) s = (absent, s)
respond _ (hm_get_command k f) s = (absent, s)
respond _ (h_set_command k f v) s = (value (pos 1), put s k (text_of f) (some (text_of v)))
respond _ (h_get_command k f) s = (answer (s k f), s)
respond _ (h_get_all_command k) s = (absent, s)
respond _ (h_del_command k f) s = (value (pos 1), put s k f none)
respond _ (h_exists_command k f) s = (absent, s)
respond _ (h_keys_command k) s = (absent, s)
respond _ (h_vals_command k) s = (absent, s)
respond _ (h_set_nx_command k f v) s = (absent, s)
respond _ (h_incr_by_command k f n) s = (absent, s)
respond _ (h_incr_by_float_command k f x) s = (absent, s)

abbrev srv : Server String ℕ State
srv = record { run = respond; scans = λ p s. ([], none) ∷ []; close = λ s. (none, s) }

abbrev fresh : State
fresh k f = none

differ : (k j : String) → k ≢ j → (k == j) ≡ false
differ k j ne = ground (arith, eq_iff k j)

same : (k : String) → (k == k) ≡ true
same k = ground (arith, eq_iff k k)

apart : (k j : String) → (k == j) ≡ false → k ≢ j
apart k j h e = ground (arith, eq_iff k j)

srv-Keyed : Keyed srv (λ s k. s k)
srv-Keyed _ (set_command k v exp) s j ne = fun_ext (λ g. rw (differ k j ne) refl)
srv-Keyed _ (get_command k) s j ne = refl
srv-Keyed _ (get_del_command k) s j ne = fun_ext (λ g. rw (differ k j ne) refl)
srv-Keyed _ (del_command k) s j ne = fun_ext (λ g. rw (differ k j ne) refl)
srv-Keyed _ (incr_command k) s j ne = refl
srv-Keyed _ (exists_command k) s j ne = refl
srv-Keyed _ (h_len_command k) s j ne = refl
srv-Keyed _ (set_nx_command k v exp) s j ne = refl
srv-Keyed _ (expire_command k exp) s j ne = refl
srv-Keyed _ (hm_set_command k v) s j ne = refl
srv-Keyed _ (hm_get_command k f) s j ne = refl
srv-Keyed _ (h_set_command k f v) s j ne = fun_ext (λ g. rw (differ k j ne) refl)
srv-Keyed _ (h_get_command k f) s j ne = refl
srv-Keyed _ (h_get_all_command k) s j ne = refl
srv-Keyed _ (h_del_command k f) s j ne = fun_ext (λ g. rw (differ k j ne) refl)
srv-Keyed _ (h_exists_command k f) s j ne = refl
srv-Keyed _ (h_keys_command k) s j ne = refl
srv-Keyed _ (h_vals_command k) s j ne = refl
srv-Keyed _ (h_set_nx_command k f v) s j ne = refl
srv-Keyed _ (h_incr_by_command k f n) s j ne = refl
srv-Keyed _ (h_incr_by_float_command k f x) s j ne = refl

srv-IsStore : IsStore srv (λ s k. s k "")
srv-IsStore = record {
  got = λ k s. refl;
  taken = λ k s. (refl, rw (same k) refl);
  deleted = λ k s. (pos 1, refl, rw (same k) refl);
}

srv-StoresField : StoresField srv
srv-StoresField k h j s n e = rw (same k, same h) refl

-- the texts hold an encoded text each, in quotes on the left
abbrev quote : Char
quote = "'"

abbrev marshal : String → Result String
marshal v = ok (quote ∷ v)

-- takes the quote off
abbrev unmarshal : String → Result String
unmarshal [] = err (error "unexpected end of JSON input")
unmarshal (c ∷ s) = ok s

abbrev decoded : Result String → Result String
decoded (ok j) = unmarshal j
decoded (err x) = err x

unmarshal-marshal : (v j : String) → marshal v ≡ ok j → unmarshal j ≡ ok v
unmarshal-marshal v j e = ap decoded (sym e)

abbrev stored : State
stored = put fresh "app:k" "" (some "v")

effects-isolated_example :
    effects srv marshal
      (new_redis_client "a:1, b:2" "" "other")
      (set_method "k" "w" (pos 0) ∷ del_method "k" ∷ get_del_method "app:k" ∷ [])
      stored
      (full_key (new_redis_client "" "c:3" "app") "k")
    ≡ stored (full_key (new_redis_client "" "c:3" "app") "k")
effects-isolated_example =
    effects-isolated srv (λ s k. s k) srv-Keyed "" "c:3" "a:1, b:2" "" "app" "other"
      (apart "app" "" refl) (apart "other" "" refl) (apart "app" "other" refl) (omega arith)
      (omega arith) marshal
      (set_method "k" "w" (pos 0) ∷ del_method "k" ∷ get_del_method "app:k" ∷ []) stored "k"

race_single_example :
    (got (race srv (made (single "c:3") "app:") "k" (true ∷ false ∷ []) waiting waiting stored).0
      && got
          (race srv (made (single "c:3") "app:") "k" (true ∷ false ∷ []) waiting waiting stored).1)
    ≡ false
race_single_example =
    race_single srv (λ s k. s k "") srv-IsStore "k" "c:3" "app:" (true ∷ false ∷ []) stored

race_cluster_example :
    ((race srv
        (made (cluster ("a:1" ∷ [])) "app:")
        "k"
        (true ∷ false ∷ true ∷ false ∷ [])
        waiting
        waiting
        stored).0
      ≡ finished (value "v"))
    × ((race srv
          (made (cluster ("a:1" ∷ [])) "app:")
          "k"
          (true ∷ false ∷ true ∷ false ∷ [])
          waiting
          waiting
          stored).1
        ≡ finished (value "v"))
race_cluster_example =
    race_cluster srv (λ s k. s k "") srv-IsStore "k" "app:" "v" ("a:1" ∷ []) stored refl

abbrev app : RedisClient
app = client (single "c:3") "app:"

h_get_typed-h_set_struct_example :
    ((e : Error) × (marshal "v" ≡ err e)
      × (h_set_struct srv app marshal "h" "f" "v" fresh ≡ (failed e, fresh)))
    ⊎ ((j : String) × (marshal "v" ≡ ok j) × SetText srv app marshal unmarshal j "h" "f" "v" fresh)
h_get_typed-h_set_struct_example =
    h_get_typed-h_set_struct srv marshal unmarshal srv-StoresField unmarshal-marshal
      (error "unexpected end of JSON input") refl (single "c:3") "app:" "h" "f" "v" fresh tt

-- the field is set
field_set : (h_set_struct srv (client (single "c:3") "app:") marshal "h" "f" "v" fresh).0 ≡ value tt
unfolding h_set_struct h_set send
field_set = refl

h_get_lem_example :
    Hidden (answer (fresh "app:h" "f")) (h_get srv (client (single "c:3") "app:") "h" "f" fresh).0
h_get_lem_example = h_get_lem srv (single "c:3") "app:" "h" "f" fresh tt

modes :
    (new_redis_client " a:1 ,, b:2" "c:3" "app"
      ≡ record { mode = cluster ("a:1" ∷ "b:2" ∷ []); prefix = "app:" })
    × (new_redis_client " , " "c:3" "" ≡ record { mode = single "c:3"; prefix = "" })
    × (new_redis_client "" " " "" ≡ record { mode = uninitialized; prefix = "" })
unfolding new_redis_client split trim_space
modes = (refl, refl, refl)
