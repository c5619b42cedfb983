-- ===== src/Redis/Structs.antt =====
-- The operations of pkg/infrastructure/redis/redis.go that encode their values as JSON. The encoder
-- and the decoder of encoding/json are parameters.
pub mod Connected
pub mod Laws
use msa_core.Prelude.{String, List, [], ◌∷◌}
use msa_core.Prelude.Result.{Error, Result, ok, err}
use msa_core.Redis.{
  RedisClient, Outcome, value, failed, then_value, Server, M, mapped, Argument, given, encoded,
  entries,
}
use msa_core.Redis.Hashes.{hm_set_payload, hm_get, h_set, h_get, h_get_all}

abbrev pub decoded : {E : Type 0} → Result E → Outcome E
decoded (ok e) = value e
decoded (err x) = failed x

-- what cannot be encoded is passed as it is
abbrev pub encoded_or_given : {V : Type 0} → V → Result String → Argument V
encoded_or_given v (ok j) = encoded j
encoded_or_given v (err x) = given v

abbrev pub encoded_entries :
    {V : Type 0} → (V → Result String) → List (String × V) → List (String × Argument V)
encoded_entries marshal [] = []
encoded_entries marshal ((k, v) ∷ m) =
    (k, encoded_or_given v (marshal v)) ∷ encoded_entries marshal m

-- the values that can be decoded, under their names
abbrev pub decoded_entries :
    {E : Type 0} → (String → Result E) → List (String × String) → List (String × E)
decoded_entries unmarshal [] = []
decoded_entries unmarshal ((k, j) ∷ m) = elim (unmarshal j) [
  | ok e ↦ (k, e) ∷ decoded_entries unmarshal m
  | err x ↦ decoded_entries unmarshal m
]

module _ {V F S : Type 0} (srv : Server V F S) (c : RedisClient) (marshal : V → Result String) where
  unfoldable pub h_set_struct : String → String → V → M S (Unit {0})
  h_set_struct key h_key v s = elim (marshal v) [
    | ok j ↦ h_set srv c key (encoded h_key) (encoded j) s
    | err x ↦ (failed x, s)
  ]

  unfoldable pub hm_set_struct : String → List (String × V) → M S (Unit {0})
  hm_set_struct key m = hm_set_payload srv c key (entries (encoded_entries marshal m))

module _ {V F S : Type 0} (srv : Server V F S) (c : RedisClient) where
  unfoldable pub h_get_struct : String → String → M S String
  h_get_struct key h_key = h_get srv c key h_key

  unfoldable pub h_get_all_struct : String → M S (List (String × String))
  h_get_all_struct key = h_get_all srv c key

module _ {V F S E : Type 0} (srv : Server V F S) (c : RedisClient)
    (unmarshal : String → Result E) where
  -- For the first two the partly decoded value beside an error is left aside.
  unfoldable pub hm_get_typed : String → String → M S E
  hm_get_typed key field = mapped (then_value (λ j. decoded (unmarshal j))) (hm_get srv c key field)

  unfoldable pub h_get_typed : String → String → M S E
  h_get_typed key h_key = mapped (then_value (λ j. decoded (unmarshal j))) (h_get srv c key h_key)

  unfoldable pub h_get_all_typed : String → M S (List (String × E))
  h_get_all_typed key =
      mapped (then_value (λ m. value (decoded_entries unmarshal m))) (h_get_all srv c key)

  unfoldable pub h_get_struct_typed : String → String → M S E
  h_get_struct_typed key h_key =
      mapped (then_value (λ j. decoded (unmarshal j))) (h_get_struct srv c key h_key)

  unfoldable pub h_get_all_struct_typed : String → M S (List (String × E))
  h_get_all_struct_typed key = h_get_all_typed key
