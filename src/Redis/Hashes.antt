-- ===== src/Redis/Hashes.antt =====
-- The operations on hashes of pkg/infrastructure/redis/redis.go.
use msa_core.Prelude.{String, Bool, Option, none, some, List, [], ◌∷◌, ◌==◌, if◌then◌else◌}
use msa_core.Prelude.Int.{ℤ}
use msa_core.Redis.{
  RedisClient, Outcome, value, absent, failed, panics, then_value, Server, M, mapped, full_key,
  ignored, Argument, Payload, whole, send, hm_set_command, hm_get_command, h_set_command,
  h_get_command, h_get_all_command, h_del_command, h_exists_command, h_keys_command, h_vals_command,
  h_len_command, h_set_nx_command, h_incr_by_command, h_incr_by_float_command,
}

-- `values[0]`, and redis.Nil for a nil there
abbrev pub first_column : List (Option String) → Outcome String
first_column [] = panics
first_column (none ∷ vs) = absent
first_column (some v ∷ vs) = value v

-- `cmd.Val()`: the zero value beside any error
abbrev pub val_or : {A : Type 0} → A → Outcome A → Outcome A
val_or z (value a) = value a
val_or z absent = value z
val_or z (failed e) = value z
val_or z panics = panics

abbrev pub nil_if_empty : String → Outcome String
nil_if_empty v = if v == "" then absent else value v

module _ {V F S : Type 0} (srv : Server V F S) (c : RedisClient) where
  -- HMSet, also with a map that the client has made
  unfoldable pub hm_set_payload : String → Payload V → M S (Unit {0})
  hm_set_payload key val =
      mapped (then_value ignored) (send srv c (hm_set_command (full_key c key) val))

  unfoldable pub hm_set : String → V → M S (Unit {0})
  hm_set key val = hm_set_payload key (whole val)

  unfoldable pub hm_get : String → String → M S String
  hm_get key field =
      mapped (then_value first_column) (send srv c (hm_get_command (full_key c key) field))

  unfoldable pub h_set : String → Argument V → Argument V → M S (Unit {0})
  h_set key h_key val =
      mapped (then_value ignored) (send srv c (h_set_command (full_key c key) h_key val))

  unfoldable pub h_get : String → String → M S String
  h_get key h_key =
      mapped (λ r. then_value nil_if_empty (val_or "" r))
        (send srv c (h_get_command (full_key c key) h_key))

  -- the map that the loop copies
  unfoldable pub h_get_all : String → M S (List (String × String))
  h_get_all key = mapped (val_or []) (send srv c (h_get_all_command (full_key c key)))

  unfoldable pub h_del : String → String → M S (Unit {0})
  h_del key h_key = mapped (then_value ignored) (send srv c (h_del_command (full_key c key) h_key))

  unfoldable pub h_exists : String → String → M S Bool
  h_exists key h_key = send srv c (h_exists_command (full_key c key) h_key)

  unfoldable pub h_keys : String → M S (List String)
  h_keys key = send srv c (h_keys_command (full_key c key))

  unfoldable pub h_values : String → M S (List String)
  h_values key = send srv c (h_vals_command (full_key c key))

  unfoldable pub h_len : String → M S ℤ
  h_len key = send srv c (h_len_command (full_key c key))

  unfoldable pub h_set_nx : String → String → V → M S Bool
  h_set_nx key h_key val = send srv c (h_set_nx_command (full_key c key) h_key val)

  unfoldable pub h_incr_by : String → String → ℤ → M S ℤ
  h_incr_by key h_key n = send srv c (h_incr_by_command (full_key c key) h_key n)

  unfoldable pub h_incr_by_float : String → String → F → M S F
  h_incr_by_float key h_key x = send srv c (h_incr_by_float_command (full_key c key) h_key x)
