-- ===== src/Redis/Isolation/Effects.antt =====
-- What a call of any method does to keys that the client does not name.
use Prim.Native.String.{[], ◌∷◌}
use msa_core.Prelude.{String, ◌≡◌, ◌≢◌, refl, ap, sym, ◌∙◌, ◌⊎◌, inl, inr, List}
use mathlib.Core.List.{List, [], ◌∷◌}
use msa_core.Prelude.Result.{Result, ok, err}
use msa_core.Redis.{
  given, encoded, whole, entries, RedisClient, Mode, cluster, single, uninitialized, Outcome, value,
  absent, failed, panics, Kind, Command, set_command, get_command, get_del_command, del_command,
  incr_command, exists_command, h_len_command, set_nx_command, expire_command, hm_set_command,
  hm_get_command, h_set_command, h_get_command, h_get_all_command, h_del_command, h_exists_command,
  h_keys_command, h_vals_command, h_set_nx_command, h_incr_by_command, h_incr_by_float_command,
  Server, full_key, send, delete_read, set, get, get_del, del, incr, set_nx, expire, expire_nx,
  exists,
}
use msa_core.Redis.Hashes.{
  hm_set_payload, hm_set, hm_get, h_set, h_get, h_get_all, h_del, h_exists, h_keys, h_values, h_len,
  h_set_nx, h_incr_by, h_incr_by_float,
}
use msa_core.Redis.Structs.{
  encoded_entries, h_set_struct, h_get_struct, hm_set_struct, h_get_all_struct,
}
use msa_core.Redis.Keys.{get_all_key_by_prefix}
use msa_core.Redis.Methods.{
  Method, effect, effects, del_method, exists_method, expire_method, expire_nx_method,
  get_all_key_by_prefix_method, get_del_method, get_method, h_del_method, h_exists_method,
  h_get_all_method, h_get_all_struct_method, h_get_method, h_get_struct_method,
  h_incr_by_float_method, h_incr_by_method, h_keys_method, h_len_method, h_set_method,
  h_set_nx_method, h_set_struct_method, h_values_method, hm_get_method, hm_set_method,
  hm_set_struct_method, incr_method, set_method, set_nx_method,
}

abbrev pub key_of : {V F : Type 0} {k : Kind} → Command V F k → String
key_of (set_command key v exp) = key
key_of (get_command key) = key
key_of (get_del_command key) = key
key_of (del_command key) = key
key_of (incr_command key) = key
key_of (exists_command key) = key
key_of (h_len_command key) = key
key_of (set_nx_command key v exp) = key
key_of (expire_command key exp) = key
key_of (hm_set_command key v) = key
key_of (hm_get_command key f) = key
key_of (h_set_command key h v) = key
key_of (h_get_command key h) = key
key_of (h_get_all_command key) = key
key_of (h_del_command key h) = key
key_of (h_exists_command key h) = key
key_of (h_keys_command key) = key
key_of (h_vals_command key) = key
key_of (h_set_nx_command key h v) = key
key_of (h_incr_by_command key h n) = key
key_of (h_incr_by_float_command key h x) = key

-- What Redis documents of its commands: one changes nothing at a key that it does not name. `view` is
-- what the server holds at a key.
abbrev pub Keyed : {V F S W : Type 0} → Server V F S → (S → String → W) → Type 0
Keyed {V} {F} {S} srv view =
    (k : Kind) (cmd : Command V F k) (s : S) (j : String)
    → key_of cmd ≢ j
    → view (srv.run k cmd s).1 j ≡ view s j

-- no key of the first client is a key of the second
abbrev pub Apart : RedisClient → RedisClient → Type 0
Apart c d = (x y : String) → full_key c x ≢ full_key d y

-- a command reaches the server, or the client is a nil pointer
send_mode :
    {V F S : Type 0} (srv : Server V F S) (c : RedisClient) (k : Kind) (cmd : Command V F k) (s : S)
    → (m : Mode) → c.mode ≡ m
    → (send srv c {k = k} cmd s ≡ srv.run k cmd s) ⊎ (send srv c {k = k} cmd s ≡ (panics, s))
unfolding send
send_mode srv c k cmd s (cluster addrs) e = inl (rw (e, send) refl)
send_mode srv c k cmd s (single address) e = inl (rw (e, send) refl)
send_mode srv c k cmd s uninitialized e = inr (rw (e, send) refl)

get_all_key_by_prefix_state :
    {V F S : Type 0} (srv : Server V F S) (c : RedisClient) (prefix : String) (s : S) (m : Mode)
    → c.mode ≡ m
    → (get_all_key_by_prefix srv c prefix s).1 ≡ s
unfolding get_all_key_by_prefix
get_all_key_by_prefix_state srv c prefix s (cluster addrs) e = rw (e, get_all_key_by_prefix) refl
get_all_key_by_prefix_state srv c prefix s (single address) e = rw (e, get_all_key_by_prefix) refl
get_all_key_by_prefix_state srv c prefix s uninitialized e = rw (e, get_all_key_by_prefix) refl

module _ {V F S W : Type 0} (srv : Server V F S) (view : S → String → W)
    (keyed : Keyed srv view) where
  send-other :
      (c : RedisClient) (k : Kind) (cmd : Command V F k) (s : S) (j : String)
      → key_of cmd ≢ j
      → view (send srv c {k = k} cmd s).1 j ≡ view s j
  send-other c k cmd s j ne = elim (send_mode srv c k cmd s c.mode refl) [
    | inl run ↦ rw run (keyed k cmd s j ne)
    | inr stuck ↦ rw stuck refl
  ]

  delete_read-other :
      (c : RedisClient) (key : String) (r : Outcome String) (s : S) (j : String)
      → full_key c key ≢ j
      → view (delete_read srv c key r s).1 j ≡ view s j
  unfolding delete_read
  delete_read-other c key (value v) s j ne = send-other c _ (del_command (full_key c key)) s j ne
  delete_read-other c key absent s j ne = refl
  delete_read-other c key (failed e) s j ne = refl
  delete_read-other c key panics s j ne = refl

  get_del-other :
      (c : RedisClient) (key : String) (s : S) (j : String) (m : Mode)
      → c.mode ≡ m
      → full_key c key ≢ j
      → view (get_del srv c key s).1 j ≡ view s j
  unfolding get_del
  get_del-other c key s j (cluster addrs) e ne =
      rw (e, get_del)
        (delete_read-other c key (send srv c (get_command (full_key c key)) s).0
            (send srv c (get_command (full_key c key)) s).1 j ne
          ∙ send-other c _ (get_command (full_key c key)) s j ne)
  get_del-other c key s j (single address) e ne =
      rw (e, get_del) (send-other c _ (get_del_command (full_key c key)) s j ne)
  get_del-other c key s j uninitialized e ne = rw (e, get_del) refl

  h_set_struct-other :
      (c : RedisClient) (marshal : V → Result String) (key h : String) (v : V) (s : S) (j : String)
      → (r : Result String) → marshal v ≡ r
      → full_key c key ≢ j
      → view (h_set_struct srv c marshal key h v s).1 j ≡ view s j
  unfolding h_set_struct h_set
  h_set_struct-other c marshal key h v s j (ok x) e ne =
      rw (e, h_set_struct)
        (send-other c _ (h_set_command (full_key c key) (encoded h) (encoded x)) s j ne)
  h_set_struct-other c marshal key h v s j (err x) e ne = rw (e, h_set_struct) refl

  send_only :
      (c d : RedisClient)
      → Apart c d
      → (y key : String) (s : S) {k : Kind} (cmd : Command V F k) → key_of cmd ≡ full_key d key
      → view (send srv d cmd s).1 (full_key c y) ≡ view s (full_key c y)
  send_only c d apart y key s {k} cmd e =
      send-other d k cmd s (full_key c y) (λ p. apart y key (sym p ∙ e))

  effect-other :
      (c d : RedisClient) (marshal : V → Result String)
      → Apart c d
      → (y : String) (m : Method V F) (s : S)
      → view (effect srv marshal d m s) (full_key c y) ≡ view s (full_key c y)
  unfolding effect set get del incr set_nx expire expire_nx exists hm_set hm_set_payload hm_get
      h_set h_get h_get_all h_del h_exists h_keys h_values h_len h_set_nx h_incr_by h_incr_by_float
      h_get_struct hm_set_struct h_get_all_struct
  effect-other c d marshal apart y (set_method key v exp) s =
      send_only c d apart y key s (set_command (full_key d key) v exp) refl
  effect-other c d marshal apart y (set_nx_method key v exp) s =
      send_only c d apart y key s (set_nx_command (full_key d key) v exp) refl
  effect-other c d marshal apart y (get_method key) s =
      send_only c d apart y key s (get_command (full_key d key)) refl
  effect-other c d marshal apart y (get_del_method key) s =
      get_del-other d key s (full_key c y) d.mode refl (λ p. apart y key (sym p))
  effect-other c d marshal apart y (del_method key) s =
      send_only c d apart y key s (del_command (full_key d key)) refl
  effect-other c d marshal apart y (incr_method key) s =
      send_only c d apart y key s (incr_command (full_key d key)) refl
  effect-other c d marshal apart y (exists_method key) s =
      send_only c d apart y key s (exists_command (full_key d key)) refl
  effect-other c d marshal apart y (hm_set_method key v) s =
      send_only c d apart y key s (hm_set_command (full_key d key) (whole v)) refl
  effect-other c d marshal apart y (h_set_method key h v) s =
      send_only c d apart y key s (h_set_command (full_key d key) (given h) (given v)) refl
  effect-other c d marshal apart y (hm_get_method key h) s =
      send_only c d apart y key s (hm_get_command (full_key d key) h) refl
  effect-other c d marshal apart y (h_get_method key h) s =
      send_only c d apart y key s (h_get_command (full_key d key) h) refl
  effect-other c d marshal apart y (h_del_method key h) s =
      send_only c d apart y key s (h_del_command (full_key d key) h) refl
  effect-other c d marshal apart y (h_exists_method key h) s =
      send_only c d apart y key s (h_exists_command (full_key d key) h) refl
  effect-other c d marshal apart y (h_get_struct_method key h) s =
      send_only c d apart y key s (h_get_command (full_key d key) h) refl
  effect-other c d marshal apart y (h_get_all_method key) s =
      send_only c d apart y key s (h_get_all_command (full_key d key)) refl
  effect-other c d marshal apart y (h_keys_method key) s =
      send_only c d apart y key s (h_keys_command (full_key d key)) refl
  effect-other c d marshal apart y (h_values_method key) s =
      send_only c d apart y key s (h_vals_command (full_key d key)) refl
  effect-other c d marshal apart y (h_len_method key) s =
      send_only c d apart y key s (h_len_command (full_key d key)) refl
  effect-other c d marshal apart y (h_get_all_struct_method key) s =
      send_only c d apart y key s (h_get_all_command (full_key d key)) refl
  effect-other c d marshal apart y (expire_method key exp) s =
      send_only c d apart y key s (expire_command (full_key d key) exp) refl
  effect-other c d marshal apart y (expire_nx_method key exp) s =
      send_only c d apart y key s (expire_command (full_key d key) exp) refl
  effect-other c d marshal apart y (h_set_nx_method key h v) s =
      send_only c d apart y key s (h_set_nx_command (full_key d key) h v) refl
  effect-other c d marshal apart y (h_set_struct_method key h v) s =
      h_set_struct-other d marshal key h v s (full_key c y) (marshal v) refl
        (λ p. apart y key (sym p))
  effect-other c d marshal apart y (h_incr_by_method key h n) s =
      send_only c d apart y key s (h_incr_by_command (full_key d key) h n) refl
  effect-other c d marshal apart y (h_incr_by_float_method key h x) s =
      send_only c d apart y key s (h_incr_by_float_command (full_key d key) h x) refl
  effect-other c d marshal apart y (hm_set_struct_method key m) s =
      send_only c d apart y key s
        (hm_set_command (full_key d key) (entries (encoded_entries marshal m))) refl
  effect-other c d marshal apart y (get_all_key_by_prefix_method prefix) s =
      ap (λ (z : S). view z (full_key c y)) (get_all_key_by_prefix_state srv d prefix s d.mode refl)

  -- Whatever methods another client calls, whose keys are apart from this one's, and however they
  -- end, what the server holds under this client's keys stays.
  pub effects-other :
      (c d : RedisClient) (marshal : V → Result String)
      → Apart c d
      → (y : String) (ms : List (Method V F)) (s : S)
      → view (effects srv marshal d ms s) (full_key c y) ≡ view s (full_key c y)
  unfolding effects
  effects-other c d marshal apart y [] s = refl
  effects-other c d marshal apart y (m ∷ ms) s =
      effects-other c d marshal apart y ms (effect srv marshal d m s)
      ∙ effect-other c d marshal apart y m s
