-- ===== src/Redis/Methods.antt =====
-- The interface RedisClient of pkg/infrastructure/redis/redis.go: a call of any of its methods as a
-- value, and what the call does to the server.
use msa_core.Prelude.{String, List, [], ◌∷◌}
use msa_core.Prelude.Int.{ℤ}
use msa_core.Prelude.Result.{Result}
use msa_core.Redis.{
  RedisClient, Server, given, set, get, get_del, del, incr, set_nx, expire, expire_nx, exists,
}
use msa_core.Redis.Hashes.{
  hm_set, hm_get, h_set, h_get, h_get_all, h_del, h_exists, h_keys, h_values, h_len, h_set_nx,
  h_incr_by, h_incr_by_float,
}
use msa_core.Redis.Structs.{h_set_struct, h_get_struct, hm_set_struct, h_get_all_struct}
use msa_core.Redis.Keys.{get_all_key_by_prefix}

-- all methods but Close, each with its arguments
pub data Method (V F : Type 0) : Type 0 where
  set_method set_nx_method : String → V → ℤ → Method V F
  get_method get_del_method del_method incr_method exists_method : String → Method V F
  hm_set_method : String → V → Method V F
  h_set_method : String → V → V → Method V F
  hm_get_method h_get_method h_del_method h_exists_method h_get_struct_method :
      String → String → Method V F
  h_get_all_method h_keys_method h_values_method h_len_method h_get_all_struct_method :
      String → Method V F
  expire_method expire_nx_method : String → ℤ → Method V F
  h_set_nx_method h_set_struct_method : String → String → V → Method V F
  h_incr_by_method : String → String → ℤ → Method V F
  h_incr_by_float_method : String → String → F → Method V F
  hm_set_struct_method : String → List (String × V) → Method V F
  get_all_key_by_prefix_method : String → Method V F

module _ {V F S : Type 0} (srv : Server V F S) (marshal : V → Result String) (c : RedisClient) where
  -- the server after the call
  unfoldable pub effect : Method V F → S → S
  effect (set_method key v exp) s = (set srv c key v exp s).1
  effect (set_nx_method key v exp) s = (set_nx srv c key v exp s).1
  effect (get_method key) s = (get srv c key s).1
  effect (get_del_method key) s = (get_del srv c key s).1
  effect (del_method key) s = (del srv c key s).1
  effect (incr_method key) s = (incr srv c key s).1
  effect (exists_method key) s = (exists srv c key s).1
  effect (hm_set_method key v) s = (hm_set srv c key v s).1
  effect (h_set_method key h v) s = (h_set srv c key (given h) (given v) s).1
  effect (hm_get_method key h) s = (hm_get srv c key h s).1
  effect (h_get_method key h) s = (h_get srv c key h s).1
  effect (h_del_method key h) s = (h_del srv c key h s).1
  effect (h_exists_method key h) s = (h_exists srv c key h s).1
  effect (h_get_struct_method key h) s = (h_get_struct srv c key h s).1
  effect (h_get_all_method key) s = (h_get_all srv c key s).1
  effect (h_keys_method key) s = (h_keys srv c key s).1
  effect (h_values_method key) s = (h_values srv c key s).1
  effect (h_len_method key) s = (h_len srv c key s).1
  effect (h_get_all_struct_method key) s = (h_get_all_struct srv c key s).1
  effect (expire_method key exp) s = (expire srv c key exp s).1
  effect (expire_nx_method key exp) s = (expire_nx srv c key exp s).1
  effect (h_set_nx_method key h v) s = (h_set_nx srv c key h v s).1
  effect (h_set_struct_method key h v) s = (h_set_struct srv c marshal key h v s).1
  effect (h_incr_by_method key h n) s = (h_incr_by srv c key h n s).1
  effect (h_incr_by_float_method key h x) s = (h_incr_by_float srv c key h x s).1
  effect (hm_set_struct_method key m) s = (hm_set_struct srv c marshal key m s).1
  effect (get_all_key_by_prefix_method prefix) s = (get_all_key_by_prefix srv c prefix s).1

  unfoldable pub effects : List (Method V F) → S → S
  effects [] s = s
  effects (m ∷ ms) s = effects ms (effect m s)
