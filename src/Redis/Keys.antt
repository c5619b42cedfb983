-- ===== src/Redis/Keys.antt =====
-- GetAllKeyByPrefix and Close of pkg/infrastructure/redis/redis.go. The masters of a cluster are
-- scanned one after another, where the code scans them at once: the order of the keys is one of many.
use msa_core.Prelude.{String, Option, none, some, List, [], ◌∷◌, ◌++◌}
use msa_core.Prelude.Result.{Error, error, wrap}
use msa_core.Prelude.Text.{◌+++◌}
use msa_core.Redis.{RedisClient, cluster, single, uninitialized, Outcome, value, failed, Server, M}

-- the keys of all masters, and the first error
abbrev pub all_keys : List (List String × Option Error) → List String
all_keys [] = []
all_keys ((ks, e) ∷ ms) = ks ++ all_keys ms

abbrev pub first_error : List (List String × Option Error) → Option Error
first_error [] = none
first_error ((ks, some e) ∷ ms) = some e
first_error ((ks, none) ∷ ms) = first_error ms

abbrev pub keys_or : String → List String → Option Error → Outcome (List String)
keys_or message keys none = value keys
keys_or message keys (some e) = failed (wrap message e)

module _ {V F S : Type 0} (srv : Server V F S) (c : RedisClient) where
  -- The pattern is made of the argument alone, without the client's own prefix.
  unfoldable pub get_all_key_by_prefix : String → M S (List String)
  get_all_key_by_prefix prefix s =
      let ms : List (List String × Option Error) = srv.scans (prefix +++ ":*") s in
      elim c.mode [
        | cluster addrs ↦
            (keys_or "error scanning keys on a master node" (all_keys ms) (first_error ms), s)
        | single address ↦ (keys_or "error scanning keys" (all_keys ms) (first_error ms), s)
        | uninitialized ↦ (failed (error "redis is not initialized"), s)
      ]

  unfoldable pub close : S → Option Error × S
  close s = elim c.mode [
    | cluster addrs ↦ srv.close s
    | single address ↦ srv.close s
    | uninitialized ↦ (none, s)
  ]
