-- ===== src/Redis.antt =====
-- The client of pkg/infrastructure/redis/redis.go: its modes, the prefix that it puts before each
-- key, and the operations on plain keys. The server with go-redis before it is a parameter: what it
-- answers to each command, over a state of any type. Tracing is left aside.
pub mod Hashes
pub mod Structs
pub mod Keys
pub mod Methods
pub mod Isolation
pub mod Taking
mod Tests
use msa_core.Prelude.{
  ℕ, String, Bool, true, false, Option, none, some, List, [], ◌∷◌, ◌==◌, if◌then◌else◌,
}
use msa_core.Prelude.Int.{ℤ, pos, leb_ℤ}
use msa_core.Prelude.Result.{Error}
use msa_core.Prelude.Text.{◌+++◌, split, trim_space}

pub data Mode : Type 0 where
  cluster : List String → Mode
  single : String → Mode
  uninitialized : Mode

pub record RedisClient : Type 0 where
  pub mode : Mode
  pub prefix : String

-- the addresses between the commas that are not blank
abbrev pub trimmed : List String → List String
trimmed [] = []
trimmed (p ∷ ps) = if trim_space p == "" then trimmed ps else trim_space p ∷ trimmed ps

abbrev or_single : String → List String → Mode
or_single address [] = if trim_space address == "" then uninitialized else single address
or_single address (a ∷ addrs) = cluster (a ∷ addrs)

-- `NewRedisClient`; a blank `clusterEnv` has no addresses
unfoldable pub new_redis_client : String → String → String → RedisClient
new_redis_client cluster_env address prefix = record {
  mode =
      or_single address
        (if trim_space cluster_env == "" then [] else trimmed (split b',' cluster_env));
  prefix = if prefix == "" then "" else prefix +++ ":";
}

-- How a call ends: with a value, with redis.Nil, with another error, or by a panic.
pub data Outcome {ℓ} (A : Type ℓ) : Type ℓ where
  value : A → Outcome A
  absent : Outcome A
  failed : Error → Outcome A
  panics : Outcome A

abbrev pub then_value : {A B : Type 0} → (A → Outcome B) → Outcome A → Outcome B
then_value f (value a) = f a
then_value f absent = absent
then_value f (failed e) = failed e
then_value f panics = panics

-- what a command answers with
pub data Kind : Type 0 where
  status text number flag float texts fields columns : Kind

-- `F` is float64
abbrev pub Val : Type 0 → Kind → Type 0
Val F status = Unit {0}
Val F text = String
Val F number = ℤ
Val F flag = Bool
Val F float = F
Val F texts = List String
Val F fields = List (String × String)
Val F columns = List (Option String)

-- an argument of type `any`: the caller's, of type `V`, or a text that the client has made
pub data Argument (V : Type 0) : Type 0 where
  given : V → Argument V
  encoded : String → Argument V

-- the argument of HMSet: the caller's, or a map that the client has made
pub data Payload (V : Type 0) : Type 0 where
  whole : V → Payload V
  entries : List (String × Argument V) → Payload V

-- the commands that the client sends, each with its full key; times are nanoseconds
pub data Command (V F : Type 0) : Kind → Type 0 where
  set_command : String → V → ℤ → Command V F status
  get_command get_del_command : String → Command V F text
  del_command incr_command exists_command h_len_command : String → Command V F number
  set_nx_command : String → V → ℤ → Command V F flag
  expire_command : String → ℤ → Command V F flag
  hm_set_command : String → Payload V → Command V F flag
  hm_get_command : String → String → Command V F columns
  h_set_command : String → Argument V → Argument V → Command V F number
  h_get_command : String → String → Command V F text
  h_get_all_command : String → Command V F fields
  h_del_command : String → String → Command V F number
  h_exists_command : String → String → Command V F flag
  h_keys_command h_vals_command : String → Command V F texts
  h_set_nx_command : String → String → V → Command V F flag
  h_incr_by_command : String → String → ℤ → Command V F number
  h_incr_by_float_command : String → String → F → Command V F float

-- `scans` has, for a pattern, the keys that each master's iterator goes through and the error that
-- it ends with; a single server is one master.
pub record Server (V F S : Type 0) : Type 0 where
  pub run : (k : Kind) → Command V F k → S → Outcome (Val F k) × S
  pub scans : String → S → List (List String × Option Error)
  pub close : S → Option Error × S

abbrev pub M : Type 0 → Type 0 → Type 0
M S A = S → Outcome A × S

abbrev pub mapped : {S A B : Type 0} → (Outcome A → Outcome B) → M S A → M S B
mapped f m s = let (r, s') = m s in (f r, s')

abbrev pub full_key : RedisClient → String → String
full_key c key = c.prefix +++ key

abbrev pub ignored : {A : Type 0} → A → Outcome (Unit {0})
ignored a = value tt

abbrev pub is_positive : ℤ → Outcome Bool
is_positive n = value (if leb_ℤ n (pos 0) then false else true)

module _ {V F S : Type 0} (srv : Server V F S) (c : RedisClient) where
  -- A command through getClient: a client that has not been made is a nil pointer.
  unfoldable pub send : {k : Kind} → Command V F k → M S (Val F k)
  send {k} cmd s = elim c.mode [
    | cluster addrs ↦ srv.run k cmd s
    | single address ↦ srv.run k cmd s
    | uninitialized ↦ (panics, s)
  ]

  unfoldable pub set : String → V → ℤ → M S (Unit {0})
  set key val exp = send (set_command (full_key c key) val exp)

  unfoldable pub get : String → M S String
  get key = send (get_command (full_key c key))

  -- after the cluster's Get: the value is given only if Del has no error
  unfoldable pub delete_read : String → Outcome String → M S String
  delete_read key (value v) s =
      mapped (then_value (λ n. value v)) (send (del_command (full_key c key))) s
  delete_read key absent s = (absent, s)
  delete_read key (failed e) s = (failed e, s)
  delete_read key panics s = (panics, s)

  -- In a cluster GetDel is two commands.
  unfoldable pub get_del : String → M S String
  get_del key s = elim c.mode [
    | cluster addrs ↦ let (r, s') = send (get_command (full_key c key)) s in delete_read key r s'
    | single address ↦ send (get_del_command (full_key c key)) s
    | uninitialized ↦ (panics, s)
  ]

  unfoldable pub del : String → M S (Unit {0})
  del key = mapped (then_value ignored) (send (del_command (full_key c key)))

  unfoldable pub incr : String → M S ℤ
  incr key = send (incr_command (full_key c key))

  unfoldable pub set_nx : String → V → ℤ → M S Bool
  set_nx key val exp = send (set_nx_command (full_key c key) val exp)

  unfoldable pub expire : String → ℤ → M S (Unit {0})
  expire key exp = mapped (then_value ignored) (send (expire_command (full_key c key) exp))

  -- the plain EXPIRE, without NX
  unfoldable pub expire_nx : String → ℤ → M S Bool
  expire_nx key exp = send (expire_command (full_key c key) exp)

  unfoldable pub exists : String → M S Bool
  exists key = mapped (then_value is_positive) (send (exists_command (full_key c key)))
