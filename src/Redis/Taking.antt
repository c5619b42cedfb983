-- ===== src/Redis/Taking.antt =====
-- GetDel of pkg/infrastructure/redis/redis.go called by two at once: in a cluster it is two commands,
-- and other calls come in between.
use msa_core.Prelude.{
  ap, String, Bool, true, false, ◌&&◌, ◌||◌, ◌≡◌, refl, ◌⊎◌, inl, inr, Option, none, some, List, [],
  ◌∷◌, arith,
}
use msa_core.Prelude.Int.{ℤ}
use msa_core.Prelude.Text.{◌+++◌}
use msa_core.Redis.{
  RedisClient, Mode, cluster, single, uninitialized, Outcome, value, absent, failed, panics, text,
  number, get_command, get_del_command, del_command, Server, full_key, send, get_del, delete_read,
}

-- how far a call of GetDel has come
pub data Progress : Type 0 where
  waiting : Progress
  read : String → Progress
  finished : Outcome String → Progress

abbrev pub after_get : Outcome String → Progress
after_get (value v) = read v
after_get absent = finished absent
after_get (failed e) = finished (failed e)
after_get panics = finished panics

module _ {V F S : Type 0} (srv : Server V F S) (c : RedisClient) (key : String) where
  -- one command of the call
  unfoldable pub get_del_step : Progress → S → Progress × S
  get_del_step waiting s = elim c.mode [
    | cluster addrs ↦ let (r, s') = send srv c (get_command (full_key c key)) s in (after_get r, s')
    | single address ↦
        let (r, s') = send srv c (get_del_command (full_key c key)) s in (finished r, s')
    | uninitialized ↦ (finished panics, s)
  ]
  get_del_step (read v) s = let (r, s') = delete_read srv c key (value v) s in (finished r, s')
  get_del_step (finished r) s = (finished r, s)

  -- two calls of the same key; `true` is a step of the first
  unfoldable pub race : List Bool → Progress → Progress → S → Progress × Progress × S
  race [] a b s = (a, b, s)
  race (true ∷ turns) a b s = let (a', s') = get_del_step a s in race turns a' b s'
  race (false ∷ turns) a b s = let (b', s') = get_del_step b s in race turns a b' s'

-- What Redis documents of GET, GETDEL and DEL on texts, where `contents` is what a key holds: an
-- answer from a key that holds no text is redis.Nil.
abbrev pub answer : Option String → Outcome String
answer none = absent
answer (some v) = value v

pub record IsStore {V F S : Type 0} (srv : Server V F S) (contents : S → String → Option String)
    : Type 0 where
  pub got : (k : String) (s : S) → srv.run text (get_command k) s ≡ (answer (contents s k), s)
  pub taken :
      (k : String) (s : S)
      → ((srv.run text (get_del_command k) s).0 ≡ answer (contents s k))
        × (contents (srv.run text (get_del_command k) s).1 k ≡ none)
  pub deleted :
      (k : String) (s : S)
      → (n : ℤ) × ((srv.run number (del_command k) s).0 ≡ value n)
        × (contents (srv.run number (del_command k) s).1 k ≡ none)

abbrev pub got : Progress → Bool
got (finished (value v)) = true
got _ = false

abbrev between : Progress → Bool
between (read v) = true
between _ = false

abbrev pub made : Mode → String → RedisClient
made mode prefix = record { mode = mode; prefix = prefix }

-- between the steps of two calls on a single server
abbrev Once : {S : Type 0} → (S → Option String) → Progress → Progress → S → Type 0
Once held a b s =
    (between a ≡ false)
    × (between b ≡ false)
    × ((got a && got b) ≡ false)
    × (((got a || got b) ≡ false) ⊎ (held s ≡ none))

still_one :
    (o : Option String) (b : Progress)
    → (got b ≡ false) ⊎ (o ≡ none)
    → (got (finished (answer o)) && got b) ≡ false
still_one none b h = refl
still_one (some v) b (inl p) = p
still_one (some v) b (inr q) = cc

swap-Once :
    {S : Type 0} (held : S → Option String) (a b : Progress) (s : S)
    → Once held a b s
    → Once held b a s
swap-Once held a b s (p, q, r, inl free) = ground arith
swap-Once held a b s (p, q, r, inr gone) = ground arith

module _ {V F S : Type 0} (srv : Server V F S) (contents : S → String → Option String) where
  abbrev taken_state : String → S → S
  taken_state k s = (srv.run text (get_del_command k) s).1

  Once-step :
      (key address prefix : String) (a b : Progress) (s : S)
      → IsStore srv contents
      → Once (λ t. contents t (prefix +++ key)) a b s
      → Once
          (λ t. contents t (prefix +++ key))
          (get_del_step srv (made (single address) prefix) key a s).0
          b
          (get_del_step srv (made (single address) prefix) key a s).1
  unfolding get_del_step send
  Once-step key address prefix waiting b s store (p, q, r, free) =
      rw ((store.taken (prefix +++ key) s).0) (
        refl,
        q,
        still_one (contents s (prefix +++ key)) b free,
        inr (store.taken (prefix +++ key) s).1,
      )
  Once-step key address prefix (read v) b s store h = cc
  Once-step key address prefix (finished r) b s store h = h

  Once-race :
      (key address prefix : String) (turns : List Bool) (a b : Progress) (s : S)
      → IsStore srv contents
      → Once (λ t. contents t (prefix +++ key)) a b s
      → Once
          (λ t. contents t (prefix +++ key))
          (race srv (made (single address) prefix) key turns a b s).0
          (race srv (made (single address) prefix) key turns a b s).1
          (race srv (made (single address) prefix) key turns a b s).2
  unfolding race
  Once-race key address prefix [] a b s store h = h
  Once-race key address prefix (true ∷ turns) a b s store h =
      Once-race key address prefix turns (get_del_step srv (made (single address) prefix) key a s).0
        b (get_del_step srv (made (single address) prefix) key a s).1 store
        (Once-step key address prefix a b s store h)
  Once-race key address prefix (false ∷ turns) a b s store h =
      Once-race key address prefix turns a
        (get_del_step srv (made (single address) prefix) key b s).0
        (get_del_step srv (made (single address) prefix) key b s).1 store
        (swap-Once (λ t. contents t (prefix +++ key))
          (get_del_step srv (made (single address) prefix) key b s).0 a
          (get_del_step srv (made (single address) prefix) key b s).1
          (Once-step key address prefix b a s store
            (swap-Once (λ t. contents t (prefix +++ key)) a b s h)))

  cluster_get :
      (key prefix v : String) (addrs : List String) (s : S)
      → IsStore srv contents
      → contents s (prefix +++ key) ≡ some v
      → get_del_step srv (made (cluster addrs) prefix) key waiting s ≡ (read v, s)
  unfolding get_del_step send
  cluster_get key prefix v addrs s store h = rw (store.got (prefix +++ key) s, h) refl

  cluster_del :
      (key prefix v : String) (addrs : List String) (s : S)
      → IsStore srv contents
      → (get_del_step srv (made (cluster addrs) prefix) key (read v) s).0 ≡ finished (value v)
  unfolding get_del_step delete_read send
  cluster_del key prefix v addrs s store =
      let (n, e, _) = store.deleted (prefix +++ key) s in rw e refl

step_after_get :
    {V F S : Type 0} (srv : Server V F S) (c : RedisClient) (key : String) (r : Outcome String)
    (s : S)
    → get_del_step srv c key (after_get r) s
      ≡ (finished (delete_read srv c key r s).0, (delete_read srv c key r s).1)
unfolding get_del_step delete_read
step_after_get srv c key (value v) s = refl
step_after_get srv c key absent s = refl
step_after_get srv c key (failed e) s = refl
step_after_get srv c key panics s = refl

-- Alone, the two steps of a call are GetDel, in every mode of the client.
race-get_del :
    {V F S : Type 0} (srv : Server V F S) (mode : Mode) (prefix key : String) (s : S)
    → race srv (made mode prefix) key (true ∷ true ∷ []) waiting waiting s ≡ (
      finished (get_del srv (made mode prefix) key s).0,
      waiting,
      (get_del srv (made mode prefix) key s).1,
    )
unfolding race get_del get_del_step send
race-get_del srv (cluster addrs) prefix key s =
    let (r, s') = send srv (made (cluster addrs) prefix) (get_command (prefix +++ key)) s in
    ap (λ (p : _ × _). (p.0, waiting, p.1))
      (step_after_get srv (made (cluster addrs) prefix) key r s')
race-get_del srv (single address) prefix key s = refl
race-get_del srv uninitialized prefix key s = refl

-- On a single server GetDel is one command: however the commands of two calls of one key are ordered,
-- the two never both get a value. The server is one whose GETDEL answers with the text of the key,
-- or redis.Nil, and leaves nothing at it.
pub race_single :
    {V F S : Type 0} (srv : Server V F S) (contents : S → String → Option String)
    → IsStore srv contents
    → (key address prefix : String) (turns : List Bool) (s : S)
    → (got (race srv (made (single address) prefix) key turns waiting waiting s).0
        && got (race srv (made (single address) prefix) key turns waiting waiting s).1)
      ≡ false
race_single srv contents store key address prefix turns s =
    (Once-race srv contents key address prefix turns waiting waiting s store
      (refl, refl, refl, inl refl)).2

-- In a cluster GetDel is a Get and then a Del: when the second call's Get comes before the first
-- call's Del, both calls end with the one value that the key held. The server is one whose GET answers
-- with the text of the key and changes nothing, and whose DEL gives no error.
pub race_cluster :
    {V F S : Type 0} (srv : Server V F S) (contents : S → String → Option String)
    → IsStore srv contents
    → (key prefix v : String) (addrs : List String) (s : S) → contents s (prefix +++ key) ≡ some v
    → ((race srv
          (made (cluster addrs) prefix)
          key
          (true ∷ false ∷ true ∷ false ∷ [])
          waiting
          waiting
          s).0
        ≡ finished (value v))
      × ((race srv
            (made (cluster addrs) prefix)
            key
            (true ∷ false ∷ true ∷ false ∷ [])
            waiting
            waiting
            s).1
          ≡ finished (value v))
unfolding race
race_cluster srv contents store key prefix v addrs s h =
    let read_first = cluster_get srv contents key prefix v addrs s store h in
    rw read_first (
      rw read_first (
        cluster_del srv contents key prefix v addrs s store,
        cluster_del srv contents key prefix v addrs _ store,
      ))
