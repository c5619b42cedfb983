-- ===== src/Rabbit/Connection/Handles.antt =====
-- The connections that the client has made: ensureChannel, Close and NewRabbitMQClient as the steps
-- of one client, whose connection may break at any time.
use msa_core.Prelude.{
  String, ℕ, zero, suc, ◌+◌, ◌≡◌, ◌<◌, refl, ap, sym, ◌∙◌, inl, inr, true, false, Option, none,
  some, List, [], ◌∷◌, Bool-cases, arith, leb, nat_beq,
}
use msa_core.Prelude.Result.{Error, ok}
use msa_core.Rabbit.Topology.{Client, Call}
use msa_core.Rabbit.Connection.{
  Handle, Dial, no_connection, no_channel, connected, Network, Session, Lifetime, usable,
  failed_turn, swapped, next_backoff, reconnect, done_at, ensure_connection, close,
  new_rabbit_mq_client, release, release_handle, first_session,
}
use msa_core.Rabbit.Connection.Reconnect.{turn, same_session}

-- the numbers of the connection that the client holds
abbrev pub held : Option Handle → List ℕ
held none = []
held (some h) = h.number ∷ []

-- What the broker or the network closes, IsClosed says of it from then on.
abbrev pub broken : Option Handle → Option Handle
broken none = none
broken (some h) = some (record h { closed = true })

-- one step in the life of a client, by any of its callers or by the network
pub data Step : Session → Session → Type 0 where
  ensured :
      (net : Network) (ctx : Lifetime) (fuel : ℕ) (before : Session) {s t : Session}
      (e : Option Error)
      → ensure_connection net ctx fuel before s ≡ some (e, t)
      → Step s t
  channel_breaks : {s t : Session} → t ≡ record s { channel = broken s.channel } → Step s t
  connection_breaks :
      {s t : Session} → t ≡ record s { channel = broken s.channel; conn = broken s.conn } → Step s t
  later : {s t : Session} (n : ℕ) → t ≡ record s { clock = s.clock + n } → Step s t
  declared :
      {s t : Session} (c : Client) (calls : List Call)
      → t ≡ record s { client = c; calls = calls }
      → Step s t
  closed :
      {s t : Session} (show : List Error → String) (channel_end conn_end : Option Error)
      → t ≡ (close show channel_end conn_end s).1
      → Step s t

pub data Reach : Session → Type 0 where
  made : {s : Session} (d : Dial) (ms : List ℕ) → new_rabbit_mq_client d ≡ (ok s, ms) → Reach s
  next : {s t : Session} → Reach s → Step s t → Reach t

-- what holds of the client at any time: what is not closed is what it holds
abbrev NoLeak : Session → Type 0
NoLeak s = s.unclosed ≡ held s.conn

nat_beq_refl : (n : ℕ) → nat_beq n n ≡ true
nat_beq_refl n = ground arith

failed_turn-NoLeak : (net : Network) (b : ℕ) (s : Session) → NoLeak s → NoLeak (failed_turn net b s)
unfolding failed_turn
failed_turn-NoLeak net b s h =
    elim (net.dial s.dials)
      as (λ d.
        elim d [
          | no_channel e ↦ release s.dials (s.dials ∷ s.unclosed)
          | no_connection e ↦ s.unclosed
          | connected ↦ s.unclosed
        ]
        ≡ held s.conn) [
          | no_connection e ↦ h
          | no_channel e ↦ rw (nat_beq_refl s.dials) h
          | connected ↦ h
        ]

release_handle-held : (n : ℕ) (c : Option Handle) → release_handle c (n ∷ held c) ≡ n ∷ []
release_handle-held n none = refl
release_handle-held n (some h) = ground arith

swapped-NoLeak : (net : Network) (s : Session) → NoLeak s → NoLeak (swapped net s)
unfolding swapped
swapped-NoLeak net s h =
    ap (λ (ms : List ℕ). release_handle s.conn (s.dials ∷ ms)) h
    ∙ release_handle-held s.dials s.conn

NoLeak-of_eq : {s t : Session} → t ≡ s → NoLeak s → NoLeak t
NoLeak-of_eq p h = rw p h

reconnect-NoLeak :
    (net : Network) (until : ℕ) (reason : Error) (fuel b : ℕ) (s t : Session) (e : Option Error)
    → reconnect net until reason fuel b s ≡ some (e, t)
    → NoLeak s
    → NoLeak t
unfolding reconnect
reconnect-NoLeak net until reason zero b s t e h k = cc
reconnect-NoLeak net until reason (suc fuel) b s t e h k = elim (turn net until reason fuel b s) [
  | inl (_, r) ↦ NoLeak-of_eq (same_session r h).1 k
  | inr (inl (_, _, r)) ↦ NoLeak-of_eq (same_session r h).1 (swapped-NoLeak net s k)
  | inr (inr (_, r)) ↦
      reconnect-NoLeak net until reason fuel (next_backoff b) (failed_turn net b s) t e (sym r ∙ h)
        (failed_turn-NoLeak net b s k)
]

ensure_connection-NoLeak :
    (net : Network) (ctx : Lifetime) (fuel : ℕ) (before s t : Session) (e : Option Error)
    → ensure_connection net ctx fuel before s ≡ some (e, t)
    → NoLeak s
    → NoLeak t
unfolding ensure_connection
ensure_connection-NoLeak net ctx fuel before s t e h k = elim (Bool-cases (usable before)) [
  | inl open_before ↦
      NoLeak-of_eq (same_session {r = some (none, s)} refl (rw open_before at h)).1 k
  | inr broken_before ↦ elim (Bool-cases (usable s)) [
    | inl open_now ↦
        NoLeak-of_eq (same_session {r = some (none, s)} refl (rw (broken_before, open_now) at h)).1
          k
    | inr still ↦
        reconnect-NoLeak net (done_at ctx s.clock) ctx.reason fuel 100 s t e
          (rw (broken_before, still) at h) k
  ]
]

held-broken : (c : Option Handle) → held (broken c) ≡ held c
held-broken none = refl
held-broken (some h) = refl

release_all : (c : Option Handle) → release_handle c (held c) ≡ []
release_all none = refl
release_all (some h) = rw (nat_beq_refl h.number) refl

close-NoLeak :
    (show : List Error → String) (channel_end conn_end : Option Error) (s : Session)
    → NoLeak s
    → NoLeak (close show channel_end conn_end s).1
unfolding close
close-NoLeak show channel_end conn_end s h = ap (release_handle s.conn) h ∙ release_all s.conn

Step-NoLeak : {s t : Session} → Step s t → NoLeak s → NoLeak t
Step-NoLeak {s} {t} (ensured net ctx fuel before e h) k =
    ensure_connection-NoLeak net ctx fuel before s t e h k
Step-NoLeak {s} (channel_breaks p) k = NoLeak-of_eq p k
Step-NoLeak {s} (connection_breaks p) k = NoLeak-of_eq p (k ∙ sym (held-broken s.conn))
Step-NoLeak (later n p) k = NoLeak-of_eq p k
Step-NoLeak (declared c calls p) k = NoLeak-of_eq p k
Step-NoLeak {s} (closed show channel_end conn_end p) k =
    NoLeak-of_eq p (close-NoLeak show channel_end conn_end s k)

made-NoLeak :
    (d : Dial) (s : Session) (ms : List ℕ) → new_rabbit_mq_client d ≡ (ok s, ms) → NoLeak s
unfolding new_rabbit_mq_client
made-NoLeak (no_connection e) s ms h = cc
made-NoLeak (no_channel e) s ms h = cc
made-NoLeak connected s ms h = let same : s ≡ first_session = cc in NoLeak-of_eq same refl

-- A client leaks no connection: whatever its callers do, however the network behaves and whichever
-- connections break, the connections that have been made and not been closed are exactly the one
-- that the client holds, or none when it holds none.
pub Reach-unclosed : {s : Session} → Reach s → s.unclosed ≡ held s.conn
Reach-unclosed {s} (made d ms h) = made-NoLeak d s ms h
Reach-unclosed (next r st) = Step-NoLeak st (Reach-unclosed r)

-- After Close no connection is left open, but the client is not closed for good: if the broker
-- accepts the next dial and the context has not ended, the next ensureChannel connects again and
-- leaves a connection open that Close will not see.
pub close-ensure_connection :
    (net : Network) (ctx : Lifetime) (fuel : ℕ) (show : List Error → String)
    (channel_end conn_end : Option Error) {s : Session}
    → Reach s
    → net.dial s.dials ≡ connected
    → s.clock < done_at ctx s.clock
    → ((close show channel_end conn_end s).1.unclosed ≡ [])
      × (t : Session) × (ensure_connection net ctx
            (suc fuel)
            (close show channel_end conn_end s).1
            (close show channel_end conn_end s).1
          ≡ some (none, t))
      × (usable t ≡ true)
      × (t.unclosed ≡ s.dials ∷ [])
unfolding close ensure_connection reconnect usable swapped
close-ensure_connection net ctx fuel show channel_end conn_end {s} r up early =
    let none_left : (close show channel_end conn_end s).1.unclosed ≡ [] =
      close-NoLeak show channel_end conn_end s (Reach-unclosed r) in
    let now : leb (done_at ctx s.clock) s.clock ≡ false = ground arith in
    (
      none_left,
      swapped net (close show channel_end conn_end s).1,
      rw (now, up) refl,
      refl,
      ap (λ (ms : List ℕ). s.dials ∷ ms) none_left,
    )
