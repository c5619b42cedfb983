-- ===== src/Rabbit/Connection/Abstract.antt =====
-- The connection as the operations on the topology see it: ensureChannel with its loop, against the
-- three ways that Rabbit.Topology lets it end.
use msa_core.Prelude.{
  ℕ, zero, suc, ◌+◌, ◌≡◌, refl, ap, sym, ◌∙◌, ◌⊎◌, inl, inr, Option, none, some, List, ◌++◌, take,
  Bool-cases,
}
use msa_core.Prelude.Result.{Error}
use msa_core.Rabbit.Topology.{
  Channel, opened, reconnected, unavailable, Broker, Call, World, wrapped, topology_calls,
  redeclare_topology, ensure_channel,
}
use msa_core.Rabbit.Connection.{
  Network, Session, Lifetime, usable, failed_turn, swapped, timed_out, next_backoff, reconnect,
  done_at, ensure_connection,
}
use msa_core.Rabbit.Connection.Reconnect.{turn, same_session}

-- what the other operations see of the session, after `n` calls of ensureChannel
abbrev pub world : ℕ → Session → World
world n s = record { client = s.client; attempts = n; calls = s.calls }

-- a broker for which each attempt to get a channel ends in the one way
abbrev pub always : Channel → (ℕ → List Call → Call → Option Error) → Broker
always c answer = record { channel = λ n. c; answer = answer }

-- the way in which the call has ended
abbrev Outcome : Session → Option Error → Session → Type 0
Outcome s e t =
    (t.client ≡ s.client)
    × (((x : Error) × (e ≡ some x) × (t.calls ≡ s.calls))
        ⊎ ((k : ℕ) × (e ≡ none) × (t.calls ≡ s.calls ++ take k (topology_calls s.client))))

Outcome-failed_turn :
    (net : Network) (b : ℕ) (s t : Session) (e : Option Error)
    → Outcome (failed_turn net b s) e t
    → Outcome s e t
unfolding failed_turn
Outcome-failed_turn net b s t e h = h

timeout_outcome :
    (reason : Error) (s t : Session) (e : Option Error)
    → (e ≡ some (timed_out reason)) × (t ≡ s)
    → Outcome s e t
timeout_outcome reason s t e (p, q) =
    (ap (λ (x : Session). x.client) q, inl (timed_out reason, p, ap (λ (x : Session). x.calls) q))

swapped_outcome :
    (net : Network) (s t : Session) (e : Option Error)
    → (e ≡ none) × (t ≡ swapped net s)
    → Outcome s e t
unfolding swapped
swapped_outcome net s t e (p, q) = (
  ap (λ (x : Session). x.client) q,
  inr (net.redeclared s.dials, p, ap (λ (x : Session). x.calls) q),
)

reconnect_outcome :
    (net : Network) (until : ℕ) (reason : Error) (fuel b : ℕ) (s t : Session) (e : Option Error)
    → reconnect net until reason fuel b s ≡ some (e, t)
    → Outcome s e t
unfolding reconnect
reconnect_outcome net until reason zero b s t e h = cc
reconnect_outcome net until reason (suc fuel) b s t e h = elim (turn net until reason fuel b s) [
  | inl (_, r) ↦ timeout_outcome reason s t e (same_session r h)
  | inr (inl (_, _, r)) ↦ swapped_outcome net s t e (same_session r h)
  | inr (inr (_, r)) ↦ Outcome-failed_turn net b s t e (
      reconnect_outcome net until reason fuel (next_backoff b) (failed_turn net b s) t e
        (sym r ∙ h))
]

abbrev Matched :
    (ℕ → List Call → Call → Option Error) → ℕ → Session → Option Error → Session → Type 0
Matched answer n s e t =
    (c : Channel) × (ensure_channel (always c answer) (world n s)
      ≡ (wrapped "rabbitmq channel not available" e, world (n + 1) t))

matched :
    (answer : ℕ → List Call → Call → Option Error) (n : ℕ) (s t : Session) (e : Option Error)
    → Outcome s e t
    → Matched answer n s e t
unfolding ensure_channel redeclare_topology
matched answer n s t e (c, inl (x, p, q)) = (unavailable x, rw (p, q, c) refl)
matched answer n s t e (c, inr (k, p, q)) = (reconnected k, rw (p, q, c) refl)

-- Whatever the network does, a call of ensureChannel that returns is one of the outcomes that the
-- operations on the topology are modelled with: there is one for which the abstract ensure_channel
-- gives the same error (as its callers wrap it), the same recorded topology and the same calls of
-- the broker.
pub ensure_connection-ensure_channel :
    (net : Network) (ctx : Lifetime) (fuel : ℕ) (before s t : Session) (e : Option Error)
    → (answer : ℕ → List Call → Call → Option Error) (n : ℕ)
    → ensure_connection net ctx fuel before s ≡ some (e, t)
    → (c : Channel) × (ensure_channel (always c answer) (world n s)
        ≡ (wrapped "rabbitmq channel not available" e, world (n + 1) t))
unfolding ensure_connection ensure_channel
ensure_connection-ensure_channel net ctx fuel before s t e answer n h =
    let open_channel : (e ≡ none) × (t ≡ s) → Matched answer n s e t =
      λ p. (opened, rw (p.0, p.1) refl) in
    elim (Bool-cases (usable before)) [
      | inl open_before ↦
          open_channel (same_session {r = some (none, s)} refl (rw open_before at h))
      | inr broken ↦ elim (Bool-cases (usable s)) [
        | inl open_now ↦
            open_channel (same_session {r = some (none, s)} refl (rw (broken, open_now) at h))
        | inr still ↦ matched answer n s t e (
            reconnect_outcome net (done_at ctx s.clock) ctx.reason fuel 100 s t e
              (rw (broken, still) at h))
      ]
    ]
