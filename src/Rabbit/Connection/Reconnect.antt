-- ===== src/Rabbit/Connection/Reconnect.antt =====
-- The reconnection loop ends, and after how many dials.
use msa_core.Prelude.{
  ℕ, zero, suc, ◌+◌, ◌≤◌, ◌<◌, ◌≡◌, refl, ap, sym, ◌∙◌, ◌⊎◌, inl, inr, true, false, Option, none,
  some, arith, leb, Bool-cases,
}
use msa_core.Prelude.Result.{Error}
use msa_core.Rabbit.Connection.{
  Dial, no_connection, no_channel, connected, Network, Session, usable, next_backoff, failed_turn,
  swapped, timed_out, reconnect, Lifetime, or_later, done_at, ensure_connection,
}

abbrev pub Turn : Network → ℕ → Error → ℕ → ℕ → Session → Type 0
Turn net until reason fuel backoff s =
    ((until ≤ s.clock)
      × (reconnect net until reason (suc fuel) backoff s ≡ some (some (timed_out reason), s)))
    ⊎ (((s.clock < until)
          × (net.dial s.dials ≡ connected)
          × (reconnect net until reason (suc fuel) backoff s ≡ some (none, swapped net s)))
        ⊎ ((s.clock < until)
            × (reconnect net until reason (suc fuel) backoff s
                ≡ reconnect net until reason fuel (next_backoff backoff)
                    (failed_turn net backoff s))))

dial_cases :
    (net : Network) (until : ℕ) (reason : Error) (fuel backoff : ℕ) (s : Session) (d : Dial)
    → net.dial s.dials ≡ d
    → Turn net until reason fuel backoff s
unfolding reconnect
dial_cases net until reason fuel backoff s d e = elim (Bool-cases (leb until s.clock)) [
  | inl late ↦ inl (ground arith, rw (late, reconnect) refl)
  | inr early ↦ inr (
      elim d as (λ x. net.dial s.dials ≡ x → _) [
        | connected ↦ λ q. inl (ground arith, q, rw (early, q, reconnect) refl)
        | no_channel x ↦ λ q. inr (ground arith, rw (early, q, reconnect) refl)
        | no_connection x ↦ λ q. inr (ground arith, rw (early, q, reconnect) refl)
      ]
        e)
]

pub turn :
    (net : Network) (until : ℕ) (reason : Error) (fuel backoff : ℕ) (s : Session)
    → Turn net until reason fuel backoff s
turn net until reason fuel backoff s =
    dial_cases net until reason fuel backoff s (net.dial s.dials) refl

failed_turn_clock :
    (net : Network) (b : ℕ) (s : Session) → s.clock + b ≤ (failed_turn net b s).clock
unfolding failed_turn
failed_turn_clock net b s = omega arith

-- the loop has given a channel that can be used, or has reached the end of the context
abbrev pub Ended : ℕ → Error → Option Error → Session → Type 0
Ended until reason e s =
    ((e ≡ none) × (usable s ≡ true)) ⊎ ((e ≡ some (timed_out reason)) × (until ≤ s.clock))

-- the time that the first `k` sleeps take, from one of `b` on
total_backoff : ℕ → ℕ → ℕ
total_backoff zero b = 0
total_backoff (suc k) b = b + total_backoff k (next_backoff b)

failed_turn_dials :
    (net : Network) (b : ℕ) (s : Session) → (failed_turn net b s).dials ≡ s.dials + 1
unfolding failed_turn
failed_turn_dials net b s = refl

swapped_dials : (net : Network) (s : Session) → (swapped net s).dials ≡ s.dials + 1
unfolding swapped
swapped_dials net s = refl

pub same_session :
    {r : Option (Option Error × Session)} {d e : Option Error} {s t : Session}
    → r ≡ some (d, s)
    → r ≡ some (e, t)
    → (e ≡ d) × (t ≡ s)
same_session p q = (cc, cc)

same_dials : (n : ℕ) {s t : Session} → t ≡ s → t.dials ≤ s.dials + n
same_dials n {s} {t} p =
    let same : t.dials ≡ s.dials = ap (λ (x : Session). x.dials) p in omega (arith, same)

or_later-le : (d n : ℕ) (c : Option ℕ) → d ≤ n → or_later d c ≤ n
or_later-le d n none h = h
or_later-le d n (some t) h = ground arith

reconnect_dials :
    (net : Network) (until : ℕ) (reason : Error) (k fuel b : ℕ) (s t : Session) (e : Option Error)
    → until ≤ s.clock + total_backoff k b
    → reconnect net until reason fuel b s ≡ some (e, t)
    → t.dials ≤ s.dials + k
unfolding reconnect total_backoff
reconnect_dials net until reason k zero b s t e enough h = cc
reconnect_dials net until reason zero (suc fuel) b s t e enough h =
    elim (turn net until reason fuel b s) [
      | inl (late, r) ↦ same_dials _ (same_session r h).1
      | inr (inl (early, _, r)) ↦ absurd (omega arith)
      | inr (inr (early, r)) ↦ absurd (omega arith)
    ]
reconnect_dials net until reason (suc k) (suc fuel) b s t e enough h =
    elim (turn net until reason fuel b s) [
      | inl (late, r) ↦ same_dials _ (same_session r h).1
      | inr (inl (_, _, r)) ↦
          let same : t.dials ≡ (swapped net s).dials =
            ap (λ (x : Session). x.dials) (same_session r h).1 in
          omega (arith, same, swapped_dials net s)
      | inr (inr (early, r)) ↦
          let ih =
            reconnect_dials net until reason k fuel (next_backoff b) (failed_turn net b s) t e
              (omega (arith, failed_turn_clock net b s)) (sym r ∙ h) in
          omega (arith, ih, failed_turn_dials net b s)
    ]

done_at-le :
    (ctx : Lifetime) (now : ℕ) → ctx.deadline ≡ none → done_at ctx now ≤ now + total_backoff 6 100
unfolding done_at total_backoff next_backoff
done_at-le ctx now h = rw h (or_later-le (now + 5000) (now + 6300) ctx.cancelled (omega arith))

-- With a context that has no deadline, a call of ensureChannel that returns has dialled at most six
-- times, however fast a dial fails.
pub ensure_connection-dials :
    (net : Network) (ctx : Lifetime) (fuel : ℕ) (before s t : Session) (e : Option Error)
    → ctx.deadline ≡ none
    → ensure_connection net ctx fuel before s ≡ some (e, t)
    → t.dials ≤ s.dials + 6
unfolding ensure_connection
ensure_connection-dials net ctx fuel before s t e no_deadline h =
    let until : ℕ = done_at ctx s.clock in
    let open_result : usable before ≡ true
        → ensure_connection net ctx fuel before s ≡ some (none, s) =
      λ p. rw p refl in
    let reopened_result : usable before ≡ false
        → usable s ≡ true
        → ensure_connection net ctx fuel before s ≡ some (none, s) =
      λ p q. rw (p, q) refl in
    let until_le : until ≤ s.clock + total_backoff 6 100 = done_at-le ctx s.clock no_deadline in
    elim (Bool-cases (usable before)) [
      | inl open_before ↦ same_dials 6 (same_session (open_result open_before) h).1
      | inr broken ↦ elim (Bool-cases (usable s)) [
        | inl open_now ↦ same_dials 6 (same_session (reopened_result broken open_now) h).1
        | inr still ↦
            reconnect_dials net until ctx.reason 6 fuel 100 s t e until_le (rw (broken, still) at h)
      ]
    ]
