-- ===== src/Rabbit/Subscription/Invariant.antt =====
-- What holds of the subscription loop at the head of each turn.
use msa_core.Prelude.{
  ℕ, ◌+◌, ◌*◌, ◌≤◌, ◌<◌, ◌≡◌, refl, ap, ◌∙◌, map, String, Bool, true, false, List, [], ◌∷◌, All,
  ltb, if◌then◌else◌, arith,
}
use msa_core.Prelude.Result.{Result}
use msa_core.Rabbit.Retry.{ConsumeOptions, Delivery, Action}
use msa_core.Rabbit.Retry.Settlement.{settlements, settle_once}
use msa_core.Rabbit.Subscription.{
  Handled, Turn, Event, began, slept, subscribed_to, Loop, start, sleep, back_off, open_channel,
  close_channel, begin_turn, handle, handle_all, subscribed, with_channel, turn, consume_loop,
}

-- Each turn that is over has slept once, for at least a fifth of a second and less than four seconds,
-- or has subscribed once, and has done nothing else of the two.
abbrev pub Alternating : List Event → Type 0
Alternating [] = Unit
Alternating (began ∷ es) = ⊥
Alternating (slept n ∷ []) = ⊥
Alternating (slept n ∷ began ∷ es) = (200 ≤ n) × (n < 4000) × Alternating es
Alternating (slept n ∷ slept m ∷ es) = ⊥
Alternating (slept n ∷ subscribed_to q ds ∷ es) = ⊥
Alternating (subscribed_to q ds ∷ []) = ⊥
Alternating (subscribed_to q ds ∷ began ∷ es) = Alternating es
Alternating (subscribed_to q ds ∷ slept m ∷ es) = ⊥
Alternating (subscribed_to q ds ∷ subscribed_to r cs ∷ es) = ⊥

abbrev pub SettledOnce : Delivery × List Action → Type 0
SettledOnce (d, done) = settlements done ≡ 1

-- the first list in reverse before the second
abbrev pub rev_onto {ℓ} : {A : Type ℓ} → List A → List A → List A
rev_onto [] ys = ys
rev_onto (x ∷ xs) ys = rev_onto xs (x ∷ ys)

-- everything that the broker has delivered, the last one first
abbrev pub delivered : List Event → List Delivery
delivered [] = []
delivered (began ∷ es) = delivered es
delivered (slept n ∷ es) = delivered es
delivered (subscribed_to q ds ∷ es) = rev_onto ds (delivered es)

abbrev pub handled_deliveries : List (Delivery × List Action) → List Delivery
handled_deliveries = map (λ (d, done). d)

-- At the head of a turn no channel is left open and the backoff is from a fifth of a second to less
-- than four seconds. What was delivered has been handed to the handler, in order and once each.
abbrev pub IsIdle : Loop → Type 0
IsIdle l =
    (l.opened ≡ l.closed)
    × (200 ≤ l.backoff)
    × (l.backoff < 4000)
    × Alternating l.events
    × All SettledOnce l.handled
    × (handled_deliveries l.handled ≡ delivered l.events)

abbrev HasBegun : List Event → Type 0
HasBegun es = (before : List Event) × (es ≡ began ∷ before) × Alternating before

-- within a turn: `channels` are open, and the turn has not slept
abbrev Busy : ℕ → Loop → Type 0
Busy channels l =
    (l.opened ≡ l.closed + channels)
    × (200 ≤ l.backoff)
    × (l.backoff < 4000)
    × HasBegun l.events
    × All SettledOnce l.handled
    × (handled_deliveries l.handled ≡ delivered l.events)

begin_turn-Busy : (l : Loop) → IsIdle l → Busy 0 (begin_turn l)
begin_turn-Busy l (balance, low, high, turns, once, all) =
    (omega arith, low, high, (l.events, refl, turns), once, all)

slept-Alternating :
    (n : ℕ) (es : List Event) → HasBegun es → 200 ≤ n → n < 4000 → Alternating (slept n ∷ es)
slept-Alternating n es (before, e, turns) low high = rw e (low, high, turns)

subscribed-Alternating :
    (queue : String) (ds : List Delivery) (es : List Event)
    → HasBegun es
    → Alternating (subscribed_to queue ds ∷ es)
subscribed-Alternating queue ds es (before, e, turns) = rw e turns

sleep-IsIdle : (l : Loop) → Busy 0 l → IsIdle (sleep l)
unfolding sleep
sleep-IsIdle l (balance, low, high, begun, once, all) =
    (omega arith, low, high, slept-Alternating l.backoff l.events begun low high, once, all)

doubled_bounds :
    (n : ℕ)
    → 200 ≤ n
    → n < 4000
    → (200 ≤ (if ltb n 2000 then n * 2 else n)) × ((if ltb n 2000 then n * 2 else n) < 4000)
doubled_bounds n low high = ground arith

back_off-IsIdle : (l : Loop) → Busy 0 l → IsIdle (back_off l)
unfolding back_off sleep
back_off-IsIdle l h =
    let (balance, low, high, turns, once, all) = sleep-IsIdle l h in
    let (low', high') = doubled_bounds l.backoff low high in
    (balance, low', high', turns, once, all)

if_IsIdle : (b : Bool) (x y : Loop) → IsIdle x → IsIdle y → IsIdle (if b then x else y)
if_IsIdle true x y p q = p
if_IsIdle false x y p q = q

open_channel-Busy : (l : Loop) → Busy 0 l → Busy 1 (open_channel l)
open_channel-Busy l (balance, low, high, begun, once, all) =
    (omega arith, low, high, begun, once, all)

close_channel-Busy : (l : Loop) → Busy 1 l → Busy 0 (close_channel l)
close_channel-Busy l (balance, low, high, begun, once, all) =
    (omega arith, low, high, begun, once, all)

module _ {V : Type 0} (marshal : V → Result String) (options : ConsumeOptions) (queue : String)
    (manual : options.auto_ack ≡ false) where
  -- while the deliveries are handled, nothing else changes
  handle_all-same :
      (hs : List Handled) (l : Loop)
      → All SettledOnce l.handled
      → (settled : List (Delivery × List Action)) × All SettledOnce settled
        × (handled_deliveries settled
            ≡ rev_onto (map (λ h. h.delivery) hs) (handled_deliveries l.handled))
        × (handle_all marshal options queue hs l ≡ record l { handled = settled })
  unfolding handle_all handle
  handle_all-same [] l once = (l.handled, once, refl, refl)
  handle_all-same (h ∷ hs) l once =
      handle_all-same hs (handle marshal options queue h l) (
        settle_once marshal h.result h.attempt h.now h.fields options queue h.delivery manual,
        once,
      )

  subscribed-IsIdle :
      (t : Turn) (l : Loop) → Busy 1 l → IsIdle (subscribed marshal options queue t l)
  unfolding subscribed
  subscribed-IsIdle t l (balance, low, high, begun, once, all) =
      let ds = map (λ (h : Handled). h.delivery) t.deliveries in
      let (settled, once', all', same) =
        handle_all-same t.deliveries
          (record l { backoff = 200; events = subscribed_to queue ds ∷ l.events }) once in
      rw same (
        omega arith,
        omega arith,
        omega arith,
        subscribed-Alternating queue ds l.events begun,
        once',
        all' ∙ ap (rev_onto ds) all,
      )

  with_channel-IsIdle :
      (t : Turn) (l : Loop) → Busy 1 l → IsIdle (with_channel marshal options queue t l)
  unfolding with_channel
  with_channel-IsIdle t l h = ground (
    arith,
    manual,
    subscribed-IsIdle t l h,
    back_off-IsIdle (close_channel l) (close_channel-Busy l h),
  )

  turn-IsIdle :
      (t : Turn) (l : Loop) → IsIdle l → IsIdle (turn marshal options queue t (begin_turn l))
  unfolding turn
  turn-IsIdle t l h =
      let busy = begin_turn-Busy l h in
      ground (
        arith,
        sleep-IsIdle (begin_turn l) busy,
        back_off-IsIdle (begin_turn l) busy,
        with_channel-IsIdle t (open_channel (begin_turn l)) (open_channel-Busy (begin_turn l) busy),
      )

  loop-IsIdle :
      (ts : List Turn) (l : Loop) → IsIdle l → IsIdle (consume_loop marshal options queue ts l)
  unfolding consume_loop
  loop-IsIdle [] l h = h
  loop-IsIdle (t ∷ ts) l h =
      if_IsIdle t.done l
        (consume_loop marshal options queue ts (turn marshal options queue t (begin_turn l))) h
        (loop-IsIdle ts (turn marshal options queue t (begin_turn l)) (turn-IsIdle t l h))

  -- The loop at the head of any turn, whatever the broker, the network and the handler have done in the
  -- turns before, for a consumer without automatic acknowledgment: every channel that it has opened is
  -- closed again; its backoff is at least a fifth of a second and less than four; each turn before
  -- has either slept, once and for a time in the same bounds, or subscribed, once; and what the
  -- broker delivered to these subscriptions has been handled, each delivery once and in order, and
  -- each has been settled exactly once.
  pub consume_loop-IsIdle : (ts : List Turn) → IsIdle (consume_loop marshal options queue ts start)
  consume_loop-IsIdle ts = loop-IsIdle ts start (refl, omega arith, omega arith, tt, tt, refl)
