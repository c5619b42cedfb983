-- ===== src/Rabbit/Subscription.antt =====
-- The goroutine of ConsumeWithOptions of pkg/infrastructure/rabbitmq/rabbitmq.go: it subscribes, hands
-- the deliveries on until they are closed, and subscribes again. What the broker and the handler do
-- in each turn of the loop is given. Times are milliseconds.
pub mod Invariant
mod Tests
use msa_core.Prelude.{
  ℕ, ◌+◌, ◌*◌, String, Bool, true, false, not, Option, none, some, List, [], ◌∷◌, map, ltb,
  if◌then◌else◌,
}
use msa_core.Prelude.Result.{Error, Result}
use msa_core.Rabbit.Publish.{Attempt}
use msa_core.Rabbit.Retry.{ConsumeOptions, Delivery, Action, settle}

-- a delivery, and how the handler and the publication that may follow end
pub record Handled : Type 0 where
  pub delivery : Delivery
  pub result : Option Error
  pub attempt : Attempt
  pub now : ℕ
  pub fields : List (String × String)

-- One turn of the loop, as far as it comes: whether the context is done at its beginning, the error of
-- ensureChannel, whether the connection is open then, the errors of Channel, Qos and Consume, and
-- what is delivered until the deliveries are closed.
pub record Turn : Type 0 where
  pub done : Bool
  pub ensured : Option Error
  pub connection_open : Bool
  pub channel_error : Option Error
  pub qos_error : Option Error
  pub consume_error : Option Error
  pub deliveries : List Handled

-- what a turn of the loop does with the time, or with the broker; a subscription with what is
-- delivered until the deliveries are closed
pub data Event : Type 0 where
  began : Event
  slept : ℕ → Event
  subscribed_to : String → List Delivery → Event

-- the backoff, the channels opened and closed so far, and, each with the last one first, the events
-- and the deliveries with what has been done to the broker for them
pub record Loop : Type 0 where
  pub backoff : ℕ
  pub opened : ℕ
  pub closed : ℕ
  pub events : List Event
  pub handled : List (Delivery × List Action)

abbrev pub start : Loop
start = record { backoff = 200; opened = 0; closed = 0; events = []; handled = [] }

-- `time.Sleep(backoff)`
unfoldable pub sleep : Loop → Loop
sleep l = record l { events = slept l.backoff ∷ l.events }

-- and `if backoff < 2*time.Second { backoff *= 2 }`
unfoldable pub back_off : Loop → Loop
unfolding sleep
back_off l = record (sleep l) { backoff = if ltb l.backoff 2000 then l.backoff * 2 else l.backoff }

abbrev pub open_channel : Loop → Loop
open_channel l = record l { opened = l.opened + 1 }

abbrev pub close_channel : Loop → Loop
close_channel l = record l { closed = l.closed + 1 }

abbrev pub begin_turn : Loop → Loop
begin_turn l = record l { events = began ∷ l.events }

module _ {V : Type 0} (marshal : V → Result String) (options : ConsumeOptions)
    (queue : String) where
  unfoldable pub handle : Handled → Loop → Loop
  handle h l = record l {
    handled =
        (h.delivery, settle marshal h.result h.attempt h.now h.fields options queue h.delivery)
        ∷ l.handled;
  }

  unfoldable pub handle_all : List Handled → Loop → Loop
  handle_all [] l = l
  handle_all (h ∷ hs) l = handle_all hs (handle h l)

  -- from the subscription to the end of the deliveries
  unfoldable pub subscribed : Turn → Loop → Loop
  subscribed t l = close_channel (
      handle_all t.deliveries (record l {
        backoff = 200;
        events = subscribed_to queue (map (λ h. h.delivery) t.deliveries) ∷ l.events;
      }))

  -- the turn with its channel: Qos is left out when the broker acknowledges by itself
  unfoldable pub with_channel : Turn → Loop → Loop
  with_channel t l = elim (if options.auto_ack then none else t.qos_error) [
    | some e ↦ back_off (close_channel l)
    | none ↦ elim t.consume_error [ some e ↦ back_off (close_channel l) | none ↦ subscribed t l ]
  ]

  unfoldable pub turn : Turn → Loop → Loop
  turn t l = elim t.ensured [
    | some e ↦ back_off l
    | none ↦
        if not t.connection_open
        then sleep l
        else (elim t.channel_error [ some e ↦ sleep l | none ↦ with_channel t (open_channel l) ])
  ]

  -- the loop over the turns that are given; it returns when the context is done
  unfoldable pub consume_loop : List Turn → Loop → Loop
  consume_loop [] l = l
  consume_loop (t ∷ ts) l =
      let rest = consume_loop ts (turn t (begin_turn l)) in if t.done then l else rest
