-- ===== src/Rabbit/Subscription/Tests.antt =====
-- A consumer whose first attempts fail: the broker is away, then Consume is refused, then two deliveries
-- come before the broker goes away again and the context ends.
use msa_core.Prelude.{◌≡◌, refl, String, true, false, Option, none, some, List, [], ◌∷◌}
use msa_core.Prelude.Int.{pos}
use msa_core.Prelude.Result.{Error, error, Result, ok}
use msa_core.Rabbit.Publish.{written}
use msa_core.Rabbit.Retry.{ConsumeOptions, Delivery, ack, nack, settle, decide, carry_out}
use msa_core.Rabbit.Subscription.{
  Handled, Turn, start, began, slept, subscribed_to, sleep, back_off, handle, handle_all,
  subscribed, with_channel, turn, consume_loop,
}
use msa_core.Rabbit.Subscription.Invariant.{IsIdle, consume_loop-IsIdle}

abbrev options : ConsumeOptions
options = record {
  consumer = "c";
  auto_ack = false;
  exclusive = false;
  no_local = false;
  no_wait = false;
  args = none;
  max_retries = pos 0;
  final_dlx = "";
  final_dlq_routing_key = "";
}

abbrev delivery : Delivery
delivery = record {
  headers = none;
  content_type = "application/json";
  message_id = "";
  exchange = "events";
  routing_key = "farm.created";
  body = "{}";
}

abbrev handled : Option Error → Handled
handled e = record { delivery = delivery; result = e; attempt = written; now = 0; fields = [] }

abbrev good : Turn
good = record {
  done = false;
  ensured = none;
  connection_open = true;
  channel_error = none;
  qos_error = none;
  consume_error = none;
  deliveries = handled none ∷ handled (some (error "failed")) ∷ [];
}

abbrev away : Turn
away = record good { ensured = some (error "away") }

abbrev refused : Turn
refused = record good { consume_error = some (error "refused") }

abbrev turns : List Turn
turns = away ∷ refused ∷ good ∷ away ∷ record good { done = true } ∷ good ∷ []

abbrev marshal : String → Result String
marshal v = ok v

consume_loop_after : consume_loop marshal options "q" turns start ≡ record {
  backoff = 400;
  opened = 2;
  closed = 2;
  events =
      slept 200
      ∷ began
      ∷ subscribed_to "q" (delivery ∷ delivery ∷ [])
      ∷ began
      ∷ slept 400
      ∷ began
      ∷ slept 200
      ∷ began
      ∷ [];
  handled = (delivery, nack true ∷ []) ∷ (delivery, ack ∷ []) ∷ [];
}
unfolding consume_loop turn with_channel subscribed handle_all handle back_off sleep settle decide
    carry_out
consume_loop_after = refl

consume_loop-IsIdle_example : IsIdle (consume_loop marshal options "q" turns start)
consume_loop-IsIdle_example = consume_loop-IsIdle marshal options "q" refl turns
