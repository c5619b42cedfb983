-- ===== src/Rabbit/Consumer.antt =====
-- pkg/infrastructure/rabbitmq/base_consumer.go and rabbitmq_message.go, with PublishEventAsync of
-- rabbitmq.go. The JSON decoder, the decimal form of a code, and the uuid and time of a new message
-- are arguments. A handler may change a state of its own and the global i18n manager.
pub mod Events
mod Tests
use msa_core.Prelude.{
  ℕ, String, Bool, true, false, Option, none, some, List, [], ◌∷◌, ◌==◌, if◌then◌else◌,
}
use msa_core.Prelude.Int.{ℤ, pos}
use msa_core.Prelude.Text.{◌+++◌, trim_space}
use msa_core.Prelude.Result.{Error, error, Result}
use msa_core.Context.{Context}
use msa_core.I18n.Manager.{Files, Global, translate_with_context}
use msa_core.Response.Code
use msa_core.Response.{ErrorResponse, create_error_response}
use msa_core.Rabbit.Publish.{Attempt, Sent, Message, value, publish}
use msa_core.Rabbit.Retry.{ConsumeOptions, Delivery, Action, settle}

pub record RabbitMqMessageBase (D : Type 0) : Type 0 where
  pub message_id : String
  pub action : String
  pub entity_type : String
  pub entity_id : String
  pub content : D
  pub timestamp : ℕ
  pub version : String

abbrev pub State : Type 0 → Type 0
State S = S × Global

abbrev pub ActionHandler : Type 0 → Type 0 → Type 0
ActionHandler S D = RabbitMqMessageBase D → State S → Option ErrorResponse × State S

-- `handlers` is the map of the ConsumerHandler; a nil handler and a nil map have no entry
pub record BaseConsumer (S : Type 0) (D : Type 0) : Type 0 where
  pub queue_name : String
  pub final_dlx : String
  pub final_dlq : String
  pub handlers : String → Option (ActionHandler S D)

-- the options that Start consumes with
unfoldable pub consume_options : {S D : Type 0} → BaseConsumer S D → ConsumeOptions
consume_options b = record {
  consumer = "";
  auto_ack = false;
  exclusive = false;
  no_local = false;
  no_wait = false;
  args = none;
  max_retries = pos 3;
  final_dlx = b.final_dlx;
  final_dlq_routing_key = b.final_dlq;
}

unfoldable pub new_rabbit_mq_message :
    {D : Type 0} → String → ℕ → String → String → String → D → RabbitMqMessageBase D
new_rabbit_mq_message uuid now action entity_type entity_id content = record {
  message_id = uuid;
  action = action;
  entity_type = entity_type;
  entity_id = entity_id;
  content = content;
  timestamp = now;
  version = "1.0";
}

module _ {S : Type 0} (fs : Files) (now : ℕ) (ctx : Context) where
  abbrev pub internal : State S → Option ErrorResponse × State S
  internal (s, g) =
      let (message, g') = translate_with_context fs ctx "response.error.internal" g in
      (some (create_error_response now Code.internal_error message []), (s, g'))

module _ {S D : Type 0} (fs : Files) (now : ℕ) (ctx : Context) where
  unfoldable pub dispatch :
      BaseConsumer S D → RabbitMqMessageBase D → State S → Option ErrorResponse × State S
  dispatch b m s = elim (b.handlers m.action) [ some h ↦ h m s | none ↦ internal fs now ctx s ]

  unfoldable pub handle_message :
      BaseConsumer S D
      → (String → Option (RabbitMqMessageBase D))
      → Delivery
      → State S
      → Option ErrorResponse × State S
  handle_message b unmarshal d s = elim (unmarshal d.body) [
    | none ↦ internal fs now ctx s
    | some m ↦ dispatch b m s
  ]

-- the error that Start's handler makes of an error response
unfoldable pub handler_error : (ℤ → String) → Option ErrorResponse → Option Error
handler_error decimal none = none
handler_error decimal (some e) =
    some (error ("error code: " +++ (decimal e.code +++ (", message: " +++ e.message))))

module _ {S D : Type 0} {V : Type 0} (fs : Files) (now : ℕ) (ctx : Context)
    (marshal : V → Result String) (decimal : ℤ → String) where
  -- what the consumer that Start sets up does with one delivery
  unfoldable pub consume :
      BaseConsumer S D
      → (String → Option (RabbitMqMessageBase D))
      → Attempt
      → List (String × String)
      → Delivery
      → State S
      → List Action × State S
  consume b unmarshal attempt fields d s =
      let (e, s') = handle_message fs now ctx b unmarshal d s in
      (
        settle marshal (handler_error decimal e) attempt now fields (consume_options b) b.queue_name
            d,
        s',
      )

-- `PublishEventAsync` on a client that is not nil: it waits for the goroutine that publishes
unfoldable pub publish_event_async :
    {D : Type 0}
    → (RabbitMqMessageBase D → Result String)
    → Attempt
    → String
    → ℕ
    → List (String × String)
    → D
    → String
    → String
    → String
    → String
    → Option Error × List Sent
publish_event_async marshal attempt uuid now fields content exchange entity_id entity_type action =
    if trim_space exchange == ""
    then (some (error "rabbitmq client or exchange not configured"), [])
    else publish marshal attempt now fields exchange (entity_type +++ ("." +++ action))
        (value (new_rabbit_mq_message uuid now action entity_type entity_id content))
