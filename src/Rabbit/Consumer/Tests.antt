-- ===== src/Rabbit/Consumer/Tests.antt =====
-- Runs of a consumer with one handler, which counts the messages that it gets.
use msa_core.Prelude.{
  ℕ, suc, ◌≡◌, refl, ◌↔◌, String, false, Option, none, some, [], ◌∷◌, ◌==◌, if◌then◌else◌,
}
use msa_core.Prelude.Int.{ℤ}
use msa_core.Prelude.Text.{trim_space}
use msa_core.Prelude.Result.{Result, ok}
use msa_core.Context.{background}
use msa_core.I18n.Manager.{Files}
use msa_core.Rabbit.Publish.{Sent, written}
use msa_core.Rabbit.Retry.{Delivery, ack}
use msa_core.Rabbit.Retry.Redelivery.{delivery_of}
use msa_core.Rabbit.Consumer.{
  RabbitMqMessageBase, State, ActionHandler, BaseConsumer, new_rabbit_mq_message, consume,
  publish_event_async,
}
use msa_core.Rabbit.Consumer.Events.{Processed, acknowledged_iff, event_dispatched}

abbrev no_files : Files
no_files = record {
  i18n_dir = "";
  source_dir = none;
  join = λ dir file. file;
  exists = λ path. false;
  read_file = λ path. none;
  unmarshal = λ text. none;
}

abbrev counting : ActionHandler ℕ String
counting m (n, g) = (none, (suc n, g))

abbrev created_handlers : String → Option (ActionHandler ℕ String)
created_handlers action = if action == "created" then some counting else none

abbrev orders : BaseConsumer ℕ String
orders = record {
  queue_name = "orders";
  final_dlx = "dlx";
  final_dlq = "dead";
  handlers = created_handlers;
}

abbrev order_created : RabbitMqMessageBase String
order_created = new_rabbit_mq_message "m1" 7 "created" "order" "o1" "chair"

abbrev encode : RabbitMqMessageBase String → Result String
encode m = ok "{}"

abbrev decode : String → Option (RabbitMqMessageBase String)
decode body = if body == "{}" then some order_created else none

abbrev decimal : ℤ → String
decimal n = "500"

abbrev order_delivery : Delivery
order_delivery = record {
  headers = none;
  content_type = "";
  message_id = "";
  exchange = "";
  routing_key = "orders";
  body = "{}";
}

abbrev before : State ℕ
before = (0, none)

acknowledged_iff_example :
    (consume no_files 7 background encode decimal orders decode written [] order_delivery before
      ≡ (ack ∷ [], (1, none)))
    ↔ Processed orders decode order_delivery before (1, none)
acknowledged_iff_example =
    acknowledged_iff no_files 7 background encode decimal orders decode written [] order_delivery
      before (1, none)

event_dispatched_example :
    (sent : Sent) × (publish_event_async encode written "m1" 7 [] "chair" "shop" "o1" "order"
        "created"
      ≡ (none, sent ∷ []))
    × (sent.routing_key ≡ "order.created")
    × (consume no_files 7 background encode decimal orders decode written []
          (delivery_of sent)
          before
        ≡ (ack ∷ [], (1, none)))
unfolding new_rabbit_mq_message trim_space
event_dispatched_example =
    event_dispatched no_files 7 background encode decimal orders decode written "m1" [] "chair"
      "shop" "o1" "order" "created" "{}" counting before (1, none) refl refl refl refl refl
