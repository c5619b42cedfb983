-- ===== src/Rabbit/Tests.antt =====
-- Runs of the rabbitmq model at concrete messages, brokers and options.
use msa_core.Prelude.{
  ℕ, ◌≡◌, refl, String, Bool, true, false, none, some, List, [], ◌∷◌, eq_iff, arith, inl, ◌==◌,
  ◌&&◌,
}
use msa_core.Prelude.Int.{pos, ◌+ℤ◌}
use msa_core.Prelude.Result.{Error, error, Result, ok}
use msa_core.Rabbit.Table.{int32, text, other, lookup}
use msa_core.Rabbit.Publish.{Attempt, written, refused, Sent, or_empty, publish_headers}
use msa_core.Rabbit.Retry.{
  ConsumeOptions, Delivery, to_int32, application_failure_count, decide, nack, republish, retry_key,
  retry_options, settle,
}
use msa_core.Rabbit.Retry.Headers.{Avoids, retry_headers}
use msa_core.Rabbit.Retry.Settlement.{settlements, Settled, settle_keeps_body, settle_once}
use msa_core.Rabbit.Retry.Redelivery.{given_back, drain}
use msa_core.Rabbit.Retry.Lifetime.{Parked, poison-Parked, limit_without_dlq}

abbrev marshal_number : ℕ → Result String
marshal_number n = ok "0"

abbrev orders_delivery : Delivery
orders_delivery = record {
  headers =
      some (("x-retry-count", int32 (pos 1)) ∷ ("x-death", other "[]") ∷ ("tenant", text "a") ∷ []);
  content_type = "application/json";
  message_id = "m1";
  exchange = "";
  routing_key = "orders";
  body = "{}";
}

abbrev retrying : ConsumeOptions
retrying = record {
  consumer = "c";
  auto_ack = false;
  exclusive = false;
  no_local = false;
  no_wait = false;
  args = none;
  max_retries = pos 3;
  final_dlx = "dlx";
  final_dlq_routing_key = "dead";
}

abbrev without_dlq : ConsumeOptions
without_dlq = record retrying { max_retries = pos 2; final_dlx = "" }

abbrev trace_fields : List (String × String)
trace_fields = ("traceparent", "00-1") ∷ []

trace-Avoids-count : Avoids "x-retry-count" trace_fields
trace-Avoids-count = (ground (arith, eq_iff "traceparent" "x-retry-count"), tt)

trace-Avoids-death : Avoids "x-death" trace_fields
trace-Avoids-death = (ground (arith, eq_iff "traceparent" "x-death"), tt)

trace-Avoids-tenant : Avoids "tenant" trace_fields
trace-Avoids-tenant = (ground (arith, eq_iff "traceparent" "tenant"), tt)

-- the second failure of a message with a limit of three goes back to the consumer's queue
second_failure : decide retrying orders_delivery ≡ republish
unfolding decide application_failure_count lookup ◌+ℤ◌
second_failure = refl

retry_headers_example :
    (lookup (publish_headers trace_fields (retry_options orders_delivery)) "x-retry-count"
      ≡ some (int32 (to_int32 (application_failure_count orders_delivery +ℤ pos 1))))
    × (lookup (publish_headers trace_fields (retry_options orders_delivery)) "x-death" ≡ none)
    × (lookup (publish_headers trace_fields (retry_options orders_delivery)) "tenant"
        ≡ lookup (or_empty orders_delivery.headers) "tenant")
retry_headers_example =
    retry_headers orders_delivery trace_fields "tenant" trace-Avoids-count trace-Avoids-death
      trace-Avoids-tenant (ground (arith, eq_iff "tenant" "x-retry-count"))
      (ground (arith, eq_iff "tenant" "x-death")) (ground (arith, eq_iff "tenant" "x-message-id"))

settle_once_example :
    settlements (
      settle marshal_number
        (some (error "boom"))
        written
        7
        trace_fields
        retrying
        "orders"
        orders_delivery)
    ≡ 1
settle_once_example =
    settle_once marshal_number (some (error "boom")) written 7 trace_fields retrying "orders"
      orders_delivery refl

settle_keeps_body_example :
    (s : Sent) × (s.publishing.body ≡ "{}")
    × Settled (refused (error "closed")) s (
        settle marshal_number
          (some (error "boom"))
          (refused (error "closed"))
          7
          trace_fields
          retrying
          "orders"
          orders_delivery)
settle_keeps_body_example =
    settle_keeps_body marshal_number (error "boom") (refused (error "closed")) 7 trace_fields
      retrying "orders" orders_delivery refl

first_failure : application_failure_count orders_delivery ≡ pos 1
unfolding application_failure_count lookup
first_failure = refl

-- the default exchange leads to the queue of the key
abbrev to_orders : String → String → Bool
to_orders exchange routing_key = exchange == "" && routing_key == "orders"

abbrev boom : Delivery → Error
boom d = error "boom"

poison-Parked_example :
    Parked marshal_number to_orders boom 7
      (λ d. trace_fields)
      retrying
      "orders"
      orders_delivery
      2
      (drain marshal_number to_orders boom
        (λ d. written)
        7
        (λ d. trace_fields)
        retrying
        "orders"
        5
        orders_delivery)
unfolding retry_key
poison-Parked_example =
    poison-Parked marshal_number to_orders boom 7 (λ d. trace_fields) retrying "orders" refl
      (λ d. trace-Avoids-count) (ground (arith, eq_iff "dlx" "")) (ground (arith, eq_iff "dead" ""))
      refl 5 1 3 orders_delivery refl first_failure (omega arith) (omega arith) (omega arith) refl

-- every publication is refused
abbrev down : Delivery → Attempt
down d = refused (error "closed")

limit_without_dlq_example :
    (settle marshal_number
        (some (boom orders_delivery))
        (down orders_delivery)
        7
        trace_fields
        without_dlq
        "orders"
        orders_delivery
      ≡ nack true ∷ [])
    × (drain marshal_number to_orders boom down 7
          (λ d. trace_fields)
          without_dlq
          "orders"
          5
          orders_delivery
        ≡ given_back 5)
limit_without_dlq_example =
    limit_without_dlq marshal_number to_orders boom down 7 (λ d. trace_fields) without_dlq "orders"
      5 1 2 orders_delivery refl refl first_failure (omega arith) (omega arith) (inl refl)
