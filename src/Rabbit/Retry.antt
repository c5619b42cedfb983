-- ===== src/Rabbit/Retry.antt =====
-- What ConsumeWithOptions of pkg/infrastructure/rabbitmq/rabbitmq.go does with one delivery, and
-- its helpers applicationFailureCount and cloneHeadersWithRetryCount.
pub mod Headers
pub mod Settlement
pub mod Redelivery
pub mod Counting
pub mod Lifetime
use msa_core.Prelude.{
  ℕ, ◌-◌, ◌%◌, ◌^◌, String, Bool, true, Option, none, some, List, [], ◌∷◌, ◌++◌, ◌==◌, ◌||◌, ltb,
  if◌then◌else◌,
}
use msa_core.Prelude.Int.{ℤ, pos, negsuc, ◌+ℤ◌, leb_ℤ}
use msa_core.Prelude.Result.{Error, Result}
use msa_core.Rabbit.Table.{
  Table, HeaderValue, int, int32, int64, float64, truncate, lookup, insert, delete, copy,
}
use msa_core.Rabbit.Publish.{
  PublishOptions, no_options, Sent, bytes, Attempt, publish_with_options, publish,
}

pub record ConsumeOptions : Type 0 where
  pub consumer : String
  pub auto_ack : Bool
  pub exclusive : Bool
  pub no_local : Bool
  pub no_wait : Bool
  pub args : Option Table
  pub max_retries : ℤ
  pub final_dlx : String
  pub final_dlq_routing_key : String

-- amqp091.Delivery, as far as it is read
pub record Delivery : Type 0 where
  pub headers : Option Table
  pub content_type : String
  pub message_id : String
  pub exchange : String
  pub routing_key : String
  pub body : String

-- `int32(n)`
pub to_int32 : ℤ → ℤ
to_int32 (pos n) =
    if ltb (n % 2 ^ 32) (2 ^ 31) then pos (n % 2 ^ 32) else negsuc (2 ^ 32 - n % 2 ^ 32 - 1)
to_int32 (negsuc n) =
    if ltb (n % 2 ^ 32) (2 ^ 31) then negsuc (n % 2 ^ 32) else pos (2 ^ 32 - n % 2 ^ 32 - 1)

-- `maps.Clone`, and an empty map for nil
abbrev pub clone_or_empty : Option Table → Table
clone_or_empty none = []
clone_or_empty (some t) = copy [] t

unfoldable pub clone_headers_with_retry_count : Option Table → ℤ → Table
clone_headers_with_retry_count headers retry_count =
    insert (delete (clone_or_empty headers) "x-death") "x-retry-count"
      (int32 (to_int32 retry_count))

abbrev pub count_of : Option HeaderValue → ℤ
count_of (some (int v)) = v
count_of (some (int32 v)) = v
count_of (some (int64 v)) = v
count_of (some (float64 v)) = truncate v
count_of _ = pos 0

unfoldable pub application_failure_count : Delivery → ℤ
application_failure_count d = elim d.headers [
  | none ↦ pos 0
  | some t ↦ count_of (lookup t "x-retry-count")
]

-- what the consumer does to the broker, in order; `ack` and `nack` are for this delivery alone
pub data Action : Type 0 where
  send : Sent → Action
  ack : Action
  nack : Bool → Action

-- The branch that a failed delivery takes when the broker waits for an acknowledgment.
pub data Decision : Type 0 where
  requeue dead_letter republish : Decision

unfoldable pub decide : ConsumeOptions → Delivery → Decision
decide options d =
    if leb_ℤ options.max_retries (pos 0)
    then requeue
    else if leb_ℤ options.max_retries (application_failure_count d +ℤ pos 1)
    then (if options.final_dlx == "" || options.final_dlq_routing_key == ""
        then requeue
        else dead_letter)
    else republish

-- the options of a message that is published again
unfoldable pub retry_options : Delivery → PublishOptions
retry_options d = record no_options {
  headers = some (clone_headers_with_retry_count d.headers (application_failure_count d +ℤ pos 1));
  content_type = d.content_type;
  message_id = d.message_id;
}

-- through the default exchange a message goes to the queue of its routing key
unfoldable pub retry_key : String → Delivery → String
retry_key queue d = if d.exchange == "" then queue else d.routing_key

abbrev pub sends : List Sent → List Action
sends [] = []
sends (s ∷ ss) = send s ∷ sends ss

-- after a publication: Ack if it reported no error, or else give the delivery back
abbrev pub finish : Option Error × List Sent → List Action
finish (none, sent) = sends sent ++ ack ∷ []
finish (some e, sent) = nack true ∷ []

module _ {V : Type 0} (marshal : V → Result String) where
  unfoldable pub carry_out :
      Attempt
      → ℕ
      → List (String × String)
      → ConsumeOptions
      → String
      → Delivery
      → Decision
      → List Action
  carry_out attempt now fields options queue d requeue = nack true ∷ []
  carry_out attempt now fields options queue d dead_letter = finish (
      publish marshal attempt now fields options.final_dlx options.final_dlq_routing_key
        (bytes d.body))
  carry_out attempt now fields options queue d republish = finish (
      publish_with_options marshal attempt now fields d.exchange (retry_key queue d) (bytes d.body)
        (retry_options d))

  -- The handler has ended: `none` is success. An automatic acknowledgment leaves nothing to do.
  unfoldable pub settle :
      Option Error
      → Attempt
      → ℕ
      → List (String × String)
      → ConsumeOptions
      → String
      → Delivery
      → List Action
  settle none attempt now fields options queue d = if options.auto_ack then [] else ack ∷ []
  settle (some e) attempt now fields options queue d =
      if options.auto_ack
      then []
      else carry_out attempt now fields options queue d (decide options d)
