-- ===== src/Rabbit/Publish.antt =====
-- PublishWithOptions and Publish of pkg/infrastructure/rabbitmq/rabbitmq.go. What lies outside the
-- code is an argument: the JSON encoder, the clock, the fields that the trace propagator sets, and
-- how the attempt to reach the broker ends. Spans and log lines are left out.
use msa_core.Prelude.{
  ℕ, String, Bool, true, false, Option, none, some, List, [], ◌∷◌, ◌==◌, if◌then◌else◌,
}
use msa_core.Prelude.Result.{Error, wrap, Result, ok, err}
use msa_core.Rabbit.Table.{Table, text, insert, copy, carrier_set}

pub record PublishOptions : Type 0 where
  pub mandatory : Bool
  pub immediate : Bool
  pub content_type : String
  pub headers : Option Table
  pub priority : ℕ
  pub expiration : String
  pub message_id : String
  -- `none` is the zero time
  pub timestamp : Option ℕ
  pub type : String
  pub user_id : String
  pub app_id : String

-- `PublishOptions{}`
abbrev pub no_options : PublishOptions
no_options = record {
  mandatory = false;
  immediate = false;
  content_type = "";
  headers = none;
  priority = 0;
  expiration = "";
  message_id = "";
  timestamp = none;
  type = "";
  user_id = "";
  app_id = "";
}

-- amqp091.Publishing, of which the delivery mode is always Persistent
pub record Publishing : Type 0 where
  pub content_type : String
  pub body : String
  pub persistent : Bool
  pub timestamp : ℕ
  pub headers : Table
  pub message_id : String
  pub priority : ℕ
  pub expiration : String
  pub type : String
  pub user_id : String
  pub app_id : String

-- the arguments of PublishWithContext
pub record Sent : Type 0 where
  pub exchange : String
  pub routing_key : String
  pub mandatory : Bool
  pub immediate : Bool
  pub publishing : Publishing

-- the dynamic types of a message that the code tells apart
pub data Message (V : Type 0) : Type 0 where
  bytes : String → Message V
  str : String → Message V
  value : V → Message V

-- How the attempt ends: ensureChannel fails, PublishWithContext reports an error, or it returns nil
-- after it has written the message to the connection. The channel is not in confirm mode, so whether
-- the broker keeps or routes the message is not known.
pub data Attempt : Type 0 where
  no_channel refused : Error → Attempt
  written : Attempt

-- the propagator calls `Set` of the carrier for each of its fields
unfoldable pub inject : Option Table → List (String × String) → Option Table
inject h [] = h
inject h ((k, v) ∷ fields) = inject (carrier_set h k v) fields

abbrev pub or_empty : Option Table → Table
or_empty none = []
or_empty (some t) = t

-- user headers, then the trace context, then the message id
unfoldable pub publish_headers : List (String × String) → PublishOptions → Table
publish_headers fields options =
    let carried = or_empty (inject (some (copy [] (or_empty options.headers))) fields) in
    if options.message_id == ""
    then carried
    else insert carried "x-message-id" (text options.message_id)

module _ {V : Type 0} (marshal : V → Result String) where
  unfoldable pub message_body : Message V → Result String
  message_body (bytes b) = ok b
  message_body (str s) = ok s
  message_body (value v) = elim (marshal v) [
    | ok b ↦ ok b
    | err e ↦ err (wrap "failed to marshal message" e)
  ]

abbrev or_default : String → String → String
or_default s d = if s == "" then d else s

unfoldable pub publishing_of : ℕ → List (String × String) → String → PublishOptions → Publishing
publishing_of now fields body options = record {
  content_type = or_default options.content_type "application/json";
  body = body;
  persistent = true;
  timestamp = elim options.timestamp [ none ↦ now | some t ↦ t ];
  headers = publish_headers fields options;
  message_id = options.message_id;
  priority = options.priority;
  expiration = options.expiration;
  type = options.type;
  user_id = options.user_id;
  app_id = options.app_id;
}

-- the arguments of PublishWithContext
unfoldable pub sent_of :
    ℕ → List (String × String) → String → String → String → PublishOptions → Sent
sent_of now fields exchange routing_key body options = record {
  exchange = exchange;
  routing_key = routing_key;
  mandatory = options.mandatory;
  immediate = options.immediate;
  publishing = publishing_of now fields body options;
}

-- the error that the caller sees, and what was written to the connection
abbrev pub deliver : Attempt → Sent → Option Error × List Sent
deliver (no_channel e) s = (some (wrap "rabbitmq channel not available" e), [])
deliver (refused e) s = (some (wrap "failed to publish message" e), [])
deliver written s = (none, s ∷ [])

module _ {V : Type 0} (marshal : V → Result String) where
  unfoldable pub publish_with_options :
      Attempt
      → ℕ
      → List (String × String)
      → String
      → String
      → Message V
      → PublishOptions
      → Option Error × List Sent
  publish_with_options attempt now fields exchange routing_key message options =
      elim (message_body marshal message) [
        | err e ↦ (some e, [])
        | ok body ↦ deliver attempt (sent_of now fields exchange routing_key body options)
      ]

  unfoldable pub publish :
      Attempt → ℕ → List (String × String) → String → String → Message V → Option Error × List Sent
  publish attempt now fields exchange routing_key message =
      publish_with_options attempt now fields exchange routing_key message no_options
