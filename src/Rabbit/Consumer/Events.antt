-- ===== src/Rabbit/Consumer/Events.antt =====
-- What becomes of a delivery: which are acknowledged, and which go back or on.
use msa_core.Prelude.{
  ℕ, ◌≡◌, refl, ◌≢◌, ap, ◌↔◌, inl, inr, String, false, Option, none, some, List, [], ◌∷◌, ◌==◌,
  Option-cases,
}
use msa_core.Prelude.Int.{ℤ}
use msa_core.Prelude.Text.{◌+++◌, trim_space}
use msa_core.Prelude.Result.{Result, ok}
use msa_core.Context.{Context}
use msa_core.I18n.Manager.{Files}
use msa_core.Response.{ErrorResponse}
use msa_core.Rabbit.Publish.{
  Attempt, written, Sent, no_options, message_body, sent_of, publishing_of, publish,
  publish_with_options,
}
use msa_core.Rabbit.Retry.{Delivery, Action, ack, settle}
use msa_core.Rabbit.Retry.Settlement.{Settled, settle_keeps_body}
use msa_core.Rabbit.Retry.Redelivery.{delivery_of}
use msa_core.Rabbit.Consumer.{
  RabbitMqMessageBase, State, ActionHandler, BaseConsumer, internal, consume_options,
  new_rabbit_mq_message, dispatch, handle_message, handler_error, consume, publish_event_async,
}

-- the delivery decodes to a message whose action has a handler, and the handler succeeds in `t`
abbrev pub Processed :
    {S D : Type 0}
    → BaseConsumer S D
    → (String → Option (RabbitMqMessageBase D))
    → Delivery
    → State S
    → State S
    → Type 0
Processed {S = S} {D = D} b unmarshal d s t =
    (m : RabbitMqMessageBase D) × (h : ActionHandler S D) × (unmarshal d.body ≡ some m)
    × (b.handlers m.action ≡ some h)
    × (h m s ≡ (none, t))

not-Settled :
    (attempt : Attempt) (s : Sent) (done : List Action) → Settled attempt s done → done ≢ ack ∷ []
not-Settled attempt s done (inl e) h = cc
not-Settled attempt s done (inr (e, a)) h = cc

module _ {S D : Type 0} (fs : Files) (now : ℕ) (ctx : Context) (b : BaseConsumer S D)
    (unmarshal : String → Option (RabbitMqMessageBase D)) where
  internal-ne-none : (s t : State S) → internal fs now ctx s ≢ (none, t)
  internal-ne-none s t h = let e = ap (λ r. r.0) h in cc

  handle_message-Processed :
      (d : Delivery) (s t : State S)
      → handle_message fs now ctx b unmarshal d s ≡ (none, t)
      → Processed b unmarshal d s t
  unfolding handle_message dispatch
  handle_message-Processed d s t h = elim (Option-cases (unmarshal d.body)) [
    | inl broken ↦ absurd (internal-ne-none s t (rw (broken, handle_message) at h))
    | inr (m, decoded) ↦
        let dispatched = rw (decoded, handle_message) at h in
        elim (Option-cases (b.handlers m.action)) [
          | inl unsupported ↦
              absurd (internal-ne-none s t (rw (unsupported, dispatch) at dispatched))
          | inr (f, found) ↦ (m, f, decoded, found, rw (found, dispatch) at dispatched)
        ]
  ]

  Processed-handle_message :
      (d : Delivery) (s t : State S)
      → Processed b unmarshal d s t
      → handle_message fs now ctx b unmarshal d s ≡ (none, t)
  unfolding handle_message dispatch
  Processed-handle_message d s t (m, f, decoded, found, done) =
      rw (decoded, handle_message, found, dispatch) done

module _ {S D V : Type 0} (fs : Files) (now : ℕ) (ctx : Context) (marshal : V → Result String)
    (decimal : ℤ → String) (b : BaseConsumer S D)
    (unmarshal : String → Option (RabbitMqMessageBase D)) where
  failed_keeps :
      (attempt : Attempt) (fields : List (String × String)) (d : Delivery) (s : State S)
      (e : ErrorResponse)
      → (handle_message fs now ctx b unmarshal d s).0 ≡ some e
      → (sent : Sent) × (sent.publishing.body ≡ d.body)
        × Settled attempt sent (consume fs now ctx marshal decimal b unmarshal attempt fields d s).0
  unfolding consume handler_error consume_options
  failed_keeps attempt fields d s e failed =
      rw failed
        (settle_keeps_body marshal _ attempt now fields (consume_options b) b.queue_name d refl)

  -- A delivery is acknowledged with nothing published, leaving the state `t`, exactly when its body
  -- decodes to a message whose action has a handler and that handler succeeds with the state `t`.
  -- In every other case, such as an action without a handler, it is not just acknowledged.
  pub acknowledged_iff :
      (attempt : Attempt) (fields : List (String × String)) (d : Delivery) (s t : State S)
      → (consume fs now ctx marshal decimal b unmarshal attempt fields d s ≡ (ack ∷ [], t))
        ↔ Processed b unmarshal d s t
  unfolding consume settle consume_options handler_error
  acknowledged_iff attempt fields d s t = (
    λ h. elim (Option-cases (handle_message fs now ctx b unmarshal d s).0) [
      | inl none_left ↦
          let state = ap (λ r. r.1) h in
          handle_message-Processed fs now ctx b unmarshal d s t (λ i. (none_left i, state i))
      | inr (e, failed) ↦
          let (sent, _, settled) = failed_keeps attempt fields d s e failed in
          absurd (not-Settled attempt sent _ settled (ap (λ r. r.0) h))
    ],
    λ p. rw (Processed-handle_message fs now ctx b unmarshal d s t p, consume) refl,
  )

-- An event that PublishEventAsync hands to the broker, to an exchange that is not blank, goes out
-- under the key `entity_type.action`. Where it is delivered to a consumer that decodes what was
-- encoded, and that has a handler for the action, this handler gets the message as it was made; the
-- delivery is acknowledged if the handler succeeds.
pub event_dispatched :
    {S D : Type 0} (fs : Files) (now : ℕ) (ctx : Context)
    (marshal : RabbitMqMessageBase D → Result String) (decimal : ℤ → String) (b : BaseConsumer S D)
    (unmarshal : String → Option (RabbitMqMessageBase D)) (attempt : Attempt) (uuid : String)
    (fields : List (String × String)) (content : D)
    (exchange entity_id entity_type action body : String) (h : ActionHandler S D) (s t : State S)
    → (trim_space exchange == "") ≡ false
    → marshal (new_rabbit_mq_message uuid now action entity_type entity_id content) ≡ ok body
    → unmarshal body ≡ some (new_rabbit_mq_message uuid now action entity_type entity_id content)
    → b.handlers action ≡ some h
    → h (new_rabbit_mq_message uuid now action entity_type entity_id content) s ≡ (none, t)
    → (sent : Sent) × (publish_event_async marshal written uuid now fields content exchange
          entity_id entity_type action
        ≡ (none, sent ∷ []))
      × (sent.routing_key ≡ entity_type +++ ("." +++ action))
      × (consume fs now ctx marshal decimal b unmarshal attempt fields (delivery_of sent) s
          ≡ (ack ∷ [], t))
unfolding publish_event_async publish publish_with_options message_body sent_of publishing_of
    new_rabbit_mq_message
event_dispatched fs now ctx marshal decimal b unmarshal attempt uuid fields content exchange
      entity_id entity_type action body h s t named encoded decoded found handled =
    let key = entity_type +++ ("." +++ action) in
    let sent = sent_of now fields exchange key body no_options in
    (
      sent,
      rw (named, encoded, publish, publish_with_options, message_body) refl,
      refl,
      (acknowledged_iff fs now ctx marshal decimal b unmarshal attempt fields (delivery_of sent) s
            t).1
          (
            new_rabbit_mq_message uuid now action entity_type entity_id content,
            h,
            decoded,
            found,
            handled,
          ),
    )
