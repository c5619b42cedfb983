-- ===== src/Rabbit/Retry/Redelivery.antt =====
-- What the broker delivers again while the handler fails, and what ConsumeWithOptions does each time.
use msa_core.Prelude.{
  ℕ, zero, suc, ◌≡◌, refl, ap, ◌∙◌, String, Bool, true, false, Option, none, some, List, [], ◌∷◌,
  ◌++◌, if◌then◌else◌,
}
use msa_core.Prelude.Result.{Error, Result}
use msa_core.Rabbit.Publish.{Attempt, written, Sent}
use msa_core.Rabbit.Retry.{
  ConsumeOptions, Delivery, Action, send, ack, nack, requeue, dead_letter, republish, decide,
  settle, carry_out,
}
use msa_core.Rabbit.Retry.Settlement.{
  dead_letter_sent, retry_sent, carry_out-dead_letter, carry_out-republish,
}

-- the delivery of a message that the broker was given
abbrev pub delivery_of : Sent → Delivery
delivery_of s = record {
  headers = some s.publishing.headers;
  content_type = s.publishing.content_type;
  message_id = s.publishing.message_id;
  exchange = s.exchange;
  routing_key = s.routing_key;
  body = s.publishing.body;
}

abbrev pub acked : List Sent → List Action
acked [] = []
acked (s ∷ ss) = send s ∷ ack ∷ acked ss

abbrev pub given_back : ℕ → List Action
given_back zero = []
given_back (suc f) = nack true ∷ given_back f

-- what the broker delivers to the consumer after what was done for a delivery: the delivery itself
-- when it is given back, or a message that was published to where the consumer's queue is bound
unfoldable pub next_delivery : (String → String → Bool) → Delivery → List Action → Option Delivery
next_delivery returns d [] = none
next_delivery returns d (send s ∷ rest) =
    if returns s.exchange s.routing_key then some (delivery_of s) else next_delivery returns d rest
next_delivery returns d (ack ∷ rest) = next_delivery returns d rest
next_delivery returns d (nack true ∷ rest) = some d
next_delivery returns d (nack false ∷ rest) = next_delivery returns d rest

-- The handler fails on every delivery, and each attempt to publish ends as it is given. `returns`
-- says which exchange and key lead back to the consumer's queue.
module _ {V : Type 0} (marshal : V → Result String) (returns : String → String → Bool)
    (failure : Delivery → Error) (attempt : Delivery → Attempt) (now : ℕ)
    (fields : Delivery → List (String × String)) (options : ConsumeOptions) (queue : String) where
  abbrev pub failed : Delivery → List Action
  failed d = settle marshal (some (failure d)) (attempt d) now (fields d) options queue d

  -- What is done for one delivery after another; the fuel bounds the number of deliveries.
  pub drain : ℕ → Delivery → List Action
  drain zero d = []
  drain (suc f) d =
      failed d ++ (elim (next_delivery returns d (failed d)) [ none ↦ [] | some d' ↦ drain f d' ])

  pub drain-end :
      (f : ℕ) (d : Delivery) (done : List Action)
      → failed d ≡ done
      → next_delivery returns d done ≡ none
      → drain (suc f) d ≡ done ++ []
  unfolding drain
  drain-end f d done e stop = rw (e, stop, drain)

  pub drain-next :
      (f : ℕ) (d d' : Delivery) (done : List Action)
      → failed d ≡ done
      → next_delivery returns d done ≡ some d'
      → drain (suc f) d ≡ done ++ drain f d'
  unfolding drain
  drain-next f d d' done e next = rw (e, next, drain)

  pub drain-given_back :
      (d : Delivery) → failed d ≡ nack true ∷ [] → (f : ℕ) → drain f d ≡ given_back f
  unfolding drain next_delivery
  drain-given_back d e zero = refl
  drain-given_back d e (suc f) =
      drain-next f d d (nack true ∷ []) e refl ∙ ap (λ l. nack true ∷ l) (drain-given_back d e f)

-- how a failed delivery is settled on each branch, where the broker waits for an acknowledgment
module _ {V : Type 0} (marshal : V → Result String) (e : Error) (now : ℕ)
    (fields : List (String × String)) (options : ConsumeOptions) (queue : String)
    (manual : options.auto_ack ≡ false) where
  pub settle-requeue :
      (attempt : Attempt) (d : Delivery)
      → decide options d ≡ requeue
      → settle marshal (some e) attempt now fields options queue d ≡ nack true ∷ []
  unfolding settle carry_out
  settle-requeue attempt d q = simp (manual, q)

  pub settle-dead_letter :
      (d : Delivery)
      → decide options d ≡ dead_letter
      → settle marshal (some e) written now fields options queue d
        ≡ send (dead_letter_sent now fields options d) ∷ ack ∷ []
  unfolding settle
  settle-dead_letter d q =
      simp (manual, q) (carry_out-dead_letter marshal written now fields options queue d)

  pub settle-republish :
      (d : Delivery)
      → decide options d ≡ republish
      → settle marshal (some e) written now fields options queue d
        ≡ send (retry_sent now fields queue d) ∷ ack ∷ []
  unfolding settle
  settle-republish d q =
      simp (manual, q) (carry_out-republish marshal written now fields options queue d)
