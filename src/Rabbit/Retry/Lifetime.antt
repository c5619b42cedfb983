-- ===== src/Rabbit/Retry/Lifetime.antt =====
-- The life of a message whose handler always fails.
use msa_core.Prelude.{
  ℕ, zero, suc, ◌+◌, ◌-◌, ◌≤◌, ◌<◌, ◌^◌, ◌≡◌, refl, ap, ◌∙◌, ◌≢◌, String, Bool, true, false, some,
  ◌⊎◌, List, [], ◌∷◌, ◌++◌, arith, All, length,
}
use msa_core.Prelude.Int.{pos}
use msa_core.Prelude.Result.{Error, Result}
use msa_core.Rabbit.Publish.{Attempt, written, Sent, sent_of, publishing_of}
use msa_core.Rabbit.Retry.{
  ConsumeOptions, Delivery, Action, send, ack, nack, application_failure_count, dead_letter,
  republish, decide, retry_options, retry_key, settle,
}
use msa_core.Rabbit.Retry.Headers.{Avoids}
use msa_core.Rabbit.Retry.Settlement.{dead_letter_sent, retry_sent}
use msa_core.Rabbit.Retry.Redelivery.{
  delivery_of, acked, given_back, next_delivery, drain, drain-end, drain-next, drain-given_back,
  settle-requeue, settle-dead_letter, settle-republish,
}
use msa_core.Rabbit.Retry.Counting.{
  decide_more, decide_last, decide_unparked, count-retry, retry_key-retry,
}

module _ {V : Type 0} (marshal : V → Result String) (returns : String → String → Bool)
    (failure : Delivery → Error) (now : ℕ) (fields : Delivery → List (String × String))
    (options : ConsumeOptions) (queue : String) where
  -- what a retry keeps of a delivery, beside its headers
  abbrev pub IsRetryOf : Delivery → Sent → Type 0
  IsRetryOf d s = (s.publishing.body ≡ d.body) × (s.publishing.message_id ≡ d.message_id)

  pub record Parked (d : Delivery) (n : ℕ) (log : List Action) : Type 0 where
    pub retries : List Sent
    pub last : Sent
    pub done : log ≡ acked (retries ++ last ∷ [])
    pub count : length retries + 1 ≡ n
    pub retried : All (IsRetryOf d) retries
    pub body : last.publishing.body ≡ d.body
    pub exchange : last.exchange ≡ options.final_dlx
    pub routing_key : last.routing_key ≡ options.final_dlq_routing_key

  abbrev life : ℕ → Delivery → List Action
  life = drain marshal returns failure (λ d. written) now fields options queue

  module _ (manual : options.auto_ack ≡ false)
      (avoids_count : (d : Delivery) → Avoids "x-retry-count" (fields d))
      (dlx_set : options.final_dlx ≢ "") (key_set : options.final_dlq_routing_key ≢ "")
      (parked : returns options.final_dlx options.final_dlq_routing_key ≡ false) where
    life-last :
        (f : ℕ) (d : Delivery)
        → decide options d ≡ dead_letter
        → life (suc f) d ≡ acked (dead_letter_sent now (fields d) options d ∷ [])
    unfolding next_delivery dead_letter_sent sent_of
    life-last f d q =
        drain-end marshal returns failure (λ d. written) now fields options queue f d _
          (settle-dead_letter marshal (failure d) now (fields d) options queue manual d q)
          (rw parked refl)

    life-retry :
        (f : ℕ) (d : Delivery)
        → decide options d ≡ republish
        → returns d.exchange (retry_key queue d) ≡ true
        → life (suc f) d
          ≡ send (retry_sent now (fields d) queue d)
            ∷ ack
            ∷ life f (delivery_of (retry_sent now (fields d) queue d))
    unfolding next_delivery retry_sent sent_of
    life-retry f d q back =
        drain-next marshal returns failure (λ d. written) now fields options queue f d _ _
          (settle-republish marshal (failure d) now (fields d) options queue manual d q)
          (rw back refl)

    drain_from :
        (r f k m : ℕ) (d : Delivery)
        → options.max_retries ≡ pos m
        → application_failure_count d ≡ pos k
        → k + suc r ≡ m
        → m < 2 ^ 31
        → r < f
        → returns d.exchange (retry_key queue d) ≡ true
        → Parked d (suc r) (life f d)
    unfolding dead_letter_sent retry_sent sent_of publishing_of retry_options
    drain_from r zero k m d hm hk e small lt back = elim lt [ ]
    drain_from zero (suc f) k m d hm hk e small lt back = record {
      retries = [];
      last = dead_letter_sent now (fields d) options d;
      done = life-last f d (decide_last options d k m hm hk (omega arith) small dlx_set key_set);
      count = omega arith;
      retried = tt;
      body = refl;
      exchange = refl;
      routing_key = refl;
    }
    drain_from (suc r) (suc f) k m d hm hk e small lt back =
        let s = retry_sent now (fields d) queue d in
        let rest =
          drain_from r f (k + 1) m (delivery_of s) hm
            (count-retry now (fields d) queue d k (avoids_count d) hk (omega arith)) (omega arith)
            small (omega arith)
            (ap (returns d.exchange) (retry_key-retry now (fields d) queue d) ∙ back) in
        record {
          retries = s ∷ rest.retries;
          last = rest.last;
          done =
              life-retry f d (decide_more options d k m hm hk (omega arith) small) back
              ∙ ap (λ l. send s ∷ ack ∷ l) rest.done;
          count = omega (arith, rest.count);
          retried = ((refl, refl), rest.retried);
          body = rest.body;
          exchange = rest.exchange;
          routing_key = rest.routing_key;
        }

    -- Without automatic acknowledgment, a message whose handler always fails, and that has failed
    -- `k` times before, is handled `m - k` times more for a limit `m` of MaxRetries below 2^31.
    -- For each failure but the last the same body and message id are published once more, and for the
    -- last one the same body is published to the final exchange under the dead-letter key; each
    -- publication is followed by an acknowledgment, and that is all that is done, at whatever
    -- number of further deliveries. The trace context does not set the counter's header, the
    -- dead-letter exchange and key are not empty and do not lead back to the consumer's queue, no
    -- publication reports an error, and a message that is published again comes back.
    pub poison-Parked :
        (f k m : ℕ) (d : Delivery)
        → options.max_retries ≡ pos m
        → application_failure_count d ≡ pos k
        → k < m
        → m < 2 ^ 31
        → m - k ≤ f
        → returns d.exchange (retry_key queue d) ≡ true
        → Parked d
            (m - k)
            (drain marshal returns failure (λ d. written) now fields options queue f d)
    poison-Parked f k m d hm hk lt small enough back =
        let e : m - k ≡ suc (m - k - 1) = omega arith in
        rw e (drain_from (m - k - 1) f k m d hm hk (omega arith) small (omega arith) back)

-- Without automatic acknowledgment and without a final exchange or a dead-letter key the limit
-- MaxRetries ends nothing: when the handler fails on a message that has reached it, the message is
-- given back unchanged and nothing is published, however an attempt to publish would end. While
-- the handler goes on failing, that happens at each of the deliveries, whatever their number. The
-- count of failures is below 2^31.
pub limit_without_dlq :
    {V : Type 0} (marshal : V → Result String) (returns : String → String → Bool)
    (failure : Delivery → Error) (attempt : Delivery → Attempt) (now : ℕ)
    (fields : Delivery → List (String × String)) (options : ConsumeOptions) (queue : String)
    (f k m : ℕ) (d : Delivery)
    → options.auto_ack ≡ false
    → options.max_retries ≡ pos m
    → application_failure_count d ≡ pos k
    → m ≤ k + 1
    → k + 1 < 2 ^ 31
    → (options.final_dlx ≡ "") ⊎ (options.final_dlq_routing_key ≡ "")
    → (settle marshal (some (failure d)) (attempt d) now (fields d) options queue d
        ≡ nack true ∷ [])
      × (drain marshal returns failure attempt now fields options queue f d ≡ given_back f)
limit_without_dlq marshal returns failure attempt now fields options queue f k m d manual hm hk le
      small unset =
    let once =
      settle-requeue marshal (failure d) now (fields d) options queue manual (attempt d) d
        (decide_unparked options d k m hm hk le small unset) in
    (once, drain-given_back marshal returns failure attempt now fields options queue d once f)
