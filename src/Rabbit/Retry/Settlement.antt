-- ===== src/Rabbit/Retry/Settlement.antt =====
-- How each delivery is settled with the broker.
use msa_core.Prelude.{
  ℕ, suc, ◌≡◌, refl, ap, String, true, false, Option, none, some, List, [], ◌∷◌, ◌⊎◌, inl, inr,
}
use msa_core.Prelude.Result.{Error, Result}
use msa_core.Rabbit.Publish.{
  no_options, Attempt, no_channel, refused, written, Sent, message_body, sent_of, publishing_of,
  deliver, publish_with_options, publish,
}
use msa_core.Rabbit.Retry.{
  ConsumeOptions, Delivery, Action, send, ack, nack, Decision, requeue, dead_letter, republish,
  finish, retry_key, retry_options, decide, carry_out, settle,
}

abbrev pub settlements : List Action → ℕ
settlements [] = 0
settlements (send s ∷ rest) = settlements rest
settlements (ack ∷ rest) = suc (settlements rest)
settlements (nack r ∷ rest) = suc (settlements rest)

-- the message that a decision publishes
unfoldable pub dead_letter_sent : ℕ → List (String × String) → ConsumeOptions → Delivery → Sent
dead_letter_sent now fields options d =
    sent_of now fields options.final_dlx options.final_dlq_routing_key d.body no_options

unfoldable pub retry_sent : ℕ → List (String × String) → String → Delivery → Sent
retry_sent now fields queue d =
    sent_of now fields d.exchange (retry_key queue d) d.body (retry_options d)

abbrev pub Settled : Attempt → Sent → List Action → Type 0
Settled attempt s done =
    (done ≡ nack true ∷ []) ⊎ ((done ≡ send s ∷ ack ∷ []) × (attempt ≡ written))

finish-deliver : (attempt : Attempt) (s : Sent) → Settled attempt s (finish (deliver attempt s))
finish-deliver (no_channel e) s = inl refl
finish-deliver (refused e) s = inl refl
finish-deliver written s = inr (refl, refl)

module _ {V : Type 0} (marshal : V → Result String) where
  pub carry_out-dead_letter :
      (attempt : Attempt) (now : ℕ) (fields : List (String × String)) (options : ConsumeOptions)
      (queue : String) (d : Delivery)
      → carry_out marshal attempt now fields options queue d dead_letter
        ≡ finish (deliver attempt (dead_letter_sent now fields options d))
  unfolding carry_out publish publish_with_options message_body dead_letter_sent
  carry_out-dead_letter attempt now fields options queue d = refl

  pub carry_out-republish :
      (attempt : Attempt) (now : ℕ) (fields : List (String × String)) (options : ConsumeOptions)
      (queue : String) (d : Delivery)
      → carry_out marshal attempt now fields options queue d republish
        ≡ finish (deliver attempt (retry_sent now fields queue d))
  unfolding carry_out publish_with_options message_body retry_sent
  carry_out-republish attempt now fields options queue d = refl

  carry_out-keeps :
      (attempt : Attempt) (now : ℕ) (fields : List (String × String)) (options : ConsumeOptions)
      (queue : String) (d : Delivery) (c : Decision)
      → (s : Sent) × (s.publishing.body ≡ d.body)
        × Settled attempt s (carry_out marshal attempt now fields options queue d c)
  unfolding carry_out publish publish_with_options message_body sent_of publishing_of
  carry_out-keeps attempt now fields options queue d requeue =
      (sent_of now fields "" "" d.body no_options, refl, inl refl)
  carry_out-keeps attempt now fields options queue d dead_letter =
      (_, refl, finish-deliver attempt _)
  carry_out-keeps attempt now fields options queue d republish = (_, refl, finish-deliver attempt _)

  -- Without automatic acknowledgment, after a failure of the handler, the delivery is acknowledged
  -- only when a message with the same body has been written to the connection first, with no error
  -- from PublishWithContext; in every other case nothing is written and it is given back to the
  -- queue.
  pub settle_keeps_body :
      (e : Error) (attempt : Attempt) (now : ℕ) (fields : List (String × String))
      (options : ConsumeOptions) (queue : String) (d : Delivery)
      → options.auto_ack ≡ false
      → (s : Sent) × (s.publishing.body ≡ d.body)
        × Settled attempt s (settle marshal (some e) attempt now fields options queue d)
  unfolding settle
  settle_keeps_body e attempt now fields options queue d h =
      simp h (carry_out-keeps attempt now fields options queue d (decide options d))

  Settled-once :
      (attempt : Attempt) (s : Sent) (done : List Action)
      → Settled attempt s done
      → settlements done ≡ 1
  Settled-once attempt s done (inl e) = ap settlements e
  Settled-once attempt s done (inr (e, a)) = ap settlements e

  -- Without automatic acknowledgment each delivery is settled exactly once, by Ack or by Nack,
  -- whether the handler succeeds or fails, and however the attempt to publish the message ends.
  pub settle_once :
      (handled : Option Error) (attempt : Attempt) (now : ℕ) (fields : List (String × String))
      (options : ConsumeOptions) (queue : String) (d : Delivery)
      → options.auto_ack ≡ false
      → settlements (settle marshal handled attempt now fields options queue d) ≡ 1
  unfolding settle
  settle_once none attempt now fields options queue d h = simp h
  settle_once (some e) attempt now fields options queue d h =
      let (s, _, settled) = carry_out-keeps attempt now fields options queue d (decide options d) in
      simp h (Settled-once attempt s _ settled)
