-- ===== src/Rabbit/Retry/Counting.antt =====
-- How the failures of a message are counted, and which branch the count leads to.
use msa_core.Prelude.{
  ℕ, ◌+◌, ◌≤◌, ◌<◌, ◌^◌, ◌≡◌, refl, ap, ◌∙◌, ◌≢◌, String, ◌⊎◌, List, arith, eq_iff, ◌==◌,
  Bool-cases, inl, inr,
}
use msa_core.Prelude.Int.{pos, ◌+ℤ◌, add_pos}
use msa_core.Rabbit.Publish.{sent_of, publishing_of}
use msa_core.Rabbit.Retry.{
  ConsumeOptions, Delivery, to_int32, count_of, application_failure_count, requeue, dead_letter,
  republish, decide, retry_key,
}
use msa_core.Rabbit.Retry.Headers.{Avoids, retry_counter}
use msa_core.Rabbit.Retry.Settlement.{retry_sent}
use msa_core.Rabbit.Retry.Redelivery.{delivery_of}

to_int32_small : (n : ℕ) → n < 2 ^ 31 → to_int32 (pos n) ≡ pos n
unfolding to_int32
to_int32_small n h = ground arith

count_next :
    (d : Delivery) (k : ℕ)
    → application_failure_count d ≡ pos k
    → k + 1 < 2 ^ 31
    → application_failure_count d +ℤ pos 1 ≡ pos (k + 1)
count_next d k hk small = ap (λ c. c +ℤ pos 1) hk ∙ add_pos k 1 (omega arith)

pub decide_more :
    (options : ConsumeOptions) (d : Delivery) (k m : ℕ)
    → options.max_retries ≡ pos m
    → application_failure_count d ≡ pos k
    → k + 1 < m
    → m < 2 ^ 31
    → decide options d ≡ republish
unfolding decide
decide_more options d k m hm hk lt small = ground (arith, count_next d k hk (omega arith))

pub decide_last :
    (options : ConsumeOptions) (d : Delivery) (k m : ℕ)
    → options.max_retries ≡ pos m
    → application_failure_count d ≡ pos k
    → k + 1 ≡ m
    → m < 2 ^ 31
    → options.final_dlx ≢ ""
    → options.final_dlq_routing_key ≢ ""
    → decide options d ≡ dead_letter
unfolding decide
decide_last options d k m hm hk lt small nx nr = ground (
  arith,
  count_next d k hk (omega arith),
  eq_iff options.final_dlx "",
  eq_iff options.final_dlq_routing_key "",
)

pub count-retry :
    (now : ℕ) (fields : List (String × String)) (queue : String) (d : Delivery) (k : ℕ)
    → Avoids "x-retry-count" fields
    → application_failure_count d ≡ pos k
    → k + 1 < 2 ^ 31
    → application_failure_count (delivery_of (retry_sent now fields queue d)) ≡ pos (k + 1)
unfolding application_failure_count retry_sent sent_of publishing_of
count-retry now fields queue d k hc hk small =
    ap count_of (retry_counter d fields hc)
    ∙ (ap to_int32 (count_next d k hk small) ∙ to_int32_small (k + 1) small)

-- a message that was published again is published to the same place the next time
pub retry_key-retry :
    (now : ℕ) (fields : List (String × String)) (queue : String) (d : Delivery)
    → retry_key queue (delivery_of (retry_sent now fields queue d)) ≡ retry_key queue d
unfolding retry_key retry_sent sent_of
retry_key-retry now fields queue d = elim (Bool-cases (d.exchange == "")) [
  | inl e ↦ rw e refl
  | inr e ↦ rw e refl
]

pub decide_unparked :
    (options : ConsumeOptions) (d : Delivery) (k m : ℕ)
    → options.max_retries ≡ pos m
    → application_failure_count d ≡ pos k
    → m ≤ k + 1
    → k + 1 < 2 ^ 31
    → (options.final_dlx ≡ "") ⊎ (options.final_dlq_routing_key ≡ "")
    → decide options d ≡ requeue
unfolding decide
decide_unparked options d k m hm hk le small unset = ground (
  arith,
  count_next d k hk small,
  eq_iff options.final_dlx "",
  eq_iff options.final_dlq_routing_key "",
)
