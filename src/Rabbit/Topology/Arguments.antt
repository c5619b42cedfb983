-- ===== src/Rabbit/Topology/Arguments.antt =====
-- The arguments that DeclareQueueWithDLX declares a queue with.
use msa_core.Prelude.{
  ◌≡◌, refl, ◌∙◌, ◌≢◌, String, Bool, true, false, some, ◌==◌, eq_iff, arith, ltb, if◌then◌else◌,
}
use msa_core.Prelude.Int.{pos, ltb_ℤ}
use msa_core.Rabbit.Table.{Table, HeaderValue, int, text, lookup, insert}
use msa_core.Rabbit.Table.Laws.{lookup-insert}
use msa_core.Rabbit.Topology.Operations.{
  QueueOptions, put_if, additional, dlx_args, max_retries_args, queue_args,
}

lookup-put_if :
    (b : Bool) (k : String) (v : HeaderValue) (t : Table) (j : String)
    → k ≢ j
    → lookup (put_if b k v t) j ≡ lookup t j
lookup-put_if true k v t j ne = lookup-insert t k v j ∙ ground (arith, eq_iff k j)
lookup-put_if false k v t j ne = refl

lookup-max_retries_args :
    (o : QueueOptions) (t : Table) (j : String)
    → "x-max-retries" ≢ j
    → lookup (max_retries_args o t) j ≡ lookup t j
lookup-max_retries_args o t j ne =
    ground (arith, lookup-insert t "x-max-retries" (int o.max_retries) j, eq_iff "x-max-retries" j)

-- a key that the limits do not use
lookup-queue_args :
    (o : QueueOptions) (j : String)
    → "x-max-retries" ≢ j
    → "x-max-priority" ≢ j
    → "x-max-length" ≢ j
    → "x-message-ttl" ≢ j
    → lookup (queue_args o) j ≡ lookup (dlx_args o (additional o.additional_args)) j
unfolding queue_args
lookup-queue_args o j a b c d =
    lookup-max_retries_args o _ j a
    ∙ (lookup-put_if (ltb 0 o.max_priority) "x-max-priority" (int (pos o.max_priority)) _ j b
        ∙ (lookup-put_if (ltb_ℤ (pos 0) o.max_length) "x-max-length" (int o.max_length) _ j c
            ∙ lookup-put_if (ltb_ℤ (pos 0) o.message_ttl) "x-message-ttl" (int o.message_ttl) _ j
                d))

dlx_exchange :
    (o : QueueOptions) (t : Table)
    → o.dlx_name ≢ ""
    → lookup (dlx_args o t) "x-dead-letter-exchange" ≡ some (text o.dlx_name)
dlx_exchange o t named =
    let set = insert t "x-dead-letter-exchange" (text o.dlx_name) in
    ground (
      arith,
      eq_iff o.dlx_name "",
      eq_iff "x-dead-letter-routing-key" "x-dead-letter-exchange",
      lookup-insert set "x-dead-letter-routing-key" (text o.dlx_routing_key)
          "x-dead-letter-exchange",
      lookup-insert t "x-dead-letter-exchange" (text o.dlx_name) "x-dead-letter-exchange",
    )

dlx_key :
    (o : QueueOptions) (t : Table)
    → o.dlx_name ≢ ""
    → lookup (dlx_args o t) "x-dead-letter-routing-key" ≡ (
        if o.dlx_routing_key == ""
        then lookup t "x-dead-letter-routing-key"
        else some (text o.dlx_routing_key))
dlx_key o t named =
    let set = insert t "x-dead-letter-exchange" (text o.dlx_name) in
    ground (
      arith,
      eq_iff o.dlx_name "",
      eq_iff "x-dead-letter-exchange" "x-dead-letter-routing-key",
      lookup-insert set "x-dead-letter-routing-key" (text o.dlx_routing_key)
          "x-dead-letter-routing-key",
      lookup-insert t "x-dead-letter-exchange" (text o.dlx_name) "x-dead-letter-routing-key",
    )

-- For options that name a dead-letter exchange the queue is declared with it. Its dead-letter
-- routing key is that of the options; if they have none it is not set, unless the additional
-- arguments set it, so a dead message keeps its own routing key.
pub queue_args_lem :
    (o : QueueOptions)
    → o.dlx_name ≢ ""
    → (lookup (queue_args o) "x-dead-letter-exchange" ≡ some (text o.dlx_name))
      × (lookup (queue_args o) "x-dead-letter-routing-key" ≡ (
          if o.dlx_routing_key == ""
          then lookup (additional o.additional_args) "x-dead-letter-routing-key"
          else some (text o.dlx_routing_key)))
queue_args_lem o named =
    let t = additional o.additional_args in
    (
      lookup-queue_args o "x-dead-letter-exchange"
            (ground (arith, eq_iff "x-max-retries" "x-dead-letter-exchange"))
            (ground (arith, eq_iff "x-max-priority" "x-dead-letter-exchange"))
            (ground (arith, eq_iff "x-max-length" "x-dead-letter-exchange"))
            (ground (arith, eq_iff "x-message-ttl" "x-dead-letter-exchange"))
          ∙ dlx_exchange o t named,
      lookup-queue_args o "x-dead-letter-routing-key"
            (ground (arith, eq_iff "x-max-retries" "x-dead-letter-routing-key"))
            (ground (arith, eq_iff "x-max-priority" "x-dead-letter-routing-key"))
            (ground (arith, eq_iff "x-max-length" "x-dead-letter-routing-key"))
            (ground (arith, eq_iff "x-message-ttl" "x-dead-letter-routing-key"))
          ∙ dlx_key o t named,
    )
