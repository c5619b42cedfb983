-- ===== src/Rabbit/Topology/Operations.antt =====
-- DeclareQueue, DeclareExchange, BindQueue, DeclareQueueWithDLX, DeclareDLX, DeclareDLQ and
-- SetupDLXForQueue of pkg/infrastructure/rabbitmq/rabbitmq.go.
use msa_core.Prelude.{
  ℕ, String, Bool, true, false, Option, none, some, [], ◌==◌, ltb, if◌then◌else◌, is_some,
}
use msa_core.Prelude.Int.{ℤ, pos, ltb_ℤ}
use msa_core.Rabbit.Table.{Table, HeaderValue, int, text, lookup, insert, copy}
use msa_core.Rabbit.Topology.{
  ExchangeDecl, QueueDecl, QueueBindDecl, declare_exchange_call, declare_queue_call,
  declare_passive_call, bind_queue_call, delete_queue_call, Broker, M, ◌>>◌, within, ensure_channel,
  call, on_client, record_queue, record_exchange, record_binding,
}

pub record DlxOptions : Type 0 where
  pub kind : String
  pub durable : Bool
  pub auto_delete : Bool
  pub internal : Bool
  pub no_wait : Bool
  pub args : Option Table

pub record DlqOptions : Type 0 where
  pub durable : Bool
  pub auto_delete : Bool
  pub exclusive : Bool
  pub no_wait : Bool
  pub args : Option Table

pub record QueueOptions : Type 0 where
  pub durable : Bool
  pub auto_delete : Bool
  pub exclusive : Bool
  pub no_wait : Bool
  pub dlx_name : String
  pub dlx_routing_key : String
  pub max_retries : ℤ
  pub message_ttl : ℤ
  pub max_length : ℤ
  pub max_priority : ℕ
  pub additional_args : Option Table

module _ (b : Broker) where
  unfoldable pub declare_queue : QueueDecl → M
  declare_queue q =
      ensure_channel b
      >> on_client (record_queue q)
      >> within "failed to declare queue" (call b (declare_queue_call q))

  unfoldable pub declare_exchange : ExchangeDecl → M
  declare_exchange x =
      ensure_channel b
      >> on_client (record_exchange x)
      >> within "failed to declare exchange" (call b (declare_exchange_call x))

  unfoldable pub bind_queue : QueueBindDecl → M
  bind_queue q =
      ensure_channel b
      >> on_client (record_binding q)
      >> within "failed to bind queue" (call b (bind_queue_call q))

-- `if cond { args[key] = value }`
abbrev pub put_if : Bool → String → HeaderValue → Table → Table
put_if test key v t = if test then insert t key v else t

abbrev pub additional : Option Table → Table
additional none = []
additional (some t) = copy [] t

abbrev pub is_set : String → Bool
is_set s = if s == "" then false else true

-- the routing key is set only together with the exchange
abbrev pub dlx_args : QueueOptions → Table → Table
dlx_args o t =
    if is_set o.dlx_name
    then put_if (is_set o.dlx_routing_key) "x-dead-letter-routing-key" (text o.dlx_routing_key)
        (insert t "x-dead-letter-exchange" (text o.dlx_name))
    else t

-- a value that the caller gave for x-max-retries stays
abbrev pub max_retries_args : QueueOptions → Table → Table
max_retries_args o t =
    if ltb_ℤ (pos 0) o.max_retries
    then (if is_some (lookup t "x-max-retries")
        then t
        else insert t "x-max-retries" (int o.max_retries))
    else t

-- the priority, a uint8, is kept as its number
unfoldable pub queue_args : QueueOptions → Table
queue_args o = max_retries_args o (
    put_if (ltb 0 o.max_priority) "x-max-priority" (int (pos o.max_priority)) (
      put_if (ltb_ℤ (pos 0) o.max_length) "x-max-length" (int o.max_length) (
        put_if (ltb_ℤ (pos 0) o.message_ttl) "x-message-ttl" (int o.message_ttl)
          (dlx_args o (additional o.additional_args)))))

-- the queue that is declared once more, with its dead-letter arguments
abbrev pub queue_with_dlx : String → String → String → DlxOptions → QueueDecl
queue_with_dlx queue dlx_name dlq_name o = record {
  name = queue;
  durable = o.durable;
  auto_delete = false;
  exclusive = false;
  no_wait = false;
  args = some (
      insert (insert [] "x-dead-letter-exchange" (text dlx_name)) "x-dead-letter-routing-key"
        (text dlq_name));
}

module _ (b : Broker) where
  unfoldable pub declare_queue_with_dlx : String → QueueOptions → M
  declare_queue_with_dlx queue o =
      ensure_channel b
      >> within "failed to declare queue with DLX" (
          call b (
            declare_queue_call (record {
              name = queue;
              durable = o.durable;
              auto_delete = o.auto_delete;
              exclusive = o.exclusive;
              no_wait = o.no_wait;
              args = some (queue_args o);
            })))

  unfoldable pub declare_dlx : String → DlxOptions → M
  declare_dlx dlx_name o =
      ensure_channel b
      >> within "failed to declare DLX" (
          call b (
            declare_exchange_call (record {
              name = dlx_name;
              kind = if o.kind == "" then "direct" else o.kind;
              durable = o.durable;
              auto_delete = o.auto_delete;
              internal = o.internal;
              no_wait = o.no_wait;
              args = o.args;
            })))

  -- the queue is bound under its own name
  unfoldable pub declare_dlq : String → String → DlqOptions → M
  declare_dlq dlq_name dlx_name o =
      ensure_channel b
      >> within "failed to declare DLQ" (
          call b (
            declare_queue_call (record {
              name = dlq_name;
              durable = o.durable;
              auto_delete = o.auto_delete;
              exclusive = o.exclusive;
              no_wait = o.no_wait;
              args = o.args;
            })))
      >> within "failed to bind DLQ to DLX" (
          call b (
            bind_queue_call (record {
              queue = dlq_name;
              routing_key = dlq_name;
              exchange = dlx_name;
              no_wait = o.no_wait;
              args = none;
            })))

  -- a queue that is missing is declared; one that exists is deleted first, whatever that answers
  unfoldable pub recreate : String → QueueDecl → M
  recreate queue q w =
      let (e, w') = call b (declare_passive_call queue) w in
      elim e [
        | some x ↦ within "failed to declare queue with DLX" (call b (declare_queue_call q)) w'
        | none ↦
            let (x, w'') = call b (delete_queue_call queue) w' in
            within "failed to recreate queue with DLX" (call b (declare_queue_call q)) w''
      ]

  -- steps 1 and 2, and the channel of step 3
  unfoldable pub prepare_dlx : String → String → DlxOptions → M
  prepare_dlx dlx_name dlq_name o =
      within "failed to setup DLX" (declare_dlx dlx_name o)
      >> within "failed to setup DLQ" (
          declare_dlq dlq_name dlx_name (record {
            durable = o.durable;
            auto_delete = false;
            exclusive = false;
            no_wait = o.no_wait;
            args = none;
          }))
      >> ensure_channel b

  unfoldable pub setup_dlx_for_queue : String → String → String → DlxOptions → M
  setup_dlx_for_queue queue dlx_name dlq_name o =
      prepare_dlx dlx_name dlq_name o >> recreate queue (queue_with_dlx queue dlx_name dlq_name o)
