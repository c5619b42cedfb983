-- ===== src/Rabbit/Topology/Setup.antt =====
-- pkg/infrastructure/rabbitmq/queue_topology.go
use msa_core.Prelude.{String, true, false, none}
use msa_core.Prelude.Int.{pos}
use msa_core.Rabbit.Topology.{QueueDecl, QueueBindDecl, Broker, M, ◌>>◌, within}
use msa_core.Rabbit.Topology.Operations.{
  DlxOptions, DlqOptions, QueueOptions, declare_dlx, declare_dlq, declare_queue, bind_queue,
}

pub record QueueTopology : Type 0 where
  pub name : String
  pub exchange : String
  pub queue : String
  pub binding_pattern : String
  pub dlx : String
  pub dlq : String
  pub queue_options : QueueOptions

unfoldable pub new_queue_topology : String → String → String → String → String → QueueTopology
new_queue_topology queue exchange binding_pattern dlx dlq = record {
  name = queue;
  exchange = exchange;
  queue = queue;
  binding_pattern = binding_pattern;
  dlx = dlx;
  dlq = dlq;
  queue_options = record {
    durable = true;
    auto_delete = false;
    exclusive = false;
    no_wait = false;
    dlx_name = "";
    dlx_routing_key = "";
    max_retries = pos 0;
    message_ttl = pos 0;
    max_length = pos 0;
    max_priority = 0;
    additional_args = none;
  };
}

abbrev pub setup_dlx_options : DlxOptions
setup_dlx_options = record {
  kind = "direct";
  durable = true;
  auto_delete = false;
  internal = false;
  no_wait = false;
  args = none;
}

abbrev pub setup_dlq_options : DlqOptions
setup_dlq_options = record {
  durable = true;
  auto_delete = false;
  exclusive = false;
  no_wait = false;
  args = none;
}

abbrev pub main_queue : QueueTopology → QueueDecl
main_queue t = record {
  name = t.queue;
  durable = true;
  auto_delete = false;
  exclusive = false;
  no_wait = false;
  args = none;
}

abbrev pub main_binding : QueueTopology → QueueBindDecl
main_binding t = record {
  queue = t.queue;
  routing_key = t.binding_pattern;
  exchange = t.exchange;
  no_wait = false;
  args = none;
}

unfoldable pub setup_queue_topology : Broker → QueueTopology → M
setup_queue_topology b t =
    within "failed to declare DLX" (declare_dlx b t.dlx setup_dlx_options)
    >> within "failed to declare DLQ" (declare_dlq b t.dlq t.dlx setup_dlq_options)
    >> within "failed to declare main queue" (declare_queue b (main_queue t))
    >> within "failed to bind queue to exchange" (bind_queue b (main_binding t))
