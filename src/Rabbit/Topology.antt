-- ===== src/Rabbit/Topology.antt =====
-- The declaring operations of pkg/infrastructure/rabbitmq/rabbitmq.go, redeclareTopology, and
-- SetupQueueTopology of queue_topology.go. The broker is a parameter: for each attempt to get a
-- channel how ensureChannel ends, and for each call its answer.
pub mod Operations
pub mod Setup
pub mod Effect
pub mod Laws
pub mod Arguments
mod Tests
use msa_core.Prelude.{
  ℕ, ◌+◌, String, Bool, Option, none, some, List, [], ◌∷◌, ◌++◌, map, length, take,
}
use msa_core.Prelude.Int.{ℤ}
use msa_core.Prelude.Result.{Error, wrap}
use msa_core.Rabbit.Table.{Table, clone_table}

pub record ExchangeDecl : Type 0 where
  pub name : String
  pub kind : String
  pub durable : Bool
  pub auto_delete : Bool
  pub internal : Bool
  pub no_wait : Bool
  pub args : Option Table

pub record QueueDecl : Type 0 where
  pub name : String
  pub durable : Bool
  pub auto_delete : Bool
  pub exclusive : Bool
  pub no_wait : Bool
  pub args : Option Table

pub record QueueBindDecl : Type 0 where
  pub queue : String
  pub routing_key : String
  pub exchange : String
  pub no_wait : Bool
  pub args : Option Table

-- what the client asks of the broker
pub data Call : Type 0 where
  declare_exchange_call : ExchangeDecl → Call
  declare_queue_call : QueueDecl → Call
  declare_passive_call : String → Call
  bind_queue_call : QueueBindDecl → Call
  delete_queue_call : String → Call

-- the recorded topology, under topoMu
pub record Client : Type 0 where
  pub declared_exchanges : List ExchangeDecl
  pub declared_queues : List QueueDecl
  pub queue_bindings : List QueueBindDecl

abbrev pub new_client : Client
new_client = record { declared_exchanges = []; declared_queues = []; queue_bindings = [] }

-- How ensureChannel ends: the channel is open, a new connection was made and the topology applied
-- again until the deadline (after so many calls), or there is none.
pub data Channel : Type 0 where
  opened : Channel
  reconnected : ℕ → Channel
  unavailable : Error → Channel

-- how the attempt of each number ends; and the answer to a call, after so many attempts, which tell
-- the channel in hand, and after the calls made before
pub record Broker : Type 0 where
  pub channel : ℕ → Channel
  pub answer : ℕ → List Call → Call → Option Error

pub record World : Type 0 where
  pub client : Client
  pub attempts : ℕ
  pub calls : List Call

abbrev pub start : World
start = record { client = new_client; attempts = 0; calls = [] }

abbrev pub M : Type 0
M = World → Option Error × World

infixl 10 ◌>>◌
-- `if err := m; err != nil { return err }` and what follows
abbrev pub ◌>>◌ : M → M → M
◌>>◌ m n w = let (e, w') = m w in elim e [ none ↦ n w' | some x ↦ (some x, w') ]

abbrev pub done : M
done w = (none, w)

abbrev pub wrapped : String → Option Error → Option Error
wrapped s none = none
wrapped s (some e) = some (wrap s e)

-- `fmt.Errorf("s: %w", err)` on the way out
abbrev pub within : String → M → M
within s m w = let (e, w') = m w in (wrapped s e, w')

-- the calls of redeclareTopology, whose errors are only logged
unfoldable pub topology_calls : Client → List Call
topology_calls c =
    map declare_exchange_call c.declared_exchanges
    ++ (map declare_queue_call c.declared_queues ++ map bind_queue_call c.queue_bindings)

unfoldable pub redeclare_topology : ℕ → World → World
redeclare_topology budget w = record w { calls = w.calls ++ take budget (topology_calls w.client) }

module _ (b : Broker) where
  unfoldable pub ensure_channel : M
  ensure_channel w =
      let next = record w { attempts = w.attempts + 1 } in
      elim (b.channel w.attempts) [
        | opened ↦ (none, next)
        | reconnected budget ↦ (none, redeclare_topology budget next)
        | unavailable e ↦ (some (wrap "rabbitmq channel not available" e), next)
      ]

  unfoldable pub call : Call → M
  call c w = (b.answer w.attempts w.calls c, record w { calls = w.calls ++ c ∷ [] })

abbrev pub on_client : (Client → Client) → M
on_client f w = (none, record w { client = f w.client })

abbrev pub record_queue : QueueDecl → Client → Client
record_queue q c = record c {
  declared_queues = c.declared_queues ++ record q { args = clone_table q.args } ∷ [];
}

abbrev pub record_exchange : ExchangeDecl → Client → Client
record_exchange x c = record c {
  declared_exchanges = c.declared_exchanges ++ record x { args = clone_table x.args } ∷ [];
}

abbrev pub record_binding : QueueBindDecl → Client → Client
record_binding q c = record c {
  queue_bindings = c.queue_bindings ++ record q { args = clone_table q.args } ∷ [];
}
