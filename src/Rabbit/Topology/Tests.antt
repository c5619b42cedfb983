-- ===== src/Rabbit/Topology/Tests.antt =====
-- Runs of the topology model against concrete brokers.
use msa_core.Prelude.{
  ◌≡◌, refl, ◌≢◌, String, Bool, true, false, none, some, List, [], ◌∷◌, ◌++◌, if◌then◌else◌, leb,
  Bool-cases, inl, inr,
}
use msa_core.Prelude.Result.{error}
use msa_core.Rabbit.Topology.{
  Call, declare_exchange_call, declare_queue_call, declare_passive_call, bind_queue_call,
  delete_queue_call, Broker, World, opened, start, topology_calls, ensure_channel, call,
}
use msa_core.Rabbit.Topology.Effect.{IsOpen}
use msa_core.Rabbit.Topology.Operations.{
  setup_dlx_for_queue, prepare_dlx, declare_dlx, declare_dlq, declare_queue, bind_queue,
}
use msa_core.Rabbit.Topology.Setup.{
  QueueTopology, new_queue_topology, main_queue, main_binding, setup_dlx_options,
  setup_queue_topology,
}
use msa_core.Rabbit.Topology.Laws.{ClosesChannel, reconnect_after_setup, missing_queue_fails}

-- takes every call
abbrev willing : Broker
willing = record { channel = λ n. opened; answer = λ n calls c. none }

willing-IsOpen : IsOpen willing
willing-IsOpen n = refl

abbrev orders : QueueTopology
orders = new_queue_topology "orders" "shop" "order.*" "orders.dlx" "orders.dlq"

abbrev orders_set_up : World
orders_set_up = (setup_queue_topology willing orders start).1

orders_setup : setup_queue_topology willing orders start ≡ (none, orders_set_up)
unfolding setup_queue_topology declare_dlx declare_dlq declare_queue bind_queue ensure_channel call
orders_setup = refl

reconnect_after_setup_example :
    topology_calls orders_set_up.client
    ≡ declare_queue_call (main_queue orders) ∷ bind_queue_call (main_binding orders) ∷ []
reconnect_after_setup_example =
    reconnect_after_setup willing willing-IsOpen orders orders_set_up orders_setup

is_passive : Call → Bool
is_passive (declare_passive_call q) = true
is_passive (declare_exchange_call x) = false
is_passive (declare_queue_call q) = false
is_passive (bind_queue_call q) = false
is_passive (delete_queue_call q) = false

ends_passive : List Call → Bool
unfolding is_passive
ends_passive [] = false
ends_passive (c ∷ []) = is_passive c
ends_passive (c ∷ d ∷ cs) = ends_passive (d ∷ cs)

-- On the first three channels it knows no queue, and closes the channel on which it is asked for one;
-- it takes every call on a later channel.
abbrev forgetful : Broker
forgetful = record {
  channel = λ n. opened;
  answer = λ n calls c.
      if leb 4 n
      then none
      else if ends_passive calls
      then some (error "channel/connection is not open")
      else if is_passive c
      then some (error "NOT_FOUND")
      else none;
}

ends_passive-append :
    (cs : List Call) (q : String) → ends_passive (cs ++ declare_passive_call q ∷ []) ≡ true
unfolding ends_passive is_passive
ends_passive-append [] q = refl
ends_passive-append (c ∷ []) q = refl
ends_passive-append (c ∷ d ∷ cs) q = ends_passive-append (d ∷ cs) q

forgetful-ClosesChannel : ClosesChannel forgetful
forgetful-ClosesChannel n cs q c h e = elim (Bool-cases (leb 4 n)) [
  | inl later ↦ h (rw later refl)
  | inr first ↦ let e' = rw (first, ends_passive-append cs q) at e in cc
]

-- before the queue is asked for, the broker takes what it is asked
forgetful_declares : (declare_dlx forgetful "orders.dlx" setup_dlx_options start).0 ≡ none
unfolding declare_dlx ensure_channel call is_passive ends_passive
forgetful_declares = refl

abbrev forgotten : World
forgotten =
    (setup_dlx_for_queue forgetful "orders" "orders.dlx" "orders.dlq" setup_dlx_options start).1

abbrev prepared : World
prepared = (prepare_dlx forgetful "orders.dlx" "orders.dlq" setup_dlx_options start).1

no_queue : forgetful.answer prepared.attempts prepared.calls (declare_passive_call "orders") ≢ none
unfolding prepare_dlx declare_dlx declare_dlq ensure_channel call is_passive ends_passive
no_queue e = cc

missing_queue_fails_example :
    setup_dlx_for_queue forgetful "orders" "orders.dlx" "orders.dlq" setup_dlx_options start
    ≢ (none, forgotten)
missing_queue_fails_example =
    missing_queue_fails forgetful "orders" "orders.dlx" "orders.dlq" setup_dlx_options start
      forgotten forgetful-ClosesChannel no_queue
