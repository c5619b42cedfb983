-- ===== src/Rabbit/Topology/Laws.antt =====
-- What the declaring operations ask of the broker, and what a reconnection applies again.
use msa_core.Prelude.{
  ℕ, ◌≡◌, refl, ap, ◌≢◌, inl, inr, String, true, false, Option, none, some, List, [], ◌∷◌, ◌++◌,
  Option-cases,
}
use msa_core.Prelude.Result.{Error}
use msa_core.Rabbit.Table.{clone_table}
use msa_core.Rabbit.Topology.{
  QueueDecl, QueueBindDecl, Call, declare_exchange_call, declare_queue_call, declare_passive_call,
  bind_queue_call, Broker, World, start, topology_calls, call, wrapped, record_queue,
  record_binding,
}
use msa_core.Rabbit.Topology.Effect.{
  >>-eq-none, IsOpen, Effect, Effect->>, Effect-within, Effect-single, Effect-recorded, Effect-call,
}
use msa_core.Rabbit.Topology.Operations.{
  DlxOptions, declare_queue, bind_queue, declare_dlx, declare_dlq, recreate, setup_dlx_for_queue,
  queue_with_dlx, prepare_dlx,
}
use msa_core.Rabbit.Topology.Setup.{
  QueueTopology, main_queue, main_binding, setup_dlx_options, setup_dlq_options,
  setup_queue_topology,
}

abbrev pub dlx_call : QueueTopology → Call
dlx_call t = declare_exchange_call (record {
  name = t.dlx;
  kind = "direct";
  durable = true;
  auto_delete = false;
  internal = false;
  no_wait = false;
  args = none;
})

abbrev pub dlq_call : QueueTopology → Call
dlq_call t = declare_queue_call (record {
  name = t.dlq;
  durable = true;
  auto_delete = false;
  exclusive = false;
  no_wait = false;
  args = none;
})

abbrev pub dlq_bind_call : QueueTopology → Call
dlq_bind_call t =
    bind_queue_call (record {
      queue = t.dlq;
      routing_key = t.dlq;
      exchange = t.dlx;
      no_wait = false;
      args = none;
    })

-- the calls of a complete setup, in order
abbrev pub setup_calls : QueueTopology → List Call
setup_calls t =
    dlx_call t
    ∷ dlq_call t
    ∷ dlq_bind_call t
    ∷ declare_queue_call (main_queue t)
    ∷ bind_queue_call (main_binding t)
    ∷ []

module _ (b : Broker) (open_always : IsOpen b) where
  Effect-declare_dlx :
      (t : QueueTopology)
      → Effect (declare_dlx b t.dlx setup_dlx_options) (λ c. c) (dlx_call t ∷ [])
  unfolding declare_dlx
  Effect-declare_dlx t = Effect-single b open_always "failed to declare DLX" (dlx_call t)

  Effect-declare_dlq :
      (t : QueueTopology)
      → Effect
          (declare_dlq b t.dlq t.dlx setup_dlq_options)
          (λ c. c)
          (dlq_call t ∷ dlq_bind_call t ∷ [])
  unfolding declare_dlq
  Effect-declare_dlq t =
      Effect->> (Effect-single b open_always "failed to declare DLQ" (dlq_call t))
        (Effect-within "failed to bind DLQ to DLX" (Effect-call b (dlq_bind_call t)))

  Effect-declare_queue :
      (q : QueueDecl) → Effect (declare_queue b q) (record_queue q) (declare_queue_call q ∷ [])
  unfolding declare_queue
  Effect-declare_queue q =
      Effect-recorded b open_always (record_queue q) "failed to declare queue"
        (declare_queue_call q)

  Effect-bind_queue :
      (q : QueueBindDecl) → Effect (bind_queue b q) (record_binding q) (bind_queue_call q ∷ [])
  unfolding bind_queue
  Effect-bind_queue q =
      Effect-recorded b open_always (record_binding q) "failed to bind queue" (bind_queue_call q)

  Effect-setup :
      (t : QueueTopology)
      → Effect
          (setup_queue_topology b t)
          (λ c. record_binding (main_binding t) (record_queue (main_queue t) c))
          (setup_calls t)
  unfolding setup_queue_topology
  Effect-setup t =
      Effect->> {f = record_queue (main_queue t)} {g = record_binding (main_binding t)}
        (Effect->> {f = λ c. c} {g = record_queue (main_queue t)}
          (Effect->> {f = λ c. c} {g = λ c. c}
            (Effect-within "failed to declare DLX" (Effect-declare_dlx t))
            (Effect-within "failed to declare DLQ" (Effect-declare_dlq t)))
          (Effect-within "failed to declare main queue" (Effect-declare_queue (main_queue t))))
        (Effect-within "failed to bind queue to exchange" (Effect-bind_queue (main_binding t)))

  -- Over open channels, a setup that reports no error has declared the dead-letter exchange, has
  -- declared the dead-letter queue and bound it to that exchange under its own name, and then has
  -- declared and bound the main queue, each once and in this order.
  pub setup_calls_lem :
      (t : QueueTopology) (w w' : World)
      → setup_queue_topology b t w ≡ (none, w')
      → w'.calls ≡ w.calls ++ setup_calls t
  setup_calls_lem t w w' h = ((Effect-setup t).at w w' h).1

  -- When each ensureChannel finds the channel open, and SetupQueueTopology on a fresh client reports
  -- no error, what a later reconnection applies again is the main queue and its binding alone: the
  -- dead-letter exchange, queue and binding are not recorded.
  pub reconnect_after_setup :
      (t : QueueTopology) (w : World)
      → setup_queue_topology b t start ≡ (none, w)
      → topology_calls w.client
        ≡ declare_queue_call (main_queue t) ∷ bind_queue_call (main_binding t) ∷ []
  unfolding topology_calls clone_table
  reconnect_after_setup t w h = ap topology_calls ((Effect-setup t).at start w h).0

-- The exception that refuses a passive declaration closes the channel: a call on the channel that was
-- in hand then, with no ensureChannel in between, fails too.
abbrev pub ClosesChannel : Broker → Type 0
ClosesChannel b =
    (n : ℕ) (cs : List Call) (q : String) (c : Call)
    → b.answer n cs (declare_passive_call q) ≢ none
    → b.answer n (cs ++ declare_passive_call q ∷ []) c ≢ none

wrapped-eq-none : (s : String) (e : Option Error) → wrapped s e ≡ none → e ≡ none
wrapped-eq-none s none h = refl
wrapped-eq-none s (some x) h = cc

recreate_fails :
    (b : Broker) (queue : String) (q : QueueDecl) (w w' : World)
    → ClosesChannel b
    → b.answer w.attempts w.calls (declare_passive_call queue) ≢ none
    → recreate b queue q w ≢ (none, w')
unfolding recreate call
recreate_fails b queue q w w' closes missing h =
    elim (Option-cases (b.answer w.attempts w.calls (declare_passive_call queue))) [
      | inl found ↦ missing found
      | inr (x, refused) ↦ closes w.attempts w.calls queue (declare_queue_call q) missing (
          wrapped-eq-none "failed to declare queue with DLX" _
            (ap (λ (r : Option Error × World). r.0) (rw (refused, recreate) at h)))
    ]

-- When the broker refuses SetupDLXForQueue's passive declaration, as it does for a queue that does
-- not exist, SetupDLXForQueue fails: the branch that means to create the queue runs on the channel
-- that the refusal has closed. That a call fails on such a channel is assumed only while no new
-- channel has been asked for.
pub missing_queue_fails :
    (b : Broker) (queue dlx_name dlq_name : String) (o : DlxOptions) (w w' : World)
    → ClosesChannel b
    → (let (e, v) = prepare_dlx b dlx_name dlq_name o w in
        b.answer v.attempts v.calls (declare_passive_call queue) ≢ none)
    → setup_dlx_for_queue b queue dlx_name dlq_name o w ≢ (none, w')
unfolding setup_dlx_for_queue
missing_queue_fails b queue dlx_name dlq_name o w w' closes missing h =
    let (v, first, last) =
      >>-eq-none (prepare_dlx b dlx_name dlq_name o)
        (recreate b queue (queue_with_dlx queue dlx_name dlq_name o)) w w' h in
    recreate_fails b queue (queue_with_dlx queue dlx_name dlq_name o) v w' closes
      (rw first at missing) last
