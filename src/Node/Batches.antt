-- ===== src/Node/Batches.antt =====
-- What batches of tasks do to the state machine.
use anraft.Base.{ℕ, ◌≡◌, refl, ap, Bool, true, false, List, [], ◌∷◌, ◌++◌, ret, trap, bad_pointer}
use anraft.Base.Action.{◌>>=◌, ◌>>◌, do_blocks, reads, bind_ret}
use anraft.Base.Frame.{
  Keeps, bind-Keeps, then-Keeps, reads-Keeps, gets-Keeps, pure-Keeps, skip-Keeps,
}
use anraft.Base.Int.{pos}
use anraft.Proto.{Message}
use anraft.Raft.{Raft, Env, step}
use anraft.Raft.Frame.{IsFrame, Grants, step-Keeps, tick-Keeps, on_vote_request-Keeps}
use anraft.Raft.History.{Evolves, Evolves-IsFrame, Evolves-Grants, Evolves-Preorder}
use anraft.Node.Defs.{
  NodeRecvMsg, NodeRecvMsgType, Body, Thread, as_message, run_task, run_tasks, run_batch, propose,
  execute, proposal,
}

module _ (env : Env) (R : Raft → Raft → Type 0) (f : IsFrame env R) (g : Grants R) where
  any_step-Keeps : (msg : Message) → Keeps R (step env msg)
  any_step-Keeps msg = step-Keeps env R f msg (λ _. on_vote_request-Keeps env R f.alone g msg)

  run_task-Keeps : (kind : NodeRecvMsgType) (body : Body) → Keeps R (run_task env kind body)
  unfolding run_task
  run_task-Keeps NodeRecvMsgType.prop_task body =
      bind-Keeps R f.alone.order _ _ (reads-Keeps R f.alone.order _) λ msg.
        bind-Keeps R f.alone.order _ _ (gets-Keeps R f.alone.order _)
          λ id. then-Keeps R f.alone.order _ _ (any_step-Keeps _) (pure-Keeps R f.alone.order _)
  run_task-Keeps NodeRecvMsgType.recv_task body =
      bind-Keeps R f.alone.order _ _ (reads-Keeps R f.alone.order _) λ msg.
        then-Keeps R f.alone.order _ _ (f.alone.finds msg.from)
          (then-Keeps R f.alone.order _ _ (any_step-Keeps msg) (pure-Keeps R f.alone.order body))
  run_task-Keeps NodeRecvMsgType.tick_task body =
      then-Keeps R f.alone.order _ _ (tick-Keeps env R f.alone) (pure-Keeps R f.alone.order body)
  run_task-Keeps _ body = pure-Keeps R f.alone.order body

  run_tasks-Keeps : (body : Body) (ts : List NodeRecvMsg) → Keeps R (run_tasks env body ts)
  unfolding run_tasks
  run_tasks-Keeps body [] = skip-Keeps R f.alone.order
  run_tasks-Keeps body (t ∷ ts) =
      bind-Keeps R f.alone.order _ _ (run_task-Keeps t.kind body) λ body'. run_tasks-Keeps body' ts

  pub run_batch-Keeps :
      (thread : Thread) (stopped : Bool) (t : NodeRecvMsg) (ts : List NodeRecvMsg)
      → Keeps R (run_batch env thread stopped t ts)
  unfolding run_batch
  run_batch-Keeps thread true t ts = pure-Keeps R f.alone.order (pos 0)
  run_batch-Keeps thread false t ts =
      then-Keeps R f.alone.order _ _ (run_tasks-Keeps t.body (t ∷ ts))
        (reads-Keeps R f.alone.order _)

-- The batches that the queue's thread hands to `Run`, in their order.
abbrev pub batches : Env → Thread → List (NodeRecvMsg × List NodeRecvMsg) → Raft → Raft
batches env thread [] r = r
batches env thread ((t, ts) ∷ bs) r = batches env thread bs (run_batch env thread false t ts r).1

-- However the queue splits its tasks into batches: the term, the members and the settings of the
-- node stay, its log stores nothing and never lowers its commit index, and the heartbeat counter
-- never goes down.
pub batches-Evolves :
    (env : Env) (thread : Thread) (bs : List (NodeRecvMsg × List NodeRecvMsg)) (r : Raft)
    → Evolves r (batches env thread bs r)
batches-Evolves env thread [] r = Evolves-Preorder.reflexive r
batches-Evolves env thread ((t, ts) ∷ bs) r =
    Evolves-Preorder.transitive
      ((run_batch-Keeps env Evolves (Evolves-IsFrame env) Evolves-Grants thread false t ts).apply r)
      (batches-Evolves env thread bs (run_batch env thread false t ts r).1)

-- The tasks have the same kinds, one by one.
abbrev pub SameKinds : List NodeRecvMsg → List NodeRecvMsg → Type 0
SameKinds [] [] = Unit {0}
SameKinds (t ∷ ts) (u ∷ us) = (t.kind ≡ u.kind) × SameKinds ts us
SameKinds _ _ = ⊥

tasks-SameKinds :
    (env : Env) (body : Body) (ts us : List NodeRecvMsg)
    → SameKinds ts us
    → run_tasks env body ts ≡ run_tasks env body us
unfolding run_tasks
tasks-SameKinds env body [] [] h = refl
tasks-SameKinds env body [] (u ∷ us) h = elim h [ ]
tasks-SameKinds env body (t ∷ ts) [] h = elim h [ ]
tasks-SameKinds env body (t ∷ ts) (u ∷ us) h =
    λ i. run_task env (h.0 i) body >>= λ b. tasks-SameKinds env b ts us h.1 i

-- The pointer to the message is read once for a batch: what the later tasks carry makes no
-- difference, only their kinds do.
pub run_batch-SameKinds :
    (env : Env) (thread : Thread) (stopped : Bool) (t : NodeRecvMsg) (ts us : List NodeRecvMsg)
    (r : Raft)
    → SameKinds ts us
    → run_batch env thread stopped t ts r ≡ run_batch env thread stopped t us r
unfolding run_batch
run_batch-SameKinds env thread true t ts us r h = refl
run_batch-SameKinds env thread false t ts us r h =
    ap (λ tasks. (tasks >> reads (λ _. thread.run_end)) r)
      (tasks-SameKinds env t.body (t ∷ ts) (t ∷ us) (refl, h))

pub execute_accepted :
    (thread : Thread) (task : NodeRecvMsg) (queue : List NodeRecvMsg)
    → thread.accepts queue task ≡ true
    → execute thread task queue ≡ (ret true, queue ++ task ∷ [])
unfolding execute
execute_accepted thread task queue h = rw h refl

pub propose_run :
    (thread : Thread) (bytes : List ℕ) (queue : List NodeRecvMsg)
    → thread.accepts queue (proposal bytes) ≡ true
    → propose thread bytes queue ≡ (thread.propose_end, queue ++ proposal bytes ∷ [])
unfolding propose reads
propose_run thread bytes queue h =
    bind_ret _ _ queue (execute_accepted thread (proposal bytes) queue h)

-- A batch that starts with a proposal reads its string as a message, which is undefined, before the
-- node has changed.
pub proposal_first :
    (env : Env) (thread : Thread) (bytes : List ℕ) (ts : List NodeRecvMsg) (r : Raft)
    → run_batch env thread false (proposal bytes) ts r ≡ (trap bad_pointer, r)
unfolding run_batch run_tasks run_task as_message do_blocks
proposal_first env thread bytes ts r = refl
