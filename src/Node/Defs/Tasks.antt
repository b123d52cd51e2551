-- ===== src/Node/Defs/Tasks.antt =====
-- The tasks of a node, the methods that queue them, and the handler `Run` of a batch of them. The
-- reference that `Raft::GetRaft` is to return, whose body is empty, is taken to be the one node.
use anraft.Base.{
  ℕ, Bool, true, false, List, [], ◌∷◌, ◌++◌, if◌then◌else◌, bad_pointer, Outcome, ret, trap,
}
use anraft.Base.Action.{Action, ◌>>=◌, ◌>>◌, pure, reads, gets, skip}
use anraft.Base.Int.{ℤ, pos}
use anraft.Proto.{Message}
use anraft.Raft.{Raft, Env, get_progress, step, tick}

pub data NodeRecvMsgType : Type 0 where
  tick_task prop_task recv_task conf_task advance_task ready_task status_task stop_task :
      NodeRecvMsgType

-- What the untyped pointer of a task points to: nothing that was set, a message, or the string
-- that `Propose` was given.
pub data Body : Type 0 where
  unset : Body
  message : Message → Body
  text : List ℕ → Body

pub record NodeRecvMsg : Type 0 where
  pub kind : NodeRecvMsgType
  pub body : Body

-- The task that `Propose` queues.
abbrev pub proposal : List ℕ → NodeRecvMsg
proposal bytes = record { kind = NodeRecvMsgType.prop_task; body = Body.text bytes }

-- The queue's thread, which calls `Run` with the tasks that it has, and what `Run` and `Propose`
-- give at their ends, where no return statement stands.
pub record Thread : Type 0 where
  pub accepts : List NodeRecvMsg → NodeRecvMsg → Bool
  pub run_end : Outcome ℤ
  pub propose_end : Outcome Bool

module _ (thread : Thread) where
  -- `bthread::execution_queue_execute(queue_id_, msg) == 0`
  unfoldable pub execute : NodeRecvMsg → Action (List NodeRecvMsg) Bool
  execute task queue =
      if thread.accepts queue task then (ret true, queue ++ task ∷ []) else (ret false, queue)

  -- `Tick`
  unfoldable pub queue_tick : Action (List NodeRecvMsg) (Unit {0})
  unfolding execute
  queue_tick = execute (record { kind = NodeRecvMsgType.tick_task; body = Body.unset }) >> skip

  -- `Propose`; after a success it goes off its end.
  unfoldable pub propose : List ℕ → Action (List NodeRecvMsg) Bool
  unfolding execute
  propose bytes = do
    accepted ← execute (proposal bytes)
    if accepted then reads (λ _. thread.propose_end) else pure false

-- `(Message*)body`, when it is read.
unfoldable pub as_message : Body → Outcome Message
as_message Body.unset = trap bad_pointer
as_message (Body.message msg) = ret msg
as_message (Body.text bytes) = trap bad_pointer

module _ (env : Env) where
  -- One turn of the loop in `Run`, with the body that `msg` was set to before the loop. A message
  -- keeps the sender that a turn writes into it. The entries that `Step` numbers in it are
  -- numbered again by each later turn that reads them, and so left out.
  unfoldable pub run_task : NodeRecvMsgType → Body → Action Raft Body
  unfolding as_message
  run_task NodeRecvMsgType.prop_task body = do
    msg ← reads (λ _. as_message body)
    id ← gets (λ r. r.id)
    step env (record msg { from = id })
    pure (Body.message (record msg { from = id }))
  run_task NodeRecvMsgType.recv_task body = do
    msg ← reads (λ _. as_message body)
    get_progress msg.from
    step env msg
    pure body
  run_task NodeRecvMsgType.tick_task body = do tick env; pure body
  run_task _ body = pure body

  -- The loop.
  unfoldable pub run_tasks : Body → List NodeRecvMsg → Action Raft (Unit {0})
  unfolding run_task
  run_tasks body [] = skip
  run_tasks body (t ∷ ts) = do body' ← run_task t.kind body; run_tasks body' ts

  -- `Run` on a batch, of which the queue has at least one task.
  unfoldable pub run_batch : Thread → Bool → NodeRecvMsg → List NodeRecvMsg → Action Raft ℤ
  unfolding run_tasks
  run_batch thread true t ts = pure (pos 0)
  run_batch thread false t ts = do run_tasks t.body (t ∷ ts); reads (λ _. thread.run_end)
