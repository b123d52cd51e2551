-- ===== src/Raftexample/Defs/Channels.antt =====
-- `RaftNode` and its two queues: what is put into them, and the handlers of their batches.
use anraft.Base.{Bytes, Bool, true, false, List, [], ◌∷◌, ◌++◌, if◌then◌else◌, Outcome, ret}
use anraft.Base.Action.{Action, ◌>>=◌, ◌>>◌, pure, reads, skip}
use anraft.Base.Int.{ℤ, pos}
use anraft.Proto.{EntryType, LogEntry, Message}
use anraft.Node.{NodeRecvMsg, Thread, propose, queue_tick}

pub data ChannalType : Type 0 where
  tick_type ready_type transport_error_type stop_type propose_type conf_change_type : ChannalType

pub record ChannalMsg : Type 0 where
  pub kind : ChannalType
  pub propose : Bytes
  pub ready : Bytes

-- The fields that are used. `tasks` are those of the queue of `node_`, the other two queues are
-- `propose_queue_id_` and `queue_id_`, and `is_serving` tells whether they were started.
pub record RaftNode : Type 0 where
  pub id : ℤ
  pub peers : List Bytes
  pub join : Bool
  pub has_snapshot_func : Bool
  pub snapdir : Bytes
  pub tasks : List NodeRecvMsg
  pub propose_queue : List ChannalMsg
  pub ready_queue : List ChannalMsg
  pub is_serving : Bool

-- brpc's queues, which take a message or not, the queue of the node, and what the handlers and
-- PublishEntries do at their ends, where no return statement stands.
pub record Queues : Type 0 where
  pub accepts : List ChannalMsg → ChannalMsg → Bool
  pub thread : Thread
  pub serve_end : Outcome ℤ
  pub publish_end : Outcome Bool

abbrev pub proposal_msg : Bytes → ChannalMsg
proposal_msg buf = record { kind = ChannalType.propose_type; propose = buf; ready = [] }

module _ (channels : Queues) where
  -- `execution_queue_execute(queue, msg) == 0`
  unfoldable pub execute_channel : ChannalMsg → Action (List ChannalMsg) Bool
  execute_channel msg queue =
      if channels.accepts queue msg then (ret true, queue ++ msg ∷ []) else (ret false, queue)

  -- `Propose`
  unfoldable pub raft_propose : Bytes → Action (List ChannalMsg) (Unit {0})
  unfolding execute_channel
  raft_propose buf = execute_channel (proposal_msg buf) >> skip

  -- `ExecuteReady`, which serialises the message into a string that it does not use.
  unfoldable pub execute_ready : Message → Action (List ChannalMsg) Bool
  unfolding execute_channel
  execute_ready msg = do
    accepted ← execute_channel (proposal_msg [])
    if accepted then pure true else pure false

  -- The loop of `ServeProposeChannels`, which throws the result of `Propose` away.
  unfoldable pub propose_all : List ChannalMsg → Action (List NodeRecvMsg) ℤ
  propose_all [] = reads (λ _. channels.serve_end)
  propose_all (m ∷ ms) = elim m.kind [
    | ChannalType.propose_type ↦ propose channels.thread m.propose >> propose_all ms
    | _ ↦ propose_all ms
  ]

  -- `ServeProposeChannels` on a batch.
  unfoldable pub serve_propose_channels : Bool → List ChannalMsg → Action (List NodeRecvMsg) ℤ
  unfolding propose_all
  serve_propose_channels true ms = pure (pos 0)
  serve_propose_channels false ms = propose_all ms

  -- `PublishEntries`: neither branch of its loop does anything.
  unfoldable pub publish_entries : List LogEntry → Outcome Bool
  publish_entries [] = channels.publish_end
  publish_entries (x ∷ xs) = elim x.kind [
    | EntryType.normal ↦ publish_entries xs
    | _ ↦ publish_entries xs
  ]

  -- The loop of `ServeChannels`, which publishes an empty vector.
  unfoldable pub serve_all : List ChannalMsg → Action RaftNode ℤ
  unfolding publish_entries
  serve_all [] = reads (λ _. channels.serve_end)
  serve_all (m ∷ ms) = elim m.kind [
    | ChannalType.ready_type ↦ reads (λ _. publish_entries []) >> serve_all ms
    | _ ↦ serve_all ms
  ]

  -- `ServeChannels` on a batch.
  unfoldable pub serve_channels : Bool → List ChannalMsg → Action RaftNode ℤ
  unfolding serve_all
  serve_channels true ms = pure (pos 0)
  serve_channels false ms = serve_all ms

  -- `OnTickTimer`
  unfoldable pub on_tick_timer : Action (List NodeRecvMsg) (Unit {0})
  on_tick_timer = queue_tick channels.thread
