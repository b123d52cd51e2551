-- ===== src/Node/Defs/Bootstrap.antt =====
-- The start of a node: `StartNode` and `Start`, which write the initial members into the log. As in
-- `Run`, the references that `NewRaft` and `GetRaft` are to return, whose bodies are empty, are
-- taken to be the one node, and the log that `GetRaftLog` returns to be its log.
use anraft.Base.{ℕ, Bool, List, add64, Outcome}
use anraft.Base.Action.{Action, ◌>>=◌, ◌>>◌, reads, modify, skip, for_each}
use anraft.Proto.{ConfChange, ConfChangeType, EntryType, LogEntry}
use anraft.RaftLog
use anraft.Raft.{Raft, Env, become_follower}

pub record Peer : Type 0 where
  pub id : ℕ
  pub context : List ℕ

-- `AddNode`, whose body is empty.
unfoldable pub add_node : ℕ → Action Raft (Unit {0})
add_node id = skip

-- The entry for a peer, behind the last index; `serialize` is protobuf's.
unfoldable pub peer_entry : (ConfChange → List ℕ) → ℕ → Peer → LogEntry
peer_entry serialize li x = record {
  term = 1;
  index = add64 li 1;
  body =
      serialize
        (record { id = 0; kind = ConfChangeType.add_node; node_id = x.id; context = x.context });
  kind = EntryType.conf_change;
}

module _ (env : Env) (serialize : ConfChange → List ℕ) where
  unfoldable pub append_peer : Peer → Action Raft (Unit {0})
  unfolding peer_entry
  append_peer x = do
    li ← reads (λ r. RaftLog.last_index r.raftlog)
    reads (λ r. env.log.append_entry r.raftlog (peer_entry serialize li x))
    skip

  -- `StartNode`, up to the start of the queue.
  unfoldable pub start_node : List Peer → Action Raft (Unit {0})
  unfolding append_peer add_node
  start_node peers = do
    modify (become_follower env 1 0)
    for_each peers append_peer
    li ← reads (λ r. RaftLog.last_index r.raftlog)
    modify (λ r. record r { raftlog = RaftLog.set_commited li r.raftlog })
    for_each peers (λ x. add_node x.id)

  -- `Start`, which does the same and goes off its end.
  unfoldable pub start : Outcome Bool → List Peer → Action Raft Bool
  unfolding start_node
  start falls_off peers = start_node peers >> reads (λ _. falls_off)
