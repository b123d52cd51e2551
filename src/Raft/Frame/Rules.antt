-- ===== src/Raft/Frame/Rules.antt =====
-- The basic changes of the state of a node.
use anraft.Base.{ℕ, ◌≡◌, Bool}
use anraft.Base.Frame.{Preorder, Keeps}
use anraft.Base.Int.{ℤ, pos, ◌+ℤ◌}
use anraft.Proto.{Message, MessageType}
use anraft.RaftLog
use anraft.Raft.Defs.{
  Raft, Env, ProgressRef, on_log, get_progress, update_progress, become_follower, become_candidate,
  become_leader, record_vote, send, bcast_append,
}

-- A vote that is given keeps to the relation.
abbrev pub Grants : (Raft → Raft → Type 0) → Type 0
Grants R = (from : ℕ) (r : Raft) → R r (record r { vote = from; election_elapsed = pos 0 })

-- The basic changes that a node makes by itself, each of which keeps to the relation.
pub record IsLocal (env : Env) (R : Raft → Raft → Type 0) : Type 0 where
  pub order : Preorder R
  pub requests : (msg : Message) → msg.kind ≡ MessageType.vote → Keeps R (send msg)
  pub follows : (term lead : ℕ) (r : Raft) → R r (become_follower env term lead r)
  pub campaigns : (r : Raft) → R r (become_candidate env r)
  pub finds : (id : ℕ) → Keeps R (get_progress id)
  pub waits : (n : ℤ) (r : Raft) → R r (record r { election_elapsed = n })
  pub beats :
      (n : ℤ) (r : Raft)
      → R r (record r { election_elapsed = n; heartbeat_elapsed = r.heartbeat_elapsed +ℤ pos 1 })
  pub beats_again : (r : Raft) → R r (record r { heartbeat_elapsed = r.heartbeat_elapsed +ℤ pos 1 })

-- All the basic changes of the state but for the votes that are given.
pub record IsFrame (env : Env) (R : Raft → Raft → Type 0) : Type 0 where
  pub alone : IsLocal env R
  pub answers : (msg : Message) → msg.kind ≡ MessageType.app_resp → Keeps R (send msg)
  pub broadcasts : Keeps R (bcast_append env)
  pub leads : (r : Raft) → R r (become_leader env r)
  pub votes : (id : ℕ) (vote : Bool) (r : Raft) → R r (record_vote id vote r)
  pub updates : (pr : ProgressRef) (n : ℕ) → Keeps R (update_progress pr n)
  pub commits : (index t : ℕ) → Keeps R (on_log (RaftLog.maybe_commit env.log index t))
  pub appends :
      (msg : Message)
      → Keeps R (on_log (RaftLog.maybe_append env.log msg.index msg.term msg.commit msg.entries))
  pub hears : (lead : ℕ) (r : Raft) → R r (record r { election_elapsed = pos 0; lead = lead })
