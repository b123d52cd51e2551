-- ===== src/Node/Leaderless.antt =====
-- A cluster of nodes that were started by `StartNode`.
use anraft.Base.{ℕ, ◌≡◌, ◌≢◌, refl, sym, subst, ◌∙◌, List, [], arith, ret}
use anraft.Proto.{ConfChange}
use anraft.RaftLog
use anraft.RaftLog.{RaftLog}
use anraft.Raft.{Raft, Env, StateType, become_follower}
use anraft.Raft.Cluster.{Cluster, AllVotes, Reaches}
use anraft.Raft.Cluster.Idle.{IsIdle, Reaches-IsIdle}
use anraft.Node.Defs.{Peer, start_node}
use anraft.Node.Bootstrap.{AllAppend, start_node_run}

module _ (serialize : ConfChange → List ℕ) (peers : List Peer) where
  -- A node before its start: it has sent nothing, its last index can be read, and the empty
  -- `Append` of one entry returns for each peer.
  pub record IsFresh (env : Env) (r : Raft) : Type 0 where
    pub silent : r.msgs ≡ []
    pub last : ℕ
    pub last_is : RaftLog.last_index r.raftlog ≡ ret last
    pub appends : AllAppend env serialize r.raftlog last peers

  started :
      (env : Env) (r : Raft)
      → IsFresh env r
      → IsIdle (start_node env serialize peers r).1
        × ((start_node env serialize peers r).1.term ≡ r.term)
  unfolding become_follower RaftLog.set_commited
  started env r h =
      let run = start_node_run env serialize peers r h.last_is h.appends in
      rw run (
        record {
          not_leader = λ e. ground arith;
          not_leading = λ e. ground arith;
          asks = subst AllVotes (sym h.silent) tt;
        },
        refl,
      )

  -- Nodes that `StartNode` starts with any peers, where each node has sent nothing before, its last
  -- index can be read, and the `Append` of one entry, whose body is empty, returns for each
  -- peer, never get a leader among them: after any ticks,
  -- proposals and deliveries, messages lost, repeated or reordered, no node leads, and each is in
  -- the term that it had before its start.
  pub start_node-leaderless :
      (envs : ℕ → Env) (c d : Cluster)
      → ((i : ℕ) → IsFresh (envs i) (c i))
      → Reaches envs (λ i. (start_node (envs i) serialize peers (c i)).1) d
      → (i : ℕ) → ((d i).state ≢ StateType.leader) × ((d i).term ≡ (c i).term)
  start_node-leaderless envs c d fresh steps i =
      let (idle, term) =
        Reaches-IsIdle envs (λ j. (start_node (envs j) serialize peers (c j)).1) d
          (λ j. (started (envs j) (c j) (fresh j)).0) steps i in
      (idle.not_leader, term ∙ (started (envs i) (c i) (fresh i)).1)
