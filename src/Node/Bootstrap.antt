-- ===== src/Node/Bootstrap.antt =====
-- What the start of a node leaves.
use anraft.Base.{ℕ, ◌≡◌, refl, ◌∙◌, List, [], ◌∷◌, ret}
use anraft.Base.Action.{skip, for_each, bind_ret, then_ret, reads_ret, modify_ret}
use anraft.Proto.{ConfChange}
use anraft.RaftLog
use anraft.RaftLog.{RaftLog}
use anraft.Raft.{Raft, Env, StateType, become_follower}
use anraft.Node.Defs.{Peer, add_node, peer_entry, append_peer, start_node}

module _ (env : Env) (serialize : ConfChange → List ℕ) where
  append_peer_run :
      (x : Peer) (r : Raft) {li n : ℕ}
      → RaftLog.last_index r.raftlog ≡ ret li
      → env.log.append_entry r.raftlog (peer_entry serialize li x) ≡ ret n
      → append_peer env serialize x r ≡ (ret tt, r)
  unfolding append_peer
  append_peer_run x r {li} {n} h k =
      bind_ret _ _ r (reads_ret _ r h) ∙ then_ret _ _ r (reads_ret _ r k) ∙ (unfold skip in refl)

  -- The entries of all peers can be appended, with whatever index as the result.
  abbrev pub AllAppend : RaftLog → ℕ → List Peer → Type 0
  AllAppend l li [] = Unit {0}
  AllAppend l li (x ∷ xs) =
      ((n : ℕ) × (env.log.append_entry l (peer_entry serialize li x) ≡ ret n)) × AllAppend l li xs

  append_peers_run :
      (xs : List Peer) (r : Raft) {li : ℕ}
      → RaftLog.last_index r.raftlog ≡ ret li
      → AllAppend r.raftlog li xs
      → for_each xs (append_peer env serialize) r ≡ (ret tt, r)
  unfolding for_each
  append_peers_run [] r h k = unfold skip in refl
  append_peers_run (x ∷ xs) r h k =
      then_ret _ _ r (append_peer_run x r h k.0.1) ∙ append_peers_run xs r h k.1

  add_nodes_run : (xs : List Peer) (r : Raft) → for_each xs (λ x. add_node x.id) r ≡ (ret tt, r)
  unfolding for_each add_node skip
  add_nodes_run [] r = refl
  add_nodes_run (x ∷ xs) r = then_ret _ _ r refl ∙ add_nodes_run xs r

  pub start_node_run :
      (peers : List Peer) (r : Raft) {li : ℕ}
      → let f = become_follower env 1 0 r in
        RaftLog.last_index f.raftlog ≡ ret li
        → AllAppend f.raftlog li peers
        → start_node env serialize peers r
          ≡ (ret tt, record f { raftlog = RaftLog.set_commited li f.raftlog })
  unfolding start_node
  start_node_run peers r {li} h k =
      let f : Raft = become_follower env 1 0 r in
      let committed : Raft = record f { raftlog = RaftLog.set_commited li f.raftlog } in
      then_ret _ _ r (modify_ret _ r)
      ∙ then_ret _ _ f (append_peers_run peers f h k)
      ∙ bind_ret _ _ f (reads_ret _ f h)
      ∙ then_ret _ _ f (modify_ret _ f)
      ∙ add_nodes_run peers committed

  -- `StartNode`, where the last index can be read and the empty `Append` of one entry returns: the
  -- node has become a follower and has committed its log up to the last index. It is not in term 1
  -- but in the term that it had, the rest of its log stays, and no peer has become a member.
  pub start_node_lem :
      (peers : List Peer) (r : Raft) {li : ℕ}
      → RaftLog.last_index r.raftlog ≡ ret li
      → AllAppend r.raftlog li peers
      → let (x, r') = start_node env serialize peers r in
        (x ≡ ret tt)
        × (r'.state ≡ StateType.follower)
        × (r'.raftlog ≡ record (r.raftlog) { committed = li })
        × (r'.term ≡ r.term)
        × (r'.prs ≡ r.prs)
  unfolding become_follower RaftLog.set_commited
  start_node_lem peers r h k = rw (start_node_run peers r h k) (refl, refl, refl, refl, refl)
