-- ===== src/Raftexample/Defs/Start.antt =====
-- The start of the example's raft node: `Init`, `StartRaft` and `StartServeChannels`.
use anraft.Base.{
  Bytes, ℕ, zero, suc, ◌+◌, Bool, true, not, Option, none, some, List, [], ◌∷◌, ◌++◌, ltb, length,
  if◌then◌else◌, u64_mod, ◌-◌, Outcome,
}
use anraft.Base.Action.{Action, ◌>>=◌, ◌>>◌, pure, reads, gets, modify, skip, when}
use anraft.Base.Int.{ℤ, pos, negsuc, same_ℤ}
use anraft.Proto.{ConfChange}
use anraft.Raft.{Raft, Env}
use anraft.Node.{start_node}
use anraft.Node
use anraft.Rafthttp.{Http, Transport, init, add_peer}
use anraft.Rafthttp
use anraft.Raftexample.Defs.Channels.{RaftNode}

-- What a start uses: the directory of the snapshots is there or can be made, the tick timer can be
-- added, and what is passed where no return statement stands: in the assignment of a Node, in
-- `Init` and `Start` of the transport, and in `StartPeer`.
pub record Platform : Type 0 where
  pub http : Http
  pub serialize : ConfChange → Bytes
  pub directory_ready : Bytes → Bool
  pub timer_added : Bool
  pub assign_end : Outcome (Unit {0})
  pub init_end : Outcome Bool
  pub start_end : Outcome Bool
  pub peer_end : Outcome Rafthttp.Peer

-- The node of the example with the state machine behind `node_` and the transport.
pub record System : Type 0 where
  pub raft : Raft
  pub transport : Transport
  pub node : RaftNode

unfoldable pub on_raft : {A : Type 0} → Action Raft A → Action System A
on_raft m s = let (r, raft) = m s.raft in (r, record s { raft = raft })

unfoldable pub on_transport : {A : Type 0} → Action Transport A → Action System A
on_transport m s = let (r, transport) = m s.transport in (r, record s { transport = transport })

-- `Init`
unfoldable pub init_node : ℤ → List Bytes → Bool → Bool → Action RaftNode Bool
init_node id peers join has_snapshot_func =
    modify
      (λ s. record s { id = id; peers = peers; join = join; has_snapshot_func = has_snapshot_func })
    >> pure true

-- An int that is passed as a uint64_t.
unfoldable pub as_uint64 : ℤ → ℕ
as_uint64 (pos n) = n
as_uint64 (negsuc n) = u64_mod - (n + 1)

-- The loop that fills the vector of peers, at most n turns of it.
unfoldable pub fill_peers : ℕ → ℕ → List Node.Peer → Option (List Node.Peer)
fill_peers zero i ps = none
fill_peers (suc n) i ps =
    if ltb i (length ps)
    then fill_peers n (i + 2) (ps ++ record { id = i; context = [] } ∷ [])
    else some ps

-- The peers of a start: the vector is empty, so one test ends the loop.
unfoldable pub initial_peers : Bool → Option (List Node.Peer)
unfolding fill_peers
initial_peers join = if join then fill_peers 1 0 [] else some []

module _ (p : Platform) where
  -- The loop over the peers from number i on, with all of them.
  unfoldable pub add_peers : ℤ → List Bytes → ℕ → List Bytes → Action Transport (Unit {0})
  add_peers id all i [] = skip
  add_peers id all i (x ∷ xs) =
      when (not (same_ℤ (pos (i + 1)) id)) (add_peer p.http p.peer_end (i + 1) all)
      >> add_peers id all (i + 1) xs

  -- `StartServeChannels`
  unfoldable pub start_serve_channels : Action System (Unit {0})
  start_serve_channels =
      when p.timer_added (modify (λ s. record s { node = record (s.node) { is_serving = true } }))

  -- `StartRaft` on a node, so on a pointer that is not null; `address` is that of the node.
  unfoldable pub start_raft : Env → ℕ → Action System (Unit {0})
  unfolding on_raft on_transport as_uint64 initial_peers add_peers start_serve_channels
  start_raft env address = do
    node ← gets (λ s. s.node)
    if not (p.directory_ready node.snapdir) then skip else do
      on_raft (elim (initial_peers node.join) [
        | none ↦ skip
        | some peers ↦ start_node env p.serialize peers
      ])
      reads (λ _. p.assign_end)
      on_transport (init p.init_end (as_uint64 node.id) node.peers 4096 address 0)
      reads (λ _. p.start_end)
      on_transport (add_peers node.id node.peers 0 node.peers)
      start_serve_channels
