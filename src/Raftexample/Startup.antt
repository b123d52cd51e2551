-- ===== src/Raftexample/Startup.antt =====
-- How far the start of the example's raft node gets.
use anraft.Base.{
  Bytes, ℕ, ◌+◌, ◌≡◌, refl, ap, ◌∙◌, inl, inr, Bool, true, false, Bool-cases, some, List, [], ◌∷◌,
  if◌then◌else◌, Outcome, ret, trap, bad_pointer, bad_weak_ptr,
}
use anraft.Base.Action.{
  Action, ◌>>◌, skip, when, bind_ret, then_ret, then_trap, reads_ret, gets_ret, modify_ret,
}
use anraft.Base.Int.{ℤ, pos, same_ℤ}
use anraft.RaftLog
use anraft.Raft.{Raft, Env, StateType}
use anraft.Node.{start_node}
use anraft.Node.Bootstrap.{start_node_lem}
use anraft.Rafthttp.{Transport, add_peer, init}
use anraft.Rafthttp.Peers.{add_peer-traps}
use anraft.Raftexample.Defs.{
  RaftNode, Platform, System, on_raft, on_transport, as_uint64, initial_peers, fill_peers,
  add_peers, start_serve_channels, start_raft,
}

-- Whether a peer from number i on is not the node itself.
abbrev pub has_other : ℤ → ℕ → List Bytes → Bool
has_other id i [] = false
has_other id i (x ∷ xs) = if same_ℤ (pos (i + 1)) id then has_other id (i + 1) xs else true

-- Nothing is in the vector that the loop runs over, whether the node joins or not.
pub initial_peers_lem : (join : Bool) → initial_peers join ≡ some []
unfolding initial_peers fill_peers
initial_peers_lem true = refl
initial_peers_lem false = refl

on_raft_run :
    {A : Type 0} (m : Action Raft A) (s : System) {a : Outcome A} {r : Raft}
    → m s.raft ≡ (a, r)
    → on_raft m s ≡ (a, record s { raft = r })
unfolding on_raft
on_raft_run m s h = ap (λ x. (x.0, record s { raft = x.1 })) h

on_transport_run :
    {A : Type 0} (m : Action Transport A) (s : System) {a : Outcome A} {t : Transport}
    → m s.transport ≡ (a, t)
    → on_transport m s ≡ (a, record s { transport = t })
unfolding on_transport
on_transport_run m s h = ap (λ x. (x.0, record s { transport = x.1 })) h

module _ (p : Platform) (null : p.http.start_queue true ≡ trap bad_pointer) where
  add_peers_run :
      (id : ℤ) (all : List Bytes) (i : ℕ) (xs : List Bytes) (t : Transport)
      → t.is_shared ≡ false
      → add_peers p id all i xs t ≡ (if has_other id i xs then trap bad_weak_ptr else ret tt, t)
  unfolding add_peers when skip
  add_peers_run id all i [] t own = unfold skip in refl
  add_peers_run id all i (x ∷ xs) t own = elim (Bool-cases (same_ℤ (pos (i + 1)) id)) [
    | inl same ↦ rw same (
        then_ret skip (add_peers p id all (i + 1) xs) t (unfold skip in refl)
        ∙ add_peers_run id all (i + 1) xs t own)
    | inr other ↦
        let trapped = add_peer-traps p.http p.peer_end (i + 1) all t null in
        let run : add_peer p.http p.peer_end (i + 1) all t ≡ (trap bad_weak_ptr, t) =
          trapped ∙ ap (λ b. (trap (if b then bad_pointer else bad_weak_ptr), t)) own in
        rw other (then_trap _ (add_peers p id all (i + 1) xs) t run)
  ]

  serving_run :
      (s : System)
      → p.timer_added ≡ true
      → start_serve_channels p s
        ≡ (ret tt, record s { node = record (s.node) { is_serving = true } })
  unfolding start_serve_channels when
  serving_run s h = rw h (modify_ret _ s)

  -- The transport as it is initialised.
  abbrev initialised : ℕ → RaftNode → Transport → Transport
  initialised address n t = record t {
    id = as_uint64 n.id;
    urls = n.peers;
    cluster_id = 4096;
    raft = address;
    snapshotter = 0;
  }

  init_run :
      (address : ℕ) (n : RaftNode) (t : Transport) {b : Bool}
      → p.init_end ≡ ret b
      → init p.init_end (as_uint64 n.id) n.peers 4096 address 0 t ≡ (ret b, initialised address n t)
  unfolding init
  init_run address n t inits = ap (λ x. (x, initialised address n t)) inits

  -- Up to the loop over the peers.
  before_peers :
      (env : Env) (address : ℕ) (s : System) {r : Raft} {b c : Bool}
      → p.directory_ready s.node.snapdir ≡ true
      → p.assign_end ≡ ret tt
      → p.init_end ≡ ret b
      → p.start_end ≡ ret c
      → start_node env p.serialize [] s.raft ≡ (ret tt, r)
      → let s' = record s { raft = r; transport = initialised address s.node s.transport } in
        start_raft p env address s
        ≡ (on_transport (add_peers p s.node.id s.node.peers 0 s.node.peers)
              >> start_serve_channels p)
            s'
  unfolding start_raft
  before_peers env address s {r} {b} {c} directory assigned inits starts started =
      let s1 : System = record s { raft = r } in
      let s2 : System = record s1 { transport = initialised address s.node s.transport } in
      let entered : on_transport (init p.init_end (as_uint64 s.node.id) s.node.peers 4096 address 0)
            s1
          ≡ (ret b, s2) =
        on_transport_run (init p.init_end (as_uint64 s.node.id) s.node.peers 4096 address 0) s1
          (init_run address s.node s.transport inits) in
      bind_ret _ _ s (gets_ret (λ s. s.node) s)
      ∙ rw (directory, initial_peers_lem s.node.join)
          (then_ret _ _ s (on_raft_run (start_node env p.serialize []) s started)
            ∙ then_ret _ _ s1 (reads_ret _ s1 assigned)
            ∙ then_ret _ _ s1 entered
            ∙ then_ret _ _ s2 (reads_ret _ s2 starts))

  -- `StartRaft`, on the static transport, which no shared pointer owns, where all else that it uses
  -- succeeds, a null pointer cannot be written through, and the ends without a return statement are
  -- passed. The state machine is started without peers, whether the node joins or not: its term and
  -- its members stay. The queues are started if the node is the only peer; otherwise the start is
  -- undefined at the first other peer, with no queue started and no peer added.
  pub start_raft_lem :
      (env : Env) (address : ℕ) (s : System) {li : ℕ} {b c : Bool}
      → s.transport.is_shared ≡ false
      → p.directory_ready s.node.snapdir ≡ true
      → p.timer_added ≡ true
      → p.assign_end ≡ ret tt
      → p.init_end ≡ ret b
      → p.start_end ≡ ret c
      → RaftLog.last_index s.raft.raftlog ≡ ret li
      → let (x, s') = start_raft p env address s in
        let others = has_other s.node.id 0 s.node.peers in
        (x ≡ (if others then trap bad_weak_ptr else ret tt))
        × (s'.node.is_serving ≡ (if others then s.node.is_serving else true))
        × (s'.transport.peers ≡ s.transport.peers)
        × (s'.raft.state ≡ StateType.follower)
        × (s'.raft.term ≡ s.raft.term)
        × (s'.raft.prs ≡ s.raft.prs)
  start_raft_lem env address s {li} {b} {c} own directory timer assigned inits starts last =
      let started = start_node_lem env p.serialize [] s.raft last tt in
      let r' : Raft = (start_node env p.serialize [] s.raft).1 in
      let raft = ap (λ x. (x, r')) started.0 in
      let s2 : System = record s {
        raft = r';
        transport = initialised address s.node s.transport;
      } in
      let begin = before_peers env address s directory assigned inits starts raft in
      let others = has_other s.node.id 0 s.node.peers in
      let add = on_transport (add_peers p s.node.id s.node.peers 0 s.node.peers) in
      let loop =
        on_transport_run (add_peers p s.node.id s.node.peers 0 s.node.peers) s2
          (add_peers_run s.node.id s.node.peers 0 s.node.peers s2.transport own) in
      elim (Bool-cases others) [
        | inl some_other ↦
            let run : add s2 ≡ (trap bad_weak_ptr, s2) =
              loop ∙ ap (λ o. (if o then trap bad_weak_ptr else ret tt, s2)) some_other in
            rw (begin ∙ then_trap add (start_serve_channels p) s2 run, some_other)
              (refl, refl, refl, started.1, started.3, started.4)
        | inr alone ↦
            let run : add s2 ≡ (ret tt, s2) =
              loop ∙ ap (λ o. (if o then trap bad_weak_ptr else ret tt, s2)) alone in
            rw (begin ∙ then_ret add (start_serve_channels p) s2 run ∙ serving_run s2 timer, alone)
              (refl, refl, refl, started.1, started.3, started.4)
      ]
