-- ===== src/Raft/Cluster.antt =====
-- Nodes that send each other what they have sent, and get proposals from clients.
use anraft.Base.{
  ℕ, ◌≡◌, refl, ap, subst, ◌∙◌, inl, inr, Bool-cases, List, [], ◌∷◌, ◌++◌, arith, ◌==◌,
  if◌then◌else◌,
}
use mathlib.Core.Path.{subst⁻¹}
use anraft.Base.Action.{do_blocks}
use anraft.Base.Frame.{Keeps, then-Keeps, skip-Keeps}
use anraft.Proto.{Message, MessageType}
use anraft.Raft.Defs.{
  Raft, Env, StepFunc, on_follower, on_candidate, on_leader_local, on_leader_peer, on_vote_request,
  call_step, step, tick,
}
use anraft.Raft.Frame.{IsLocal, Grants, call_step-Keeps, on_vote_request-Keeps}
pub mod Idle
pub mod Group
pub mod Stall

-- The nodes by their numbers, and one of them replaced.
abbrev pub Cluster : Type 0
Cluster = ℕ → Raft

abbrev pub put_node : ℕ → Raft → Cluster → Cluster
put_node i r c j = if i == j then r else c j

-- The clusters that ticks, deliveries and proposals lead to: any node gets, at any time and as
-- often as it comes, any message that any node has sent, and any proposal of a client.
pub data Reaches (envs : ℕ → Env) : Cluster → Cluster → Type 0 where
  stays : (c : Cluster) → Reaches envs c c
  ticks :
      (c d : Cluster) (i : ℕ)
      → Reaches envs (put_node i (tick (envs i) (c i)).1 c) d
      → Reaches envs c d
  delivers :
      (c d : Cluster) (i j : ℕ) (before after : List Message) (msg : Message)
      → (c j).msgs ≡ before ++ msg ∷ after
      → Reaches envs (put_node i (step (envs i) msg (c i)).1 c) d
      → Reaches envs c d
  proposes :
      (c d : Cluster) (i : ℕ) (msg : Message)
      → msg.kind ≡ MessageType.prop
      → Reaches envs (put_node i (step (envs i) msg (c i)).1 c) d
      → Reaches envs c d

abbrev pub AllVotes : List Message → Type 0
AllVotes [] = Unit {0}
AllVotes (m ∷ ms) = (m.kind ≡ MessageType.vote) × AllVotes ms

pub append-AllVotes : (xs ys : List Message) → AllVotes xs → AllVotes ys → AllVotes (xs ++ ys)
append-AllVotes [] ys h k = k
append-AllVotes (x ∷ xs) ys h k = (h.0, append-AllVotes xs ys h.1 k)

one_of-AllVotes :
    (before after : List Message) (msg : Message)
    → AllVotes (before ++ msg ∷ after)
    → msg.kind ≡ MessageType.vote
one_of-AllVotes [] after msg h = h.0
one_of-AllVotes (m ∷ ms) after msg h = one_of-AllVotes ms after msg h.1

-- A property of each node that lets it send nothing but requests for votes, and that ticks, such
-- requests and proposals keep.
pub record IsKept (envs : ℕ → Env) (P : ℕ → Raft → Type 0) : Type 0 where
  pub asks : (i : ℕ) (r : Raft) → P i r → AllVotes r.msgs
  pub ticked : (i : ℕ) (r : Raft) → P i r → P i (tick (envs i) r).1
  pub asked :
      (i : ℕ) (msg : Message) (r : Raft)
      → msg.kind ≡ MessageType.vote
      → P i r
      → P i (step (envs i) msg r).1
  pub proposed :
      (i : ℕ) (msg : Message) (r : Raft)
      → msg.kind ≡ MessageType.prop
      → P i r
      → P i (step (envs i) msg r).1

module _ (envs : ℕ → Env) (P : ℕ → Raft → Type 0) where
  put-kept :
      (c : Cluster) (i : ℕ) (r : Raft)
      → P i r
      → ((j : ℕ) → P j (c j))
      → (j : ℕ) → P j (put_node i r c j)
  put-kept c i r h all j = elim (Bool-cases (i == j)) [
    | inl same ↦ rw same (let e : i ≡ j = ground arith in subst (λ n. P n r) e h)
    | inr other ↦ rw other (all j)
  ]

  -- Such a property holds in whatever the cluster reaches.
  pub Reaches-kept :
      (k : IsKept envs P) {c d : Cluster}
      → Reaches envs c d
      → ((i : ℕ) → P i (c i))
      → (i : ℕ) → P i (d i)
  Reaches-kept k (stays _) all = all
  Reaches-kept k (ticks c _ i steps) all =
      Reaches-kept k steps (put-kept c i (tick (envs i) (c i)).1 (k.ticked i (c i) (all i)) all)
  Reaches-kept k (delivers c _ i j before after msg sent steps) all =
      let vote = one_of-AllVotes before after msg (subst AllVotes sent (k.asks j (c j) (all j))) in
      Reaches-kept k steps
        (put-kept c i (step (envs i) msg (c i)).1 (k.asked i msg (c i) vote (all i)) all)
  Reaches-kept k (proposes c _ i msg prop steps) all =
      Reaches-kept k steps
        (put-kept c i (step (envs i) msg (c i)).1 (k.proposed i msg (c i) prop (all i)) all)

vote_run :
    (env : Env) (msg : Message) (r : Raft)
    → msg.kind ≡ MessageType.vote
    → step env msg r ≡ on_vote_request env msg r
unfolding step
vote_run env msg r k = rw k refl

proposal_run :
    (env : Env) (msg : Message) (r : Raft)
    → msg.kind ≡ MessageType.prop
    → step env msg r ≡ call_step env r.step_func msg r
unfolding step do_blocks
proposal_run env msg r k = ground (arith, k)

module _ (env : Env) (R : Raft → Raft → Type 0) (f : IsLocal env R) where
  pub vote-Keeps :
      Grants R → (msg : Message) (r : Raft) → msg.kind ≡ MessageType.vote → R r (step env msg r).1
  vote-Keeps g msg r k = rw (vote_run env msg r k) ((on_vote_request-Keeps env R f g msg).apply r)

  -- A proposal, where a leader keeps to the relation.
  pub proposal-Keeps :
      (msg : Message) (r : Raft)
      → msg.kind ≡ MessageType.prop
      → Keeps R (on_leader_local env MessageType.prop msg)
      → R r (step env msg r).1
  unfolding on_follower on_candidate on_leader_peer
  proposal-Keeps msg r k h = rw (proposal_run env msg r k) (
      (call_step-Keeps env R f.order msg (rw k (skip-Keeps R f.order)) (rw k (skip-Keeps R f.order))
          (subst⁻¹ (λ t. Keeps R (on_leader_local env t msg)) k h)
          (subst⁻¹ (λ t. Keeps R (on_leader_peer env t msg)) k (peer msg)) r.step_func).apply
        r)
    where
      peer : (msg : Message) → Keeps R (on_leader_peer env MessageType.prop msg)
      peer msg = then-Keeps R f.order _ _ (f.finds msg.from) (skip-Keeps R f.order)
