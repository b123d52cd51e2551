-- ===== src/Raft/Acks.antt =====
-- What the acknowledgement of a follower does at the leader.
use anraft.Base.{
  ℕ, ◌≡◌, ◌≢◌, ◌<◌, ◌≤◌, ◌⊎◌, inl, inr, refl, sym, ap, ◌∙◌, Bool, true, false, Option, none, some,
  [], arith, Outcome, ret, trap, ℕ_discrete, if◌then◌else◌,
}
use anraft.Base.Action.{Action, ◌>>=◌, ◌>>◌, do_blocks, reads, pure, bind_ret, then_ret, when, skip}
use mathlib.Core.Path.{subst⁻¹}
use anraft.Base.Map.{Map, find, contains, replace, find-replace_ne, find-replace_self}
use anraft.Proto.{Message, MessageType, RaftError}
use anraft.Progress.{Progress, maybe_update}
use anraft.Raft.Defs.{
  Raft, Env, in_prs, StepFunc, quorum, get_progress, read_progress, write_progress, update_progress,
  maybe_commit, bcast_append, on_leader_local, on_leader_peer, step_leader, step,
}
use anraft.Raft.Quorum.{matched, maybe_commit-quorum}
use anraft.Raft.Silence.{bcast_append_silent}

-- An action whose rest leaves the state alone.
bind_state :
    {A B : Type 0} (m : Action Raft A) (f : A → Action Raft B) (r : Raft)
    → ((a : A) → (f a (m r).1).1 ≡ (m r).1)
    → ((m >>= f) r).1 ≡ (m r).1
unfolding ◌>>=◌
bind_state {A} {B} m f r h = by_outcome (m r).0
  where
    by_outcome :
        (x : Outcome A)
        → (elim x as (λ _. Outcome B × Raft) [ ret a ↦ f a (m r).1 | trap e ↦ (trap e, (m r).1) ]).1
          ≡ (m r).1
    by_outcome (ret a) = h a
    by_outcome (trap e) = refl

-- The leader with the sender's progress updated.
abbrev pub acked : ℕ → ℕ → Progress → Raft → Raft
acked from index p r = record r { prs = replace from (maybe_update index p).0 r.prs }

found_contains :
    (from : ℕ) (p : Progress) (m : Map Progress) → find from m ≡ some p → contains from m ≡ true
found_contains from p m h = ground arith

get_run :
    (from : ℕ) (p : Progress) (r : Raft)
    → find from r.prs ≡ some p
    → get_progress from r ≡ (ret (in_prs from), r)
unfolding get_progress
get_run from p r h = ground arith

update_run :
    (from index : ℕ) (p : Progress) (r : Raft)
    → find from r.prs ≡ some p
    → update_progress (in_prs from) index r ≡ (ret (maybe_update index p).1, acked from index p r)
unfolding update_progress read_progress write_progress
update_run from index p r h = rw h refl

quiet_after :
    (env : Env) (r : Raft) (changed : Bool) → r.id ≢ 0 → (when changed (bcast_append env) r).1 ≡ r
unfolding when do_blocks
quiet_after env r true h = ap (λ x. x.1) (bcast_append_silent env r h)
quiet_after env r false h = refl

commit_id : (env : Env) (r : Raft) → r.prs ≢ [] → (maybe_commit env r).1.id ≡ r.id
commit_id env r members = elim (maybe_commit-quorum env r members) [
  | inl (_, _, _, same) ↦ ap (λ (x : Raft). x.id) same
  | inr (_, same) ↦ ap (λ (x : Raft). x.id) same
]

module _ (env : Env) (msg : Message) (p : Progress) (r : Raft) where
  peer_run :
      r.id ≢ 0
      → find msg.from r.prs ≡ some p
      → msg.reject ≡ false
      → (acked msg.from msg.index p r).prs ≢ []
      → (on_leader_peer env MessageType.app_resp msg r).1
        ≡ (maybe_commit env (acked msg.from msg.index p r)).1
  unfolding on_leader_peer
  peer_run named found good members =
      let r1 : Raft = acked msg.from msg.index p r in
      let r2 : Raft = (maybe_commit env r1).1 in
      let counts : Action Raft (Unit {0}) =
        update_progress (in_prs msg.from) msg.index
        >> (maybe_commit env >>= λ changed. when changed (bcast_append env)) in
      let still_named : r2.id ≢ 0 = λ e. named (sym (commit_id env r1 members) ∙ e) in
      ap (λ x. x.1) (bind_ret _ _ r (get_run msg.from p r found))
      ∙ ap (λ (b : Bool). ((if b then skip else counts) r).1) good
      ∙ ap (λ x. x.1) (then_ret _ _ r (update_run msg.from msg.index p r found))
      ∙ bind_state (maybe_commit env) _ r1 (λ changed. quiet_after env r2 changed still_named)

  local_run : msg.kind ≡ MessageType.app_resp → on_leader_local env msg.kind msg r ≡ (ret none, r)
  unfolding on_leader_local pure
  local_run kind = ap (λ k. on_leader_local env k msg r) kind

  leader_run :
      msg.kind ≡ MessageType.app_resp
      → (step_leader env msg r).1 ≡ (on_leader_peer env MessageType.app_resp msg r).1
  unfolding step_leader ◌>>◌ reads
  leader_run kind =
      let end : Unit {0} → Action Raft RaftError = λ _. reads (λ r. env.step_leader_end r msg) in
      let rest : Option RaftError → Action Raft RaftError = λ early. elim early [
        | some err ↦ pure err
        | none ↦ on_leader_peer env msg.kind msg >>= end
      ] in
      ap (λ x. x.1) (bind_ret (on_leader_local env msg.kind msg) rest r (local_run kind))
      ∙ bind_state (on_leader_peer env msg.kind msg) end r (λ _. refl)
      ∙ ap (λ k. (on_leader_peer env k msg r).1) kind

  ack_run :
      msg.kind ≡ MessageType.app_resp
      → r.step_func ≡ StepFunc.leader_step
      → (step env msg r).1 ≡ (step_leader env msg r).1
  unfolding step do_blocks
  ack_run kind leads = ground arith

-- What an acknowledgement of index n by a member makes of the leader.
abbrev pub Acknowledges : ℕ → ℕ → Progress → Raft → Raft → Type 0
Acknowledges from n p r r' =
    (find from r'.prs ≡ some (maybe_update n p).0)
    × ((id : ℕ) → (id ≡ from) ⊎ (find id r'.prs ≡ find id r.prs))
    × ((r'.raftlog ≡ r.raftlog)
        ⊎ ((r.raftlog.committed < r'.raftlog.committed)
            × (quorum r' ≤ matched r'.raftlog.committed r')))

others_stay :
    (from n : ℕ) (p : Progress) (r : Raft) (id : ℕ)
    → (id ≡ from) ⊎ (find id (acked from n p r).prs ≡ find id r.prs)
others_stay from n p r id = elim (ℕ_discrete id from) [
  | yes same ↦ inl same
  | no other ↦ inr (find-replace_ne id from (maybe_update n p).0 r.prs other)
]

committed-Acknowledges :
    (env : Env) (from n : ℕ) (p : Progress) (r : Raft)
    → find from r.prs ≡ some p
    → (acked from n p r).prs ≢ []
    → Acknowledges from n p r (maybe_commit env (acked from n p r)).1
unfolding quorum
committed-Acknowledges env from n p r found members =
    let r1 : Raft = acked from n p r in
    let r2 : Raft = (maybe_commit env r1).1 in
    let here = find-replace_self from (maybe_update n p).0 p r.prs found in
    let others = others_stay from n p r in
    elim (maybe_commit-quorum env r1 members) [
      | inl (_, less, many, same) ↦
          subst⁻¹ (Acknowledges from n p r) same (here, others, inr (less, many))
      | inr (_, same) ↦ subst⁻¹ (Acknowledges from n p r) same (here, others, inl refl)
    ]

nobody : (from : ℕ) {q : Progress} → find from [] ≡ some q → ⊥
nobody from h = ground arith

-- The step is the update of the progress and then `MaybeCommit`.
pub acked_run :
    (env : Env) (msg : Message) (p : Progress) (r : Raft)
    → msg.kind ≡ MessageType.app_resp
    → msg.reject ≡ false
    → r.step_func ≡ StepFunc.leader_step
    → r.id ≢ 0
    → find msg.from r.prs ≡ some p
    → let r1 = acked msg.from msg.index p r in
      (r1.prs ≢ []) × ((step env msg r).1 ≡ (maybe_commit env r1).1)
acked_run env msg p r kind good leads named found =
    let r1 : Raft = acked msg.from msg.index p r in
    let here : find msg.from r1.prs ≡ some (maybe_update msg.index p).0 =
      find-replace_self msg.from (maybe_update msg.index p).0 p r.prs found in
    let members : r1.prs ≢ [] = λ e. nobody msg.from (sym (ap (find msg.from) e) ∙ here) in
    (
      members,
      ack_run env msg p r kind leads
          ∙ leader_run env msg p r kind
          ∙ peer_run env msg p r named found good members,
    )

-- An acknowledgement from a member, not a refusal, at a node with an id that handles messages as a
-- leader: the member's progress takes in the index, every other progress stays, and the log is as
-- before, or its commit index has grown to an index that a quorum of the members has now matched.
pub step-Acknowledges :
    (env : Env) (msg : Message) (p : Progress) (r : Raft)
    → msg.kind ≡ MessageType.app_resp
    → msg.reject ≡ false
    → r.step_func ≡ StepFunc.leader_step
    → r.id ≢ 0
    → find msg.from r.prs ≡ some p
    → Acknowledges msg.from msg.index p r (step env msg r).1
step-Acknowledges env msg p r kind good leads named found =
    let (members, run) = acked_run env msg p r kind good leads named found in
    subst⁻¹ (Acknowledges msg.from msg.index p r) run
      (committed-Acknowledges env msg.from msg.index p r found members)
