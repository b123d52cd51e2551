-- ===== src/Raft/Roles.antt =====
-- The roles that a node can take.
use anraft.Base.{ℕ, ◌≡◌, ◌≢◌, ◌⊎◌, inl, inr, refl, List, arith}
use anraft.Base.Action.{do_blocks}
use anraft.Base.Frame.{Preorder, Keeps}
use anraft.Proto.{Message}
use anraft.Raft.Defs.{
  Raft, Env, StateType, TickFunc, StepFunc, ProgressRef, in_prs, in_learners, on_log, get_progress,
  update_progress, write_progress, become_follower, become_candidate, become_leader, record_vote,
  send,
}
use anraft.Raft.Frame.{IsFrame, Grants, Event, run, run-frame}
use anraft.Raft.Frame.Broadcast.{bcast_append-Keeps}

-- The role and the two functions fit: a leader beats and handles messages as a leader, anybody
-- else is a follower by its state, waits for an election, and handles messages as a follower or a
-- candidate. No state is that of a candidate or a pre-candidate.
abbrev pub FitsRole : StateType → TickFunc → StepFunc → Type 0
FitsRole state tick step =
    ((state ≡ StateType.leader) × (tick ≡ TickFunc.heartbeat_tick) × (step ≡ StepFunc.leader_step))
    ⊎ ((state ≡ StateType.follower)
        × (tick ≡ TickFunc.election_tick)
        × ((step ≡ StepFunc.follower_step) ⊎ (step ≡ StepFunc.candidate_step)))

abbrev pub IsCoherent : Raft → Type 0
IsCoherent r = FitsRole r.state r.tick_func r.step_func

abbrev KeepsRole : Raft → Raft → Type 0
KeepsRole r r' = IsCoherent r → IsCoherent r'

KeepsRole-Preorder : Preorder KeepsRole
KeepsRole-Preorder = record { reflexive = λ r h. h; transitive = λ p q h. q (p h) }

send-KeepsRole : (msg : Message) → Keeps KeepsRole (send msg)
unfolding send do_blocks
send-KeepsRole msg = record { apply = λ r h. h }

get_progress-KeepsRole : (id : ℕ) → Keeps KeepsRole (get_progress id)
unfolding get_progress
get_progress-KeepsRole id = record { apply = λ r h. ground (arith, h) }

update_progress-KeepsRole : (pr : ProgressRef) (n : ℕ) → Keeps KeepsRole (update_progress pr n)
unfolding update_progress write_progress
update_progress-KeepsRole (in_prs id) n = record { apply = λ r h. h }
update_progress-KeepsRole (in_learners id) n = record { apply = λ r h. h }

KeepsRole-Grants : Grants KeepsRole
KeepsRole-Grants from r h = h

KeepsRole-IsFrame : (env : Env) → IsFrame env KeepsRole
unfolding become_follower become_candidate become_leader record_vote on_log
KeepsRole-IsFrame env = record {
  alone = record {
    order = KeepsRole-Preorder;
    requests = λ msg _. send-KeepsRole msg;
    follows = λ t lead r h. inr (refl, refl, inl refl);
    campaigns = λ r h. inr (refl, refl, inr refl);
    finds = get_progress-KeepsRole;
    waits = λ n r h. h;
    beats = λ n r h. h;
    beats_again = λ r h. h;
  };
  answers = λ msg _. send-KeepsRole msg;
  broadcasts =
      bcast_append-Keeps env KeepsRole KeepsRole-Preorder get_progress-KeepsRole send-KeepsRole;
  leads = λ r h. inl (refl, refl, refl);
  votes = λ id vote r h. ground (arith, h);
  updates = update_progress-KeepsRole;
  commits = λ index t. record { apply = λ r h. h };
  appends = λ msg. record { apply = λ r h. h };
  hears = λ lead r h. h;
}

-- A node that became a follower stays in one of three roles whatever happens to it: follower,
-- campaigning follower, or leader, each with its own timer and message handler. It is never in
-- the state of a candidate or a pre-candidate.
pub run-IsCoherent :
    (env : Env) (es : List Event) (r : Raft) (t lead : ℕ)
    → let r' = run env es (become_follower env t lead r) in
      IsCoherent r' × (r'.state ≢ StateType.candidate) × (r'.state ≢ StateType.pre_candidate)
run-IsCoherent env es r t lead =
    let start : IsCoherent (become_follower env t lead r) =
      unfold become_follower in inr (refl, refl, inl refl) in
    let end =
      run-frame env KeepsRole (KeepsRole-IsFrame env) KeepsRole-Grants es
        (become_follower env t lead r) start in
    (end, ground (arith, end), ground (arith, end))
