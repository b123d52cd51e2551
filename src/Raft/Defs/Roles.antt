-- ===== src/Raft/Defs/Roles.antt =====
-- The changes of role, and the timers.
use anraft.Base.{ℕ, suc, Bool, true, false, [], ◌∷◌, if◌then◌else◌, add64}
use anraft.Base.Action.{Action, ◌>>=◌, ◌>>◌, reads, gets, modify}
use anraft.Base.Int.{ℤ, pos, ◌+ℤ◌, leb_ℤ}
use anraft.Base.Map.{Map, contains, assign}
use anraft.Proto.{MessageType}
use anraft.Raft.Defs.State.{
  Raft, Env, follower, leader, election_tick, heartbeat_tick, follower_step, candidate_step,
  leader_step,
}

-- `Promotable`
unfoldable pub promotable : Raft → Bool
promotable r = contains r.id r.prs

-- `PastElectionTimeout`
unfoldable pub past_election_timeout : Raft → Bool
past_election_timeout r = leb_ℤ r.randomized_election_timeout r.election_elapsed

-- `Poll` of the votes without the start value of `grant`.
unfoldable pub count_granted : Map Bool → ℕ
count_granted [] = 0
count_granted ((_, true) ∷ m) = suc (count_granted m)
count_granted ((_, false) ∷ m) = count_granted m

unfoldable pub record_vote : ℕ → Bool → Raft → Raft
record_vote id vote r =
    if contains id r.votes then r else record r { votes = assign id vote r.votes }

module _ (env : Env) where
  -- `ResetRandomizedElectionTimeout`
  unfoldable pub reset_randomized_election_timeout : Raft → Raft
  reset_randomized_election_timeout r = record r {
    randomized_election_timeout =
        r.election_timeout +ℤ env.rand_generator r.draws r.election_timeout;
    draws = suc r.draws;
  }

  -- `Reset`; the term is not looked at.
  unfoldable pub reset : ℕ → Raft → Raft
  unfolding reset_randomized_election_timeout
  reset term r = reset_randomized_election_timeout r

  -- `BecomeFollower`
  unfoldable pub become_follower : ℕ → ℕ → Raft → Raft
  unfolding reset
  become_follower term lead r =
      let r' = reset term (record r { step_func = follower_step }) in
      record r' { tick_func = election_tick; lead = lead; state = follower }

  -- `BecomeCandidate`; the state is that of a follower.
  unfoldable pub become_candidate : Raft → Raft
  unfolding reset
  become_candidate r =
      let r' = reset (add64 r.term 1) (record r { step_func = candidate_step }) in
      record r' { tick_func = election_tick; vote = r.id; state = follower }

  -- `BecomeLeader`
  unfoldable pub become_leader : Raft → Raft
  unfolding reset
  become_leader r =
      let r' = reset r.term (record r { step_func = leader_step }) in
      record r' { tick_func = heartbeat_tick; lead = r.id; state = leader }

  -- `Poll` with its three arguments. `grant` is counted up from whatever it held.
  unfoldable pub poll : ℕ → MessageType → Bool → Action Raft ℤ
  poll id kind vote = do
    modify (record_vote id vote)
    start ← reads env.grant
    gets (λ r. start +ℤ pos (count_granted r.votes))
