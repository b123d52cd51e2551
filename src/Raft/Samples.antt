-- ===== src/Raft/Samples.antt =====
-- A node without members, for the instances of theorems that rest on the state machine.
use anraft.Base.{
  ◌≡◌, refl, false, none, [], ◌∷◌, add64, sub64, ret, trap, missing_return, uninitialised,
}
use anraft.Base.Int.{pos}
use anraft.Proto.{empty_snapshot, empty_entry}
use anraft.RaftLog
use anraft.Unstable
use anraft.Raft.Defs.{Raft, Env, StateType, TickFunc, StepFunc}

-- What has no end, or reads what nothing has assigned, traps.
abbrev pub trapping : Env
trapping = record {
  log = record {
    new_log = λ _. trap missing_return;
    term = λ _ _. trap missing_return;
    last_term = λ _. trap missing_return;
    append_entry = λ _ _. trap missing_return;
    append_repeated = λ _ _. trap missing_return;
  };
  step_follower_end = λ _ _. trap missing_return;
  step_candidate_end = λ _ _. trap missing_return;
  step_leader_end = λ _ _. trap missing_return;
  poll_single = λ _. ret false;
  check_quorum_active = λ _. trap missing_return;
  last_pending_request_ctx = λ _. trap missing_return;
  grant = λ _. trap uninitialised;
  campaign_vars = λ _. trap uninitialised;
  heartbeat_commit = λ _. trap uninitialised;
  rand_generator = λ _ _. pos 0;
}

abbrev pub lone : Raft
lone = record {
  id = 1;
  term = 1;
  vote = 0;
  state = StateType.leader;
  pre_vote = false;
  check_quorum = false;
  is_learner = false;
  max_msg_size = 100;
  prs = [];
  learner_prs = [];
  votes = [];
  msgs = [];
  lead = 1;
  lead_transferee = 0;
  tick_func = TickFunc.heartbeat_tick;
  step_func = StepFunc.leader_step;
  election_elapsed = pos 0;
  heartbeat_elapsed = pos 0;
  heartbeat_timeout = pos 1;
  election_timeout = pos 10;
  randomized_election_timeout = pos 12;
  raftlog = record {
    storage = none;
    unstable = record { snapshot = empty_snapshot; ents = []; offset = 0 };
    committed = 0;
    applied = 0;
  };
  draws = 0;
}

-- The node with a tail whose last index is 4.
abbrev pub with_tail : Raft
with_tail = record lone {
  raftlog = record (lone.raftlog) {
    unstable = record { snapshot = empty_snapshot; ents = empty_entry ∷ []; offset = 4 };
  };
}

pub with_tail-last_index : RaftLog.last_index with_tail.raftlog ≡ ret 4
unfolding RaftLog.last_index Unstable.maybe_last_index add64 sub64
with_tail-last_index = refl
