-- ===== src/Raft/Tests/Data.antt =====
-- A node of three members, its log and what it gets.
use anraft.Base.{
  ℕ, ◌+◌, ◌≡◌, refl, true, false, some, List, [], ◌∷◌, arith, ret, trap, missing_return,
  uninitialised,
}
use anraft.Base.Int.{pos}
use anraft.Proto.{
  LogEntry, RaftError, Message, MessageType, empty_entry, empty_message, empty_hard_state,
  empty_conf_state, empty_snapshot,
}
use anraft.Progress.{Progress, ProgressState}
use anraft.Storage.{MemoryStorage, as_storage}
use anraft.RaftLog.{RaftLog, Unwritten}
use anraft.RaftLog
use anraft.RaftLog.Query.{Ends, IsBacked, indices_backed, is_up_to_date_lem}
use anraft.Raft.Defs.{Raft, Env, StateType, TickFunc, StepFunc}
use anraft.Raft.Frame.{Event, deliver, timer}

abbrev pub entry : ℕ → ℕ → LogEntry
entry i t = record empty_entry { index = i; term = t }

abbrev pub stored : MemoryStorage
stored = record {
  hard_state = empty_hard_state;
  conf_state = empty_conf_state;
  snapshot = empty_snapshot;
  ents = entry 5 1 ∷ entry 6 1 ∷ entry 7 2 ∷ [];
}

abbrev pub log_to_7 : RaftLog
log_to_7 = record {
  storage = some (as_storage stored);
  unstable = record { snapshot = empty_snapshot; ents = []; offset = 8 };
  committed = 6;
  applied = 5;
}

-- Every variable that is read before it is written holds zero, and what has no end traps, but for
-- the terms of the log, which are 2.
abbrev pub zeroes : Env
zeroes = record {
  log = record {
    new_log = λ _. trap missing_return;
    term = λ _ _. ret (RaftError.none_err, 2);
    last_term = λ _. ret 2;
    append_entry = λ _ _. trap missing_return;
    append_repeated = λ _ _. trap missing_return;
  };
  step_follower_end = λ _ _. trap missing_return;
  step_candidate_end = λ _ _. trap missing_return;
  step_leader_end = λ _ _. trap missing_return;
  poll_single = λ _. ret false;
  check_quorum_active = λ _. trap missing_return;
  last_pending_request_ctx = λ _. trap missing_return;
  grant = λ _. ret (pos 0);
  campaign_vars = λ _. trap uninitialised;
  heartbeat_commit = λ _. trap uninitialised;
  rand_generator = λ _ _. pos 0;
}

abbrev pub at_match : ℕ → Progress
at_match n = record { match = n; next = n + 1; state = ProgressState.probe; paused = false }

-- Node 1 of three, in term 2.
abbrev pub node : Raft
node = record {
  id = 1;
  term = 2;
  vote = 0;
  state = StateType.follower;
  pre_vote = false;
  check_quorum = false;
  is_learner = false;
  max_msg_size = 100;
  prs = (1, at_match 7) ∷ (2, at_match 7) ∷ (3, at_match 5) ∷ [];
  learner_prs = [];
  votes = [];
  msgs = [];
  lead = 0;
  lead_transferee = 0;
  tick_func = TickFunc.election_tick;
  step_func = StepFunc.follower_step;
  election_elapsed = pos 3;
  heartbeat_elapsed = pos 0;
  heartbeat_timeout = pos 1;
  election_timeout = pos 10;
  randomized_election_timeout = pos 12;
  raftlog = log_to_7;
  draws = 0;
}

-- The history of a request for a vote and a tick.
abbrev pub asked : List Event
asked =
    deliver (record empty_message { kind = MessageType.vote; from = 3; term = 5; index = 9 })
    ∷ timer
    ∷ []

abbrev pub vote_from : ℕ → Message
vote_from n = record empty_message { kind = MessageType.vote; from = n; term = 5; index = 9 }

pub log_to_7-Ends : Ends log_to_7 6 7
log_to_7-Ends =
    let backed : IsBacked log_to_7 stored = record {
      stored = refl;
      valid = ground arith;
      tail = ground arith;
    } in
    let both = indices_backed log_to_7 stored backed in
    record {
      first_is = both.0;
      last_is = both.1;
      first_word = omega arith;
      last_word = omega arith;
    }

pub newer : RaftLog.is_up_to_date zeroes.log log_to_7 9 5 ≡ ret true
newer = is_up_to_date_lem zeroes.log log_to_7 log_to_7-Ends.last_is 9 5 refl

abbrev pub leading : Raft
leading = record node {
  state = StateType.leader;
  tick_func = TickFunc.heartbeat_tick;
  step_func = StepFunc.leader_step;
  lead = 1;
}
