-- ===== src/Raft/Defs/State.antt =====
-- The fields of `Raft`, what the source leaves open, and the access to the log and the progress
-- maps.
use anraft.Base.{ℕ, ◌/◌, ◌+◌, Bool, Option, none, some, List, length, if◌then◌else◌, Outcome, ret}
use anraft.Base.Action.{Action}
use anraft.Base.Int.{ℤ}
use anraft.Base.Map.{Map, find, contains, assign, replace}
use anraft.Proto.{RaftError, Message, MessageType}
use anraft.Progress.{Progress, empty_progress}
use anraft.RaftLog.{RaftLog, Unwritten}

pub data StateType : Type 0 where
  follower candidate leader pre_candidate : StateType

pub data CampaignType : Type 0 where
  pre_election election transfer : CampaignType

-- The values of `tick_func_` and `step_func_`. `no_tick` and `no_step` are an empty std::function.
pub data TickFunc : Type 0 where
  no_tick election_tick heartbeat_tick : TickFunc

pub data StepFunc : Type 0 where
  no_step follower_step candidate_step leader_step : StepFunc

-- The fields in the order of the class. `draws` counts the calls of the random generator, and is
-- no field of the source.
pub record Raft : Type 0 where
  pub id : ℕ
  pub term : ℕ
  pub vote : ℕ
  pub state : StateType
  pub pre_vote : Bool
  pub check_quorum : Bool
  pub is_learner : Bool
  pub max_msg_size : ℕ
  pub prs : Map Progress
  pub learner_prs : Map Progress
  pub votes : Map Bool
  pub msgs : List Message
  pub lead : ℕ
  pub lead_transferee : ℕ
  pub tick_func : TickFunc
  pub step_func : StepFunc
  pub election_elapsed : ℤ
  pub heartbeat_elapsed : ℤ
  pub heartbeat_timeout : ℤ
  pub election_timeout : ℤ
  pub randomized_election_timeout : ℤ
  pub raftlog : RaftLog
  pub draws : ℕ

-- What the source leaves open: what the log leaves open, the ends of the step functions, which
-- have no return statement, the methods with an empty body, and the reads of variables that
-- nothing has assigned. Each may trap, or give any value. `rand_generator n` is the n-th call of
-- butil::RandGenerator.
pub record Env : Type 0 where
  pub log : Unwritten
  pub step_follower_end : Raft → Message → Outcome RaftError
  pub step_candidate_end : Raft → Message → Outcome RaftError
  pub step_leader_end : Raft → Message → Outcome RaftError
  pub poll_single : Raft → Outcome Bool
  pub check_quorum_active : Raft → Outcome Bool
  pub last_pending_request_ctx : Raft → Outcome (List ℕ)
  pub grant : Raft → Outcome ℤ
  pub campaign_vars : Raft → Outcome (ℕ × MessageType)
  pub heartbeat_commit : Raft → Outcome ℕ
  pub rand_generator : ℕ → ℤ → ℤ

-- A call of a method of `raftlog_`.
unfoldable pub on_log : {A : Type 0} → Action RaftLog A → Action Raft A
on_log m r = let (x, l) = m r.raftlog in (x, record r { raftlog = l })

-- `Quorum`
unfoldable pub quorum : Raft → ℕ
quorum r = length r.prs / 2 + 1

-- The pointer that `GetProgress` returns: into one of the two maps.
pub data ProgressRef : Type 0 where
  in_prs in_learners : ℕ → ProgressRef

add_learner : ℕ → Raft → Raft
add_learner id r =
    if contains id r.learner_prs
    then r
    else record r { learner_prs = assign id empty_progress r.learner_prs }

-- `GetProgress`: it is never null, since an unknown node becomes a learner.
unfoldable pub get_progress : ℕ → Action Raft ProgressRef
unfolding add_learner
get_progress id r =
    if contains id r.prs then (ret (in_prs id), r) else (ret (in_learners id), add_learner id r)

or_empty : Option Progress → Progress
or_empty none = empty_progress
or_empty (some p) = p

-- `*pr`, for a pointer that `GetProgress` returned.
unfoldable pub read_progress : ProgressRef → Raft → Progress
unfolding or_empty
read_progress (in_prs id) r = or_empty (find id r.prs)
read_progress (in_learners id) r = or_empty (find id r.learner_prs)

unfoldable pub write_progress : ProgressRef → Progress → Raft → Raft
write_progress (in_prs id) p r = record r { prs = replace id p r.prs }
write_progress (in_learners id) p r = record r { learner_prs = replace id p r.learner_prs }
