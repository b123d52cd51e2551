-- ===== src/Raft/Defs/Step.antt =====
-- The handling of messages and ticks. A panic that the source leaves as a TODO is not there, and a
-- step function ends with what its missing return gives.
use anraft.Base.{
  ℕ, Bool, true, false, ◌||◌, ◌&&◌, not, Option, none, some, ltb, ◌==◌, if◌then◌else◌, trap,
  bad_function_call,
}
use anraft.Base.Action.{Action, ◌>>=◌, ◌>>◌, pure, reads, gets, modify, skip, when, for_each}
use anraft.Base.Int.{pos, ◌+ℤ◌, ltb_ℤ}
use anraft.Base.Map.{contains}
use anraft.Proto.{RaftError, Message, MessageType, empty_message}
use anraft.Progress.{Progress}
use anraft.RaftLog
use anraft.Raft.Defs.State.{
  Raft, Env, StateType, CampaignType, TickFunc, StepFunc, quorum, get_progress,
}
use anraft.Raft.Defs.Roles.{
  promotable, past_election_timeout, become_follower, become_candidate, become_leader, poll,
}
use anraft.Raft.Defs.Send.{send, bcast_append, handle_append_entries}
use anraft.Raft.Defs.Commit.{update_progress, maybe_commit, append_entry}

-- Comparisons of enums.
unfoldable pub is_leader : StateType → Bool
is_leader StateType.leader = true
is_leader _ = false

unfoldable pub is_pre_candidate : StateType → Bool
is_pre_candidate StateType.pre_candidate = true
is_pre_candidate _ = false

unfoldable pub is_vote : MessageType → Bool
is_vote MessageType.vote = true
is_vote _ = false

module _ (env : Env) where
  unfoldable pub on_follower : MessageType → Message → Action Raft (Unit {0})
  on_follower MessageType.app msg = do
    modify (λ r. record r { election_elapsed = pos 0; lead = msg.from })
    handle_append_entries env msg
  on_follower _ msg = skip

  -- `StepFollower`
  unfoldable pub step_follower : Message → Action Raft RaftError
  unfolding on_follower
  step_follower msg = do on_follower msg.kind msg; reads (λ r. env.step_follower_end r msg)

  -- The answer to a vote: the leader's role for more than a quorum, else back to a follower.
  unfoldable pub on_vote_resp : Message → Action Raft (Unit {0})
  unfolding is_pre_candidate
  on_vote_resp msg = do
    grant ← poll env msg.from msg.kind (not msg.reject)
    needed ← gets quorum
    state ← gets (λ r. r.state)
    if ltb_ℤ (pos needed) grant
        then if is_pre_candidate state
          then skip
          else (modify (become_leader env) >> bcast_append env)
        else modify (λ r. become_follower env r.term 0 r)

  unfoldable pub on_candidate : MessageType → Message → Action Raft (Unit {0})
  unfolding on_vote_resp
  on_candidate MessageType.pre_vote_resp msg = on_vote_resp msg
  on_candidate MessageType.vote_resp msg = on_vote_resp msg
  on_candidate _ msg = skip

  -- `StepCandidate`
  unfoldable pub step_candidate : Message → Action Raft RaftError
  unfolding on_candidate
  step_candidate msg = do on_candidate msg.kind msg; reads (λ r. env.step_candidate_end r msg)

  -- The first switch of `StepLeader`: `some` is an early return.
  unfoldable pub on_leader_local : MessageType → Message → Action Raft (Option RaftError)
  on_leader_local MessageType.check_quorum msg = do
    active ← reads env.check_quorum_active
    when (not active) (modify (λ r. become_follower env r.term 0 r))
    pure none
  on_leader_local MessageType.prop msg = do
    member ← gets (λ r. contains r.id r.prs)
    transferee ← gets (λ r. r.lead_transferee)
    if not member
        then pure (some RaftError.proposal_dropped)
        else if not (transferee == 0)
        then pure (some RaftError.proposal_dropped)
        else (append_entry env msg.entries >> bcast_append env >> pure none)
  on_leader_local _ msg = pure none

  -- The second switch, with the progress of the sender.
  unfoldable pub on_leader_peer : MessageType → Message → Action Raft (Unit {0})
  on_leader_peer MessageType.app_resp msg = do
    pr ← get_progress msg.from
    if msg.reject then skip else do
      update_progress pr msg.index
      changed ← maybe_commit env
      when changed (bcast_append env)
  on_leader_peer _ msg = get_progress msg.from >> skip

  -- `StepLeader`
  unfoldable pub step_leader : Message → Action Raft RaftError
  unfolding on_leader_local on_leader_peer
  step_leader msg = do
    early ← on_leader_local msg.kind msg
    elim early [
      | some err ↦ pure err
      | none ↦ on_leader_peer msg.kind msg >> reads (λ r. env.step_leader_end r msg)
    ]

  -- The call of `step_func_`.
  unfoldable pub call_step : StepFunc → Message → Action Raft RaftError
  unfolding step_follower step_candidate step_leader
  call_step StepFunc.no_step msg = reads (λ _. trap bad_function_call)
  call_step StepFunc.follower_step msg = step_follower msg
  call_step StepFunc.candidate_step msg = step_candidate msg
  call_step StepFunc.leader_step msg = step_leader msg

  -- The variables `term` and `msg_type` of `Campaign`.
  unfoldable pub campaign_vars : CampaignType → ℕ → Action Raft (ℕ × MessageType)
  campaign_vars CampaignType.pre_election term = reads env.campaign_vars
  campaign_vars _ term = pure (term, MessageType.vote)

  unfoldable pub campaign_start : CampaignType → Action Raft (Unit {0})
  campaign_start CampaignType.pre_election = skip
  campaign_start _ = modify (become_candidate env)

  -- The loop of `Campaign` over the other members.
  unfoldable pub request_vote : CampaignType → ℕ → ℕ × Progress → Action Raft (Unit {0})
  request_vote t term (to, _) = do
    id ← gets (λ r. r.id)
    if to == id then skip else do
      (msg_term, kind) ← campaign_vars t term
      send (record empty_message { term = msg_term; to = to; kind = kind })

  -- `Campaign`
  unfoldable pub campaign : CampaignType → Action Raft (Unit {0})
  unfolding campaign_start
  campaign t = do
    campaign_start t
    term ← gets (λ r. r.term)
    needed ← gets quorum
    single ← if needed == 0 then pure false else reads env.poll_single
    if single then skip else do prs ← gets (λ r. r.prs); for_each prs (request_vote t term)

  -- MsgHup in `Step`
  unfoldable pub on_hup : Action Raft (Unit {0})
  unfolding is_leader
  on_hup = do
    state ← gets (λ r. r.state)
    pre_vote ← gets (λ r. r.pre_vote)
    if is_leader state then skip else if pre_vote then skip else campaign CampaignType.election

  -- MsgVote and MsgPreVote in `Step`. The answer is built and thrown away.
  unfoldable pub on_vote : Message → Action Raft (Unit {0})
  unfolding is_vote
  on_vote msg = do
    free ← gets (λ r. r.vote == 0 || r.vote == msg.from || ltb r.term msg.term)
    up_to_date ←
        if free
        then reads (λ r. RaftLog.is_up_to_date env.log r.raftlog msg.index msg.term)
        else pure false
    when (up_to_date && is_vote msg.kind)
        (modify (λ r. record r { vote = msg.from; election_elapsed = pos 0 }))

  unfoldable pub on_vote_request : Message → Action Raft RaftError
  unfolding on_vote
  on_vote_request msg = do
    learner ← gets (λ r. r.is_learner)
    if learner then pure RaftError.none_err else (on_vote msg >> pure RaftError.none_err)

  unfoldable pub step_kind : MessageType → Message → Action Raft RaftError
  unfolding on_hup on_vote_request call_step
  step_kind MessageType.hup msg = on_hup >> pure RaftError.none_err
  step_kind MessageType.vote msg = on_vote_request msg
  step_kind MessageType.pre_vote msg = on_vote_request msg
  step_kind _ msg = do f ← gets (λ r. r.step_func); call_step f msg

  -- `Step`
  unfoldable pub step : Message → Action Raft RaftError
  unfolding step_kind
  step msg = step_kind msg.kind msg

  -- The result of `Step` that a tick does not look at.
  unfoldable pub step_local : MessageType → Action Raft (Unit {0})
  step_local kind = do
    id ← gets (λ r. r.id)
    step (record empty_message { kind = kind; from = id }) >> skip

  -- `TickElection`
  unfoldable pub tick_election : Action Raft (Unit {0})
  unfolding step_local
  tick_election = do
    modify (λ r. record r { election_elapsed = r.election_elapsed +ℤ pos 1 })
    due ← gets (λ r. promotable r && past_election_timeout r)
    when due (modify (λ r. record r { election_elapsed = pos 0 }) >> step_local MessageType.hup)

  -- `TickHeatbeat`
  unfoldable pub tick_heartbeat : Action Raft (Unit {0})
  unfolding step_local
  tick_heartbeat = do
    modify λ r. record r {
      election_elapsed = r.election_elapsed +ℤ pos 1;
      heartbeat_elapsed = r.heartbeat_elapsed +ℤ pos 1;
    }
    election_due ← gets (λ r. ltb_ℤ r.election_timeout r.election_elapsed)
    when election_due (do
      modify (λ r. record r { election_elapsed = pos 0 })
      check ← gets (λ r. r.check_quorum)
      when check (step_local MessageType.check_quorum))
    state ← gets (λ r. r.state)
    beat_due ← gets (λ r. is_leader state && ltb_ℤ r.heartbeat_timeout r.heartbeat_elapsed)
    when beat_due (do
      modify (λ r. record r { heartbeat_elapsed = r.heartbeat_elapsed +ℤ pos 1 })
      step_local MessageType.beat)

  -- `Tick`
  unfoldable pub call_tick : TickFunc → Action Raft (Unit {0})
  unfolding tick_election tick_heartbeat
  call_tick TickFunc.no_tick = reads (λ _. trap bad_function_call)
  call_tick TickFunc.election_tick = tick_election
  call_tick TickFunc.heartbeat_tick = tick_heartbeat

  unfoldable pub tick : Action Raft (Unit {0})
  unfolding call_tick
  tick = do f ← gets (λ r. r.tick_func); call_tick f
