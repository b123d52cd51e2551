-- ===== src/Raft/Frame/Local.antt =====
-- What a node does by itself: requests for votes, and ticks.
use anraft.Base.{ℕ, refl, false, Option, none, some, ◌==◌}
use anraft.Base.Action.{Action, ◌>>◌, pure, reads, skip}
use anraft.Base.Frame.{
  Preorder, Keeps, bind-Keeps, then-Keeps, reads-Keeps, gets-Keeps, pure-Keeps, pure_bind-Keeps,
  skip-Keeps, modify-Keeps, if-Keeps, when-Keeps, for_each-Keeps,
}
use anraft.Base.Int.{pos}
use anraft.Proto.{RaftError, Message, MessageType, empty_message}
use anraft.Progress.{Progress}
use anraft.Raft.Defs.{
  Raft, Env, CampaignType, TickFunc, StepFunc, on_follower, step_follower, on_candidate,
  step_candidate, on_leader_local, on_leader_peer, step_leader, call_step, campaign_vars,
  request_vote, campaign, on_hup, on_vote, on_vote_request, step, tick_election, tick_heartbeat,
  step_local, call_tick, tick, is_leader, get_progress,
}
use anraft.Raft.Frame.Rules.{IsLocal, Grants}

-- The three step functions, by what they do for the kind of the message.
module _ (env : Env) (R : Raft → Raft → Type 0) (o : Preorder R) (msg : Message)
    (follower : Keeps R (on_follower env msg.kind msg))
    (candidate : Keeps R (on_candidate env msg.kind msg))
    (local : Keeps R (on_leader_local env msg.kind msg))
    (peer : Keeps R (on_leader_peer env msg.kind msg)) where
  step_leader-Keeps : Keeps R (step_leader env msg)
  unfolding step_leader
  step_leader-Keeps = bind-Keeps R o _ _ local early
    where
      early :
          (x : Option RaftError)
          → Keeps R (elim x as (λ _. Action Raft RaftError) [
            | some err ↦ pure err
            | none ↦ on_leader_peer env msg.kind msg >> reads (λ r. env.step_leader_end r msg)
          ])
      early (some err) = pure-Keeps R o err
      early none = then-Keeps R o _ _ peer (reads-Keeps R o _)

  pub call_step-Keeps : (g : StepFunc) → Keeps R (call_step env g msg)
  unfolding call_step step_follower step_candidate
  call_step-Keeps StepFunc.no_step = reads-Keeps R o _
  call_step-Keeps StepFunc.follower_step = then-Keeps R o _ _ follower (reads-Keeps R o _)
  call_step-Keeps StepFunc.candidate_step = then-Keeps R o _ _ candidate (reads-Keeps R o _)
  call_step-Keeps StepFunc.leader_step = step_leader-Keeps

module _ (env : Env) (R : Raft → Raft → Type 0) (f : IsLocal env R) where
  request_vote-Keeps :
      (term : ℕ) (p : ℕ × Progress) → Keeps R (request_vote env CampaignType.election term p)
  unfolding request_vote campaign_vars
  request_vote-Keeps term (to, p) = bind-Keeps R f.order _ _ (gets-Keeps R f.order _) λ id.
      if-Keeps R f.order (to == id) _ _ (skip-Keeps R f.order)
        (pure_bind-Keeps R f.order (term, MessageType.vote) _ (f.requests _ refl))

  campaign-Keeps : Keeps R (campaign env CampaignType.election)
  unfolding campaign
  campaign-Keeps = then-Keeps R f.order _ _ (modify-Keeps R f.order _ f.campaigns) (
      bind-Keeps R f.order _ _ (gets-Keeps R f.order _) λ term.
        bind-Keeps R f.order _ _ (gets-Keeps R f.order _) λ needed.
          bind-Keeps R f.order _ _
            (if-Keeps R f.order (needed == 0) _ _ (pure-Keeps R f.order false)
              (reads-Keeps R f.order _))
            λ single. if-Keeps R f.order single _ _ (skip-Keeps R f.order) (
              bind-Keeps R f.order _ _ (gets-Keeps R f.order _)
                λ prs. for_each-Keeps R f.order prs _ (request_vote-Keeps term)))

  pub on_hup-Keeps : Keeps R (on_hup env)
  unfolding on_hup
  on_hup-Keeps = bind-Keeps R f.order _ _ (gets-Keeps R f.order _) λ state.
      bind-Keeps R f.order _ _ (gets-Keeps R f.order _) λ pre_vote.
        if-Keeps R f.order (is_leader state) _ _ (skip-Keeps R f.order)
          (if-Keeps R f.order pre_vote _ _ (skip-Keeps R f.order) campaign-Keeps)

  pub on_vote_request-Keeps : Grants R → (msg : Message) → Keeps R (on_vote_request env msg)
  unfolding on_vote_request
  on_vote_request-Keeps grants msg = bind-Keeps R f.order _ _ (gets-Keeps R f.order _) λ learner.
      if-Keeps R f.order learner _ _ (pure-Keeps R f.order RaftError.none_err)
        (then-Keeps R f.order _ _ vote (pure-Keeps R f.order RaftError.none_err))
    where
      vote : Keeps R (on_vote env msg)
      vote = bind-Keeps R f.order _ _ (gets-Keeps R f.order _) λ free.
          bind-Keeps R f.order _ _
            (if-Keeps R f.order free _ _ (reads-Keeps R f.order _) (pure-Keeps R f.order false))
            λ up_to_date. when-Keeps R f.order _ _ (modify-Keeps R f.order _ (grants msg.from))

  local_finds : (msg : Message) → Keeps R (get_progress msg.from >> skip)
  local_finds msg = then-Keeps R f.order _ _ (f.finds msg.from) (skip-Keeps R f.order)

  -- The kinds of message that a node sends to itself.
  local_hup-Keeps :
      (id : ℕ) → Keeps R (step env (record empty_message { kind = MessageType.hup; from = id }))
  unfolding step
  local_hup-Keeps id =
      then-Keeps R f.order _ _ on_hup-Keeps (pure-Keeps R f.order RaftError.none_err)

  local_check-Keeps :
      (id : ℕ)
      → Keeps R (step env (record empty_message { kind = MessageType.check_quorum; from = id }))
  unfolding step on_follower on_candidate on_leader_local on_leader_peer
  local_check-Keeps id = bind-Keeps R f.order _ _ (gets-Keeps R f.order _) (
      let msg : Message = record empty_message { kind = MessageType.check_quorum; from = id } in
      call_step-Keeps env R f.order msg (skip-Keeps R f.order) (skip-Keeps R f.order) (checks msg)
        (local_finds msg))
    where
      checks : (msg : Message) → Keeps R (on_leader_local env MessageType.check_quorum msg)
      checks msg = bind-Keeps R f.order _ _ (reads-Keeps R f.order _) λ active.
          then-Keeps R f.order _ _
            (when-Keeps R f.order _ _ (modify-Keeps R f.order _ (λ r. f.follows r.term 0 r)))
            (pure-Keeps R f.order none)

  local_beat-Keeps :
      (id : ℕ) → Keeps R (step env (record empty_message { kind = MessageType.beat; from = id }))
  unfolding step on_follower on_candidate on_leader_local on_leader_peer
  local_beat-Keeps id = bind-Keeps R f.order _ _ (gets-Keeps R f.order _) (
      let msg : Message = record empty_message { kind = MessageType.beat; from = id } in
      call_step-Keeps env R f.order msg (skip-Keeps R f.order) (skip-Keeps R f.order)
        (pure-Keeps R f.order none) (local_finds msg))

  step_local-Keeps :
      (kind : MessageType)
      → ((id : ℕ) → Keeps R (step env (record empty_message { kind = kind; from = id })))
      → Keeps R (step_local env kind)
  unfolding step_local
  step_local-Keeps kind h =
      bind-Keeps R f.order _ _ (gets-Keeps R f.order _)
        λ id. then-Keeps R f.order _ _ (h id) (skip-Keeps R f.order)

  tick_election-Keeps : Keeps R (tick_election env)
  unfolding tick_election
  tick_election-Keeps = then-Keeps R f.order _ _ (modify-Keeps R f.order _ (λ r. f.waits _ r)) (
      bind-Keeps R f.order _ _ (gets-Keeps R f.order _) λ due. when-Keeps R f.order due _ (
        then-Keeps R f.order _ _ (modify-Keeps R f.order _ (f.waits (pos 0)))
          (step_local-Keeps MessageType.hup local_hup-Keeps)))

  tick_heartbeat-Keeps : Keeps R (tick_heartbeat env)
  unfolding tick_heartbeat
  tick_heartbeat-Keeps = then-Keeps R f.order _ _ (modify-Keeps R f.order _ (λ r. f.beats _ r)) (
      bind-Keeps R f.order _ _ (gets-Keeps R f.order _) λ election_due.
        then-Keeps R f.order _ _
          (when-Keeps R f.order election_due _ (
            then-Keeps R f.order _ _ (modify-Keeps R f.order _ (f.waits (pos 0))) (
              bind-Keeps R f.order _ _ (gets-Keeps R f.order _) λ check.
                when-Keeps R f.order check _
                  (step_local-Keeps MessageType.check_quorum local_check-Keeps))))
          (bind-Keeps R f.order _ _ (gets-Keeps R f.order _) λ state.
            bind-Keeps R f.order _ _ (gets-Keeps R f.order _) λ beat_due.
              when-Keeps R f.order beat_due _ (
                then-Keeps R f.order _ _ (modify-Keeps R f.order _ f.beats_again)
                  (step_local-Keeps MessageType.beat local_beat-Keeps))))

  pub tick-Keeps : Keeps R (tick env)
  unfolding tick
  tick-Keeps = bind-Keeps R f.order _ _ (gets-Keeps R f.order _) by_tick
    where
      by_tick : (g : TickFunc) → Keeps R (call_tick env g)
      by_tick TickFunc.no_tick = reads-Keeps R f.order _
      by_tick TickFunc.election_tick = tick_election-Keeps
      by_tick TickFunc.heartbeat_tick = tick_heartbeat-Keeps
