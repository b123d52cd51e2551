-- ===== src/Raft/Campaign.antt =====
-- What a node does when its election timer runs out.
use mathlib.Core.List.{append-nil, append_assoc}
use anraft.Base.{ℕ, ◌≡◌, ◌≢◌, refl, false, List, [], ◌∷◌, ◌++◌, arith, ◌==◌, ret, if◌then◌else◌}
use anraft.Base.Action.{for_each, do_blocks}
use anraft.Base.Map.{Map}
use anraft.Proto.{Message, MessageType, RaftError, empty_message}
use anraft.Progress.{Progress}
use anraft.Raft.Defs.{
  Raft, Env, StateType, CampaignType, quorum, become_candidate, request_vote, campaign_vars,
  campaign, step, send,
}

-- A request for a vote to every member but the node itself.
abbrev pub vote_requests : ℕ → ℕ → Map Progress → List Message
vote_requests id term [] = []
vote_requests id term ((to, _) ∷ m) =
    if to == id
    then vote_requests id term m
    else record empty_message { kind = MessageType.vote; to = to; from = id; term = term }
      ∷ vote_requests id term m

requests_sent :
    (env : Env) (term : ℕ) (m : Map Progress) (r : Raft)
    → for_each m (request_vote env CampaignType.election term) r
      ≡ (ret tt, record r { msgs = r.msgs ++ vote_requests r.id term m })
unfolding for_each request_vote campaign_vars send do_blocks
requests_sent env term [] r = ground (arith, append-nil r.msgs)
requests_sent env term ((to, p) ∷ m) r =
    let msg : Message = record empty_message {
      kind = MessageType.vote;
      to = to;
      from = r.id;
      term = term;
    } in
    ground (
      arith,
      requests_sent env term m r,
      requests_sent env term m (record r { msgs = r.msgs ++ msg ∷ [] }),
      append_assoc r.msgs (msg ∷ []) (vote_requests r.id term m),
    )

some_quorum : (r : Raft) → (quorum r == 0) ≡ false
unfolding quorum
some_quorum r = ground arith

campaign_lem :
    (env : Env) (r : Raft)
    → env.poll_single (become_candidate env r) ≡ ret false
    → campaign env CampaignType.election r ≡ (
      ret tt,
      record (become_candidate env r) { msgs = r.msgs ++ vote_requests r.id r.term r.prs },
    )
unfolding campaign become_candidate do_blocks
campaign_lem env r single =
    let c : Raft = become_candidate env r in
    rw (some_quorum c, single) (requests_sent env r.term r.prs c)

candidate_fields :
    (env : Env) (r : Raft)
    → ((become_candidate env r).vote ≡ r.id) × ((become_candidate env r).state ≡ StateType.follower)
unfolding become_candidate
candidate_fields env r = (refl, refl)

-- MsgHup at a node that does not lead, wants no pre-vote, and whose own vote does not decide (the
-- `Poll` without arguments says false): it votes for itself, takes the candidate's message handler
-- but the state of a follower, and asks every other member for its vote, in the term that it
-- already had.
pub step-hup :
    (env : Env) (msg : Message) (r : Raft)
    → msg.kind ≡ MessageType.hup
    → r.state ≢ StateType.leader
    → r.pre_vote ≡ false
    → env.poll_single (become_candidate env r) ≡ ret false
    → let c = become_candidate env r in
      (step env msg r
        ≡ (ret RaftError.none_err, record c { msgs = r.msgs ++ vote_requests r.id r.term r.prs }))
      × ((c.vote ≡ r.id) × (c.state ≡ StateType.follower))
step-hup env msg r k state pre single =
    (unfold step do_blocks in ground (arith, campaign_lem env r single), candidate_fields env r)
