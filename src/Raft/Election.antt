-- ===== src/Raft/Election.antt =====
-- Elections: votes that are given, asked for and counted.
use anraft.Base.{
  ℕ, ◌+◌, ◌<◌, ◌≡◌, ◌≢◌, inl, inr, refl, Bool, true, false, not, ◌||◌, none, [], ◌∷◌, arith, ltb,
  ◌==◌, Outcome, ret, Option-cases, if◌then◌else◌,
}
use anraft.Base.Action.{do_blocks}
use anraft.Base.Int.{ℤ, pos, ◌+ℤ◌}
use anraft.Base.Map.{Map, find, contains, assign}
use anraft.Proto.{Message, MessageType, RaftError}
use anraft.RaftLog
use anraft.Raft.Defs.{
  Raft, Env, StateType, quorum, count_granted, record_vote, poll, become_follower, become_leader,
  on_vote_resp, step,
}
use anraft.Raft.Silence.{bcast_append_silent}

-- What a vote request may do to the vote.
abbrev pub grants : Env → Message → Raft → Outcome Bool
grants env msg r =
    if r.is_learner
    then ret false
    else if r.vote == 0 || r.vote == msg.from || ltb r.term msg.term
    then RaftLog.is_up_to_date env.log r.raftlog msg.index msg.term
    else ret false

-- A vote request that does not trap is granted exactly if this node is no learner, its vote is free
-- or the candidate's already or the request's term is higher, and the candidate is up to date. A
-- grant sets the vote and the election timer and nothing else: not the term, and no answer is sent.
pub step-vote :
    (env : Env) (msg : Message) (r : Raft) {granted : Bool}
    → msg.kind ≡ MessageType.vote
    → grants env msg r ≡ ret granted
    → step env msg r ≡ (
      ret RaftError.none_err,
      (if granted then record r { vote = msg.from; election_elapsed = pos 0 } else r),
    )
unfolding step do_blocks
step-vote env msg r k g = ground arith

-- A request for a pre-vote changes nothing.
pub step-pre_vote :
    (env : Env) (msg : Message) (r : Raft)
    → msg.kind ≡ MessageType.pre_vote
    → (step env msg r).1 ≡ r
unfolding step do_blocks
step-pre_vote env msg r k = ground arith

-- Since a higher term in a request is not taken over, two candidates of one term that is higher
-- than the node's both get its vote, one after the other, and the node's term stays. The node is no
-- learner, and the test of the log finds both candidates up to date.
pub step-vote_twice :
    (env : Env) (first second : Message) (r : Raft)
    → first.kind ≡ MessageType.vote
    → second.kind ≡ MessageType.vote
    → first.term ≡ second.term
    → r.term < first.term
    → r.is_learner ≡ false
    → RaftLog.is_up_to_date env.log r.raftlog first.index first.term ≡ ret true
    → RaftLog.is_up_to_date env.log r.raftlog second.index second.term ≡ ret true
    → let r1 = (step env first r).1 in
      let r2 = (step env second r1).1 in
      (r1.vote ≡ first.from) × (r2.vote ≡ second.from) × (r2.term ≡ r.term)
step-vote_twice env first second r k l same higher learner u v =
    let r1 : Raft = record r { vote = first.from; election_elapsed = pos 0 } in
    let one = step-vote env first r {granted = true} k (ground arith) in
    let two = step-vote env second r1 {granted = true} l (ground arith) in
    rw one (rw two (refl, refl, refl))

-- One more for a vote that is granted.
abbrev pub weight : Bool → ℕ
weight true = 1
weight false = 0

count-assign :
    (id : ℕ) (vote : Bool) (m : Map Bool)
    → find id m ≡ none
    → count_granted (assign id vote m) ≡ count_granted m + weight vote
unfolding count_granted
count-assign id true [] h = ground arith
count-assign id false [] h = ground arith
count-assign id true ((j, w) ∷ m) h = ground (arith, count-assign id true m)
count-assign id false ((j, w) ∷ m) h = ground (arith, count-assign id false m)

record_vote-count :
    (id : ℕ) (vote : Bool) (r : Raft)
    → (count_granted (record_vote id vote r).votes
        ≡ count_granted r.votes + (if contains id r.votes then 0 else weight vote))
      × (record_vote id vote r ≡ record r { votes = (record_vote id vote r).votes })
unfolding record_vote
record_vote-count id vote r = elim (Option-cases (find id r.votes)) [
  | inl fresh ↦ ground (arith, count-assign id vote r.votes fresh)
  | inr (v, old) ↦ ground arith
]

poll_run :
    (env : Env) (id : ℕ) (kind : MessageType) (vote : Bool) (r : Raft) (start : ℤ)
    → env.grant (record_vote id vote r) ≡ ret start
    → poll env id kind vote r
      ≡ (ret (start +ℤ pos (count_granted (record_vote id vote r).votes)), record_vote id vote r)
unfolding poll do_blocks
poll_run env id kind vote r start g = ground arith

-- The first answer of a voter is counted, with one more for a grant, and every later one is
-- ignored. The number that `Poll` returns starts from whatever its variable held.
pub poll_lem :
    (env : Env) (id : ℕ) (kind : MessageType) (vote : Bool) (r : Raft) {start : ℤ}
    → env.grant (record_vote id vote r) ≡ ret start
    → let (n, r') = poll env id kind vote r in
      (n ≡ ret (start +ℤ pos (count_granted r'.votes)))
      × (count_granted r'.votes
          ≡ count_granted r.votes + (if contains id r.votes then 0 else weight vote))
      × (r' ≡ record r { votes = r'.votes })
poll_lem env id kind vote r {start} g =
    let (count, frame) = record_vote-count id vote r in
    rw (poll_run env id kind vote r start g) (refl, count, frame)

from_zero : (n : ℕ) → pos 0 +ℤ pos n ≡ pos n
unfolding ◌+ℤ◌
from_zero n = ground arith

record_vote_frame :
    (id : ℕ) (vote : Bool) (r : Raft)
    → let r1 = record_vote id vote r in
      (quorum r1 ≡ quorum r) × (r1.state ≡ r.state) × (r1.term ≡ r.term) × (r1.id ≡ r.id)
unfolding record_vote quorum
record_vote_frame id vote r = ground arith

leader_named : (env : Env) (r : Raft) → r.id ≢ 0 → (become_leader env r).id ≢ 0
unfolding become_leader
leader_named env r h = h

-- The answer to a vote makes a node that is no pre-candidate the leader exactly if more than a
-- quorum is counted, where `grant` starts at zero, as it is meant to: half of the members and one
-- are not enough. In any other case it gives up and becomes a follower. No append is sent either
-- way.
pub on_vote_resp_lem :
    (env : Env) (msg : Message) (r : Raft)
    → r.id ≢ 0
    → r.state ≢ StateType.pre_candidate
    → env.grant (record_vote msg.from (not msg.reject) r) ≡ ret (pos 0)
    → let r1 = record_vote msg.from (not msg.reject) r in
      on_vote_resp env msg r ≡ (
        ret tt,
        (if ltb (quorum r) (count_granted r1.votes)
            then become_leader env r1
            else become_follower env r.term 0 r1),
      )
unfolding on_vote_resp do_blocks
on_vote_resp_lem env msg r named state g =
    let r1 : Raft = record_vote msg.from (not msg.reject) r in
    let same = record_vote_frame msg.from (not msg.reject) r in
    let n : ℕ = count_granted r1.votes in
    ground (
      arith,
      poll_run env msg.from msg.kind (not msg.reject) r (pos 0) g,
      from_zero n,
      same,
      bcast_append_silent env (become_leader env r1) (leader_named env r1 (ground arith)),
    )
