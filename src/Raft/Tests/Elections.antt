-- ===== src/Raft/Tests/Elections.antt =====
-- Instances of the theorems on votes.
use anraft.Base.{ℕ, ◌≡◌, ◌≢◌, refl, true, List, [], ◌∷◌, arith, ret}
use anraft.Proto.{Message, MessageType, empty_message}
use anraft.Raft.Defs.{
  Raft, StateType, quorum, count_granted, record_vote, become_follower, on_vote_resp, step,
  become_leader,
}
use anraft.Raft.Frame.{Event, deliver, timer, run}
use anraft.Raft.Election.{step-vote_twice, on_vote_resp_lem}
use anraft.Raft.Ballots.{StaysOrOwn, run-one_vote}
use anraft.Raft.Overlap.{IsPolling, has_granted, votes_with, on_vote_resp-overlap}
use anraft.Raft.Tests.Data.{zeroes, node, vote_from, newer}

step-vote_twice_example :
    let r1 = (step zeroes (vote_from 2) node).1 in
    let r2 = (step zeroes (vote_from 3) r1).1 in (r1.vote ≡ 2) × (r2.vote ≡ 3) × (r2.term ≡ 2)
step-vote_twice_example =
    step-vote_twice zeroes (vote_from 2) (vote_from 3) node refl refl refl (omega arith) refl newer
      newer

-- The node has voted for 3 when 2 asks in its term, and its timer runs.
abbrev voted : Raft
voted = record node { vote = 3 }

abbrev asked_later : List Event
asked_later = deliver (record (vote_from 2) { term = 2 }) ∷ timer ∷ []

run-one_vote_example :
    ((run zeroes asked_later voted).term ≡ 2) × StaysOrOwn voted (run zeroes asked_later voted)
run-one_vote_example =
    run-one_vote zeroes asked_later voted (λ e. ground arith) (λ e. ground arith)
      ((λ _. omega arith), tt)

on_vote_resp_lem_example :
    on_vote_resp zeroes (record empty_message { from = 2 }) node
    ≡ (ret tt, become_follower zeroes 2 0 (record node { votes = (2, true) ∷ [] }))
unfolding record_vote count_granted quorum
on_vote_resp_lem_example =
    on_vote_resp_lem zeroes (record empty_message { from = 2 }) node (λ e. ground arith)
      (λ e. ground arith) refl

-- A node that has the votes of 1 and 3.
abbrev polling : ℕ → Raft
polling id = record node { id = id; votes = (1, true) ∷ (3, true) ∷ [] }

abbrev yes_from : ℕ → Message
yes_from id = record empty_message { kind = MessageType.vote_resp; from = id }

polling-IsPolling : (id : ℕ) → id ≢ 0 → IsPolling zeroes (yes_from 2) (polling id)
polling-IsPolling id h = record {
  named = h;
  not_pre = λ e. ground arith;
  from_zero = refl;
  sorted = (omega arith, (omega arith, tt));
  voters = (omega arith, (omega arith, tt));
  sender = (omega arith, omega arith);
}

polling-wins :
    (id : ℕ) → id ≢ 0 → (on_vote_resp zeroes (yes_from 2) (polling id)).1.state ≡ StateType.leader
unfolding quorum count_granted record_vote become_leader
polling-wins id h =
    rw (on_vote_resp_lem zeroes (yes_from 2) (polling id) h (λ e. ground arith) refl) refl

on_vote_resp-overlap_example :
    (id : ℕ) × (has_granted (votes_with (yes_from 2) (polling 1)) id ≡ true)
    × (has_granted (votes_with (yes_from 2) (polling 3)) id ≡ true)
on_vote_resp-overlap_example =
    on_vote_resp-overlap zeroes (yes_from 2) (yes_from 2) (polling 1) (polling 3)
      (polling-IsPolling 1 (λ e. ground arith)) (polling-IsPolling 3 (λ e. ground arith)) refl
      (polling-wins 1 (λ e. ground arith)) (polling-wins 3 (λ e. ground arith))
