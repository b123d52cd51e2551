-- ===== src/Raft/Overlap.antt =====
-- Two nodes that win with the votes of one group of members.
use anraft.Base.{
  ℕ, ◌+◌, ◌*◌, ◌/◌, ◌≤◌, ◌<◌, ◌≡◌, ◌≢◌, refl, inl, inr, Bool, Bool-cases, true, false, not, none,
  some, List, [], ◌∷◌, arith, length, ltb, ◌==◌, ret, if◌then◌else◌,
}
use anraft.Base.Map.{
  Map, find, contains, assign, keys, Above, find_below, assign-Above, length-keys,
}
use anraft.Base.Int.{pos}
use anraft.Proto.{Message}
use anraft.Raft.Defs.{
  Raft, Env, StateType, quorum, count_granted, record_vote, become_follower, on_vote_resp,
}
use anraft.Raft.Election.{on_vote_resp_lem}

-- Whether a member has granted its vote.
abbrev pub has_granted : Map Bool → ℕ → Bool
has_granted votes id = elim (find id votes) [ none ↦ false | some vote ↦ vote ]

abbrev supporters : Map Bool → List ℕ → ℕ
supporters votes [] = 0
supporters votes (id ∷ ids) = (if has_granted votes id then 1 else 0) + supporters votes ids

abbrev occurs : ℕ → List ℕ → ℕ
occurs id [] = 0
occurs id (j ∷ js) = (if id == j then 1 else 0) + occurs id js

-- Every vote is of one of the ids.
abbrev pub AllOf : List ℕ → Map Bool → Type 0
AllOf ids [] = Unit {0}
AllOf ids ((j, vote) ∷ m) = (1 ≤ occurs j ids) × AllOf ids m

-- A vote of a voter that has no other.
supporters_cons :
    (j : ℕ) (vote : Bool) (m : Map Bool) (ids : List ℕ)
    → find j m ≡ none
    → supporters ((j, vote) ∷ m) ids ≡ supporters m ids + (if vote then occurs j ids else 0)
supporters_cons j vote m [] h = ground arith
supporters_cons j true m (id ∷ ids) h = ground (arith, supporters_cons j true m ids h)
supporters_cons j false m (id ∷ ids) h = ground (arith, supporters_cons j false m ids h)

counted :
    (b : ℕ) (m : Map Bool) (ids : List ℕ)
    → Above b m
    → AllOf ids m
    → count_granted m ≤ supporters m ids
unfolding count_granted
counted b [] ids s a = omega arith
counted b ((j, true) ∷ m) ids s a = omega (
  arith,
  counted j m ids s.1 a.1,
  supporters_cons j true m ids (find_below j j m s.1 (omega arith)),
  a.0,
)
counted b ((j, false) ∷ m) ids s a = omega (
  arith,
  counted j m ids s.1 a.1,
  supporters_cons j false m ids (find_below j j m s.1 (omega arith)),
)

-- Two groups of supporters that are more than all ids together share one of them.
shared :
    (m n : Map Bool) (ids : List ℕ)
    → length ids < supporters m ids + supporters n ids
    → (id : ℕ) × (has_granted m id ≡ true) × (has_granted n id ≡ true)
shared m n [] h = absurd (omega (arith, h))
shared m n (id ∷ ids) h = elim (Bool-cases (has_granted m id)) [
  | inl first ↦ elim (Bool-cases (has_granted n id)) [
    | inl second ↦ (id, first, second)
    | inr absent ↦ shared m n ids (ground (arith, h, first, absent))
  ]
  | inr absent ↦ shared m n ids (ground (arith, h, absent))
]

assign-AllOf :
    (ids : List ℕ) (k : ℕ) (vote : Bool) (m : Map Bool)
    → 1 ≤ occurs k ids
    → AllOf ids m
    → AllOf ids (assign k vote m)
assign-AllOf ids k vote [] h a = (h, tt)
assign-AllOf ids k vote ((j, w) ∷ m) h a = elim (Bool-cases (k == j)) [
  | inl same ↦ rw same (h, a.1)
  | inr other ↦ elim (Bool-cases (ltb k j)) [
    | inl less ↦ rw (other, less) (h, a)
    | inr more ↦ rw (other, more) (a.0, assign-AllOf ids k vote m h a.1)
  ]
]

-- A node that counts votes: none of them is of node 0, and each is of a member, as is the one that
-- comes with the message.
pub record IsPolling (env : Env) (msg : Message) (r : Raft) : Type 0 where
  pub named : r.id ≢ 0
  pub not_pre : r.state ≢ StateType.pre_candidate
  pub from_zero : env.grant (record_vote msg.from (not msg.reject) r) ≡ ret (pos 0)
  pub sorted : Above 0 r.votes
  pub voters : AllOf (keys r.prs) r.votes
  pub sender : (0 < msg.from) × (1 ≤ occurs msg.from (keys r.prs))

-- The votes with the one of the message.
abbrev pub votes_with : Message → Raft → Map Bool
votes_with msg r = (record_vote msg.from (not msg.reject) r).votes

votes_with-IsPolling :
    (env : Env) (msg : Message) (r : Raft)
    → IsPolling env msg r
    → Above 0 (votes_with msg r) × AllOf (keys r.prs) (votes_with msg r)
votes_with-IsPolling env msg r p = by_vote (contains msg.from r.votes) (unfold record_vote in refl)
  where
    by_vote :
        (old : Bool)
        → votes_with msg r
          ≡ (if old then r else record r { votes = assign msg.from (not msg.reject) r.votes }).votes
        → Above 0 (votes_with msg r) × AllOf (keys r.prs) (votes_with msg r)
    by_vote true e = rw e (p.sorted, p.voters)
    by_vote false e = rw e (
      assign-Above 0 msg.from (not msg.reject) r.votes p.sender.0 p.sorted,
      assign-AllOf (keys r.prs) msg.from (not msg.reject) r.votes p.sender.1 p.voters,
    )

not_leader :
    (env : Env) (term lead : ℕ) (r : Raft)
    → (become_follower env term lead r).state ≢ StateType.leader
unfolding become_follower
not_leader env term lead r e = ground arith

quorum_size : (r : Raft) → quorum r ≡ length r.prs / 2 + 1
unfolding quorum
quorum_size r = refl

-- Whoever wins has more than half of the members behind it.
winner :
    (env : Env) (msg : Message) (r : Raft)
    → IsPolling env msg r
    → (on_vote_resp env msg r).1.state ≡ StateType.leader
    → length (keys r.prs) < 2 * supporters (votes_with msg r) (keys r.prs)
winner env msg r p won =
    let run = on_vote_resp_lem env msg r p.named p.not_pre p.from_zero in
    let (sorted, voters) = votes_with-IsPolling env msg r p in
    let count = counted 0 (votes_with msg r) (keys r.prs) sorted voters in
    let won' = rw run at won in
    elim (Bool-cases (ltb (quorum r) (count_granted (votes_with msg r)))) [
      | inl more ↦
          let size = length-keys r.prs in
          let needed = quorum_size r in ground (arith, more, count, size, needed)
      | inr fewer ↦
          let clash : (become_follower env r.term 0 (record_vote msg.from (not msg.reject) r)).state
              ≡ StateType.leader =
            rw fewer at won' in
          absurd (not_leader env r.term 0 (record_vote msg.from (not msg.reject) r) clash)
    ]

-- Two nodes with ids, neither a pre-candidate, that become leaders with the answers that they get,
-- and have the same members, have both been granted the vote of one of these members. That holds
-- where the counts start at zero, as they are meant to, and where every vote that a node has
-- recorded, and the one that arrives, is of one of its members and not of node 0, which the code
-- does not check.
pub on_vote_resp-overlap :
    (env : Env) (m n : Message) (r s : Raft)
    → IsPolling env m r
    → IsPolling env n s
    → keys r.prs ≡ keys s.prs
    → (on_vote_resp env m r).1.state ≡ StateType.leader
    → (on_vote_resp env n s).1.state ≡ StateType.leader
    → (id : ℕ) × (has_granted (votes_with m r) id ≡ true) × (has_granted (votes_with n s) id ≡ true)
on_vote_resp-overlap env m n r s p q members won lost =
    let a = winner env m r p won in
    let b : length (keys r.prs) < 2 * supporters (votes_with n s) (keys r.prs) =
      rw members (winner env n s q lost) in
    shared (votes_with m r) (votes_with n s) (keys r.prs) (omega (arith, a, b))
