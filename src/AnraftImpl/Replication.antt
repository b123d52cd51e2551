-- ===== src/AnraftImpl/Replication.antt =====
-- What `ReplicateLogToFollower` does to the followers' indices.
use anraft.Base.{
  ℕ, zero, suc, ◌≡◌, refl, ap, ◌∙◌, inl, inr, Option, none, some, List, [], ◌∷◌, arith,
  Outcome-cases,
}
use anraft.Base.Action.{do_blocks}
use anraft.Base.Frame.{Preorder, Keeps, bind-Keeps, reads-Keeps, skip-Keeps, if-Keeps}
use anraft.Base.Int.{ℤ, pos, negsuc, ◌+ℤ◌, ◌≤ℤ◌, +ℤ_parts}
use anraft.AnraftImpl.Defs.{
  AnraftImpl, Outside, FollowerContext, AppendEntriesResponse, Batch, check_term, fire, apply_up_to,
  distance, one_back, update_context, commit_candidate, advance, on_answer, prepare, exchange,
  replicate_log_to_follower,
}

abbrev pub matches_of : List FollowerContext → List ℤ
matches_of [] = []
matches_of (f ∷ fs) = f.match_index ∷ matches_of fs

-- What `ReplicateLog` asserts: no next index is below the matched one.
abbrev pub AllOrdered : List FollowerContext → Type 0
AllOrdered [] = Unit {0}
AllOrdered (f ∷ fs) = (f.match_index ≤ℤ f.next_index) × AllOrdered fs

one_back_frame :
    (f : FollowerContext)
    → ((one_back f).match_index ≡ f.match_index)
      × (f.match_index ≤ℤ f.next_index → (one_back f).match_index ≤ℤ (one_back f).next_index)
unfolding one_back
one_back_frame f = ground (arith, +ℤ_parts f.next_index (negsuc 0))

pub update_context_frame :
    (id : ℕ) (fs : List FollowerContext)
    → (matches_of (update_context one_back id fs) ≡ matches_of fs)
      × (AllOrdered fs → AllOrdered (update_context one_back id fs))
unfolding update_context
update_context_frame id [] = (refl, λ h. h)
update_context_frame zero (f ∷ fs) =
    let (same, ordered) = one_back_frame f in
    (ap (λ m. m ∷ matches_of fs) same, λ h. (ordered h.0, h.1))
update_context_frame (suc id) (f ∷ fs) =
    let (same, ordered) = update_context_frame id fs in
    (ap (λ ms. f.match_index ∷ ms) same, λ h. (h.0, ordered h.1))

-- The log of the leader and the commit index: what the application of entries leaves alone.
pub apply_up_to_frame :
    (n : ℕ) (c : ℤ) (s : AnraftImpl)
    → let s' = apply_up_to n c s in
      (s'.follower_contexts ≡ s.follower_contexts)
      × (s'.commit_index ≡ s.commit_index)
      × (s'.current_term ≡ s.current_term)
      × (s'.role ≡ s.role)
unfolding apply_up_to fire
apply_up_to_frame zero c s = (refl, refl, refl, refl)
apply_up_to_frame (suc n) c s =
    ground
      (arith, apply_up_to_frame n c (fire (record s { last_applied = s.last_applied +ℤ pos 1 })))

-- A step of replication: no matched index moves, and the term and the commit index only grow.
pub record Replicates (s s' : AnraftImpl) : Type 0 where
  pub same_matches : matches_of s'.follower_contexts ≡ matches_of s.follower_contexts
  pub ordered : AllOrdered s.follower_contexts → AllOrdered s'.follower_contexts
  pub term_grows : s.current_term ≤ℤ s'.current_term
  pub commit_grows : s.commit_index ≤ℤ s'.commit_index

advance-Replicates : (s : AnraftImpl) → Replicates s (advance s).1
unfolding advance do_blocks
advance-Replicates s = elim (Outcome-cases (commit_candidate s)) [
  | inl (c, found) ↦ ground (
    arith,
    found,
    apply_up_to_frame (distance s.last_applied c) c (record s { commit_index = c }),
  )
  | inr (f, failed) ↦ ground (arith, failed)
]

on_answer-Replicates :
    (id : ℕ) (b : Batch) (resp : AppendEntriesResponse) (s : AnraftImpl)
    → Replicates s (on_answer id b resp s).1
unfolding on_answer check_term do_blocks
on_answer-Replicates id b resp s =
    ground (arith, update_context_frame id s.follower_contexts, advance-Replicates s)

Replicates-Preorder : Preorder Replicates
Replicates-Preorder = record {
  reflexive = λ s. record {
    same_matches = refl;
    ordered = λ h. h;
    term_grows = omega arith;
    commit_grows = omega arith;
  };
  transitive = λ p q. record {
    same_matches = q.same_matches ∙ p.same_matches;
    ordered = λ h. q.ordered (p.ordered h);
    term_grows = omega (arith, p.term_grows, q.term_grows);
    commit_grows = omega (arith, p.commit_grows, q.commit_grows);
  };
}

exchange-Replicates :
    (outside : Outside) (id : ℕ) (prepared : Option Batch)
    → Keeps Replicates (exchange outside id prepared)
unfolding exchange
exchange-Replicates outside id none = skip-Keeps Replicates Replicates-Preorder
exchange-Replicates outside id (some b) =
    let (sent, resp) = outside.send_append b.request in
    bind-Keeps Replicates Replicates-Preorder _ _
      (reads-Keeps Replicates Replicates-Preorder (λ _. sent))
      (λ done.
        if-Keeps Replicates Replicates-Preorder done _ _
          (record { apply = on_answer-Replicates id b resp })
          (skip-Keeps Replicates Replicates-Preorder))

replicate-Replicates :
    (outside : Outside) (id : ℕ) → Keeps Replicates (replicate_log_to_follower outside id)
unfolding replicate_log_to_follower
replicate-Replicates outside id =
    bind-Keeps Replicates Replicates-Preorder _ _
      (reads-Keeps Replicates Replicates-Preorder (prepare outside id))
      (exchange-Replicates outside id)

-- Rounds of replication to some follower each, with what the world outside answers in each.
abbrev pub rounds : List (Outside × ℕ) → AnraftImpl → AnraftImpl
rounds [] s = s
rounds ((outside, id) ∷ rs) s = rounds rs (replicate_log_to_follower outside id s).1

-- Whatever the followers answer, no number of rounds of `ReplicateLogToFollower` moves a matched
-- index, also not after an append that was a success. No next index comes below the matched one,
-- as `ReplicateLog` asserts, and neither the term nor the commit index goes down.
pub rounds-Replicates : (rs : List (Outside × ℕ)) (s : AnraftImpl) → Replicates s (rounds rs s)
rounds-Replicates [] s = Replicates-Preorder.reflexive s
rounds-Replicates ((outside, id) ∷ rs) s =
    Replicates-Preorder.transitive ((replicate-Replicates outside id).apply s)
      (rounds-Replicates rs (replicate_log_to_follower outside id s).1)
