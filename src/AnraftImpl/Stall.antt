-- ===== src/AnraftImpl/Stall.antt =====
-- Why replication never commits: `ReplicateLogToFollower` on the indices that nothing moves.
use anraft.Base.{
  Bytes, same_bytes, ℕ, zero, suc, not, ◌+◌, ◌≤◌, ◌<◌, ◌≡◌, refl, ap, ◌∙◌, inl, inr, Option, none,
  some, false, List, [], ◌∷◌, arith, length, if◌then◌else◌, u64_mod, ret, Outcome-cases,
}
use anraft.Base.Action.{do_blocks}
use mathlib.Core.Path.{subst⁻¹}
use anraft.Base.Frame.{
  Preorder, Keeps, bind-Keeps, reads-Keeps, gets-Keeps, modify-Keeps, when-Keeps, skip-Keeps,
  if-Keeps,
}
use anraft.Base.Int.{ℤ, ◌≤ℤ◌, ◌<ℤ◌, ltb_ℤ}
use anraft.AnraftImpl.Defs.{
  AnraftImpl, Outside, FollowerContext, AppendEntriesResponse, Batch, check_term, one_back,
  update_context, match_indices, commit_candidate, advance, on_answer, prepare, exchange,
  replicate_log_to_follower,
}
use anraft.AnraftImpl.Commit.{count_from, commit_candidate-quorum}
use anraft.AnraftImpl.Replication.{matches_of, update_context_frame, rounds}

abbrev pub AllUpTo : ℤ → List ℤ → Type 0
AllUpTo c [] = Unit {0}
AllUpTo c (m ∷ ms) = (m ≤ℤ c) × AllUpTo c ms

-- How often the address is named.
abbrev pub places : Bytes → List Bytes → ℕ
places addr [] = 0
places addr (n ∷ ns) = (if same_bytes n addr then 1 else 0) + places addr ns

-- A group of two nodes or more, a context for each, which names this node at most once, and no
-- matched index above the commit index.
pub record IsWaiting (s : AnraftImpl) : Type 0 where
  pub sized : length s.follower_contexts ≡ length s.nodes
  pub several : 2 ≤ length s.nodes
  pub word : length s.nodes < u64_mod
  pub own : places s.local_addr s.nodes ≤ 1
  pub reached : AllUpTo s.commit_index (matches_of s.follower_contexts)

-- Of the collected indices only the leader's own is above the matched ones.
count_own :
    (addr : Bytes) (c k : ℤ) (fs : List FollowerContext) (ns : List Bytes) {ms : List ℤ}
    → match_indices addr fs ns ≡ ret ms
    → AllUpTo k (matches_of fs)
    → k <ℤ c
    → count_from c ms ≤ places addr ns
unfolding match_indices
count_own addr c k [] ns h all less = ground arith
count_own addr c k (f ∷ fs) [] h all less = ground arith
count_own addr c k (f ∷ fs) (n ∷ ns) h all less = elim (Outcome-cases (match_indices addr fs ns)) [
  | inl (rest, e) ↦ ground (arith, e, count_own addr c k fs ns e all.1 less)
  | inr (f, e) ↦ ground (arith, e)
]

candidate_small :
    (s : AnraftImpl) {c : ℤ}
    → IsWaiting s
    → commit_candidate s ≡ ret c
    → ltb_ℤ s.commit_index c ≡ false
candidate_small s {c} w h =
    elim (Outcome-cases (match_indices s.local_addr s.follower_contexts s.nodes)) [
      | inr (f, e) ↦ absurd (unfold commit_candidate in ground (arith, e, h))
      | inl (ms, e) ↦ ground (
        arith,
        commit_candidate-quorum s c ms w.sized w.word e h,
        count_own s.local_addr c s.commit_index s.follower_contexts s.nodes e w.reached,
        w.several,
        w.own,
      )
    ]

-- Such a leader commits nothing, and its log stays as it was.
record Idles (s s' : AnraftImpl) : Type 0 where
  stays :
      IsWaiting s
      → IsWaiting s'
        × (s'.commit_index ≡ s.commit_index)
        × (s'.last_applied ≡ s.last_applied)
        × (s'.apply_callbacks ≡ s.apply_callbacks)
        × (s'.called ≡ s.called)

Idles-Preorder : Preorder Idles
Idles-Preorder = record {
  reflexive = λ s. record { stays = λ w. (w, refl, refl, refl, refl) };
  transitive = λ p q. record {
    stays = λ w.
        let (w1, a1, b1, c1, d1) = p.stays w in
        let (w2, a2, b2, c2, d2) = q.stays w1 in (w2, a2 ∙ a1, b2 ∙ b1, c2 ∙ c1, d2 ∙ d1);
  };
}

advance_idle : (s : AnraftImpl) → IsWaiting s → (advance s).1 ≡ s
unfolding advance do_blocks
advance_idle s w = elim (Outcome-cases (commit_candidate s)) [
  | inl (c, found) ↦ ground (arith, found, candidate_small s w found)
  | inr (f, failed) ↦ ground (arith, failed)
]

advance-Idles : (s : AnraftImpl) → Idles s (advance s).1
advance-Idles s = record { stays = λ w. rw (advance_idle s w) (w, refl, refl, refl, refl) }

length-update_context :
    (id : ℕ) (fs : List FollowerContext) → length (update_context one_back id fs) ≡ length fs
unfolding update_context
length-update_context id [] = refl
length-update_context zero (f ∷ fs) = refl
length-update_context (suc id) (f ∷ fs) = ap suc (length-update_context id fs)

refused-Idles :
    (id : ℕ) (s : AnraftImpl)
    → Idles s (record s { follower_contexts = update_context one_back id s.follower_contexts })
refused-Idles id s = record {
  stays = λ w. (
    record {
      sized = length-update_context id s.follower_contexts ∙ w.sized;
      several = w.several;
      word = w.word;
      own = w.own;
      reached =
          subst⁻¹ (AllUpTo s.commit_index) (update_context_frame id s.follower_contexts).0
            w.reached;
    },
    refl,
    refl,
    refl,
    refl,
  );
}

check_term-Idles : (term : ℤ) → Keeps Idles (check_term term)
unfolding check_term
check_term-Idles term = record {
  apply = λ s. record {
    stays = λ w. (by_fields s w, ground arith, ground arith, ground arith, ground arith);
  };
}
  where
    by_fields : (s : AnraftImpl) → IsWaiting s → IsWaiting (check_term term s).1
    by_fields s w = ground arith

on_answer-Idles :
    (id : ℕ) (b : Batch) (resp : AppendEntriesResponse) → Keeps Idles (on_answer id b resp)
unfolding on_answer
on_answer-Idles id b resp =
    bind-Keeps Idles Idles-Preorder _ _ (check_term-Idles resp.term) λ valid.
      if-Keeps Idles Idles-Preorder (not valid) _ _ (skip-Keeps Idles Idles-Preorder) (
        if-Keeps Idles Idles-Preorder (not resp.success) _ _
          (modify-Keeps Idles Idles-Preorder _ (refused-Idles id))
          (bind-Keeps Idles Idles-Preorder _ _ (gets-Keeps Idles Idles-Preorder _)
            λ term. when-Keeps Idles Idles-Preorder _ _ (record { apply = advance-Idles })))

exchange-Idles :
    (outside : Outside) (id : ℕ) (prepared : Option Batch)
    → Keeps Idles (exchange outside id prepared)
unfolding exchange
exchange-Idles outside id none = skip-Keeps Idles Idles-Preorder
exchange-Idles outside id (some b) =
    bind-Keeps Idles Idles-Preorder _ _ (reads-Keeps Idles Idles-Preorder _) λ sent.
      if-Keeps Idles Idles-Preorder sent _ _
        (on_answer-Idles id b (outside.send_append b.request).1) (skip-Keeps Idles Idles-Preorder)

replicate-Idles : (outside : Outside) (id : ℕ) → Keeps Idles (replicate_log_to_follower outside id)
unfolding replicate_log_to_follower
replicate-Idles outside id =
    bind-Keeps Idles Idles-Preorder _ _ (reads-Keeps Idles Idles-Preorder (prepare outside id))
      (exchange-Idles outside id)

rounds-Idles : (rs : List (Outside × ℕ)) (s : AnraftImpl) → Idles s (rounds rs s)
rounds-Idles [] s = Idles-Preorder.reflexive s
rounds-Idles ((outside, id) ∷ rs) s =
    Idles-Preorder.transitive ((replicate-Idles outside id).apply s)
      (rounds-Idles rs (replicate_log_to_follower outside id s).1)

-- Whatever the followers answer, also where all of them report success, no number of rounds of
-- `ReplicateLogToFollower` commits an entry or runs a callback, in a group of two nodes or more
-- that has a context for each node and names this node at most once, where no matched index is
-- above the commit index at first. The group is then still in such a state.
pub rounds-IsWaiting :
    (rs : List (Outside × ℕ)) (s : AnraftImpl)
    → IsWaiting s
    → let s' = rounds rs s in
      IsWaiting s'
      × (s'.commit_index ≡ s.commit_index)
      × (s'.last_applied ≡ s.last_applied)
      × (s'.apply_callbacks ≡ s.apply_callbacks)
      × (s'.called ≡ s.called)
rounds-IsWaiting rs s w = (rounds-Idles rs s).stays w
