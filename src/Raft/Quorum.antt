-- ===== src/Raft/Quorum.antt =====
-- The index that a quorum has matched.
use anraft.Base.{
  ℕ, zero, suc, ◌+◌, ◌-◌, ◌≤◌, ◌<◌, ◌≡◌, ◌≢◌, ◌∙◌, ◌⊎◌, inl, inr, refl, ap, true, some, List, [],
  ◌∷◌, arith, length, leb, dec_lt, get_elem?, get_elem?-some, ret, at, if◌then◌else◌,
}
use mathlib.Core.Path.{subst⁻¹}
use anraft.Base.Action.{bind_ret, reads_ret, gets_ret}
use anraft.Base.Map.{Map}
use anraft.Proto.{RaftError}
use anraft.Progress.{Progress}
use anraft.RaftLog
use anraft.RaftLog.Commit as LogCommit
use anraft.RaftLog.{RaftLog}
use anraft.Raft.Defs.{
  Raft, Env, quorum, matches, insert_down, sort_down, quorum_index, maybe_commit, on_log,
}

-- How many numbers are at least x.
abbrev pub count_from : ℕ → List ℕ → ℕ
count_from x [] = 0
count_from x (y ∷ ys) = (if leb x y then 1 else 0) + count_from x ys

-- No number is above the one before it.
abbrev Descends : List ℕ → Type 0
Descends [] = Unit {0}
Descends (x ∷ []) = Unit {0}
Descends (x ∷ y ∷ ys) = (y ≤ x) × Descends (y ∷ ys)

count-insert_down :
    (x y : ℕ) (ys : List ℕ) → count_from x (insert_down y ys) ≡ count_from x (y ∷ ys)
unfolding insert_down
count-insert_down x y [] = refl
count-insert_down x y (z ∷ ys) = ground (arith, count-insert_down x y ys)

count-sort_down : (x : ℕ) (ys : List ℕ) → count_from x (sort_down ys) ≡ count_from x ys
unfolding sort_down
count-sort_down x [] = refl
count-sort_down x (y ∷ ys) =
    omega (arith, count-insert_down x y (sort_down ys), count-sort_down x ys)

length-insert_down : (y : ℕ) (ys : List ℕ) → length (insert_down y ys) ≡ suc (length ys)
unfolding insert_down
length-insert_down y [] = refl
length-insert_down y (z ∷ ys) = ground (arith, length-insert_down y ys)

length-sort_down : (ys : List ℕ) → length (sort_down ys) ≡ length ys
unfolding sort_down
length-sort_down [] = refl
length-sort_down (y ∷ ys) = omega (arith, length-insert_down y (sort_down ys), length-sort_down ys)

insert_down-Descends : (y : ℕ) (ys : List ℕ) → Descends ys → Descends (insert_down y ys)
unfolding insert_down
insert_down-Descends y [] h = tt
insert_down-Descends y (z ∷ []) h = ground arith
insert_down-Descends y (z ∷ w ∷ ys) h = ground (arith, insert_down-Descends y (w ∷ ys) h.1)

sort_down-Descends : (ys : List ℕ) → Descends (sort_down ys)
unfolding sort_down
sort_down-Descends [] = tt
sort_down-Descends (y ∷ ys) = insert_down-Descends y (sort_down ys) (sort_down-Descends ys)

below_head : (x y k : ℕ) (ys : List ℕ) → Descends (y ∷ ys) → get_elem? (y ∷ ys) k ≡ some x → x ≤ y
below_head x y zero ys h e = ground arith
below_head x y (suc k) [] h e = ground arith
below_head x y (suc k) (z ∷ ys) h e = ground (arith, below_head x z k ys h.1 e)

-- The number at place k of a falling list has k numbers before it that are no smaller.
count_before :
    (x k : ℕ) (ys : List ℕ) → Descends ys → get_elem? ys k ≡ some x → suc k ≤ count_from x ys
count_before x k [] h e = ground arith
count_before x zero (y ∷ ys) h e = ground arith
count_before x (suc k) (y ∷ []) h e = ground arith
count_before x (suc k) (y ∷ z ∷ ys) h e =
    ground (arith, count_before x k (z ∷ ys) h.1 e, below_head x y (suc k) (z ∷ ys) h e)

count_small : (x y : ℕ) (ys : List ℕ) → Descends (x ∷ ys) → x < y → count_from y (x ∷ ys) ≡ 0
count_small x y [] h k = ground arith
count_small x y (z ∷ ys) h k = ground (arith, count_small z y ys h.1)

-- And only those before it are larger.
count_after :
    (x y k : ℕ) (ys : List ℕ) → Descends ys → get_elem? ys k ≡ some x → x < y → count_from y ys ≤ k
count_after x y k [] h e l = ground arith
count_after x y zero (z ∷ ys) h e l = ground (arith, count_small z y ys h)
count_after x y (suc k) (z ∷ []) h e l = ground arith
count_after x y (suc k) (z ∷ w ∷ ys) h e l = ground (arith, count_after x y k (w ∷ ys) h.1 e l)

length-matches : (m : Map Progress) → length (matches m) ≡ length m
unfolding matches
length-matches [] = refl
length-matches ((_, p) ∷ m) = ap suc (length-matches m)

-- The members of a node that have matched the index.
abbrev pub matched : ℕ → Raft → ℕ
matched index r = count_from index (matches r.prs)

quorum_at :
    (r : Raft) (x : ℕ)
    → get_elem? (sort_down (matches r.prs)) (quorum r - 1) ≡ some x
    → (quorum_index r ≡ ret x)
      × (quorum r ≤ matched x r)
      × ((y : ℕ) → (matched y r < quorum r) ⊎ (y ≤ x))
unfolding quorum_index
quorum_at r x e = (
  rw e refl,
  omega (
    arith,
    count_before x (quorum r - 1) sorted falls e,
    count-sort_down x (matches r.prs),
    quorum_pos,
  ),
  λ y. elim (dec_lt x y) [
    | no small ↦ inr (omega arith)
    | yes large ↦ inl (
        omega (
          arith,
          count_after x y (quorum r - 1) sorted falls e large,
          count-sort_down y (matches r.prs),
          quorum_pos,
        ))
  ],
)
  where
    sorted : List ℕ
    sorted = sort_down (matches r.prs)

    falls : Descends sorted
    falls = sort_down-Descends (matches r.prs)

    quorum_pos : 0 < quorum r
    quorum_pos = unfold quorum in omega arith

quorum_in_range : (r : Raft) → r.prs ≢ [] → quorum r - 1 < length (sort_down (matches r.prs))
quorum_in_range r members =
    let sized = length-sort_down (matches r.prs) in
    let counted = length-matches r.prs in
    let some_member : 0 < length r.prs = filled r.prs members in
    unfold quorum in omega (arith, sized, counted, some_member)
  where
    filled : (m : Map Progress) → m ≢ [] → 0 < length m
    filled [] h = absurd (h refl)
    filled (_ ∷ m) h = omega arith

-- A node with members picks the largest index that a quorum of them has matched.
pub quorum_index_lem :
    (r : Raft)
    → r.prs ≢ []
    → (x : ℕ) × (quorum_index r ≡ ret x)
      × (quorum r ≤ matched x r)
      × ((y : ℕ) → (matched y r < quorum r) ⊎ (y ≤ x))
quorum_index_lem r members =
    let (x, e) =
      get_elem?-some (sort_down (matches r.prs)) (quorum r - 1) (quorum_in_range r members) in
    let (a, b, c) = quorum_at r x e in (x, a, b, c)

commit_run :
    (env : Env) (r : Raft) (x : ℕ)
    → quorum_index r ≡ ret x
    → maybe_commit env r ≡ (
        let (b, l) = RaftLog.maybe_commit env.log x r.term r.raftlog in
        (b, record r { raftlog = l }))
unfolding maybe_commit on_log
commit_run env r x found =
    bind_ret _ _ r (reads_ret quorum_index r found) ∙ bind_ret _ _ r (gets_ret _ r)

-- The other way round: `MaybeCommit` commits the index that it picks where this is above the commit
-- index, the log knows it with the node's term, and the last index can be read.
pub maybe_commit_run :
    (env : Env) (r : Raft) (x li : ℕ) {found : RaftError × ℕ}
    → quorum_index r ≡ ret x
    → r.raftlog.committed < x
    → RaftLog.term env.log r.raftlog x ≡ ret found
    → RaftLog.zero_term_on_err_compacted found ≡ r.term
    → RaftLog.last_index r.raftlog ≡ ret li
    → maybe_commit env r ≡ (ret true, record r { raftlog = record (r.raftlog) { committed = x } })
maybe_commit_run env r x li at above term current ends =
    commit_run env r x at
    ∙ rw (LogCommit.maybe_commit_when env.log x r.term li r.raftlog above term current ends) refl

-- At a node with members: where `MaybeCommit` says that the commit index changed, the index has
-- grown, a quorum of the members has matched it, and nothing but the log has changed; in every
-- other case, traps included, the node is as it was.
pub maybe_commit-quorum :
    (env : Env) (r : Raft)
    → r.prs ≢ []
    → let (changed, r') = maybe_commit env r in
      ((changed ≡ ret true)
        × (r.raftlog.committed < r'.raftlog.committed)
        × (quorum r ≤ matched r'.raftlog.committed r)
        × (r' ≡ record r { raftlog = r'.raftlog }))
      ⊎ ((changed ≢ ret true) × (r' ≡ r))
maybe_commit-quorum env r members =
    let (x, at, many, most) = quorum_index_lem r members in
    let m = LogCommit.maybe_commit_lem env.log x r.term r.raftlog in
    rw (commit_run env r x at) (elim m [
      | inl (yes_it_did, less, after, _) ↦ inl (
        yes_it_did,
        subst⁻¹ (λ (l : RaftLog). r.raftlog.committed < l.committed) after less,
        subst⁻¹ (λ (l : RaftLog). quorum r ≤ matched l.committed r) after many,
        refl,
      )
      | inr (it_did_not, after) ↦ inr (it_did_not, ap (λ l. record r { raftlog = l }) after)
    ])
