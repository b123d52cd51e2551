-- ===== src/Raft/Cluster/Group.antt =====
-- Groups in which only the node itself has matched what is above its commit index.
use anraft.Base.{ℕ, ◌≤◌, ◌<◌, ◌≡◌, ◌≢◌, ◌⊎◌, refl, inl, inr, arith, [], ◌∷◌, length}
use anraft.Base.Map.{Map, Above, IsSorted}
use anraft.Progress.{Progress}
use anraft.Raft.Defs.{Raft, Env, matches, quorum, maybe_commit}
use anraft.Raft.Quorum.{count_from, maybe_commit-quorum}
use anraft.Raft.Cluster.{AllVotes}

-- No member but the node itself has matched an index above c.
abbrev pub OthersUpTo : ℕ → ℕ → Map Progress → Type 0
OthersUpTo id c [] = Unit {0}
OthersUpTo id c ((k, p) ∷ m) = ((k ≡ id) ⊎ (p.match ≤ c)) × OthersUpTo id c m

-- A node with an id, of a group of two or more, whose other members have matched no index above its
-- commit index, and that has sent nothing but requests for votes. It may lead.
pub record IsStalled (r : Raft) : Type 0 where
  pub named : r.id ≢ 0
  pub several : 2 ≤ length r.prs
  pub sorted : IsSorted r.prs
  pub others : OthersUpTo r.id r.raftlog.committed r.prs
  pub asks : AllVotes r.msgs

count_later :
    (id c x b : ℕ) (m : Map Progress)
    → OthersUpTo id c m
    → Above b m
    → id ≤ b
    → c < x
    → count_from x (matches m) ≡ 0
unfolding matches
count_later id c x b [] h a i l = refl
count_later id c x b ((k, p) ∷ m) h a i l = ground (arith, count_later id c x k m h.1 a.1)

Above-IsSorted : (b : ℕ) (m : Map Progress) → Above b m → IsSorted m
Above-IsSorted b [] a = tt
Above-IsSorted b ((k, p) ∷ m) a = a.1

count_others :
    (id c x : ℕ) (m : Map Progress)
    → OthersUpTo id c m
    → IsSorted m
    → c < x
    → count_from x (matches m) ≤ 1
unfolding matches
count_others id c x [] h a l = omega arith
count_others id c x ((k, p) ∷ m) h a l = elim h.0 [
  | inl own ↦ ground (arith, count_later id c x k m h.1 a)
  | inr small ↦ ground (arith, count_others id c x m h.1 (Above-IsSorted k m a) l)
]

-- `MaybeCommit` does nothing at such a node: a quorum is two members at least.
pub commit_idle : (env : Env) (r : Raft) → IsStalled r → (maybe_commit env r).1 ≡ r
commit_idle env r h = elim (maybe_commit-quorum env r (λ e. ground (arith, h.several))) [
  | inr (_, same) ↦ same
  | inl (_, grown, many, _) ↦ absurd (
      unfold quorum in
      omega (
        arith,
        count_others r.id r.raftlog.committed (maybe_commit env r).1.raftlog.committed r.prs
            h.others h.sorted grown,
        many,
        h.several,
      ))
]
