-- ===== src/Raft/Growth.antt =====
-- What becomes of the progress of the members.
use anraft.Base.{ℕ, ◌≤◌, ◌≡◌, refl, ◌∙◌, inl, inr, none, some, [], ◌∷◌, arith, Option-cases}
use anraft.Base.Map.{Map, find, replace}
use anraft.Progress.{Progress, maybe_update}
use anraft.Raft.Defs.{Raft, in_prs, read_progress}

-- The same members, of which no matched or next index is lower.
abbrev pub Grows : Map Progress → Map Progress → Type 0
Grows [] [] = Unit {0}
Grows [] (_ ∷ _) = ⊥
Grows (_ ∷ _) [] = ⊥
Grows ((k, p) ∷ m) ((j, q) ∷ n) = (j ≡ k) × (p.match ≤ q.match) × (p.next ≤ q.next) × Grows m n

pub Grows-refl : (m : Map Progress) → Grows m m
Grows-refl [] = tt
Grows-refl ((k, p) ∷ m) = (refl, omega arith, omega arith, Grows-refl m)

pub Grows-trans : (l m n : Map Progress) → Grows l m → Grows m n → Grows l n
Grows-trans [] [] [] g h = tt
Grows-trans [] [] (_ ∷ n) g h = elim h [ ]
Grows-trans [] (_ ∷ m) n g h = elim g [ ]
Grows-trans ((i, p) ∷ l) [] n g h = elim g [ ]
Grows-trans ((i, p) ∷ l) ((j, q) ∷ m) [] g h = elim h [ ]
Grows-trans ((i, p) ∷ l) ((j, q) ∷ m) ((k, r) ∷ n) g h =
    (h.0 ∙ g.0, omega (arith, g, h), omega (arith, g, h), Grows-trans l m n g.3 h.3)

update_grows :
    (n : ℕ) (p : Progress)
    → (p.match ≤ (maybe_update n p).0.match) × (p.next ≤ (maybe_update n p).0.next)
unfolding maybe_update
update_grows n p = ground arith

replace-Grows :
    (k n : ℕ) (p : Progress) (m : Map Progress)
    → find k m ≡ some p
    → Grows m (replace k (maybe_update n p).0 m)
replace-Grows k n p [] h = tt
replace-Grows k n p ((j, q) ∷ m) h =
    ground (arith, update_grows n q, replace-Grows k n p m, Grows-refl m)

replace-none : (k : ℕ) (p : Progress) (m : Map Progress) → find k m ≡ none → replace k p m ≡ m
replace-none k p [] h = refl
replace-none k p ((j, q) ∷ m) h = ground (arith, replace-none k p m)

-- `MaybeUpdate` through a pointer into the members.
pub update-Grows :
    (k n : ℕ) (r : Raft)
    → Grows r.prs (replace k (maybe_update n (read_progress (in_prs k) r)).0 r.prs)
unfolding read_progress
update-Grows k n r = elim (Option-cases (find k r.prs)) [
  | inl absent ↦
      rw (replace-none k (maybe_update n (read_progress (in_prs k) r)).0 r.prs absent)
        (Grows-refl r.prs)
  | inr (p, found) ↦ rw found (replace-Grows k n p r.prs found)
]
