-- ===== src/AnraftImpl/Commit.antt =====
-- The index that a leader commits, and the callbacks that it then runs.
use anraft.Base.{
  Bytes, ℕ, zero, suc, ◌+◌, ◌/◌, ◌≤◌, ◌<◌, ◌≡◌, refl, sym, ap, ◌∙◌, inl, inr, true, some, List, [],
  ◌∷◌, ◌++◌, arith, length, get_elem?, if◌then◌else◌, sub64, u64_mod, ret, Outcome-cases,
}
use anraft.Base.Int.{ℤ, pos, ◌+ℤ◌, ◌≤ℤ◌, ◌<ℤ◌, ltb_ℤ, leb_ℤ, +ℤ_parts, eq_of_parts, +ℤ_zero, +ℤ_pos}
use mathlib.Core.List.{append-nil, append_assoc}
use anraft.AnraftImpl.Defs.{
  AnraftImpl, FollowerContext, match_indices, insert_up, sort_up, commit_candidate, waits,
  erase_callback, fire, apply_up_to, distance,
}

-- How many of the numbers are at least x.
abbrev pub count_from : ℤ → List ℤ → ℕ
count_from x [] = 0
count_from x (y ∷ ys) = (if leb_ℤ x y then 1 else 0) + count_from x ys

abbrev pub Climbs : List ℤ → Type 0
Climbs [] = Unit {0}
Climbs (x ∷ []) = Unit {0}
Climbs (x ∷ y ∷ ys) = (x ≤ℤ y) × Climbs (y ∷ ys)

count-insert_up : (x y : ℤ) (ys : List ℤ) → count_from x (insert_up y ys) ≡ count_from x (y ∷ ys)
unfolding insert_up
count-insert_up x y [] = refl
count-insert_up x y (z ∷ ys) = ground (arith, count-insert_up x y ys)

pub count-sort_up : (x : ℤ) (ys : List ℤ) → count_from x (sort_up ys) ≡ count_from x ys
unfolding sort_up
count-sort_up x [] = refl
count-sort_up x (y ∷ ys) = omega (arith, count-insert_up x y (sort_up ys), count-sort_up x ys)

length-insert_up : (y : ℤ) (ys : List ℤ) → length (insert_up y ys) ≡ suc (length ys)
unfolding insert_up
length-insert_up y [] = refl
length-insert_up y (z ∷ ys) = ground (arith, length-insert_up y ys)

pub length-sort_up : (ys : List ℤ) → length (sort_up ys) ≡ length ys
unfolding sort_up
length-sort_up [] = refl
length-sort_up (y ∷ ys) = omega (arith, length-insert_up y (sort_up ys), length-sort_up ys)

insert_up-Climbs : (y : ℤ) (ys : List ℤ) → Climbs ys → Climbs (insert_up y ys)
unfolding insert_up
insert_up-Climbs y [] h = tt
insert_up-Climbs y (z ∷ []) h = ground arith
insert_up-Climbs y (z ∷ w ∷ ys) h = ground (arith, insert_up-Climbs y (w ∷ ys) h.1)

pub sort_up-Climbs : (ys : List ℤ) → Climbs (sort_up ys)
unfolding sort_up
sort_up-Climbs [] = tt
sort_up-Climbs (y ∷ ys) = insert_up-Climbs y (sort_up ys) (sort_up-Climbs ys)

below_rest :
    (x y : ℤ) (ys : List ℤ) → Climbs (y ∷ ys) → x ≤ℤ y → count_from x (y ∷ ys) ≡ suc (length ys)
below_rest x y [] h k = ground arith
below_rest x y (z ∷ ys) h k = ground (arith, below_rest x z ys h.1)

-- In a rising list the number at place k and all behind it are no smaller.
pub count_behind :
    (x : ℤ) (k : ℕ) (ys : List ℤ)
    → Climbs ys
    → get_elem? ys k ≡ some x
    → length ys ≤ k + count_from x ys
count_behind x k [] h e = ground arith
count_behind x zero (y ∷ ys) h e = ground (arith, below_rest x y ys h)
count_behind x (suc k) (y ∷ []) h e = ground arith
count_behind x (suc k) (y ∷ z ∷ ys) h e = ground (arith, count_behind x k (z ∷ ys) h.1 e)

pub length-match_indices :
    (addr : Bytes) (fs : List FollowerContext) (ns : List Bytes) {ms : List ℤ}
    → match_indices addr fs ns ≡ ret ms
    → length ms ≡ length fs
unfolding match_indices
length-match_indices addr [] ns h = ground arith
length-match_indices addr (f ∷ fs) [] h = ground arith
length-match_indices addr (f ∷ fs) (n ∷ ns) h = elim (Outcome-cases (match_indices addr fs ns)) [
  | inl (rest, e) ↦ ground (arith, e, length-match_indices addr fs ns e)
  | inr (f, e) ↦ ground (arith, e)
]

get_elem?-inside : {x : ℤ} (xs : List ℤ) (k : ℕ) → get_elem? xs k ≡ some x → k < length xs
get_elem?-inside [] k h = ground arith
get_elem?-inside (y ∷ xs) zero h = omega arith
get_elem?-inside (y ∷ xs) (suc k) h = ground (arith, get_elem?-inside xs k h)

-- The place that is read, for a group of two or more; for a smaller one it wraps around.
place_word : (n : ℕ) → n < u64_mod → sub64 (n / 2) 1 < n → sub64 (n / 2) 1 + 1 ≡ n / 2
unfolding sub64
place_word n h k = omega arith

-- Where a leader finds an index to commit, in a group with a context for each node, more than half
-- of the collected indices are at or above it; the leader's own stands there as 2 ^ 60.
pub commit_candidate-quorum :
    (s : AnraftImpl) (c : ℤ) (ms : List ℤ)
    → length s.follower_contexts ≡ length s.nodes
    → length s.nodes < u64_mod
    → match_indices s.local_addr s.follower_contexts s.nodes ≡ ret ms
    → commit_candidate s ≡ ret c
    → length s.nodes / 2 + 1 ≤ count_from c ms
unfolding commit_candidate
commit_candidate-quorum s c ms sized word found h =
    let place = sub64 (length s.nodes / 2) 1 in
    let size = length-match_indices s.local_addr s.follower_contexts s.nodes found in
    let at_place : get_elem? (sort_up ms) place ≡ some c = ground (arith, found, h) in
    let behind = count_behind c place (sort_up ms) (sort_up-Climbs ms) at_place in
    let inside : place < length (sort_up ms) = get_elem?-inside (sort_up ms) place at_place in
    omega (
      arith,
      size,
      behind,
      length-sort_up ms,
      count-sort_up c ms,
      place_word (length s.nodes) word (omega (arith, inside, size, length-sort_up ms)),
    )

-- The n indices behind i, and those of them that a callback waits for.
abbrev pub above : ℕ → ℤ → List ℤ
above zero i = []
above (suc n) i = (i +ℤ pos 1) ∷ above n (i +ℤ pos 1)

abbrev pub wanted : List ℤ → List ℤ → List ℤ
wanted cs [] = []
wanted cs (i ∷ is) = if waits i cs then i ∷ wanted cs is else wanted cs is

waits-erase_callback : (i j : ℤ) (cs : List ℤ) → i <ℤ j → waits j (erase_callback i cs) ≡ waits j cs
unfolding waits erase_callback
waits-erase_callback i j [] h = refl
waits-erase_callback i j (c ∷ cs) h = ground (arith, waits-erase_callback i j cs h)

wanted-erase_callback :
    (n : ℕ) (i j : ℤ) (cs : List ℤ)
    → i ≤ℤ j
    → wanted (erase_callback i cs) (above n j) ≡ wanted cs (above n j)
wanted-erase_callback zero i j cs h = refl
wanted-erase_callback (suc n) i j cs h = ground (
  arith,
  waits-erase_callback i (j +ℤ pos 1) cs (omega (arith, +ℤ_parts j (pos 1))),
  wanted-erase_callback n i (j +ℤ pos 1) cs (omega (arith, +ℤ_parts j (pos 1))),
)

-- One turn of the loop.
abbrev turn : AnraftImpl → AnraftImpl
turn s = fire (record s { last_applied = s.last_applied +ℤ pos 1 })

turn_lem :
    (n : ℕ) (s : AnraftImpl)
    → ((turn s).last_applied ≡ s.last_applied +ℤ pos 1)
      × ((turn s).called ++ wanted (turn s).apply_callbacks (above n (s.last_applied +ℤ pos 1))
          ≡ s.called ++ wanted s.apply_callbacks (above (suc n) s.last_applied))
unfolding fire
turn_lem n s =
    let next : ℤ = s.last_applied +ℤ pos 1 in
    ground (
      arith,
      wanted-erase_callback n next next s.apply_callbacks (omega arith),
      append_assoc s.called (next ∷ []) (wanted s.apply_callbacks (above n next)),
    )

apply_turns :
    (n : ℕ) (c : ℤ) (s : AnraftImpl)
    → s.last_applied +ℤ pos n ≡ c
    → let s' = apply_up_to n c s in
      (s'.last_applied ≡ c)
      × (s'.called ≡ s.called ++ wanted s.apply_callbacks (above n s.last_applied))
unfolding apply_up_to
apply_turns zero c s h = (sym (+ℤ_zero s.last_applied) ∙ h, sym (append-nil s.called))
apply_turns (suc n) c s h =
    let less : s.last_applied <ℤ c =
      rw (← h) (omega (arith, +ℤ_parts s.last_applied (pos (suc n)))) in
    let (moved, ran) = turn_lem n s in
    let (end, all) =
      apply_turns n c (turn s) (ap (λ t. t +ℤ pos n) moved ∙ +ℤ_pos s.last_applied n ∙ h) in
    let going : ltb_ℤ s.last_applied c ≡ true = ground (arith, less) in
    let after : ℤ → List ℤ = λ t. (turn s).called ++ wanted (turn s).apply_callbacks (above n t) in
    rw (going, apply_up_to) (end, all ∙ ap after moved ∙ ran)

distance_sum : (a b : ℤ) → a ≤ℤ b → a +ℤ pos (distance a b) ≡ b
unfolding distance
distance_sum a b h =
    eq_of_parts (a +ℤ pos (distance a b)) b (omega (arith, +ℤ_parts a (pos (distance a b))))

-- From a last applied index that is not above the committed one, and given as many turns as there
-- are indices up to it, the loop ends at the committed index, and runs the callbacks of the
-- indices in between, in their order, each once.
pub apply_up_to_lem :
    (c : ℤ) (s : AnraftImpl)
    → s.last_applied ≤ℤ c
    → let n = distance s.last_applied c in
      let s' = apply_up_to n c s in
      (s'.last_applied ≡ c)
      × (s'.called ≡ s.called ++ wanted s.apply_callbacks (above n s.last_applied))
apply_up_to_lem c s h =
    apply_turns (distance s.last_applied c) c s (distance_sum s.last_applied c h)
