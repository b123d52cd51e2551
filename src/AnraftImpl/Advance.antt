-- ===== src/AnraftImpl/Advance.antt =====
-- The move of the commit index in `ReplicateLogToFollower`, with the callbacks that it sets off.
use anraft.Base.{
  Bytes, same_bytes, ℕ, zero, suc, ◌+◌, ◌/◌, ◌%◌, ◌≤◌, ◌<◌, ◌≡◌, ◌⊎◌, refl, ap, inl, inr, some,
  List, [], ◌∷◌, ◌++◌, arith, length, get_elem?, get_elem?-some, if◌then◌else◌, Bool-cases, sub64,
  u64_mod, ret,
}
use anraft.Base.Action.{do_blocks}
use anraft.Base.Int.{ℤ, pos, ◌+ℤ◌, ◌≤ℤ◌, ◌<ℤ◌, ltb_ℤ, +ℤ_parts}
use anraft.AnraftImpl.Defs.{
  AnraftImpl, FollowerContext, match_indices, sort_up, commit_candidate, fire, apply_up_to,
  distance, advance,
}
use anraft.AnraftImpl.Commit.{
  count_from, Climbs, count-sort_up, length-sort_up, sort_up-Climbs, count_behind,
  length-match_indices, above, wanted, apply_up_to_lem,
}

count_length : (x : ℤ) (ys : List ℤ) → count_from x ys ≤ length ys
count_length x [] = omega arith
count_length x (y ∷ ys) = ground (arith, count_length x ys)

head_below :
    (y x : ℤ) (k : ℕ) (ys : List ℤ) → Climbs (y ∷ ys) → get_elem? (y ∷ ys) k ≡ some x → y ≤ℤ x
head_below y x zero ys h e = ground (arith, e)
head_below y x (suc k) [] h e = ground (arith, e)
head_below y x (suc k) (z ∷ ys) h e = ground (arith, head_below z x k ys h.1 e, h.0)

-- In a rising list what is above the number at place k stands behind it.
count_above :
    (x y : ℤ) (k : ℕ) (ys : List ℤ)
    → Climbs ys
    → get_elem? ys k ≡ some x
    → x <ℤ y
    → count_from y ys + suc k ≤ length ys
count_above x y k [] h e less = ground (arith, e)
count_above x y zero (z ∷ ys) h e less = ground (arith, e, count_length y ys)
count_above x y (suc k) (z ∷ []) h e less = ground (arith, e)
count_above x y (suc k) (z ∷ w ∷ ys) h e less =
    ground (arith, head_below z x (suc k) (w ∷ ys) h e, count_above x y k (w ∷ ys) h.1 e less)

matched_all :
    (addr : Bytes) (fs : List FollowerContext) (ns : List Bytes)
    → length fs ≡ length ns
    → (ms : List ℤ) × (match_indices addr fs ns ≡ ret ms)
unfolding match_indices
matched_all addr [] ns h = ([], refl)
matched_all addr (f ∷ fs) [] h = absurd (omega (arith, h))
matched_all addr (f ∷ fs) (n ∷ ns) h =
    let (ms, e) = matched_all addr fs ns (omega (arith, h)) in
    ((if same_bytes n addr then pos 1152921504606846976 else f.match_index) ∷ ms, ground (arith, e))

-- How many of n collected indices have to reach an index that is committed: a majority of an even
-- number, and one more of an odd one.
abbrev pub needed : ℕ → ℕ
needed n = n / 2 + 1 + n % 2

-- The candidate is the largest index that as many have reached.
candidate_lem :
    (s : AnraftImpl)
    → length s.follower_contexts ≡ length s.nodes
    → 2 ≤ length s.nodes
    → length s.nodes < u64_mod
    → (ms : List ℤ) × (c : ℤ) × (match_indices s.local_addr s.follower_contexts s.nodes ≡ ret ms)
      × (commit_candidate s ≡ ret c)
      × (needed (length s.nodes) ≤ count_from c ms)
      × ((d : ℤ) → c <ℤ d → count_from d ms < needed (length s.nodes))
unfolding commit_candidate sub64
candidate_lem s sized several word =
    let (ms, found) = matched_all s.local_addr s.follower_contexts s.nodes sized in
    let place : ℕ = sub64 (length s.nodes / 2) 1 in
    let size = length-match_indices s.local_addr s.follower_contexts s.nodes found in
    let sorted = length-sort_up ms in
    let there : place + 1 ≡ length s.nodes / 2 = omega (arith, several, word) in
    let (c, e) =
      get_elem?-some (sort_up ms) place (omega (arith, size, sorted, sized, there, several)) in
    let climbs = sort_up-Climbs ms in
    (
      ms,
      c,
      found,
      ground (arith, found, e),
      omega (
        arith,
        count_behind c place (sort_up ms) climbs e,
        count-sort_up c ms,
        size,
        sorted,
        sized,
        there,
      ),
      λ d less. omega (
        arith,
        count_above c d place (sort_up ms) climbs e less,
        count-sort_up d ms,
        size,
        sorted,
        sized,
        there,
        several,
      ),
    )

-- The loop leaves the other fields.
apply_up_to_frame :
    (n : ℕ) (c : ℤ) (s : AnraftImpl)
    → let s' = apply_up_to n c s in
      s' ≡ record s {
        last_applied = s'.last_applied;
        apply_callbacks = s'.apply_callbacks;
        called = s'.called;
      }
unfolding apply_up_to fire
apply_up_to_frame zero c s = refl
apply_up_to_frame (suc n) c s =
    let next : AnraftImpl = fire (record s { last_applied = s.last_applied +ℤ pos 1 }) in
    ground (arith, apply_up_to_frame n c next)

advance_run :
    (s : AnraftImpl) (c : ℤ)
    → commit_candidate s ≡ ret c
    → advance s ≡ (
      ret tt,
      (if ltb_ℤ s.commit_index c
          then apply_up_to (distance s.last_applied c) c (record s { commit_index = c })
          else s),
    )
unfolding advance do_blocks
advance_run s c h = ground (arith, h)

-- The commit index has grown to an index that enough have reached, and all up to it is applied, its
-- callbacks run in their order.
abbrev pub HasCommitted : List ℤ → AnraftImpl → AnraftImpl → Type 0
HasCommitted ms s s' =
    (s.commit_index <ℤ s'.commit_index)
    × (needed (length s.nodes) ≤ count_from s'.commit_index ms)
    × (s'.last_applied ≡ s'.commit_index)
    × (s'.called
        ≡ s.called
          ++ wanted s.apply_callbacks
              (above (distance s.last_applied s'.commit_index) s.last_applied))

-- In a group of two nodes or more, fewer than 2 ^ 64, with a context for each, and nothing applied
-- that is not committed, `ReplicateLogToFollower` moves the commit index, without a trap, to the
-- largest index that enough of the n collected ones have reached: n / 2 + 1 for an even n, which is
-- a majority, and one more for an odd n, all of three and four of five. The leader's own index
-- counts as 2 ^ 60. It is moved only upwards, and then everything up to it is applied, with each
-- waiting callback run once, in the order of the indices; else nothing changes.
pub advance_lem :
    (s : AnraftImpl)
    → length s.follower_contexts ≡ length s.nodes
    → 2 ≤ length s.nodes
    → length s.nodes < u64_mod
    → s.last_applied ≤ℤ s.commit_index
    → let (x, s') = advance s in
      (ms : List ℤ) × (match_indices s.local_addr s.follower_contexts s.nodes ≡ ret ms)
      × (x ≡ ret tt)
      × (count_from (s'.commit_index +ℤ pos 1) ms < needed (length s.nodes))
      × ((s' ≡ s) ⊎ HasCommitted ms s s')
advance_lem s sized several word ordered =
    let (ms, c, found, chosen, enough, largest) = candidate_lem s sized several word in
    rw (advance_run s c chosen) (elim (Bool-cases (ltb_ℤ s.commit_index c)) [
      | inr stays ↦ rw stays (
        ms,
        found,
        refl,
        largest (s.commit_index +ℤ pos 1) (
            let up : c ≤ℤ s.commit_index = ground (arith, stays) in
            omega (arith, up, +ℤ_parts s.commit_index (pos 1))),
        inl refl,
      )
      | inl grows ↦ rw grows (
          let s1 : AnraftImpl = record s { commit_index = c } in
          let up : s.commit_index <ℤ c = ground (arith, grows) in
          let kept =
            ap (λ t. t.commit_index) (apply_up_to_frame (distance s.last_applied c) c s1) in
          let (applied, called) = apply_up_to_lem c s1 (omega (arith, ordered, up)) in
          (
            ms,
            found,
            refl,
            rw kept (largest (c +ℤ pos 1) (omega (arith, +ℤ_parts c (pos 1)))),
            inr (rw kept (up, enough, applied, called)),
          ))
    ])
