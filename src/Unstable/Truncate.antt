-- ===== src/Unstable/Truncate.antt =====
-- What the methods of `Unstable` do to the run of entries.
use anraft.Base.{
  ℕ, suc, ◌+◌, ◌-◌, ◌≤◌, ◌<◌, ◌≡◌, refl, ap, subst, ◌∙◌, ◌≢◌, ◌⊎◌, inl, inr, true, false, List, [],
  ◌∷◌, ◌++◌, arith, length, take, drop, length-append, length-drop, length-take, add64, sub64,
  add64_fits, Outcome, ret, trap, out_of_range, dec_lt, ℕ_discrete,
}
use anraft.Proto.{LogEntry}
use anraft.Storage.Log.{
  IsIndexed, append-IsIndexed, drop-IsIndexed, take-IsIndexed, lookup_entry, lookup-append,
  lookup_above, lookup_within, i64_limit,
}
use anraft.Storage.Write.{IsRun}
use anraft.Unstable.Defs.{Unstable, truncate_and_append, maybe_last_index, slice}

-- The entries stand at their positions, with room to count in an int64.
abbrev pub IsTail : Unstable → Type 0
IsTail u = IsIndexed u.offset u.ents × (u.offset + length u.ents + 3 < i64_limit)

module _ (u : Unstable) (e : LogEntry) (es : List LogEntry) (v : IsTail u) where
  next_word : add64 u.offset (length u.ents) ≡ u.offset + length u.ents
  next_word = add64_fits u.offset (length u.ents) (omega arith)

  -- Entries that go on where the tail ends are appended.
  pub truncate_next :
      e.index ≡ u.offset + length u.ents
      → truncate_and_append (e ∷ es) u ≡ (ret tt, record u { ents = u.ents ++ e ∷ es })
  unfolding truncate_and_append
  truncate_next h = ground (arith, next_word)

  -- Entries from the offset or before it take the place of the tail.
  pub truncate_replace :
      e.index ≤ u.offset
      → e.index ≢ u.offset + length u.ents
      → truncate_and_append (e ∷ es) u ≡ (ret tt, record u { offset = e.index; ents = e ∷ es })
  unfolding truncate_and_append
  truncate_replace h k = ground (arith, next_word)

  truncate_inside :
      u.offset < e.index
      → e.index ≤ length u.ents
      → e.index ≢ u.offset + length u.ents
      → truncate_and_append (e ∷ es) u
        ≡ (ret tt, record u { ents = take (e.index - u.offset) (drop u.offset u.ents) })
  unfolding truncate_and_append
  truncate_inside h k l = ground (arith, next_word)

  truncate_outside :
      u.offset < e.index
      → length u.ents < e.index
      → e.index ≢ u.offset + length u.ents
      → truncate_and_append (e ∷ es) u ≡ (trap out_of_range, u)
  unfolding truncate_and_append
  truncate_outside h k l = ground (arith, next_word)

-- What a call of `TruncateAndAppend` with the run `new` from index b on does where it works: the
-- tail is a run again, holds every new entry, and ends with the last of them; an entry before b
-- that is still held is an old one.
abbrev pub Joins : ℕ → List LogEntry → Unstable → Unstable → Type 0
Joins b new u after =
    IsIndexed after.offset after.ents
    × (after.offset + length after.ents ≡ b + length new)
    × ((i : ℕ) → b ≤ i → lookup_entry i after.ents ≡ lookup_entry i new)
    × ((i : ℕ) → after.offset ≤ i → i < b → lookup_entry i after.ents ≡ lookup_entry i u.ents)

Joins-next :
    (u : Unstable) (e : LogEntry) (es : List LogEntry)
    → IsTail u
    → IsRun (e ∷ es)
    → e.index ≡ u.offset + length u.ents
    → Joins e.index (e ∷ es) u (record u { ents = u.ents ++ e ∷ es })
Joins-next u e es v run at = (
  append-IsIndexed u.offset u.ents (e ∷ es) v.0 (at, subst (λ b. IsIndexed (suc b) es) at run.0.1),
  omega (arith, length-append u.ents (e ∷ es)),
  λ i h.
      lookup-append i u.offset u.ents (e ∷ es) v.0
      ∙ rw (lookup_above i u.offset u.ents v.0 (omega arith)) refl,
  λ i h k.
      let (x, found, ix) = lookup_within i u.offset u.ents v.0 h (omega arith) in
      lookup-append i u.offset u.ents (e ∷ es) v.0 ∙ rw found refl,
)

-- At a tail in order, a run of entries that goes on where the tail ends, or starts at its offset
-- or before, is taken over: the call returns, and the tail is a run that ends with the new
-- entries.
pub truncate-Joins :
    (u : Unstable) (e : LogEntry) (es : List LogEntry)
    → IsTail u
    → IsRun (e ∷ es)
    → (e.index ≡ u.offset + length u.ents) ⊎ (e.index ≤ u.offset)
    → let (r, after) = truncate_and_append (e ∷ es) u in
      (r ≡ ret tt) × Joins e.index (e ∷ es) u after
truncate-Joins u e es v run h = elim (ℕ_discrete e.index (u.offset + length u.ents)) [
  | yes at ↦ rw (truncate_next u e es v at) (refl, Joins-next u e es v run at)
  | no other ↦
      let low : e.index ≤ u.offset = ground (arith, h) in
      rw (truncate_replace u e es v low other)
        (refl, (run.0, refl, λ i k. refl, λ i k l. absurd (omega arith)))
]

-- What is left of a tail whose middle the new entries would replace.
abbrev pub Drops : ℕ → Unstable → Outcome (Unit {0}) × Unstable → Type 0
Drops b u (r, after) =
    ((length u.ents < b) × (r ≡ trap out_of_range) × (after ≡ u))
    ⊎ ((b ≤ length u.ents)
        × (r ≡ ret tt)
        × (after.offset ≡ u.offset)
        × (length after.ents ≡ b - u.offset)
        × IsIndexed (u.offset + u.offset) after.ents)

-- New entries that start inside a tail in order are not stored: the call reads outside its vector,
-- or keeps the right number of old entries, but those from twice the offset on.
pub truncate-Drops :
    (u : Unstable) (e : LogEntry) (es : List LogEntry)
    → IsTail u
    → u.offset < e.index
    → e.index < u.offset + length u.ents
    → Drops e.index u (truncate_and_append (e ∷ es) u)
truncate-Drops u e es v h k = elim (dec_lt (length u.ents) e.index) [
  | yes over ↦ rw (truncate_outside u e es v h over (omega arith)) (inl (over, refl, refl))
  | no fits ↦
      let rest = drop u.offset u.ents in
      let size : length rest ≡ length u.ents - u.offset = length-drop u.offset u.ents in
      rw (truncate_inside u e es v h (omega arith) (omega arith)) (
        inr (
          omega arith,
          refl,
          refl,
          length-take (e.index - u.offset) rest (omega arith),
          take-IsIndexed (e.index - u.offset) (u.offset + u.offset) rest
              (drop-IsIndexed u.offset u.offset u.ents v.0),
        ))
]

pub slice_inside :
    (u : Unstable) (lo hi : ℕ) (acc : List LogEntry)
    → u.offset ≤ lo
    → lo ≤ hi
    → hi ≤ u.offset + length u.ents
    → slice u lo hi acc
      ≡ ret (take (hi - u.offset - (lo - u.offset)) (drop (lo - u.offset) u.ents) ++ acc)
unfolding slice
slice_inside u lo hi acc a b c = ground arith

-- Within the tail `Slice` puts the entries with the indices lo .. hi - 1 in front of the vector.
pub slice_within :
    (u : Unstable) (lo hi : ℕ) (acc : List LogEntry)
    → IsTail u
    → u.offset ≤ lo
    → lo ≤ hi
    → hi ≤ u.offset + length u.ents
    → (es : List LogEntry) × (slice u lo hi acc ≡ ret (es ++ acc))
      × (length es ≡ hi - lo)
      × IsIndexed lo es
slice_within u lo hi acc v a b c =
    let first : ℕ = lo - u.offset in
    let width : hi - u.offset - (lo - u.offset) ≡ hi - lo = omega arith in
    let rest : List LogEntry = drop first u.ents in
    let size : length rest ≡ length u.ents - first = length-drop first u.ents in
    let start : u.offset + first ≡ lo = omega arith in
    let run : IsIndexed lo rest = rw start at (drop-IsIndexed first u.offset u.ents v.0) in
    (
      take (hi - lo) rest,
      slice_inside u lo hi acc a b c ∙ rw width refl,
      length-take (hi - lo) rest (omega arith),
      take-IsIndexed (hi - lo) lo rest run,
    )

-- Anywhere else `Slice` reads outside the tail.
pub slice_outside :
    (u : Unstable) (lo hi : ℕ) (acc : List LogEntry)
    → IsTail u
    → (lo < u.offset) ⊎ (hi < lo) ⊎ (u.offset + length u.ents < hi)
    → slice u lo hi acc ≡ trap out_of_range
unfolding slice
slice_outside u lo hi acc v h = ground (arith, h)

tail_last_in :
    (u : Unstable) (es : List LogEntry)
    → u.offset + length es + 3 < i64_limit
    → maybe_last_index (record u { ents = es })
      ≡ elim es [ [] ↦ (0, false) | _ ∷ rest ↦ (u.offset + length rest, true) ]
unfolding maybe_last_index
tail_last_in u [] h = refl
tail_last_in u (e ∷ es) h = ap (λ i. (i, true)) (word u.offset (length es) h)
  where
    word : (o n : ℕ) → o + suc n + 3 < i64_limit → sub64 (add64 o (suc n)) 1 ≡ o + n
    word o n h = unfold add64 sub64 in omega arith

-- `MaybeLastIndex` gives the index of the last entry of a tail that has one.
pub tail_last :
    (u : Unstable)
    → IsTail u
    → maybe_last_index u
      ≡ elim u.ents [ [] ↦ (0, false) | _ ∷ rest ↦ (u.offset + length rest, true) ]
tail_last u v = tail_last_in u u.ents v.1
