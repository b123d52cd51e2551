-- ===== src/Storage/Compact.antt =====
-- What `Compact` leaves in the storage.
use anraft.Base.{
  ℕ, suc, ◌+◌, ◌-◌, ◌≤◌, ◌<◌, ◌≡◌, refl, sym, ap, ◌∙◌, ◌⊎◌, inl, inr, some, List, [], ◌∷◌, arith,
  length, get_elem?, drop, length-drop, Outcome, ret, trap, out_of_range, add64, dec_lt,
  get_elem?-none,
}
use anraft.Proto.{LogEntry, RaftError}
use anraft.Storage.Defs.{MemoryStorage, compact}
use anraft.Storage.Log.{
  IsIndexed, IsLog, IsValid, lookup_entry, lookup-get_elem?, lookup_within, lookup-drop,
  drop-IsIndexed, base, last,
}
use anraft.Storage.Query.{term_of, offset_word}

module _ (s : MemoryStorage) (falls_off : Outcome RaftError) (d : LogEntry) (es : List LogEntry)
    (v : IsLog (d ∷ es)) (c : ℕ) where
  -- The bound that `Compact` compares with: two above the last index.
  bound_word : add64 (add64 d.index (suc (length es))) 1 ≡ d.index + length es + 2
  unfolding add64
  bound_word = omega arith

  compact_refused :
      (c ≤ d.index) ⊎ (d.index + length es + 2 < c)
      → compact falls_off c (record s { ents = d ∷ es })
        ≡ (ret RaftError.compacted, record s { ents = d ∷ es })
  unfolding compact
  compact_refused h = ground (arith, bound_word)

  compact_beyond :
      d.index + length es < c
      → c ≤ d.index + length es + 2
      → compact falls_off c (record s { ents = d ∷ es })
        ≡ (trap out_of_range, record s { ents = d ∷ es })
  unfolding compact
  compact_beyond h k =
      ground (arith, bound_word, offset_word c d.index, get_elem?-none (d ∷ es) (c - d.index))

  compact_within :
      (e : LogEntry)
      → d.index < c
      → c ≤ d.index + length es
      → get_elem? (d ∷ es) (c - d.index) ≡ some e
      → compact falls_off c (record s { ents = d ∷ es }) ≡ (
        falls_off,
        record s { ents = record d { index = e.index; term = e.term } ∷ drop (c - d.index) es },
      )
  unfolding compact
  compact_within e h k found = ground (arith, bound_word, offset_word c d.index)

-- What a call of `Compact` at a stored index does: the log now starts there, and every entry
-- above it, the last index and the term at the index are as before.
abbrev pub Compacts : ℕ → List LogEntry → List LogEntry → Type 0
Compacts c old after =
    IsLog after
    × (base after ≡ c)
    × (last after ≡ last old)
    × ((i : ℕ) → c < i → lookup_entry i after ≡ lookup_entry i old)
    × ((i : ℕ) → c ≤ i → term_of after i ≡ term_of old i)

compacted_to :
    (d e : LogEntry) (es : List LogEntry) (c : ℕ)
    → IsLog (d ∷ es)
    → d.index < c
    → c ≤ d.index + length es
    → lookup_entry c (d ∷ es) ≡ some e
    → e.index ≡ c
    → Compacts c (d ∷ es) (record d { index = e.index; term = e.term } ∷ drop (c - d.index) es)
compacted_to d e es c v h k found ix = (
  (rest_run, omega (arith, length-drop skip es)),
  ix,
  omega (arith, length-drop skip es),
  above,
  terms,
)
  where
    skip : ℕ
    skip = c - d.index

    dummy : LogEntry
    dummy = record d { index = e.index; term = e.term }

    rest : List LogEntry
    rest = drop skip es

    rest_run : IsIndexed (suc e.index) rest
    rest_run =
        let at : suc d.index + skip ≡ suc e.index = omega arith in
        rw at at (drop-IsIndexed skip (suc d.index) es v.0)

    in_rest : (i : ℕ) → c < i → lookup_entry i rest ≡ lookup_entry i (d ∷ es)
    in_rest i q = ground (arith, lookup-drop skip i (suc d.index) es v.0)

    above : (i : ℕ) → c < i → lookup_entry i (dummy ∷ rest) ≡ lookup_entry i (d ∷ es)
    above i q = ground (arith, in_rest i)

    found_at : (i : ℕ) → i ≡ c → lookup_entry i (d ∷ es) ≡ some e
    found_at i q = ap (λ j. lookup_entry j (d ∷ es)) q ∙ found

    terms : (i : ℕ) → c ≤ i → term_of (dummy ∷ rest) i ≡ term_of (d ∷ es) i
    terms i q = elim (dec_lt c i) [
      | yes more ↦ ground (arith, above i more)
      | no same ↦ ground (arith, found_at i (omega arith), ix)
    ]

compact_in :
    (s : MemoryStorage) (falls_off : Outcome RaftError) (es : List LogEntry) (c : ℕ)
    → IsLog es
    → base es < c
    → c ≤ last es
    → let (r, s') = compact falls_off c (record s { ents = es }) in
      (r ≡ falls_off) × Compacts c es s'.ents
compact_in s falls_off [] c v h k = elim v [ ]
compact_in s falls_off (d ∷ es) c v h k =
    let (e, found, ix) = lookup_within c d.index (d ∷ es) (refl, v.0) (omega arith) (omega arith) in
    let place = lookup-get_elem? c d.index (d ∷ es) (refl, v.0) (omega arith) in
    rw (compact_within s falls_off d es v c e h k (sym place ∙ found))
      (refl, compacted_to d e es c v h k found ix)

-- In a valid storage, `Compact` at a stored index above the dummy drops the entries up to it: the
-- log stays valid and starts at the index, the later entries, the last index and the terms from
-- the index on are as they were. It then runs off the end of the function, whatever that gives.
pub compact_lem :
    (s : MemoryStorage) (falls_off : Outcome RaftError) (c : ℕ)
    → IsValid s
    → base s.ents < c
    → c ≤ last s.ents
    → let (r, s') = compact falls_off c s in (r ≡ falls_off) × Compacts c s.ents s'.ents
compact_lem s falls_off c v h k = compact_in s falls_off s.ents c v h k

-- What a call of `Compact` at an index that is not stored above the dummy does.
abbrev pub Refuses : ℕ → MemoryStorage → Outcome RaftError × MemoryStorage → Type 0
Refuses c s after =
    (((c ≤ base s.ents) ⊎ (last s.ents + 2 < c)) × (after ≡ (ret RaftError.compacted, s)))
    ⊎ ((last s.ents < c) × (c ≤ last s.ents + 2) × (after ≡ (trap out_of_range, s)))

compact_refused_in :
    (s : MemoryStorage) (falls_off : Outcome RaftError) (es : List LogEntry) (c : ℕ)
    → IsLog es
    → (c ≤ base es) ⊎ (last es < c)
    → Refuses c (record s { ents = es }) (compact falls_off c (record s { ents = es }))
compact_refused_in s falls_off [] c v h = elim v [ ]
compact_refused_in s falls_off (d ∷ es) c v (inl low) =
    inl (inl low, compact_refused s falls_off d es v c (inl low))
compact_refused_in s falls_off (d ∷ es) c v (inr high) = elim (dec_lt (d.index + length es + 2) c) [
  | yes far ↦ inl (inr far, compact_refused s falls_off d es v c (inr far))
  | no near ↦ inr (high, omega arith, compact_beyond s falls_off d es v c high (omega arith))
]

-- In a valid storage, at an index that is not stored above the dummy, `Compact` changes nothing:
-- it reports ErrCompacted, but at the two indices above the last one it reads outside its vector.
pub compact-Refuses :
    (s : MemoryStorage) (falls_off : Outcome RaftError) (c : ℕ)
    → IsValid s
    → (c ≤ base s.ents) ⊎ (last s.ents < c)
    → Refuses c s (compact falls_off c s)
compact-Refuses s falls_off c v h = compact_refused_in s falls_off s.ents c v h
