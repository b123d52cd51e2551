-- ===== src/Storage/Query.antt =====
-- What the reading methods of `MemoryStorage` answer, by the entries that carry each index.
use anraft.Base.{
  ℕ, suc, ◌+◌, ◌-◌, ◌≤◌, ◌<◌, ◌≡◌, refl, sym, ◌∙◌, ◌⊎◌, inl, inr, none, some, List, [], ◌∷◌, arith,
  length, get_elem?, take, drop, ltb, leb, if◌then◌else◌, length-drop, length-take, Outcome, ret,
  trap, out_of_range, add64, sub64, add64_fits, range, le→ltb, lt→ltb, lt→leb, dec_lt, ◌>>=◌,
  range_inside, range_outside,
}
use anraft.Proto.{LogEntry, RaftError}
use anraft.Storage.Defs.{MemoryStorage, entries, term, first_index, last_index}
use anraft.Storage.Log.{
  IsIndexed, IsLog, take-IsIndexed, drop-IsIndexed, IsValid, lookup_entry, lookup_above, i64_limit,
  lookup-get_elem?, lookup_within, base, last,
}

-- The specification of `Term`: compacted below the dummy, else the entry with the index.
abbrev pub term_of : List LogEntry → ℕ → ℕ × RaftError
term_of es i = if ltb i (base es) then (0, RaftError.compacted) else elim (lookup_entry i es) [
  | none ↦ (0, RaftError.unavailable)
  | some e ↦ (e.term, RaftError.none_err)
]

-- The word that `LastIndex` and `Term` compute is the last index.
pub last_word :
    (d : LogEntry) (es : List LogEntry)
    → IsLog (d ∷ es)
    → sub64 (add64 d.index (suc (length es))) 1 ≡ d.index + length es
unfolding add64 sub64
last_word d es v = omega arith

pub offset_word : (i b : ℕ) → b ≤ i → i < i64_limit → sub64 i b ≡ i - b
unfolding sub64
offset_word i b h k = omega arith

term_within :
    (s : MemoryStorage) (d e : LogEntry) (es : List LogEntry) (i : ℕ)
    → IsLog (d ∷ es)
    → d.index ≤ i
    → i ≤ d.index + length es
    → get_elem? (d ∷ es) (i - d.index) ≡ some e
    → term (record s { ents = d ∷ es }) i ≡ ret (e.term, RaftError.none_err)
unfolding term
term_within s d e es i v lo hi found =
    rw (le→ltb i d.index lo, last_word d es v, le→ltb (d.index + length es) i hi)
      (rw (offset_word i d.index lo (omega arith), found) refl)

term_in-eq :
    (s : MemoryStorage) (es : List LogEntry) (i : ℕ)
    → IsLog es
    → term (record s { ents = es }) i ≡ ret (term_of es i)
term_in-eq s [] i v = elim v [ ]
term_in-eq s (d ∷ es) i v = elim (dec_lt i d.index) [
  | yes low ↦ below low
  | no high ↦ elim (dec_lt (d.index + length es) i) [
    | yes above ↦ beyond (omega arith) above
    | no inside ↦ within (omega arith) (omega arith)
  ]
]
  where
    run : IsIndexed d.index (d ∷ es)
    run = (refl, v.0)

    below : i < d.index → term (record s { ents = d ∷ es }) i ≡ ret (term_of (d ∷ es) i)
    below low = unfold term in ground (arith, low)

    beyond :
        d.index ≤ i
        → d.index + length es < i
        → term (record s { ents = d ∷ es }) i ≡ ret (term_of (d ∷ es) i)
    beyond lo above = rw (lookup_above i d.index (d ∷ es) run (omega arith)) (
        unfold term in
        rw (le→ltb i d.index lo, last_word d es v, lt→ltb (d.index + length es) i above) refl)

    within :
        d.index ≤ i
        → i ≤ d.index + length es
        → term (record s { ents = d ∷ es }) i ≡ ret (term_of (d ∷ es) i)
    within lo hi =
        let (e, found, ix) = lookup_within i d.index (d ∷ es) run lo (omega arith) in
        let place = lookup-get_elem? i d.index (d ∷ es) run lo in
        rw (found, le→ltb i d.index lo) (term_within s d e es i v lo hi (sym place ∙ found))

-- In a valid storage `Term` never traps, and answers every index by the entry that carries it.
pub term-IsValid : (s : MemoryStorage) (i : ℕ) → IsValid s → term s i ≡ ret (term_of s.ents i)
term-IsValid s i v = term_in-eq s s.ents i v

indices_in :
    (s : MemoryStorage) (es : List LogEntry)
    → IsLog es
    → (first_index (record s { ents = es }) ≡ ret (suc (base es), RaftError.none_err))
      × (last_index (record s { ents = es }) ≡ ret (last es, RaftError.none_err))
unfolding first_index last_index
indices_in s [] v = elim v [ ]
indices_in s (d ∷ es) v =
    (rw (add64_fits d.index 1 (omega arith)) (ground arith), rw (last_word d es v) refl)

-- `FirstIndex` and `LastIndex` are the index after the dummy and that of the last entry.
pub indices_lem :
    (s : MemoryStorage)
    → IsValid s
    → (first_index s ≡ ret (suc (base s.ents), RaftError.none_err))
      × (last_index s ≡ ret (last s.ents, RaftError.none_err))
indices_lem s v = indices_in s s.ents v

entries_word :
    (d : LogEntry) (es : List LogEntry)
    → IsLog (d ∷ es)
    → add64 d.index (suc (length es)) ≡ d.index + length es + 1
unfolding add64
entries_word d es v = omega arith

module _ (s : MemoryStorage) (d : LogEntry) (es : List LogEntry) (lo hi max_size : ℕ)
    (v : IsLog (d ∷ es)) (above : d.index < lo) (ordered : lo ≤ hi)
    (upto : hi ≤ d.index + length es + 1) where
  entries_range :
      entries (record s { ents = d ∷ es }) lo hi max_size
      ≡ (range d.index (d.index + hi - lo) (d ∷ es) >>= λ target. ret (target, RaftError.none_err))
  unfolding entries
  entries_range =
      rw
        (
          lt→leb d.index lo above,
          entries_word d es v,
          le→ltb (d.index + length es + 1) hi upto,
          le→ltb (d.index + hi) lo (omega arith),
        )
        refl

  entries_copied :
      d.index + (hi - lo) ≤ suc (length es)
      → entries (record s { ents = d ∷ es }) lo hi max_size
        ≡ ret (take (hi - lo) (drop d.index (d ∷ es)), RaftError.none_err)
  entries_copied fits =
      let width : d.index + hi - lo - d.index ≡ hi - lo = omega arith in
      entries_range
      ∙ rw (range_inside d.index (d.index + hi - lo) (d ∷ es) (omega arith) (omega arith), width)
          refl

  entries_overrun :
      suc (length es) < d.index + (hi - lo)
      → entries (record s { ents = d ∷ es }) lo hi max_size ≡ trap out_of_range
  entries_overrun over =
      entries_range
      ∙ rw (range_outside d.index (d.index + hi - lo) (d ∷ es) (inl (omega arith))) refl

entries_in-exact :
    (s : MemoryStorage) (es : List LogEntry) (lo hi max_size : ℕ)
    → IsLog es
    → base es < lo
    → lo ≤ hi
    → hi ≤ last es + 1
    → entries (record s { ents = es }) lo hi max_size ≡ (
        if leb (base es + (hi - lo)) (length es)
        then ret (take (hi - lo) (drop (base es) es), RaftError.none_err)
        else trap out_of_range)
entries_in-exact s [] lo hi max_size v above ordered upto = elim v [ ]
entries_in-exact s (d ∷ es) lo hi max_size v above ordered upto =
    elim (dec_lt (suc (length es)) (d.index + (hi - lo))) [
      | yes over ↦
          entries_overrun s d es lo hi max_size v above ordered upto over ∙ ground (arith, over)
      | no fits ↦
          entries_copied s d es lo hi max_size v above ordered upto (omega arith)
          ∙ ground (arith, fits)
    ]

-- Within the stored entries `Entries` copies as many as were asked for from the position of the
-- compacted index on, where they are there, and else reads outside its vector.
pub entries_exact :
    (s : MemoryStorage) (lo hi max_size : ℕ)
    → IsValid s
    → base s.ents < lo
    → lo ≤ hi
    → hi ≤ last s.ents + 1
    → entries s lo hi max_size ≡ (
        if leb (base s.ents + (hi - lo)) (length s.ents)
        then ret (take (hi - lo) (drop (base s.ents) s.ents), RaftError.none_err)
        else trap out_of_range)
entries_exact s lo hi max_size v above ordered upto =
    entries_in-exact s s.ents lo hi max_size v above ordered upto

-- The slice that `Entries` copies for the request [lo, hi), in the range where it reports no error.
abbrev pub Copies : List LogEntry → ℕ → ℕ → Outcome (List LogEntry × RaftError) → Type 0
Copies stored lo hi r =
    ((r ≡ trap out_of_range) × (length stored < base stored + (hi - lo)))
    ⊎ ((es : List LogEntry) × (r ≡ ret (es, RaftError.none_err))
        × (length es ≡ hi - lo)
        × IsIndexed (base stored + base stored) es)

entries_in-Copies :
    (s : MemoryStorage) (es : List LogEntry) (lo hi max_size : ℕ)
    → IsLog es
    → base es < lo
    → lo ≤ hi
    → hi ≤ last es + 1
    → Copies es lo hi (entries (record s { ents = es }) lo hi max_size)
entries_in-Copies s [] lo hi max_size v above ordered upto = elim v [ ]
entries_in-Copies s (d ∷ es) lo hi max_size v above ordered upto =
    elim (dec_lt (suc (length es)) (d.index + (hi - lo))) [
      | yes over ↦ inl (entries_overrun s d es lo hi max_size v above ordered upto over, over)
      | no fits ↦
          let rest = drop d.index (d ∷ es) in
          let size : length rest ≡ suc (length es) - d.index = length-drop d.index (d ∷ es) in
          inr (
            take (hi - lo) rest,
            entries_copied s d es lo hi max_size v above ordered upto (omega arith),
            length-take (hi - lo) rest (omega arith),
            take-IsIndexed (hi - lo) (d.index + d.index) rest
                (drop-IsIndexed d.index d.index (d ∷ es) (refl, v.0)),
          )
    ]

-- For a request to a valid storage that is in range, `Entries` either reads past its vector, or
-- answers as many entries as were asked for, with indices from twice the compacted index on
-- instead of from `lo`.
pub entries_shifted :
    (s : MemoryStorage) (lo hi max_size : ℕ)
    → IsValid s
    → base s.ents < lo
    → lo ≤ hi
    → hi ≤ last s.ents + 1
    → Copies s.ents lo hi (entries s lo hi max_size)
entries_shifted s lo hi max_size v above ordered upto =
    entries_in-Copies s s.ents lo hi max_size v above ordered upto

entries_in_error :
    (s : MemoryStorage) (es : List LogEntry) (lo hi max_size : ℕ)
    → IsLog es
    → (lo ≤ base es) ⊎ (last es + 1 < hi)
    → entries (record s { ents = es }) lo hi max_size ≡ ret ([], RaftError.compacted)
unfolding entries
entries_in_error s [] lo hi max_size v h = elim v [ ]
entries_in_error s (d ∷ es) lo hi max_size v h = ground (arith, entries_word d es v)

-- Outside the stored entries a request is refused with ErrCompacted, above them too.
pub entries_error :
    (s : MemoryStorage) (lo hi max_size : ℕ)
    → IsValid s
    → (lo ≤ base s.ents) ⊎ (last s.ents + 1 < hi)
    → entries s lo hi max_size ≡ ret ([], RaftError.compacted)
entries_error s lo hi max_size v h = entries_in_error s s.ents lo hi max_size v h
