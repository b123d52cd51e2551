-- ===== src/Storage/Write.antt =====
-- What `Append` and `Compact` leave in the storage.
use anraft.Base.{
  ℕ, suc, ◌+◌, ◌-◌, ◌≤◌, ◌<◌, ◌≡◌, refl, ◌∙◌, ◌⊎◌, inl, inr, List, [], ◌∷◌, ◌++◌, arith, length,
  drop, length-drop, length-append, Outcome, ret, trap, out_of_range, add64, sub64, add64_fits,
  dec_lt, dec_le,
}
use anraft.Proto.{LogEntry, RaftError}
use anraft.Storage.Defs.{MemoryStorage, append}
use anraft.Storage.Log.{
  IsIndexed, IsLog, IsValid, lookup_entry, lookup_within, lookup_above, lookup_below, lookup-append,
  lookup-drop, drop-IsIndexed, append-IsIndexed, i64_limit, base, last,
}
use anraft.Storage.Query.{offset_word}

module _ (s : MemoryStorage) (d e : LogEntry) (es new : List LogEntry) (v : IsLog (d ∷ es))
    (room : e.index + length (e ∷ new) < i64_limit) where
  -- The indices that `Append` compares, as plain numbers.
  first_word : add64 d.index 1 ≡ d.index + 1
  first_word = add64_fits d.index 1 (omega arith)

  next_word : sub64 (add64 (d.index + 1) (suc (length es))) 1 ≡ d.index + length es + 1
  unfolding add64 sub64
  next_word = omega arith

  new_last_word : sub64 (add64 e.index (suc (length new))) 1 ≡ e.index + length new
  unfolding add64 sub64
  new_last_word = omega arith

  append_shortcut :
      e.index + length new ≤ d.index + 1
      → append (e ∷ new) (record s { ents = d ∷ es })
        ≡ (ret RaftError.none_err, record s { ents = d ∷ es })
  unfolding append
  append_shortcut h = ground (arith, first_word, next_word, new_last_word)

  append_gap :
      d.index + length es + 1 < e.index
      → append (e ∷ new) (record s { ents = d ∷ es })
        ≡ (ret RaftError.none_err, record s { ents = d ∷ es })
  unfolding append
  append_gap h = ground (arith, first_word, next_word, new_last_word)

  append_behind :
      d.index + 1 < e.index + length new
      → e.index + length (e ∷ new) < d.index + length es + 1
      → append (e ∷ new) (record s { ents = d ∷ es })
        ≡ (trap out_of_range, record s { ents = d ∷ es })
  unfolding append
  append_behind h k =
      ground
        (arith, first_word, next_word, new_last_word, offset_word (d.index + length es + 1) e.index)

  append_extends_to :
      d.index + 1 < e.index + length new
      → e.index ≤ d.index + length es + 1
      → d.index + length es + 1 ≤ e.index + length (e ∷ new)
      → append (e ∷ new) (record s { ents = d ∷ es }) ≡ (
        ret RaftError.none_err,
        record s { ents = (d ∷ es) ++ drop (d.index + length es + 1 - e.index) (e ∷ new) },
      )
  unfolding append
  append_extends_to h k l =
      ground
        (arith, first_word, next_word, new_last_word, offset_word (d.index + length es + 1) e.index)

-- What a call of `Append` with the run `new` does to valid contents `old`: they stay, and the
-- call reports success or runs off the new entries, or the new entries above the old ones follow.
abbrev pub Appends : List LogEntry → List LogEntry → Outcome RaftError × List LogEntry → Type 0
Appends new old (r, after) =
    IsLog after
    × (base after ≡ base old)
    × ((i : ℕ) → i ≤ last old → lookup_entry i after ≡ lookup_entry i old)
    × ((r ≡ ret RaftError.none_err) ⊎ ((r ≡ trap out_of_range) × (after ≡ old)))
    × ((after ≡ old) ⊎ ((i : ℕ) → last old < i → lookup_entry i after ≡ lookup_entry i new))

unchanged :
    (new old : List LogEntry) (r : Outcome RaftError)
    → IsLog old
    → (r ≡ ret RaftError.none_err) ⊎ (r ≡ trap out_of_range)
    → Appends new old (r, old)
unchanged new old r v h = (v, refl, λ i k. refl, ground arith, inl refl)

extended :
    (d e : LogEntry) (es new : List LogEntry)
    → IsLog (d ∷ es)
    → IsIndexed e.index (e ∷ new)
    → e.index + length (e ∷ new) + 3 < i64_limit
    → e.index ≤ d.index + length es + 1
    → d.index + length es + 1 ≤ e.index + length (e ∷ new)
    → Appends
        (e ∷ new)
        (d ∷ es)
        (ret RaftError.none_err, (d ∷ es) ++ drop (d.index + length es + 1 - e.index) (e ∷ new))
extended d e es new v run room k l = (
  (
    append-IsIndexed (suc d.index) es rest v.0 rest_run,
    omega (arith, length-append es rest, length-drop skip (e ∷ new)),
  ),
  refl,
  old,
  inl refl,
  inr fresh,
)
  where
    skip : ℕ
    skip = d.index + length es + 1 - e.index

    rest : List LogEntry
    rest = drop skip (e ∷ new)

    rest_run : IsIndexed (suc d.index + length es) rest
    rest_run =
        let at : e.index + skip ≡ suc d.index + length es = omega arith in
        rw at at (drop-IsIndexed skip e.index (e ∷ new) run)

    whole : IsIndexed d.index (d ∷ es)
    whole = (refl, v.0)

    old :
        (i : ℕ)
        → i ≤ d.index + length es
        → lookup_entry i ((d ∷ es) ++ rest) ≡ lookup_entry i (d ∷ es)
    old i h = elim (dec_lt i d.index) [
      | yes low ↦
          lookup-append i d.index (d ∷ es) rest whole
          ∙ rw (lookup_below i d.index (d ∷ es) whole low)
              (lookup_below i (suc d.index + length es) rest rest_run (omega arith))
      | no high ↦
          let (x, found, ix) = lookup_within i d.index (d ∷ es) whole (omega arith) (omega arith) in
          lookup-append i d.index (d ∷ es) rest whole ∙ rw found refl
    ]

    fresh :
        (i : ℕ)
        → d.index + length es < i
        → lookup_entry i ((d ∷ es) ++ rest) ≡ lookup_entry i (e ∷ new)
    fresh i h =
        lookup-append i d.index (d ∷ es) rest whole
        ∙ rw (lookup_above i d.index (d ∷ es) whole (omega arith))
            (lookup-drop skip i e.index (e ∷ new) run (omega arith))

-- The argument of `Append`: a run of entries, with room to count in an int64.
abbrev pub IsRun : List LogEntry → Type 0
IsRun [] = Unit {0}
IsRun (e ∷ new) = IsIndexed e.index (e ∷ new) × (e.index + length (e ∷ new) + 3 < i64_limit)

abbrev pub contents : Outcome RaftError × MemoryStorage → Outcome RaftError × List LogEntry
contents (r, s) = (r, s.ents)

append_in :
    (s : MemoryStorage) (new es : List LogEntry)
    → IsLog es
    → IsRun new
    → Appends new es (contents (append new (record s { ents = es })))
append_in s [] es v run = unfold append in unchanged [] es (ret RaftError.none_err) v (inl refl)
append_in s (e ∷ new) [] v run = elim v [ ]
append_in s (e ∷ new) (d ∷ es) v run = elim (dec_le (e.index + length new) (d.index + 1)) [
  | yes short ↦
      rw (append_shortcut s d e es new v (omega arith) short)
        (unchanged (e ∷ new) (d ∷ es) (ret RaftError.none_err) v (inl refl))
  | no long ↦ elim (dec_lt (d.index + length es + 1) e.index) [
    | yes gap ↦
        rw (append_gap s d e es new v (omega arith) gap)
          (unchanged (e ∷ new) (d ∷ es) (ret RaftError.none_err) v (inl refl))
    | no near ↦ elim (dec_lt (e.index + length (e ∷ new)) (d.index + length es + 1)) [
      | yes behind ↦
          rw (append_behind s d e es new v (omega arith) (omega arith) behind)
            (unchanged (e ∷ new) (d ∷ es) (trap out_of_range) v (inr refl))
      | no reach ↦
          rw
            (append_extends_to s d e es new v (omega arith) (omega arith) (omega arith)
              (omega arith))
            (extended d e es new v run.0 run.1 (omega arith) (omega arith))
    ]
  ]
]

-- `Append` of a run to a valid storage keeps it valid and keeps its dummy, and every stored entry
-- stays: also one that the new entries contradict. It reports success, or it reads outside the new
-- entries and changes nothing. Above the old entries it stores all the new ones or none.
pub append_lem :
    (s : MemoryStorage) (new : List LogEntry)
    → IsValid s
    → IsRun new
    → Appends new s.ents (contents (append new s))
append_lem s new v run = append_in s new s.ents v run

append_first_in :
    (s : MemoryStorage) (es : List LogEntry) (e : LogEntry)
    → IsLog es
    → e.index ≡ base es + 1
    → append (e ∷ []) (record s { ents = es }) ≡ (ret RaftError.none_err, record s { ents = es })
append_first_in s [] e v h = elim v [ ]
append_first_in s (d ∷ es) e v h = append_shortcut s d e es [] v (omega arith) (omega arith)

-- In a valid storage the entry at the first index is lost when it is appended alone: the call
-- reports success and stores nothing, also in an empty storage, where it is the next entry.
pub append_first_lost :
    (s : MemoryStorage) (e : LogEntry)
    → IsValid s
    → e.index ≡ base s.ents + 1
    → append (e ∷ []) s ≡ (ret RaftError.none_err, s)
append_first_lost s e v h = append_first_in s s.ents e v h

append_next_in :
    (s : MemoryStorage) (es : List LogEntry) (e : LogEntry) (new : List LogEntry)
    → IsLog es
    → e.index + length (e ∷ new) < i64_limit
    → base es + 1 < e.index + length new
    → e.index ≡ last es + 1
    → append (e ∷ new) (record s { ents = es })
      ≡ (ret RaftError.none_err, record s { ents = es ++ e ∷ new })
append_next_in s [] e new v room long next = elim v [ ]
append_next_in s (d ∷ es) e new v room long next =
    let none_skipped : d.index + length es + 1 - e.index ≡ 0 = omega arith in
    append_extends_to s d e es new v room long (omega arith) (omega arith) ∙ rw none_skipped refl

-- In a valid storage, entries that start where the log ends, with room to count in an int64, are
-- appended as they are, if the last of them is above the first index.
pub append_next :
    (s : MemoryStorage) (e : LogEntry) (new : List LogEntry)
    → IsValid s
    → e.index + length (e ∷ new) < i64_limit
    → base s.ents + 1 < e.index + length new
    → e.index ≡ last s.ents + 1
    → append (e ∷ new) s ≡ (ret RaftError.none_err, record s { ents = s.ents ++ e ∷ new })
append_next s e new v room long next = append_next_in s s.ents e new v room long next
