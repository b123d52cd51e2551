-- ===== src/Storage/History.antt =====
-- Histories of the two methods that change the stored entries.
use anraft.Base.{
  ℕ, ◌+◌, ◌≤◌, ◌<◌, ◌≡◌, refl, sym, ap, ◌∙◌, ◌⊎◌, inl, inr, none, some, List, [], ◌∷◌, arith,
  length, Outcome, ret, dec_le,
}
use anraft.Proto.{LogEntry, RaftError}
use anraft.Storage.Defs.{MemoryStorage, append, compact, term}
use anraft.Storage.Log.{IsLog, IsValid, lookup_entry, lookup_within, lookup_above, base, last}
use anraft.Storage.Query.{term_of, term-IsValid}
use anraft.Storage.Write.{IsRun, append_lem}
use anraft.Storage.Compact.{compact_lem, compact-Refuses}

-- The storages that calls of `Append` with runs of entries and of `Compact` lead to, whatever each
-- call returns.
pub data Leads (falls_off : Outcome RaftError) : MemoryStorage → MemoryStorage → Type 0 where
  here : (s : MemoryStorage) → Leads falls_off s s
  appending :
      (s t : MemoryStorage) (new : List LogEntry)
      → IsRun new
      → Leads falls_off (append new s).1 t
      → Leads falls_off s t
  compacting :
      (s t : MemoryStorage) (c : ℕ)
      → Leads falls_off (compact falls_off c s).1 t
      → Leads falls_off s t

-- The log goes on: nothing below its start comes back, its end does not go back, and what it says
-- of an index stays until the index is compacted.
pub record Continues (old new : List LogEntry) : Type 0 where
  pub starts : base old ≤ base new
  pub ends : last old ≤ last new
  pub keeps : (i : ℕ) → base new ≤ i → i ≤ last old → term_of new i ≡ term_of old i

Continues-refl : (es : List LogEntry) → Continues es es
Continues-refl es = record { starts = omega arith; ends = omega arith; keeps = λ i h k. refl }

Continues-trans : {xs ys zs : List LogEntry} → Continues xs ys → Continues ys zs → Continues xs zs
Continues-trans {xs} {ys} {zs} p q = record {
  starts = omega (arith, p.starts, q.starts);
  ends = omega (arith, p.ends, q.ends);
  keeps =
      λ i h k. q.keeps i h (omega (arith, k, p.ends)) ∙ p.keeps i (omega (arith, h, q.starts)) k;
}

-- The last index of a log is carried, so a log that carries it reaches as far.
reaches :
    (old new : List LogEntry)
    → IsLog old
    → IsLog new
    → base new ≡ base old
    → ((i : ℕ) → i ≤ last old → lookup_entry i new ≡ lookup_entry i old)
    → last old ≤ last new
reaches [] new v w b same = elim v [ ]
reaches (d ∷ es) [] v w b same = elim w [ ]
reaches (d ∷ es) (x ∷ xs) v w b same = elim (dec_le (last (d ∷ es)) (last (x ∷ xs))) [
  | yes enough ↦ enough
  | no short ↦
      let i : ℕ = d.index + length es in
      let gone = lookup_above i x.index (x ∷ xs) (refl, w.0) (omega (arith, short)) in
      let (e, found, _) =
        lookup_within i d.index (d ∷ es) (refl, v.0) (omega arith) (omega arith) in
      let clash : none ≡ some e = sym gone ∙ same i (omega arith) ∙ found in ground arith
]

append-Continues :
    (s : MemoryStorage) (new : List LogEntry)
    → IsValid s
    → IsRun new
    → IsValid (append new s).1 × Continues s.ents (append new s).1.ents
append-Continues s new v run =
    let (valid, b, old, _, _) = append_lem s new v run in
    (
      valid,
      record {
        starts = omega (arith, b);
        ends = reaches s.ents (append new s).1.ents v valid b old;
        keeps = λ i h k. ground (arith, b, old i k);
      },
    )

compact-Continues :
    (falls_off : Outcome RaftError) (s : MemoryStorage) (c : ℕ)
    → IsValid s
    → IsValid (compact falls_off c s).1 × Continues s.ents (compact falls_off c s).1.ents
compact-Continues falls_off s c v = elim (dec_le c (base s.ents)) [
  | yes low ↦ refused (inl low)
  | no above ↦ elim (dec_le c (last s.ents)) [
    | no high ↦ refused (inr (omega (arith, high)))
    | yes within ↦
        let (r, (valid, start, end, _, terms)) =
          compact_lem s falls_off c v (omega (arith, above)) within in
        (
          valid,
          record {
            starts = omega (arith, start, above);
            ends = omega (arith, end);
            keeps = λ i h k. terms i (omega (arith, start, h));
          },
        )
  ]
]
  where
    same : {s' : MemoryStorage} → s' ≡ s → IsValid s' × Continues s.ents s'.ents
    same e = rw e (v, Continues-refl s.ents)

    refused :
        (c ≤ base s.ents) ⊎ (last s.ents < c)
        → IsValid (compact falls_off c s).1 × Continues s.ents (compact falls_off c s).1.ents
    refused h = elim (compact-Refuses s falls_off c v h) [
      | inl (_, after) ↦ same (ap (λ x. x.1) after)
      | inr (_, _, after) ↦ same (ap (λ x. x.1) after)
    ]

Leads-Continues :
    (falls_off : Outcome RaftError) (s t : MemoryStorage)
    → IsValid s
    → Leads falls_off s t
    → IsValid t × Continues s.ents t.ents
Leads-Continues falls_off s t v (here _) = (v, Continues-refl s.ents)
Leads-Continues falls_off s t v (appending _ _ new run steps) =
    let (valid, on) = append-Continues s new v run in
    let (valid', on') = Leads-Continues falls_off (append new s).1 t valid steps in
    (valid', Continues-trans on on')
Leads-Continues falls_off s t v (compacting _ _ c steps) =
    let (valid, on) = compact-Continues falls_off s c v in
    let (valid', on') = Leads-Continues falls_off (compact falls_off c s).1 t valid steps in
    (valid', Continues-trans on on')

-- However runs of entries with consecutive indices, and with room to count in an int64, are
-- appended to a valid storage, and however it is compacted, it stays valid, its first index and its
-- last index never go back, and the term that it once had at an index is what `Term` answers there
-- for as long as the index is not compacted away.
pub history_lem :
    (falls_off : Outcome RaftError) (s t : MemoryStorage)
    → IsValid s
    → Leads falls_off s t
    → IsValid t
      × (base s.ents ≤ base t.ents)
      × (last s.ents ≤ last t.ents)
      × ((i : ℕ) → base t.ents ≤ i → i ≤ last s.ents → term t i ≡ term s i)
history_lem falls_off s t v steps =
    let (valid, on) = Leads-Continues falls_off s t v steps in
    (
      valid,
      on.starts,
      on.ends,
      λ i h k. term-IsValid t i valid ∙ ap ret (on.keeps i h k) ∙ sym (term-IsValid s i v),
    )
