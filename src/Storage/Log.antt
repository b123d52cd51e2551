-- ===== src/Storage/Log.antt =====
-- Runs of log entries with consecutive indices, and the entry that carries an index. This is the
-- description of the log by which the storage and the unstable tail are judged.
use anraft.Base.{
  ℕ, zero, suc, ◌+◌, ◌-◌, ◌≤◌, ◌<◌, ◌≡◌, refl, ◌≢◌, ◌⊎◌, inl, inr, Option, none, some, List, [],
  ◌∷◌, ◌++◌, arith, length, get_elem?, take, drop, ◌==◌, if◌then◌else◌,
}
use anraft.Proto.{LogEntry}
use anraft.Storage.Defs.{MemoryStorage}

-- The entries carry the indices b, b + 1, ...
abbrev pub IsIndexed : ℕ → List LogEntry → Type 0
IsIndexed b [] = Unit {0}
IsIndexed b (e ∷ es) = (e.index ≡ b) × IsIndexed (suc b) es

-- The first entry that carries the index.
abbrev pub lookup_entry : ℕ → List LogEntry → Option LogEntry
lookup_entry i [] = none
lookup_entry i (e ∷ es) = if e.index == i then some e else lookup_entry i es

pub append-IsIndexed :
    (b : ℕ) (xs ys : List LogEntry)
    → IsIndexed b xs
    → IsIndexed (b + length xs) ys
    → IsIndexed b (xs ++ ys)
append-IsIndexed b [] ys h k = ground (arith, k)
append-IsIndexed b (x ∷ xs) ys h k = (
  h.0,
  append-IsIndexed (suc b) xs ys h.1
      (let e : b + suc (length xs) ≡ suc b + length xs = omega arith in rw e at k),
)

pub drop-IsIndexed : (n b : ℕ) (xs : List LogEntry) → IsIndexed b xs → IsIndexed (b + n) (drop n xs)
drop-IsIndexed zero b xs h = let e : b + 0 ≡ b = omega arith in rw e h
drop-IsIndexed (suc n) b [] h = tt
drop-IsIndexed (suc n) b (x ∷ xs) h =
    let e : b + suc n ≡ suc b + n = omega arith in rw e (drop-IsIndexed n (suc b) xs h.1)

pub take-IsIndexed : (n b : ℕ) (xs : List LogEntry) → IsIndexed b xs → IsIndexed b (take n xs)
take-IsIndexed zero b xs h = tt
take-IsIndexed (suc n) b [] h = tt
take-IsIndexed (suc n) b (x ∷ xs) h = (h.0, take-IsIndexed n (suc b) xs h.1)

lookup_at :
    (n b i : ℕ) (es : List LogEntry)
    → IsIndexed b es
    → b + n ≡ i
    → lookup_entry i es ≡ get_elem? es n
lookup_at n b i [] h k = refl
lookup_at zero b i (e ∷ es) h k = ground arith
lookup_at (suc n) b i (e ∷ es) h k = ground (arith, lookup_at n (suc b) i es h.1 (omega arith))

-- In a run the entry with index i stands at position i - b.
pub lookup-get_elem? :
    (i b : ℕ) (es : List LogEntry)
    → IsIndexed b es
    → b ≤ i
    → lookup_entry i es ≡ get_elem? es (i - b)
lookup-get_elem? i b es h k = lookup_at (i - b) b i es h (omega arith)

pub lookup_below :
    (i b : ℕ) (es : List LogEntry) → IsIndexed b es → i < b → lookup_entry i es ≡ none
lookup_below i b [] h k = refl
lookup_below i b (e ∷ es) h k = ground (arith, lookup_below i (suc b) es h.1)

pub lookup_above :
    (i b : ℕ) (es : List LogEntry) → IsIndexed b es → b + length es ≤ i → lookup_entry i es ≡ none
lookup_above i b [] h k = refl
lookup_above i b (e ∷ es) h k = ground (arith, lookup_above i (suc b) es h.1)

-- Every index of the run is carried by an entry.
pub lookup_within :
    (i b : ℕ) (es : List LogEntry)
    → IsIndexed b es
    → b ≤ i
    → i < b + length es
    → (e : LogEntry) × (lookup_entry i es ≡ some e) × (e.index ≡ i)
lookup_within i b [] h k l = absurd (omega arith)
lookup_within i b (e ∷ es) h k l = elim (ℕ_cases i b) [
  | inl same ↦ (e, ground arith, ground arith)
  | inr more ↦
      let (x, found, ix) = lookup_within i (suc b) es h.1 (omega arith) (omega arith) in
      (x, ground (arith, found), ix)
]
  where
    ℕ_cases : (m n : ℕ) → (m ≡ n) ⊎ (m ≢ n)
    ℕ_cases m n = ground arith

pub lookup-append :
    (i b : ℕ) (xs ys : List LogEntry)
    → IsIndexed b xs
    → lookup_entry i (xs ++ ys)
      ≡ elim (lookup_entry i xs) [ none ↦ lookup_entry i ys | some e ↦ some e ]
lookup-append i b [] ys h = refl
lookup-append i b (x ∷ xs) ys h = ground (arith, lookup-append i (suc b) xs ys h.1)

-- Cutting off the front of a run leaves the entries above the cut.
pub lookup-drop :
    (n i b : ℕ) (xs : List LogEntry)
    → IsIndexed b xs
    → b + n ≤ i
    → lookup_entry i (drop n xs) ≡ lookup_entry i xs
lookup-drop zero i b xs h k = refl
lookup-drop (suc n) i b [] h k = refl
lookup-drop (suc n) i b (x ∷ xs) h k = ground (arith, lookup-drop n i (suc b) xs h.1)

abbrev pub i64_limit : ℕ
i64_limit = 9223372036854775808

-- The stored entries: a dummy, then a run from its index on, with room to count in an int64.
abbrev pub IsLog : List LogEntry → Type 0
IsLog [] = ⊥
IsLog (d ∷ es) = IsIndexed (suc d.index) es × (d.index + length es + 3 < i64_limit)

abbrev pub IsValid : MemoryStorage → Type 0
IsValid s = IsLog s.ents

-- The index of the dummy, and the last index.
abbrev pub base : List LogEntry → ℕ
base [] = 0
base (d ∷ es) = d.index

abbrev pub last : List LogEntry → ℕ
last [] = 0
last (d ∷ es) = d.index + length es
