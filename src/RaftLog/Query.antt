-- ===== src/RaftLog/Query.antt =====
-- What the reading methods of the log answer, on a log whose ends are known.
use anraft.Base.{
  ℕ, suc, ◌+◌, ◌-◌, ◌≤◌, ◌<◌, ◌≡◌, refl, Bool, true, false, some, List, [], ◌∷◌, arith, length, ltb,
  leb, ◌==◌, ◌&&◌, ◌||◌, if◌then◌else◌, add64, sub64, sub64_fits, u64_mod, Outcome, ret,
}
use anraft.Proto.{RaftError, LogEntry}
use anraft.Storage.{MemoryStorage, as_storage}
use anraft.Storage.Log.{IsValid, base, last}
use anraft.Storage.Query.{indices_lem}
use anraft.Unstable.{Unstable}
use anraft.Unstable
use anraft.Unstable.Truncate.{IsTail, tail_last}
use anraft.RaftLog.Defs.{
  RaftLog, Unwritten, last_index, first_index, must_check_out_of_bounds, term, match_term,
  find_conflict, is_up_to_date,
}

-- The log's ends, as its own methods give them.
pub record Ends (l : RaftLog) (first last : ℕ) : Type 0 where
  pub first_is : first_index l ≡ ret first
  pub last_is : last_index l ≡ ret last
  pub first_word : first < u64_mod
  pub last_word : last + 1 < u64_mod

-- A log over a valid memory storage, with a tail in order.
pub record IsBacked (l : RaftLog) (m : MemoryStorage) : Type 0 where
  pub stored : l.storage ≡ some (as_storage m)
  pub valid : IsValid m
  pub tail : IsTail l.unstable

-- The last index: that of the tail, or of the storage where the tail is empty.
abbrev pub last_of : Unstable → MemoryStorage → ℕ
last_of u m = elim u.ents [ [] ↦ last m.ents | _ ∷ es ↦ u.offset + length es ]

first_index_backed :
    (l : RaftLog) (m : MemoryStorage) → IsBacked l m → first_index l ≡ ret (suc (base m.ents))
unfolding first_index Unstable.maybe_first_index as_storage
first_index_backed l m b = rw (b.stored, (indices_lem m b.valid).0) refl

last_index_backed :
    (l : RaftLog) (m : MemoryStorage) → IsBacked l m → last_index l ≡ ret (last_of l.unstable m)
last_index_backed l m b = by_tail l.unstable.ents (tail_last l.unstable b.tail)
  where
    stored :
        (s : MemoryStorage)
        → IsValid s
        → (as_storage s).last_index ≡ ret (last s.ents, RaftError.none_err)
    stored s v = unfold as_storage in (indices_lem s v).1

    by_tail :
        (es : List LogEntry)
        → Unstable.maybe_last_index l.unstable
          ≡ elim es [ [] ↦ (0, false) | _ ∷ rest ↦ (l.unstable.offset + length rest, true) ]
        → last_index l
          ≡ ret (elim es [ [] ↦ last m.ents | _ ∷ rest ↦ l.unstable.offset + length rest ])
    by_tail [] e = unfold last_index in ground (arith, e, b.stored, stored m b.valid)
    by_tail (_ ∷ rest) e = unfold last_index in ground (arith, e)

-- Over a valid memory storage and a tail in order, the log begins behind the compacted index, and
-- ends with its tail, or with the storage where the tail is empty.
pub indices_backed :
    (l : RaftLog) (m : MemoryStorage)
    → IsBacked l m
    → (first_index l ≡ ret (suc (base m.ents))) × (last_index l ≡ ret (last_of l.unstable m))
indices_backed l m b = (first_index_backed l m b, last_index_backed l m b)

span_word :
    (first last : ℕ)
    → first < u64_mod
    → last + 1 < u64_mod
    → first ≤ last + 1
    → add64 first (sub64 (add64 last 1) first) ≡ last + 1
unfolding add64 sub64
span_word first last h k o = omega arith

-- `MustCheckOutOfBounds` finds no error exactly at bounds in order that lie in the log, and else
-- tells bounds out of order from bounds outside.
pub must_check_lem :
    (l : RaftLog) (first last lo hi : ℕ)
    → Ends l first last
    → first ≤ last + 1
    → must_check_out_of_bounds l lo hi
      ≡ ret (
          if ltb hi lo
          then RaftError.param
          else if leb first lo && leb hi (last + 1)
          then RaftError.none_err
          else RaftError.compacted)
unfolding must_check_out_of_bounds
must_check_lem l first last lo hi e h =
    ground (arith, e.first_is, e.last_is, span_word first last e.first_word e.last_word h)

module _ (unwritten : Unwritten) (l : RaftLog) {first last : ℕ} (e : Ends l first last)
    (positive : 0 < first) where
  dummy_word : sub64 first 1 ≡ first - 1
  dummy_word = sub64_fits first 1 e.first_word positive

  -- `Term` is written only outside the log, where it finds term 0 and no error: inside it goes
  -- off its end.
  pub term_lem :
      (i : ℕ)
      → term unwritten l i ≡ (
          if ltb i (first - 1) || ltb last i
          then ret (RaftError.none_err, 0)
          else unwritten.term l i)
  unfolding term
  term_lem i = ground (arith, e.first_is, e.last_is, dummy_word)

  -- So an entry above the log matches the term 0, and no other.
  pub match_term_above : (i t : ℕ) → last < i → match_term unwritten l i t ≡ ret (0 == t)
  unfolding match_term
  match_term_above i t h = rw (term_lem i) (ground arith)

-- The specification of `FindConflict`: the index of the first entry that fails the test, or zero.
abbrev pub first_failing : (LogEntry → Bool) → List LogEntry → ℕ
first_failing p [] = 0
first_failing p (x ∷ xs) = if p x then first_failing p xs else x.index

-- Every entry is tested without a trap, with the given result.
abbrev pub Tests : (LogEntry → Outcome Bool) → (LogEntry → Bool) → List LogEntry → Type 0
Tests f p [] = Unit {0}
Tests f p (x ∷ xs) = (f x ≡ ret (p x)) × Tests f p xs

module _ (unwritten : Unwritten) (l : RaftLog) {li : ℕ} (defined : last_index l ≡ ret li) where
  -- Where the last index can be read and every comparison of terms returns, `FindConflict` gives
  -- the index of the first entry whose term the log does not match, and zero if there is none.
  pub find_conflict_lem :
      (p : LogEntry → Bool) (xs : List LogEntry)
      → Tests (λ x. match_term unwritten l x.index x.term) p xs
      → find_conflict unwritten l xs ≡ ret (first_failing p xs)
  unfolding find_conflict
  find_conflict_lem p [] h = refl
  find_conflict_lem p (x ∷ xs) h = ground (arith, defined, find_conflict_lem p xs h.1)

  -- A candidate is up to date exactly if its last term is higher, or the same with a higher last
  -- index: one whose log is as long as this one is not.
  pub is_up_to_date_lem :
      (index t : ℕ) {lt : ℕ}
      → unwritten.last_term l ≡ ret lt
      → is_up_to_date unwritten l index t ≡ ret (ltb lt t || (t == lt && ltb li index))
  unfolding is_up_to_date
  is_up_to_date_lem index t h = ground (arith, defined)
