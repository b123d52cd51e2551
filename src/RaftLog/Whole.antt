-- ===== src/RaftLog/Whole.antt =====
-- `AllEntries` over a memory storage: the composition of the log, its tail and the storage.
use mathlib.Core.List.{append-nil}
use anraft.Base.{
  ℕ, suc, ◌+◌, ◌-◌, ◌≤◌, ◌<◌, ◌≡◌, refl, ap, ◌∙◌, ◌||◌, some, List, [], ◌∷◌, ◌++◌, arith, length,
  take, drop, take-length, ltb, leb, ◌==◌, if◌then◌else◌, min, max, add64, add64_fits, sub64,
  Outcome, ret, trap, out_of_range, Bool, true, false, dec_lt,
}
use anraft.Base.Action.{do_blocks}
use anraft.Proto.{RaftError, LogEntry}
use anraft.Storage.{MemoryStorage, as_storage, entries}
use anraft.Storage.Log.{IsValid, i64_limit, IsLog, base, last}
use anraft.Storage.Query.{entries_exact, indices_lem}
use anraft.Unstable.Truncate.{slice_inside}
use anraft.Unstable.{Unstable}
use anraft.Unstable
use anraft.RaftLog.Defs.{
  RaftLog, stored_part, unstable_part, must_check_out_of_bounds, slice, all_entries, Unwritten,
  new_log,
}
use anraft.RaftLog.Defs
use anraft.RaftLog.Query.{Ends, IsBacked, last_of, indices_backed, must_check_lem}

-- A log over a valid memory storage, with a tail in order that starts where the storage ends, as
-- `NewLog` sets it up.
pub record IsJoined (l : RaftLog) (m : MemoryStorage) : Type 0 where
  pub backed : IsBacked l m
  pub joined : l.unstable.offset ≡ last m.ents + 1

-- The number of stored entries, the dummy left out.
abbrev pub stored_count : MemoryStorage → ℕ
stored_count m = last m.ents - base m.ents

-- What is read of them: as many from the position of the compacted index on, the dummy at 0.
abbrev pub stored_read : MemoryStorage → List LogEntry
stored_read m = take (stored_count m) (drop (base m.ents) m.ents)

abbrev pub can_read : MemoryStorage → Bool
can_read m = stored_count m == 0 || leb (base m.ents) 1

pub sizes_in :
    (es : List LogEntry)
    → IsLog es
    → (length es ≡ suc (last es - base es)) × (base es ≤ last es) × (last es + 3 < i64_limit)
sizes_in [] v = elim v [ ]
sizes_in (d ∷ es) v = omega arith

nil_of : (es : List LogEntry) → length es ≡ 0 → es ≡ []
nil_of [] h = refl
nil_of (e ∷ es) h = absurd (omega arith)

-- The whole tail.
slice_all : (u : Unstable) → Unstable.slice u u.offset (u.offset + length u.ents) [] ≡ ret u.ents
slice_all u =
    let start : u.offset - u.offset ≡ 0 = omega arith in
    let width : u.offset + length u.ents - u.offset - (u.offset - u.offset) ≡ length u.ents =
      omega arith in
    slice_inside u u.offset (u.offset + length u.ents) [] (omega arith) (omega arith) (omega arith)
    ∙ rw (width, start)
        (ap (λ es. ret es) (append-nil (take (length u.ents) u.ents) ∙ take-length u.ents))

module _ (l : RaftLog) (m : MemoryStorage) (j : IsJoined l m) where
  last_joined : last_of l.unstable m ≡ last m.ents + length l.unstable.ents
  last_joined = by_tail l.unstable.ents
    where
      by_tail :
          (es : List LogEntry)
          → elim es as (λ _. ℕ) [ [] ↦ last m.ents | _ ∷ rest ↦ l.unstable.offset + length rest ]
            ≡ last m.ents + length es
      by_tail [] = omega arith
      by_tail (_ ∷ rest) = omega (arith, j.joined)

  ends : Ends l (suc (base m.ents)) (last m.ents + length l.unstable.ents)
  ends =
      let both = indices_backed l m j.backed in
      record {
        first_is = both.0;
        last_is = both.1 ∙ ap (λ n. ret n) last_joined;
        first_word = omega (arith, sizes_in m.ents j.backed.valid);
        last_word = omega (arith, j.backed.tail.1, j.joined);
      }

  -- The end of the window that `AllEntries` asks for.
  abbrev past_end : ℕ
  past_end = l.unstable.offset + length l.unstable.ents

  whole_tail :
      (lo : ℕ) (acc : List LogEntry)
      → lo ≤ l.unstable.offset
      → unstable_part l lo past_end acc ≡ ret (RaftError.none_err, acc ++ l.unstable.ents)
  whole_tail lo acc h = by_tail l.unstable.ents
    where
      by_tail :
          (es : List LogEntry)
          → unstable_part
              (record l { unstable = record (l.unstable) { ents = es } })
              lo
              (l.unstable.offset + length es)
              acc
            ≡ ret (RaftError.none_err, acc ++ es)
      by_tail [] = unfold unstable_part in ground (arith, append-nil acc)
      by_tail (e ∷ es) =
          let u : Unstable = record (l.unstable) { ents = e ∷ es } in
          let top : max lo u.offset ≡ u.offset = omega arith in
          unfold unstable_part in ground (arith, rw (← top) at (slice_all u))

  stored_answer :
      base m.ents < last m.ents
      → entries m (suc (base m.ents)) l.unstable.offset 10000
        ≡ (if can_read m then ret (stored_read m, RaftError.none_err) else trap out_of_range)
  stored_answer filled =
      let valid = j.backed.valid in
      let width : l.unstable.offset - suc (base m.ents) ≡ stored_count m =
        omega (arith, j.joined) in
      let test : leb (base m.ents + stored_count m) (length m.ents) ≡ can_read m =
        ground (arith, filled, sizes_in m.ents valid) in
      let exact =
        entries_exact m (suc (base m.ents)) l.unstable.offset 10000 valid (omega arith)
          (omega (arith, j.joined)) (omega (arith, j.joined)) in
      exact ∙ rw (width, test) refl

  empty_read : stored_count m ≡ 0 → stored_read m ≡ []
  empty_read h = rw h refl

  stored_front :
      (acc : List LogEntry)
      → stored_part l (suc (base m.ents)) past_end 10000 acc
        ≡ (if can_read m then ret (RaftError.none_err, acc ++ stored_read m) else trap out_of_range)
  unfolding stored_part as_storage
  stored_front acc = elim (dec_lt (base m.ents) (last m.ents)) [
    | yes filled ↦
        let inside : ltb (suc (base m.ents)) l.unstable.offset ≡ true =
          ground (arith, filled, j.joined) in
        let upto : min past_end l.unstable.offset ≡ l.unstable.offset = omega arith in
        let answer = stored_answer filled in
        ground (arith, inside, j.backed.stored, rw (← upto) at answer)
    | no empty ↦
        let none_left : stored_count m ≡ 0 = omega arith in
        ground (
          arith,
          none_left,
          j.joined,
          sizes_in m.ents j.backed.valid,
          empty_read none_left,
          append-nil acc,
        )
  ]

  abbrev whole : List LogEntry → Outcome (RaftError × List LogEntry)
  whole acc =
      if can_read m
      then ret (RaftError.none_err, acc ++ stored_read m ++ l.unstable.ents)
      else trap out_of_range

  in_bounds :
      suc (base m.ents) ≤ last m.ents + length l.unstable.ents
      → must_check_out_of_bounds l (suc (base m.ents)) past_end ≡ ret RaftError.none_err
  in_bounds filled =
      must_check_lem l (suc (base m.ents)) (last m.ents + length l.unstable.ents)
        (suc (base m.ents)) past_end ends (omega arith)
      ∙ ground (arith, j.joined, filled)

  window_run :
      (acc : List LogEntry)
      → suc (base m.ents) ≤ last m.ents + length l.unstable.ents
      → slice l (suc (base m.ents)) past_end 10000 acc ≡ whole acc
  unfolding slice
  window_run acc filled =
      let apart : (suc (base m.ents) == past_end) ≡ false = ground (arith, filled, j.joined) in
      let front = stored_front acc in
      let tail =
        whole_tail (suc (base m.ents)) (acc ++ stored_read m)
          (omega (arith, j.joined, sizes_in m.ents j.backed.valid)) in
      ground (arith, in_bounds filled, apart, front, tail)

  -- `AllEntries` of a log over a valid memory storage, with a tail in order that starts where the
  -- storage ends: where the storage holds entries and was compacted at 2 or above, it reads outside
  -- the vector of the storage. Else it puts behind the caller's vector as many stored entries as
  -- there are, counted from the position of the compacted index on, and the whole tail: that is the
  -- log where this index is 1. Where it is 0, the dummy comes first and the last stored entry is
  -- missing.
  pub all_entries_lem :
      (acc : List LogEntry)
      → all_entries l acc ≡ (
          if can_read m
          then ret (RaftError.none_err, acc ++ stored_read m ++ l.unstable.ents)
          else trap out_of_range)
  unfolding all_entries Defs.entries
  all_entries_lem acc =
      let li : ℕ = last m.ents + length l.unstable.ents in
      let next : add64 li 1 ≡ past_end = add64_fits li 1 ends.last_word ∙ omega (arith, j.joined) in
      elim (dec_lt li (suc (base m.ents))) [
        | yes short ↦
            let no_stored : stored_count m ≡ 0 = omega arith in
            let no_tail = nil_of l.unstable.ents (omega (arith, sizes_in m.ents j.backed.valid)) in
            ground (
              arith,
              ends.first_is,
              ends.last_is,
              short,
              no_stored,
              empty_read no_stored,
              no_tail,
              append-nil acc,
            )
        | no more ↦ ground (arith, ends.first_is, ends.last_is, next, window_run acc (omega arith))
      ]

new_log_run :
    (unwritten : Unwritten) (m : MemoryStorage) (l : RaftLog)
    → IsValid m
    → (new_log unwritten (some (as_storage m)) l).1 ≡ record l {
      storage = some (as_storage m);
      unstable = record (l.unstable) { offset = add64 (last m.ents) 1 };
      committed = sub64 (suc (base m.ents)) 1;
      applied = sub64 (suc (base m.ents)) 1;
    }
unfolding new_log as_storage Unstable.set_offset do_blocks
new_log_run unwritten m l valid = ground (arith, indices_lem m valid)

-- `NewLog` over a valid memory storage leaves such a log, whatever its end without a return
-- statement gives, where the tail is empty as it is at first, and the last index leaves room to
-- count.
pub new_log-IsJoined :
    (unwritten : Unwritten) (m : MemoryStorage) (l : RaftLog)
    → IsValid m
    → last m.ents + 4 < i64_limit
    → l.unstable.ents ≡ []
    → IsJoined (new_log unwritten (some (as_storage m)) l).1 m
new_log-IsJoined unwritten m l valid room empty =
    let next : add64 (last m.ents) 1 ≡ last m.ents + 1 =
      add64_fits (last m.ents) 1 (omega (arith, sizes_in m.ents valid)) in
    rw (new_log_run unwritten m l valid) (record {
      backed = record { stored = refl; valid = valid; tail = rw (empty, next) (tt, omega arith) };
      joined = next;
    })
