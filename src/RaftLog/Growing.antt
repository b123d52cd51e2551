-- ===== src/RaftLog/Growing.antt =====
-- A log that grows by `Append`, against a plain list of entries.
use anraft.Base.{
  ℕ, suc, ◌+◌, ◌-◌, ◌≤◌, ◌≡◌, ◌⊎◌, refl, ap, subst, sym, ◌∙◌, true, List, [], ◌∷◌, ◌++◌, arith,
  length, length-append, length-take, length-drop, take, take-length, take_beyond, drop, ret,
  ℕ_discrete,
}
use mathlib.Core.List.{append_assoc}
use mathlib.Core.Path.{subst⁻¹}
use anraft.Base.Action.{do_blocks}
use anraft.Proto.{RaftError, LogEntry}
use anraft.Storage.{MemoryStorage}
use anraft.Storage.Log.{base, IsIndexed, take-IsIndexed, append-IsIndexed}
use anraft.Storage.Write.{IsRun}
use anraft.Unstable.{Unstable}
use anraft.Unstable
use anraft.Unstable.Truncate.{truncate_next, truncate_replace}
use anraft.RaftLog.Defs.{RaftLog, append, all_entries}
use anraft.RaftLog.Whole.{IsJoined, stored_count, stored_read, can_read, sizes_in, all_entries_lem}

-- The state after a call of `TruncateAndAppend` that returns.
append_state :
    (l : RaftLog) (e : LogEntry) (es : List LogEntry) {u : Unstable}
    → Unstable.truncate_and_append (e ∷ es) l.unstable ≡ (ret tt, u)
    → (append (e ∷ es) l).1 ≡ record l { unstable = u }
unfolding append do_blocks
append_state l e es h = ground (arith, h)

append_nothing : (l : RaftLog) → (append [] l).1 ≡ l
unfolding append do_blocks
append_nothing l = refl

-- The log whose tail is cut off before the new run, and goes on with the run.
abbrev cut_log : RaftLog → LogEntry → List LogEntry → RaftLog
cut_log l e es = record l {
  unstable = record (l.unstable) {
    ents = take (e.index - l.unstable.offset) l.unstable.ents ++ e ∷ es;
  };
}

module _ (l : RaftLog) (m : MemoryStorage) (j : IsJoined l m) (e : LogEntry)
    (es : List LogEntry) where
  append_cut :
      (e.index ≡ l.unstable.offset + length l.unstable.ents) ⊎ (e.index ≡ l.unstable.offset)
      → (append (e ∷ es) l).1 ≡ cut_log l e es
  append_cut h = elim (ℕ_discrete e.index (l.unstable.offset + length l.unstable.ents)) [
    | yes at ↦
        let width : e.index - l.unstable.offset ≡ length l.unstable.ents = omega (arith, at) in
        append_state l e es (truncate_next l.unstable e es j.backed.tail at)
        ∙ rw (width, take-length l.unstable.ents) refl
    | no other ↦
        let start : e.index ≡ l.unstable.offset = ground (arith, h, other) in
        let none_kept : e.index - l.unstable.offset ≡ 0 = omega (arith, start) in
        append_state l e es
          (truncate_replace l.unstable e es j.backed.tail (omega (arith, start)) other)
        ∙ rw (none_kept, start) refl
  ]

  cut_width :
      (e.index ≡ l.unstable.offset + length l.unstable.ents) ⊎ (e.index ≡ l.unstable.offset)
      → (l.unstable.offset + (e.index - l.unstable.offset) ≡ e.index)
        × (length (take (e.index - l.unstable.offset) l.unstable.ents)
            ≡ e.index - l.unstable.offset)
  cut_width h =
      let inside : e.index - l.unstable.offset ≤ length l.unstable.ents = ground (arith, h) in
      (ground (arith, h), length-take (e.index - l.unstable.offset) l.unstable.ents inside)

  -- The storage and the tail still fit together.
  cut_log-IsJoined :
      IsRun (e ∷ es)
      → (e.index ≡ l.unstable.offset + length l.unstable.ents) ⊎ (e.index ≡ l.unstable.offset)
      → IsJoined (cut_log l e es) m
  cut_log-IsJoined run h =
      let n : ℕ = e.index - l.unstable.offset in
      let (place, width) = cut_width h in
      let front = take-IsIndexed n l.unstable.offset l.unstable.ents j.backed.tail.0 in
      let start : l.unstable.offset + length (take n l.unstable.ents) ≡ e.index =
        omega (arith, place, width) in
      let size = length-append (take n l.unstable.ents) (e ∷ es) in
      record {
        backed = record {
          stored = j.backed.stored;
          valid = j.backed.valid;
          tail = (
            append-IsIndexed l.unstable.offset (take n l.unstable.ents) (e ∷ es) front
                (subst⁻¹ (λ b. IsIndexed b (e ∷ es)) start run.0),
            omega (arith, size, start, run.1),
          );
        };
        joined = j.joined;
      }

-- The calls of `Append`, one after the other.
abbrev pub appends : List (List LogEntry) → RaftLog → RaftLog
appends [] l = l
appends (new ∷ rest) l = appends rest (append new l).1

-- A list whose first entry has the index `first`: from the first new index on it is replaced.
abbrev pub replaced : ℕ → List (List LogEntry) → List LogEntry → List LogEntry
replaced first [] log = log
replaced first ([] ∷ rest) log = replaced first rest log
replaced first ((e ∷ es) ∷ rest) log = replaced first rest (take (e.index - first) log ++ e ∷ es)

-- Each run goes on at the end that the log has by then, or right behind the storage.
abbrev pub AllFit : ℕ → ℕ → List (List LogEntry) → Type 0
AllFit start end [] = Unit {0}
AllFit start end ([] ∷ rest) = AllFit start end rest
AllFit start end ((e ∷ es) ∷ rest) =
    IsRun (e ∷ es)
    × ((e.index ≡ end) ⊎ (e.index ≡ start))
    × AllFit start (e.index + suc (length es)) rest

-- What is stored takes part as it is: it lies before all that is replaced.
stored_kept :
    (l : RaftLog) (m : MemoryStorage) (i : ℕ) (new : List LogEntry)
    → IsJoined l m
    → can_read m ≡ true
    → l.unstable.offset ≤ i
    → stored_read m ++ (take (i - l.unstable.offset) l.unstable.ents ++ new)
      ≡ take (i - suc (base m.ents)) (stored_read m ++ l.unstable.ents) ++ new
stored_kept l m i new j r h =
    let sizes = sizes_in m.ents j.backed.valid in
    let rest = length-drop (base m.ents) m.ents in
    let fits : stored_count m ≤ length (drop (base m.ents) m.ents) =
      ground (arith, rest, sizes, r) in
    let size : length (stored_read m) ≡ stored_count m =
      length-take (stored_count m) (drop (base m.ents) m.ents) fits in
    let width : i - suc (base m.ents) ≡ length (stored_read m) + (i - l.unstable.offset) =
      omega (arith, size, j.joined, sizes, h) in
    rw width (
      rw (take_beyond (stored_read m) l.unstable.ents (i - l.unstable.offset))
        (sym (append_assoc (stored_read m) (take (i - l.unstable.offset) l.unstable.ents) new)))

-- Under `Append` and `AllEntries` a log is a list of entries. It lies over a valid memory storage
-- that holds no entries or was compacted at 1 at most, with a tail in order that starts where the
-- storage ends. Where each run that is appended goes on at the end that the log has by then, or
-- starts right behind the storage, `AllEntries` answers at last what it answered at first, where
-- each run in its turn has replaced everything from its first index on.
pub appends_lem :
    (l : RaftLog) (m : MemoryStorage) (runs : List (List LogEntry)) (acc : List LogEntry)
    → IsJoined l m
    → can_read m ≡ true
    → AllFit l.unstable.offset (l.unstable.offset + length l.unstable.ents) runs
    → all_entries (appends runs l) acc
      ≡ ret (
        RaftError.none_err,
        acc ++ replaced (suc (base m.ents)) runs (stored_read m ++ l.unstable.ents),
      )
appends_lem l m [] acc j r fit =
    all_entries_lem l m j acc
    ∙ rw r
        (ap (λ es. ret (RaftError.none_err, es)) (append_assoc acc (stored_read m) l.unstable.ents))
appends_lem l m ([] ∷ rest) acc j r fit = rw (append_nothing l) (appends_lem l m rest acc j r fit)
appends_lem l m ((e ∷ es) ∷ rest) acc j r fit =
    let n : ℕ = e.index - l.unstable.offset in
    let start = l.unstable.offset in
    let (place, width) = cut_width l m j e es fit.1 in
    let size = length-append (take n l.unstable.ents) (e ∷ es) in
    let l1 : RaftLog = cut_log l e es in
    let end : e.index + suc (length es) ≡ start + length l1.unstable.ents =
      omega (arith, place, width, size) in
    let kept = stored_kept l m e.index (e ∷ es) j r (omega (arith, place)) in
    rw (append_cut l m j e es fit.1) (
      appends_lem l1 m rest acc (cut_log-IsJoined l m j e es fit.0 fit.1) r
        (subst (λ b. AllFit start b rest) end fit.2)
      ∙ ap (λ es. ret (RaftError.none_err, acc ++ replaced (suc (base m.ents)) rest es)) kept)
