-- ===== src/RaftLog/Slice.antt =====
-- The slices of the log that lie in its tail.
use anraft.Base.{
  ℕ, ◌+◌, ◌-◌, ◌≤◌, ◌<◌, ◌≡◌, ◌≢◌, ◌⊎◌, List, [], ◌++◌, arith, length, ltb, if◌then◌else◌, max,
  ℕ_discrete, ret,
}
use mathlib.Core.List.{append-nil}
use anraft.Proto.{RaftError, LogEntry}
use anraft.Storage.Log.{IsIndexed}
use anraft.Unstable.Truncate.{IsTail, slice_within}
use anraft.Unstable
use anraft.RaftLog.Defs.{RaftLog, slice}
use anraft.RaftLog.Query.{Ends, must_check_lem}

module _ (l : RaftLog) {first last : ℕ} (e : Ends l first last) (ordered : first ≤ last + 1) where
  -- A request outside the log is refused, and the caller's vector is as it was.
  pub slice_refused :
      (lo hi max_size : ℕ) (acc : List LogEntry)
      → (hi < lo) ⊎ (lo < first) ⊎ (last + 1 < hi)
      → (err : RaftError) × (slice l lo hi max_size acc ≡ ret (err, acc))
        × (err ≢ RaftError.none_err)
  unfolding slice
  slice_refused lo hi max_size acc h = (
    (if ltb hi lo then RaftError.param else RaftError.compacted),
    ground (arith, must_check_lem l first last lo hi e ordered),
    ground arith,
  )

  module _ (tail : IsTail l.unstable)
      (ends : l.unstable.offset + length l.unstable.ents ≡ last + 1) where
    empty_request :
        (lo hi max_size : ℕ) (acc : List LogEntry)
        → first ≤ lo
        → lo ≡ hi
        → hi ≤ last + 1
        → slice l lo hi max_size acc ≡ ret (RaftError.none_err, acc ++ [])
    unfolding slice
    empty_request lo hi max_size acc a same d =
        ground (arith, must_check_lem l first last lo hi e ordered, append-nil acc)

    full_request :
        (lo hi max_size : ℕ) (acc es : List LogEntry)
        → first ≤ lo
        → l.unstable.offset ≤ lo
        → lo < hi
        → hi ≤ last + 1
        → Unstable.slice l.unstable lo hi [] ≡ ret (es ++ [])
        → slice l lo hi max_size acc ≡ ret (RaftError.none_err, acc ++ es)
    unfolding slice
    full_request lo hi max_size acc es a b c d found =
        let at : max lo l.unstable.offset ≡ lo = omega arith in
        ground
          (arith, must_check_lem l first last lo hi e ordered, append-nil es, rw (← at) at found)

    -- In a log with known ends that ends with a tail in order, a request for indices of the tail
    -- gets the entries with exactly these indices, behind what the caller's vector held.
    pub slice_tail :
        (lo hi max_size : ℕ) (acc : List LogEntry)
        → first ≤ lo
        → l.unstable.offset ≤ lo
        → lo ≤ hi
        → hi ≤ last + 1
        → (es : List LogEntry) × (slice l lo hi max_size acc ≡ ret (RaftError.none_err, acc ++ es))
          × (length es ≡ hi - lo)
          × IsIndexed lo es
    slice_tail lo hi max_size acc a b c d = elim (ℕ_discrete lo hi) [
      | yes same ↦ ([], empty_request lo hi max_size acc a same d, omega arith, tt)
      | no other ↦
          let (es, found, size, run) = slice_within l.unstable lo hi [] tail b c (omega arith) in
          (es, full_request lo hi max_size acc es a b (omega arith) d found, size, run)
    ]
