-- ===== src/RaftLog/Append.antt =====
-- The log after `Append` and `NewLog`.
use anraft.Base.{
  suc, ◌+◌, ◌-◌, ◌≤◌, ◌<◌, ◌≡◌, refl, ap, ◌≢◌, ◌⊎◌, some, List, [], ◌∷◌, arith, length, add64_fits,
  sub64_fits, u64_mod, ret,
}
use anraft.Base.Action.{do_blocks}
use anraft.Proto.{RaftError, LogEntry}
use anraft.Storage.{MemoryStorage, as_storage}
use anraft.Storage.Log.{IsValid, IsLog, base, last}
use anraft.Storage.Query.{indices_lem}
use anraft.Storage.Write.{IsRun}
use anraft.Unstable.{Unstable}
use anraft.Unstable
use anraft.Unstable.Truncate.{IsTail, Joins, truncate-Joins, tail_last}
use anraft.RaftLog.Defs.{RaftLog, Unwritten, last_index, append, new_log}

last_index_tail :
    (l : RaftLog)
    → IsTail l.unstable
    → l.unstable.ents ≢ []
    → last_index l ≡ ret (l.unstable.offset + length l.unstable.ents - 1)
unfolding last_index
last_index_tail l v filled = ground (arith, tail_last l.unstable v)

joined-filled :
    (e : LogEntry) (es : List LogEntry) (u u' : Unstable)
    → Joins e.index (e ∷ es) u u'
    → u'.ents ≢ []
joined-filled e es u u' j h = ground (arith, j.2 e.index)

append_joined :
    (l : RaftLog) (e : LogEntry) (es : List LogEntry) (u' : Unstable)
    → IsRun (e ∷ es)
    → Unstable.truncate_and_append (e ∷ es) l.unstable ≡ (ret tt, u')
    → Joins e.index (e ∷ es) l.unstable u'
    → append (e ∷ es) l ≡ (ret (e.index + length es), record l { unstable = u' })
unfolding append do_blocks
append_joined l e es u' run h j =
    let l' : RaftLog = record l { unstable = u' } in
    let at = last_index_tail l' (j.0, omega arith) (joined-filled e es l.unstable u' j) in
    let same : u'.offset + length u'.ents - 1 ≡ e.index + length es = omega arith in
    ground (arith, h, at, same)

-- `Append` of a run to a log with a tail in order, where the run goes on where the tail ends, or
-- starts at its offset or before: the result is the index of the last new entry, the tail is a run
-- that holds all of them, and the commit index and the storage stay, also where the run replaces
-- committed entries.
pub append-truncates :
    (l : RaftLog) (e : LogEntry) (es : List LogEntry)
    → IsTail l.unstable
    → IsRun (e ∷ es)
    → (e.index ≡ l.unstable.offset + length l.unstable.ents) ⊎ (e.index ≤ l.unstable.offset)
    → let (r, l') = append (e ∷ es) l in
      (r ≡ ret (e.index + length es))
      × Joins e.index (e ∷ es) l.unstable l'.unstable
      × (l'.committed ≡ l.committed)
      × (l'.storage ≡ l.storage)
append-truncates l e es v run h =
    let (done, joined) = truncate-Joins l.unstable e es v run h in
    let u' : Unstable = (Unstable.truncate_and_append (e ∷ es) l.unstable).1 in
    rw (append_joined l e es u' run (ap (λ r. (r, u')) done) joined) (refl, joined, refl, refl)

-- `NewLog` over a valid memory storage: the tail begins behind the stored entries, and the commit
-- and applied indices are the compacted one. Then it goes off its end.
pub new_log_lem :
    (unwritten : Unwritten) (m : MemoryStorage) (l : RaftLog)
    → IsValid m
    → let (r, l') = new_log unwritten (some (as_storage m)) l in
      (r ≡ unwritten.new_log l')
      × (l' ≡ record l {
        storage = some (as_storage m);
        unstable = record (l.unstable) { offset = last m.ents + 1 };
        committed = base m.ents;
        applied = base m.ents;
      })
unfolding new_log Unstable.set_offset do_blocks
new_log_lem unwritten m l v = ground (
  arith,
  stored m v,
  add64_fits (last m.ents) 1 (last_bound m.ents v),
  sub64_fits (suc (base m.ents)) 1 (base_bound m.ents v),
)
  where
    stored :
        (s : MemoryStorage)
        → IsValid s
        → ((as_storage s).first_index ≡ ret (suc (base s.ents), RaftError.none_err))
          × ((as_storage s).last_index ≡ ret (last s.ents, RaftError.none_err))
    stored s v = unfold as_storage in indices_lem s v

    last_bound : (es : List LogEntry) → IsLog es → last es + 1 < u64_mod
    last_bound [] h = elim h [ ]
    last_bound (d ∷ es) h = omega arith

    base_bound : (es : List LogEntry) → IsLog es → suc (base es) < u64_mod
    base_bound [] h = elim h [ ]
    base_bound (d ∷ es) h = omega arith
