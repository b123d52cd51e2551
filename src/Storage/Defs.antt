-- ===== src/Storage/Defs.antt =====
-- The methods of `MemoryStorage`, and the interface that the log calls them through.
use anraft.Base.{
  ℕ, ◌+◌, ◌-◌, List, [], ◌∷◌, ◌++◌, length, drop, ltb, leb, if◌then◌else◌, add64, sub64,
  out_of_range, Outcome, ret, trap, ◌>>=◌, at, range,
}
use anraft.Base.Action.{Action}
use anraft.Proto.{
  RaftError, HardState, ConfState, LogEntry, Snapshot, empty_entry, empty_conf_state,
  empty_hard_state, empty_snapshot,
}

-- An object behind the virtual interface: what its methods answer in its present state.
pub record Storage : Type 0 where
  pub initial_state : HardState × ConfState × RaftError
  pub entries : ℕ → ℕ → ℕ → Outcome (List LogEntry × RaftError)
  pub term : ℕ → Outcome (ℕ × RaftError)
  pub last_index : Outcome (ℕ × RaftError)
  pub first_index : Outcome (ℕ × RaftError)
  pub snap_shot : Snapshot × RaftError

pub record MemoryStorage : Type 0 where
  pub hard_state : HardState
  pub conf_state : ConfState
  pub snapshot : Snapshot
  pub ents : List LogEntry

-- The constructor: a dummy entry at index and term zero.
unfoldable pub new_memory_storage : MemoryStorage
new_memory_storage = record {
  hard_state = empty_hard_state;
  conf_state = empty_conf_state;
  snapshot = empty_snapshot;
  ents = empty_entry ∷ [];
}

unfoldable pub initial_state : MemoryStorage → HardState × ConfState × RaftError
initial_state s = (s.hard_state, s.conf_state, RaftError.none_err)

-- `target.insert(begin, entries_.begin() + offset, entries_.begin() + offset + hi - lo)`; the
-- second iterator is computed on the addresses, so below the vector it is out of range too.
copy_entries : List LogEntry → ℕ → ℕ → ℕ → Outcome (List LogEntry)
copy_entries es offset lo hi =
    if ltb (offset + hi) lo then trap out_of_range else range offset (offset + hi - lo) es

entries_in : List LogEntry → ℕ → ℕ → Outcome (List LogEntry × RaftError)
unfolding copy_entries
entries_in es lo hi = do
  dummy ← at es 0
  let offset = dummy.index
  if leb lo offset
      then ret ([], RaftError.compacted)
      else if ltb (add64 offset (length es)) hi
      then ret ([], RaftError.compacted)
      else copy_entries es offset lo hi >>= λ target. ret (target, RaftError.none_err)

-- `Entries`; the bound on the size is not looked at.
unfoldable pub entries : MemoryStorage → ℕ → ℕ → ℕ → Outcome (List LogEntry × RaftError)
unfolding entries_in
entries s lo hi max_size = entries_in s.ents lo hi

term_in : List LogEntry → ℕ → Outcome (ℕ × RaftError)
term_in es i = do
  dummy ← at es 0
  let offset = dummy.index
  if ltb i offset
      then ret (0, RaftError.compacted)
      else if ltb (sub64 (add64 offset (length es)) 1) i
      then ret (0, RaftError.unavailable)
      else at es (sub64 i offset) >>= λ e. ret (e.term, RaftError.none_err)

unfoldable pub term : MemoryStorage → ℕ → Outcome (ℕ × RaftError)
unfolding term_in
term s i = term_in s.ents i

last_index_in : List LogEntry → Outcome (ℕ × RaftError)
last_index_in es = do
  dummy ← at es 0
  ret (sub64 (add64 dummy.index (length es)) 1, RaftError.none_err)

unfoldable pub last_index : MemoryStorage → Outcome (ℕ × RaftError)
unfolding last_index_in
last_index s = last_index_in s.ents

first_index_in : List LogEntry → Outcome (ℕ × RaftError)
first_index_in es = do dummy ← at es 0; ret (add64 dummy.index 1, RaftError.none_err)

unfoldable pub first_index : MemoryStorage → Outcome (ℕ × RaftError)
unfolding first_index_in
first_index s = first_index_in s.ents

unfoldable pub snap_shot : MemoryStorage → Snapshot × RaftError
snap_shot s = (s.snapshot, RaftError.none_err)

unfoldable pub set_hard_state : HardState → MemoryStorage → RaftError × MemoryStorage
set_hard_state hs s = (RaftError.none_err, record s { hard_state = hs })

-- `std::move(entries.begin() + offset, entries.end(), std::back_inserter(entries_))`
append_from : List LogEntry → ℕ → List LogEntry → Outcome (List LogEntry)
append_from new offset es =
    if ltb (length new) offset then trap out_of_range else ret (es ++ drop offset new)

-- The vector after `Append`.
append_to : List LogEntry → List LogEntry → Outcome (List LogEntry)
unfolding append_from
append_to [] es = ret es
append_to (e ∷ new) es = do
  dummy ← at es 0
  let old_first = add64 dummy.index 1
  let old_last = sub64 (add64 old_first (length es)) 1
  let new_first = e.index
  let new_last = sub64 (add64 new_first (length (e ∷ new))) 1
  if leb new_last old_first
      then ret es
      else if ltb old_last new_first
      then ret es
      else append_from (e ∷ new) (sub64 old_last new_first) es

unfoldable pub append : List LogEntry → Action MemoryStorage RaftError
unfolding append_to
append new s = elim (append_to new s.ents) [
  | ret es ↦ (ret RaftError.none_err, record s { ents = es })
  | trap f ↦ (trap f, s)
]

-- The vector after `Compact` has overwritten the dummy and erased what follows it.
erase_front : List LogEntry → ℕ → Outcome (List LogEntry)
erase_front [] n = trap out_of_range
erase_front (dummy ∷ es) n = do
  e ← at (dummy ∷ es) n
  ret (record dummy { index = e.index; term = e.term } ∷ drop n es)

-- The outcome of `Compact` and the vector after it. Its last statement is the erase: `falls_off`
-- is what a call gives that goes off the end of the function.
compact_to : Outcome RaftError → ℕ → List LogEntry → Outcome RaftError × List LogEntry
unfolding erase_front
compact_to falls_off compact_index es = elim (at es 0) [
  | trap f ↦ (trap f, es)
  | ret dummy ↦
      let offset = dummy.index in
      let last_index = add64 (add64 offset (length es)) 1 in
      if leb compact_index offset
      then (ret RaftError.compacted, es)
      else if ltb last_index compact_index
      then (ret RaftError.compacted, es)
      else elim (erase_front es (sub64 compact_index offset)) [
        | ret es' ↦ (falls_off, es')
        | trap f ↦ (trap f, es)
      ]
]

unfoldable pub compact : Outcome RaftError → ℕ → Action MemoryStorage RaftError
unfolding compact_to
compact falls_off compact_index s =
    let (r, es) = compact_to falls_off compact_index s.ents in (r, record s { ents = es })

-- The object behind the interface.
unfoldable pub as_storage : MemoryStorage → Storage
as_storage s = record {
  initial_state = initial_state s;
  entries = entries s;
  term = term s;
  last_index = last_index s;
  first_index = first_index s;
  snap_shot = snap_shot s;
}
