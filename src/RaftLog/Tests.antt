-- ===== src/RaftLog/Tests.antt =====
-- Instances of the theorems on the log.
use anraft.Base.{
  ℕ, ◌⊎◌, ◌≡◌, ◌≢◌, refl, inl, inr, true, some, List, [], ◌∷◌, arith, max, min, add64, ret, trap,
  missing_return,
}
use anraft.Proto.{
  LogEntry, RaftError, empty_entry, empty_hard_state, empty_conf_state, empty_snapshot,
}
use anraft.Storage.{MemoryStorage, as_storage}
use anraft.Unstable.Truncate.{Joins}
use anraft.RaftLog.Defs.{
  RaftLog, Database, Handle, open_log, get_current_term, set_current_term, Unwritten, append,
  all_entries, new_log, maybe_append, match_term,
}
use anraft.RaftLog.Query.{Ends, IsBacked, indices_backed}
use anraft.RaftLog.Whole.{IsJoined, all_entries_lem, new_log-IsJoined}
use anraft.RaftLog.Commit.{maybe_append_lem, maybe_append_beyond}
use anraft.RaftLog.Growing.{appends, appends_lem}
use anraft.RaftLog.Append.{append-truncates}
use anraft.RaftLog.Recovery.{set_current_term-get_current_term}
use anraft.RaftLog.Shelf.{shelf, shelf-IsDurable}

abbrev entry : ℕ → ℕ → LogEntry
entry i t = record empty_entry { index = i; term = t }

-- A storage compacted at 5 that holds 6 and 7, and a tail with 8 and 9.
abbrev stored : MemoryStorage
stored = record {
  hard_state = empty_hard_state;
  conf_state = empty_conf_state;
  snapshot = empty_snapshot;
  ents = entry 5 1 ∷ entry 6 1 ∷ entry 7 2 ∷ [];
}

abbrev two_more : RaftLog
two_more = record {
  storage = some (as_storage stored);
  unstable = record { snapshot = empty_snapshot; ents = entry 8 2 ∷ entry 9 2 ∷ []; offset = 8 };
  committed = 6;
  applied = 5;
}

-- Where the source goes off its end, the call traps, but `Term` gives term 2.
abbrev answers_2 : Unwritten
answers_2 = record {
  new_log = λ _. trap missing_return;
  term = λ _ _. ret (RaftError.none_err, 2);
  last_term = λ _. ret 2;
  append_entry = λ _ _. trap missing_return;
  append_repeated = λ _ _. trap missing_return;
}

two_more-IsBacked : IsBacked two_more stored
two_more-IsBacked = record { stored = refl; valid = ground arith; tail = ground arith }

two_more-Ends : Ends two_more 6 9
two_more-Ends =
    let both = indices_backed two_more stored two_more-IsBacked in
    record {
      first_is = both.0;
      last_is = both.1;
      first_word = omega arith;
      last_word = omega arith;
    }

maybe_append_beyond_example :
    maybe_append answers_2 20 0 30 (entry 21 0 ∷ []) two_more
    ≡ (ret (30, true), record two_more { committed = 21 })
maybe_append_beyond_example =
    maybe_append_beyond answers_2 two_more two_more-Ends (omega arith) 20 30 (entry 21 0 ∷ [])
      (omega arith) (omega arith) (omega arith, tt)

append-truncates_example :
    let (r, l') = append (entry 8 3 ∷ []) two_more in
    (r ≡ ret 8)
    × Joins 8 (entry 8 3 ∷ []) two_more.unstable l'.unstable
    × (l'.committed ≡ 6)
    × (l'.storage ≡ some (as_storage stored))
append-truncates_example =
    append-truncates two_more (entry 8 3) [] (ground arith) (ground arith) (inr (omega arith))

maybe_append_lem_example :
    let (r, l') = maybe_append answers_2 9 2 8 (entry 10 2 ∷ []) two_more in
    ((r ≡ ret (8, true))
      × (match_term answers_2 two_more 9 2 ≡ ret true)
      × (l' ≡ record two_more { committed = max 6 (min 8 (add64 9 1)) }))
    ⊎ (((n : ℕ) → r ≢ ret (n, true)) × (l' ≡ two_more))
maybe_append_lem_example = maybe_append_lem answers_2 9 2 8 (entry 10 2 ∷ []) two_more

abbrev first_start : Database shelf
first_start = record { disk = []; handle = Handle.opened (5 ∷ []) }

set_current_term-get_current_term_example :
    let after = (set_current_term shelf 70000 first_start).1 in
    let again =
      (open_log shelf
        (ret true)
        (5 ∷ [])
        (record { disk = after.disk; handle = Handle.unassigned })).1 in
    (get_current_term shelf after ≡ (ret 70000, after))
    × (get_current_term shelf again ≡ (ret 70000, again))
set_current_term-get_current_term_example =
    set_current_term-get_current_term shelf 70000 (ret true) (5 ∷ []) first_start shelf-IsDurable
      (omega arith) refl refl refl

-- A storage compacted at 1, and the log that `NewLog` makes of it, with a tail.
abbrev from_1 : MemoryStorage
from_1 = record stored { ents = entry 1 1 ∷ entry 2 1 ∷ entry 3 2 ∷ [] }

abbrev longer : RaftLog
longer = record two_more {
  storage = some (as_storage from_1);
  unstable = record { snapshot = empty_snapshot; ents = entry 4 2 ∷ entry 5 2 ∷ []; offset = 4 };
}

longer-IsJoined : IsJoined longer from_1
longer-IsJoined = record {
  backed = record { stored = refl; valid = ground arith; tail = ground arith };
  joined = refl;
}

all_entries_lem_example :
    all_entries longer (entry 0 9 ∷ [])
    ≡ ret (RaftError.none_err, entry 0 9 ∷ entry 2 1 ∷ entry 3 2 ∷ entry 4 2 ∷ entry 5 2 ∷ [])
all_entries_lem_example = all_entries_lem longer from_1 longer-IsJoined (entry 0 9 ∷ [])

-- A run goes on at the end, and another one replaces the tail.
abbrev two_runs : List (List LogEntry)
two_runs = (entry 6 2 ∷ []) ∷ (entry 4 3 ∷ entry 5 3 ∷ []) ∷ []

appends_lem_example :
    all_entries (appends two_runs longer) []
    ≡ ret (RaftError.none_err, entry 2 1 ∷ entry 3 2 ∷ entry 4 3 ∷ entry 5 3 ∷ [])
appends_lem_example =
    appends_lem longer from_1 two_runs [] longer-IsJoined refl
      (((refl, tt), omega arith), inl refl, (((refl, (refl, tt)), omega arith), inr refl, tt))

abbrev no_tail : RaftLog
no_tail = record two_more { unstable = record { snapshot = empty_snapshot; ents = []; offset = 0 } }

-- `NewLog` makes such a log of that storage.
made_by_new_log : IsJoined (new_log answers_2 (some (as_storage from_1)) no_tail).1 from_1
made_by_new_log = new_log-IsJoined answers_2 from_1 no_tail (ground arith) (omega arith) refl
