-- ===== src/Storage/Tests.antt =====
-- Runs of the storage's methods on a small log, and instances of its theorems.
use anraft.Base.{ℕ, ◌≤◌, ◌+◌, ◌≡◌, refl, [], ◌∷◌, arith, ret, trap, missing_return, add64, sub64}
use anraft.Proto.{
  LogEntry, RaftError, empty_entry, empty_hard_state, empty_conf_state, empty_snapshot,
}
use anraft.Storage.Defs.{MemoryStorage, term, first_index, append, compact, new_memory_storage}
use anraft.Storage.Log.{IsValid, base, last}
use anraft.Storage.History.{Leads, appending, compacting, here, history_lem}
use anraft.Storage.Query.{term-IsValid}
use anraft.Storage.Write.{Appends, contents, append_lem}
use anraft.Storage.Compact.{Compacts, compact_lem}

abbrev entry : ℕ → ℕ → LogEntry
entry i t = record empty_entry { index = i; term = t }

-- Compacted at `at`, with two more entries.
abbrev stored_from : ℕ → MemoryStorage
stored_from at = record {
  hard_state = empty_hard_state;
  conf_state = empty_conf_state;
  snapshot = empty_snapshot;
  ents = entry at 1 ∷ entry (at + 1) 1 ∷ entry (at + 2) 2 ∷ [];
}

stored_5-IsValid : IsValid (stored_from 5)
stored_5-IsValid = ground arith

stored_1-IsValid : IsValid (stored_from 1)
stored_1-IsValid = ground arith

-- The constructor's storage answers the indices 1 and 0, and drops its first entry.
fresh_first : first_index new_memory_storage ≡ ret (1, RaftError.none_err)
unfolding first_index new_memory_storage add64
fresh_first = refl

fresh_append : (append (entry 1 1 ∷ entry 2 1 ∷ []) new_memory_storage).0 ≡ ret RaftError.none_err
unfolding append new_memory_storage add64 sub64
fresh_append = refl

term-IsValid_example : term (stored_from 5) 7 ≡ ret (2, RaftError.none_err)
term-IsValid_example = term-IsValid (stored_from 5) 7 stored_5-IsValid

append_lem_example :
    Appends
      (entry 7 3 ∷ entry 8 3 ∷ [])
      (stored_from 5).ents
      (contents (append (entry 7 3 ∷ entry 8 3 ∷ []) (stored_from 5)))
append_lem_example =
    append_lem (stored_from 5) (entry 7 3 ∷ entry 8 3 ∷ []) stored_5-IsValid (ground arith)

compact_lem_example :
    ((compact (trap missing_return) 6 (stored_from 5)).0 ≡ trap missing_return)
    × Compacts 6 (stored_from 5).ents (compact (trap missing_return) 6 (stored_from 5)).1.ents
compact_lem_example =
    compact_lem (stored_from 5) (trap missing_return) 6 stored_5-IsValid (omega arith) (omega arith)

abbrev grown : MemoryStorage
grown = (append (entry 8 3 ∷ entry 9 3 ∷ []) (stored_from 5)).1

abbrev grown_and_cut : MemoryStorage
grown_and_cut = (compact (trap missing_return) 7 grown).1

two_steps : Leads (trap missing_return) (stored_from 5) grown_and_cut
two_steps =
    appending (stored_from 5) grown_and_cut (entry 8 3 ∷ entry 9 3 ∷ []) (ground arith)
      (compacting grown grown_and_cut 7 (here grown_and_cut))

history_lem_example :
    IsValid grown_and_cut
    × (5 ≤ base grown_and_cut.ents)
    × (7 ≤ last grown_and_cut.ents)
    × ((i : ℕ)
        → base grown_and_cut.ents ≤ i
        → i ≤ 7
        → term grown_and_cut i ≡ term (stored_from 5) i)
history_lem_example =
    history_lem (trap missing_return) (stored_from 5) grown_and_cut stored_5-IsValid two_steps
