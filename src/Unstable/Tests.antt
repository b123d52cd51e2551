-- ===== src/Unstable/Tests.antt =====
-- Instances of the theorems on the unstable tail.
use anraft.Base.{ℕ, [], ◌∷◌, arith}
use anraft.Proto.{LogEntry, empty_entry, empty_snapshot}
use anraft.Unstable.Defs.{Unstable}
use anraft.Unstable.Truncate.{IsTail}

abbrev entry : ℕ → LogEntry
entry i = record empty_entry { index = i; term = 1 }

-- Entries 2, 3 and 4 behind the offset 2.
abbrev tail_from_2 : Unstable
tail_from_2 = record {
  snapshot = empty_snapshot;
  ents = entry 2 ∷ entry 3 ∷ entry 4 ∷ [];
  offset = 2;
}

tail_from_2-IsTail : IsTail tail_from_2
tail_from_2-IsTail = ground arith
