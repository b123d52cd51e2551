-- ===== src/RaftLog/Defs/Updates.antt =====
-- The methods that change the log.
use anraft.Base.{
  ℕ, Bool, true, false, Option, none, some, List, [], ◌∷◌, length, ltb, ◌==◌, add64, sub64, min,
}
use anraft.Base.Action.{Action, ◌>>=◌, ◌>>◌, pure, reads, gets, modify, when}
use anraft.Proto.{LogEntry, is_none}
use anraft.Storage.{Storage}
use anraft.Unstable.{Unstable}
use anraft.Unstable
use anraft.RaftLog.Defs.Queries.{
  RaftLog, Unwritten, last_index, term, zero_term_on_err_compacted, match_term, find_conflict,
}

-- `SetCommited`
unfoldable pub set_commited : ℕ → RaftLog → RaftLog
set_commited commited l = record l { committed = commited }

-- `CommitTo`; that the target is in the log is only asked in a comment.
unfoldable pub commit_to : ℕ → Action RaftLog (Unit {0})
commit_to tocommit = do
  committed ← gets (λ l. l.committed)
  when (ltb committed tocommit)
      (reads last_index >> modify (λ l. record l { committed = tocommit }))

-- The call of `unstable_.TruncateAndAppend`.
truncate_tail : List LogEntry → Action RaftLog (Unit {0})
truncate_tail ents l =
    let (r, u) = Unstable.truncate_and_append ents l.unstable in (r, record l { unstable = u })

-- `Append` of a vector.
unfoldable pub append : List LogEntry → Action RaftLog ℕ
unfolding truncate_tail
append [] = reads last_index
append (e ∷ es) = truncate_tail (e ∷ es) >> reads last_index

-- `NewLog`, given a pointer to a storage. The virtual calls come in the order of the source.
unfoldable pub new_log : Unwritten → Option Storage → Action RaftLog Bool
new_log unwritten none = pure false
new_log unwritten (some storage) = do
  modify (λ l. record l { storage = some storage })
  (first, first_err) ← reads (λ _. storage.first_index)
  elim (is_none first_err) [
    | false ↦ pure false
    | true ↦ do
      (last, last_err) ← reads (λ _. storage.last_index)
      elim (is_none last_err) [
        | false ↦ pure false
        | true ↦ do
          modify λ l. record l {
            unstable = Unstable.set_offset (add64 last 1) l.unstable;
            committed = sub64 first 1;
            applied = sub64 first 1;
          }
          reads unwritten.new_log
      ]
  ]

module _ (unwritten : Unwritten) where
  -- `MaybeCommit`
  unfoldable pub maybe_commit : ℕ → ℕ → Action RaftLog Bool
  maybe_commit index t = do
    committed ← gets (λ l. l.committed)
    elim (ltb committed index) [
      | false ↦ pure false
      | true ↦ do
        found ← reads (λ l. term unwritten l index)
        elim (zero_term_on_err_compacted found == t) [
          | false ↦ pure false
          | true ↦ commit_to index >> pure true
        ]
    ]

  -- `MaybeAppend`; the append of the entries is only a comment.
  unfoldable pub maybe_append : ℕ → ℕ → ℕ → List LogEntry → Action RaftLog (ℕ × Bool)
  maybe_append index t committed ents = do
    same ← reads (λ l. match_term unwritten l index t)
    elim same [
      | false ↦ pure (0, false)
      | true ↦ do
        let lastnewi = add64 index (length ents)
        reads (λ l. find_conflict unwritten l ents)
        commit_to (min committed lastnewi)
        pure (committed, true)
    ]
