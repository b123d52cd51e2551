-- ===== src/Raft/Defs/Commit.antt =====
-- How a leader counts what its followers hold.
use anraft.Base.{ℕ, suc, ◌-◌, Bool, List, [], ◌∷◌, ltb, if◌then◌else◌, add64, Outcome, ret, at}
use anraft.Base.Action.{Action, ◌>>=◌, ◌>>◌, pure, reads, gets}
use anraft.Base.Map.{Map}
use anraft.Proto.{LogEntry}
use anraft.Progress.{Progress, maybe_update}
use anraft.RaftLog
use anraft.Raft.Defs.State.{
  Raft, Env, ProgressRef, on_log, quorum, get_progress, read_progress, write_progress,
}

-- The matched indices, in the order of the map.
unfoldable pub matches : Map Progress → List ℕ
matches [] = []
matches ((_, p) ∷ m) = p.match ∷ matches m

unfoldable pub insert_down : ℕ → List ℕ → List ℕ
insert_down x [] = x ∷ []
insert_down x (y ∷ ys) = if ltb x y then y ∷ insert_down x ys else x ∷ y ∷ ys

-- `std::sort` with `std::greater`: the one arrangement of the numbers that never rises.
unfoldable pub sort_down : List ℕ → List ℕ
unfolding insert_down
sort_down [] = []
sort_down (x ∷ xs) = insert_down x (sort_down xs)

-- `pr->MaybeUpdate(n)`, through the pointer.
unfoldable pub update_progress : ProgressRef → ℕ → Action Raft Bool
update_progress pr n r =
    let (p, is_update) = maybe_update n (read_progress pr r) in
    (ret is_update, write_progress pr p r)

-- The loop of `AppendEntry`, which numbers the proposed entries behind the index li.
unfoldable pub number_entries : ℕ → ℕ → ℕ → List LogEntry → List LogEntry
number_entries term li i [] = []
number_entries term li i (e ∷ es) =
    record e { term = term; index = add64 (add64 li 1) i } ∷ number_entries term li (suc i) es

-- The index that `MaybeCommit` picks: `vp[Quorum() - 1]` of the sorted matches.
unfoldable pub quorum_index : Raft → Outcome ℕ
unfolding matches sort_down
quorum_index r = at (sort_down (matches r.prs)) (quorum r - 1)

module _ (env : Env) where
  -- `MaybeCommit`
  unfoldable pub maybe_commit : Action Raft Bool
  maybe_commit = do
    index ← reads quorum_index
    term ← gets (λ r. r.term)
    on_log (RaftLog.maybe_commit env.log index term)

  -- `AppendEntry`, with the entries as it leaves them in the message.
  unfoldable pub append_entry : List LogEntry → Action Raft (List LogEntry)
  append_entry entries = do
    li ← reads (λ r. RaftLog.last_index r.raftlog)
    numbered ← gets (λ r. number_entries r.term li 0 entries)
    last ← reads (λ r. env.log.append_repeated r.raftlog numbered)
    id ← gets (λ r. r.id)
    pr ← get_progress id
    update_progress pr last
    maybe_commit
    pure numbered
