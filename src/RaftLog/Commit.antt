-- ===== src/RaftLog/Commit.antt =====
-- How the commit index moves.
use anraft.Base.{
  ℕ, ◌+◌, ◌≤◌, ◌<◌, ◌≡◌, refl, ◌≢◌, ◌⊎◌, true, List, [], ◌∷◌, arith, length, ◌==◌, add64,
  add64_fits, u64_mod, min, max, ret,
}
use anraft.Base.Action.{do_blocks}
use anraft.Proto.{RaftError, LogEntry}
use anraft.RaftLog.Defs.{
  RaftLog, Unwritten, last_index, term, match_term, commit_to, maybe_commit, maybe_append,
  zero_term_on_err_compacted,
}
use anraft.RaftLog.Query.{Ends, match_term_above, Tests, find_conflict_lem}

-- The log is as before, but for a commit index that may have grown.
pub record OnlyCommits (l l' : RaftLog) : Type 0 where
  pub same_storage : l'.storage ≡ l.storage
  pub same_unstable : l'.unstable ≡ l.unstable
  pub same_applied : l'.applied ≡ l.applied
  pub grows : l.committed ≤ l'.committed

pub OnlyCommits-refl : (l : RaftLog) → OnlyCommits l l
OnlyCommits-refl l = record {
  same_storage = refl;
  same_unstable = refl;
  same_applied = refl;
  grows = omega arith;
}

pub OnlyCommits-trans : {k l m : RaftLog} → OnlyCommits k l → OnlyCommits l m → OnlyCommits k m
OnlyCommits-trans p q = ground arith

pub commit_to-OnlyCommits : (n : ℕ) (l : RaftLog) → OnlyCommits l (commit_to n l).1
unfolding commit_to do_blocks
commit_to-OnlyCommits n l = ground arith

-- Where the last index can be read, `CommitTo` raises the commit index to the target, also above
-- the last index.
pub commit_to-max :
    (n li : ℕ) (l : RaftLog)
    → last_index l ≡ ret li
    → commit_to n l ≡ (ret tt, record l { committed = max l.committed n })
unfolding commit_to do_blocks
commit_to-max n li l h = ground arith

module _ (unwritten : Unwritten) where
  pub maybe_commit-OnlyCommits :
      (index t : ℕ) (l : RaftLog) → OnlyCommits l (maybe_commit unwritten index t l).1
  unfolding maybe_commit do_blocks
  maybe_commit-OnlyCommits index t l =
      ground (arith, commit_to-OnlyCommits index l, OnlyCommits-refl l)

  pub maybe_append-OnlyCommits :
      (index t committed : ℕ) (ents : List LogEntry) (l : RaftLog)
      → OnlyCommits l (maybe_append unwritten index t committed ents l).1
  unfolding maybe_append do_blocks
  maybe_append-OnlyCommits index t committed ents l = ground (
    arith,
    commit_to-OnlyCommits (min committed (add64 index (length ents))) l,
    OnlyCommits-refl l,
  )

  -- `MaybeCommit` says true exactly when it raises the commit index, to the index it was given,
  -- where it found the given term; in every other case, traps included, the log is as before.
  pub maybe_commit_lem :
      (index t : ℕ) (l : RaftLog)
      → let (r, l') = maybe_commit unwritten index t l in
        ((r ≡ ret true)
          × (l.committed < index)
          × (l' ≡ record l { committed = index })
          × ((found : RaftError × ℕ) × (term unwritten l index ≡ ret found)
              × (zero_term_on_err_compacted found ≡ t)))
        ⊎ ((r ≢ ret true) × (l' ≡ l))
  unfolding maybe_commit commit_to do_blocks
  maybe_commit_lem index t l = ground arith

  -- Where the index is above the commit index, its term is the given one, and the last index can be
  -- read, `MaybeCommit` commits.
  pub maybe_commit_when :
      (index t li : ℕ) (l : RaftLog) {found : RaftError × ℕ}
      → l.committed < index
      → term unwritten l index ≡ ret found
      → zero_term_on_err_compacted found ≡ t
      → last_index l ≡ ret li
      → maybe_commit unwritten index t l ≡ (ret true, record l { committed = index })
  unfolding maybe_commit do_blocks
  maybe_commit_when index t li l h k e ends = ground (arith, commit_to-max index li l ends)

  -- `MaybeAppend` never stores an entry. Where it says true, it returns the commit index that it
  -- was given, and the log's has moved up to it or to the end of the new entries; else nothing
  -- has changed.
  pub maybe_append_lem :
      (index t committed : ℕ) (ents : List LogEntry) (l : RaftLog)
      → let (r, l') = maybe_append unwritten index t committed ents l in
        ((r ≡ ret (committed, true))
          × (match_term unwritten l index t ≡ ret true)
          × (l' ≡ record l {
            committed = max l.committed (min committed (add64 index (length ents)));
          }))
        ⊎ (((n : ℕ) → r ≢ ret (n, true)) × (l' ≡ l))
  unfolding maybe_append commit_to do_blocks
  maybe_append_lem index t committed ents l = ground arith

-- Every entry stands above the index.
abbrev pub AllAbove : ℕ → List LogEntry → Type 0
AllAbove n [] = Unit {0}
AllAbove n (x ∷ xs) = (n < x.index) × AllAbove n xs

module _ (unwritten : Unwritten) (l : RaftLog) {first last : ℕ} (e : Ends l first last)
    (positive : 0 < first) where
  Tests-above :
      (xs : List LogEntry)
      → AllAbove last xs
      → Tests (λ x. match_term unwritten l x.index x.term) (λ x. 0 == x.term) xs
  Tests-above [] h = tt
  Tests-above (x ∷ xs) h =
      (match_term_above unwritten l e positive x.index x.term h.0, Tests-above xs h.1)

  -- In a log with known ends, the first above zero, an append that starts above the end, after a
  -- previous term of zero, and whose entries all stand above the end and within a word, is
  -- accepted whatever it holds: nothing is stored, and the commit index moves as far as the
  -- leader's and the end of the entries, above the end of the log.
  pub maybe_append_beyond :
      (index committed : ℕ) (ents : List LogEntry)
      → last < index
      → index + length ents < u64_mod
      → AllAbove last ents
      → maybe_append unwritten index 0 committed ents l ≡ (
        ret (committed, true),
        record l { committed = max l.committed (min committed (index + length ents)) },
      )
  unfolding maybe_append do_blocks
  maybe_append_beyond index committed ents h k a = ground (
    arith,
    match_term_above unwritten l e positive index 0 h,
    find_conflict_lem unwritten l e.last_is (λ x. 0 == x.term) ents (Tests-above ents a),
    commit_to-max (min committed (index + length ents)) last l e.last_is,
    add64_fits index (length ents) k,
  )
