-- ===== src/RaftLog/Defs/Queries.antt =====
-- The state of the log, and the methods that read it.
use anraft.Base.{
  ℕ, Bool, true, false, ◌||◌, not, Option, List, [], ◌∷◌, ◌++◌, ltb, ◌==◌, if◌then◌else◌, add64,
  sub64, min, max, bad_pointer, Outcome, ret, or_trap, ◌>>=◌,
}
use anraft.Proto.{RaftError, LogEntry, is_none}
use anraft.Storage.{Storage}
use anraft.Unstable.{Unstable}
use anraft.Unstable

pub record RaftLog : Type 0 where
  pub storage : Option Storage
  pub unstable : Unstable
  pub committed : ℕ
  pub applied : ℕ

-- What a call gives whose body has no return statement on its way out: the end of `NewLog` and of
-- `Term`, and the methods with an empty body. Such a call traps, or goes on with some value.
pub record Unwritten : Type 0 where
  pub new_log : RaftLog → Outcome Bool
  pub term : RaftLog → ℕ → Outcome (RaftError × ℕ)
  pub last_term : RaftLog → Outcome ℕ
  pub append_entry : RaftLog → LogEntry → Outcome ℕ
  pub append_repeated : RaftLog → List LogEntry → Outcome ℕ

-- The index of an answer of the storage; its error is only looked at in a comment.
index_of : ℕ × RaftError → Outcome ℕ
index_of (i, _) = ret i

-- `LastIndex`
unfoldable pub last_index : RaftLog → Outcome ℕ
unfolding index_of
last_index l =
    let (i, found) = Unstable.maybe_last_index l.unstable in
    if found then ret i else (or_trap l.storage bad_pointer >>= λ s. s.last_index >>= index_of)

-- `FirstIndex`
unfoldable pub first_index : RaftLog → Outcome ℕ
unfolding index_of
first_index l =
    let (i, found) = Unstable.maybe_first_index l.unstable in
    if found then ret i else (or_trap l.storage bad_pointer >>= λ s. s.first_index >>= index_of)

-- `MustCheckOutOfBounds`
unfoldable pub must_check_out_of_bounds : RaftLog → ℕ → ℕ → Outcome RaftError
must_check_out_of_bounds l lo hi =
    if ltb hi lo
    then ret RaftError.param
    else (first_index l >>= λ fi.
        if ltb lo fi
        then ret RaftError.compacted
        else (last_index l >>= λ li.
            let len = sub64 (add64 li 1) fi in
            if ltb lo fi || ltb (add64 fi len) hi
            then ret RaftError.compacted
            else ret RaftError.none_err))

-- `storage_->Entries(lo, std::min(hi, unstable_.Offset()), max_size)`, put behind `acc`.
unfoldable pub stored_part :
    RaftLog → ℕ → ℕ → ℕ → List LogEntry → Outcome (RaftError × List LogEntry)
stored_part l lo hi max_size acc =
    if ltb lo l.unstable.offset
    then (or_trap l.storage bad_pointer >>= λ s.
        s.entries lo (min hi l.unstable.offset) max_size >>= λ (es, err).
        if is_none err then ret (RaftError.none_err, acc ++ es) else ret (err, acc))
    else ret (RaftError.none_err, acc)

unfoldable pub unstable_part : RaftLog → ℕ → ℕ → List LogEntry → Outcome (RaftError × List LogEntry)
unstable_part l lo hi acc =
    if ltb l.unstable.offset hi
    then (Unstable.slice l.unstable (max lo l.unstable.offset) hi [] >>= λ es.
        ret (RaftError.none_err, acc ++ es))
    else ret (RaftError.none_err, acc)

-- `Slice`, with the error and the caller's vector after it.
unfoldable pub slice : RaftLog → ℕ → ℕ → ℕ → List LogEntry → Outcome (RaftError × List LogEntry)
unfolding stored_part unstable_part
slice l lo hi max_size acc = must_check_out_of_bounds l lo hi >>= λ check.
    if not (is_none check)
    then ret (check, acc)
    else if lo == hi
    then ret (RaftError.none_err, acc)
    else (stored_part l lo hi max_size acc >>= λ (err, acc').
        if is_none err then unstable_part l lo hi acc' else ret (err, acc'))

-- `Entries`
unfoldable pub entries : RaftLog → ℕ → ℕ → List LogEntry → Outcome (RaftError × List LogEntry)
entries l index max_size acc = last_index l >>= λ li.
    if ltb li index then ret (RaftError.none_err, acc) else slice l index (add64 li 1) max_size acc

-- `AllEntries`
unfoldable pub all_entries : RaftLog → List LogEntry → Outcome (RaftError × List LogEntry)
all_entries l acc = first_index l >>= λ fi. entries l fi 10000 acc

-- `ZeroTermOnErrCompacted`
unfoldable pub zero_term_on_err_compacted : RaftError × ℕ → ℕ
zero_term_on_err_compacted (err, term) = if is_none err then term else 0

module _ (unwritten : Unwritten) where
  -- `Term`; inside the log it goes off the end.
  unfoldable pub term : RaftLog → ℕ → Outcome (RaftError × ℕ)
  term l index = first_index l >>= λ fi.
      if ltb index (sub64 fi 1)
      then ret (RaftError.none_err, 0)
      else (last_index l >>= λ li.
          if ltb li index then ret (RaftError.none_err, 0) else unwritten.term l index)

  -- `MatchTerm`
  unfoldable pub match_term : RaftLog → ℕ → ℕ → Outcome Bool
  match_term l index t =
      term l index >>= λ (err, found). ret (if is_none err then found == t else false)

  -- `FindConflict`
  unfoldable pub find_conflict : RaftLog → List LogEntry → Outcome ℕ
  find_conflict l [] = ret 0
  find_conflict l (x ∷ xs) = match_term l x.index x.term >>= λ same. elim same [
    | true ↦ find_conflict l xs
    | false ↦ (last_index l >>= λ _. ret x.index)
  ]

  -- `term > LastTerm() || (term == LastTerm() && last_index > LastIndex())`
  unfoldable pub is_up_to_date : RaftLog → ℕ → ℕ → Outcome Bool
  is_up_to_date l index t = unwritten.last_term l >>= λ lt.
      if ltb lt t
      then ret true
      else if t == lt
      then (last_index l >>= λ li. ret (ltb li index))
      else ret false
