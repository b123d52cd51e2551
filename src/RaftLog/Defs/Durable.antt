-- ===== src/RaftLog/Defs/Durable.antt =====
-- The part of `RaftLog` that keeps the current term in RocksDB: `Open`, `GetCurrentTerm` and
-- `SetCurrentTerm`. The database library is a parameter.
use anraft.Base.{
  Bytes, ℕ, Bool, false, [], ◌∷◌, ltb, length, bytes_of, word_of, if◌then◌else◌, bad_pointer,
  out_of_range, uninitialised, Outcome, ret, trap,
}
use anraft.Base.Action.{Action, ◌>>=◌, reads, modify}

-- The status of `DB::Get`, with the value that it wrote into the string.
pub data Reading : Type 0 where
  found : Bytes → Reading
  not_found failed : Reading

-- `DB::Open` with `create_if_missing`, `Get` and `Put` on the database of a path. A status is
-- true for ok.
pub record Rocks : Type 1 where
  pub Disk : Type 0
  pub open_db : Disk → Bytes → Bool × Disk
  pub get : Disk → Bytes → Bytes → Reading
  pub put : Disk → Bytes → Bytes → Bytes → Bool × Disk

-- The pointer `log_`: no constructor assigns it, and `DB::Open` clears it when it fails.
pub data Handle : Type 0 where
  unassigned null : Handle
  opened : Bytes → Handle

-- `log_` and what it points to.
pub record Database (rocks : Rocks) : Type 0 where
  pub disk : rocks.Disk
  pub handle : Handle

unfoldable pub path_of : Handle → Outcome Bytes
path_of Handle.unassigned = trap uninitialised
path_of Handle.null = trap bad_pointer
path_of (Handle.opened path) = ret path

-- kCurrentTerm: the letters of CURRENTTERM.
abbrev pub current_term_key : Bytes
current_term_key = 67 ∷ 85 ∷ 82 ∷ 82 ∷ 69 ∷ 78 ∷ 84 ∷ 84 ∷ 69 ∷ 82 ∷ 77 ∷ []

-- `memcpy` of the eight bytes of the term, in the order of the memory, the lowest first.
unfoldable pub copy_word : Bytes → Outcome ℕ
copy_word buf = if ltb (length buf) 8 then trap out_of_range else ret (word_of 8 buf)

-- A status other than not found leaves the string empty.
unfoldable pub stored_term : Reading → Outcome ℕ
unfolding copy_word
stored_term (Reading.found buf) = copy_word buf
stored_term Reading.not_found = ret 0
stored_term Reading.failed = copy_word []

module _ (rocks : Rocks) where
  -- `Open`, which goes off its end after a success.
  unfoldable pub open_log : Outcome Bool → Bytes → Action (Database rocks) Bool
  open_log falls_off path db =
      let (ok, disk) = rocks.open_db db.disk path in
      if ok
      then (falls_off, record { disk = disk; handle = Handle.opened path })
      else (ret false, record { disk = disk; handle = Handle.null })

  -- `GetCurrentTerm`
  unfoldable pub get_current_term : Action (Database rocks) ℕ
  unfolding path_of stored_term
  get_current_term = do
    path ← reads (λ db. path_of db.handle)
    reads (λ db. stored_term (rocks.get db.disk path current_term_key))

  -- `SetCurrentTerm`, which does not look at the status of the write.
  unfoldable pub set_current_term : ℕ → Action (Database rocks) (Unit {0})
  unfolding path_of
  set_current_term t = do
    path ← reads (λ db. path_of db.handle)
    modify (λ db. record db { disk = (rocks.put db.disk path current_term_key (bytes_of 8 t)).1 })
