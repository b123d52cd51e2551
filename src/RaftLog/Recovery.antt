-- ===== src/RaftLog/Recovery.antt =====
-- The current term in the database: what is stored is read back, also after a restart.
use anraft.Base.{
  Bytes, ℕ, ◌<◌, ◌≡◌, refl, ap, Bool, true, ret, bytes_of, Outcome, word_of, word_of-bytes_of,
}
use anraft.Base.Action.{do_blocks}
use anraft.RaftLog.Defs.{
  Rocks, Reading, Handle, Database, path_of, copy_word, stored_term, current_term_key, open_log,
  get_current_term, set_current_term,
}

-- What the database documents: after a write that succeeds the value is read, and opening a
-- database keeps what it holds.
pub record IsDurable (rocks : Rocks) : Type 0 where
  pub get_put :
      (d : rocks.Disk) (path key value : Bytes)
      → (rocks.put d path key value).0 ≡ true
      → rocks.get (rocks.put d path key value).1 path key ≡ Reading.found value
  pub get_open :
      (d : rocks.Disk) (path key value : Bytes)
      → rocks.get d path key ≡ Reading.found value
      → rocks.get (rocks.open_db d path).1 path key ≡ Reading.found value

stored_term-found :
    (t : ℕ) → t < 18446744073709551616 → stored_term (Reading.found (bytes_of 8 t)) ≡ ret t
unfolding stored_term copy_word
stored_term-found t h = let w : word_of 8 (bytes_of 8 t) ≡ t = word_of-bytes_of 8 t h in ap ret w

module _ (rocks : Rocks) where
  get_found :
      (t : ℕ) (path : Bytes) (db : Database rocks)
      → t < 18446744073709551616
      → db.handle ≡ Handle.opened path
      → rocks.get db.disk path current_term_key ≡ Reading.found (bytes_of 8 t)
      → get_current_term rocks db ≡ (ret t, db)
  unfolding get_current_term path_of do_blocks
  get_found t path db h opened found =
      let stored = stored_term-found t h in rw (opened, found, stored) refl

  put_done :
      (t : ℕ) (path : Bytes) (db : Database rocks)
      → db.handle ≡ Handle.opened path
      → set_current_term rocks t db
        ≡ (ret tt, record db { disk = (rocks.put db.disk path current_term_key (bytes_of 8 t)).1 })
  unfolding set_current_term path_of do_blocks
  put_done t path db opened = rw opened refl

  pub open_done :
      (falls_off : Outcome Bool) (path : Bytes) (db : Database rocks)
      → (rocks.open_db db.disk path).0 ≡ true
      → open_log rocks falls_off path db
        ≡ (falls_off, record { disk = (rocks.open_db db.disk path).1; handle = Handle.opened path })
  unfolding open_log
  open_done falls_off path db ok = rw ok refl

  -- A log that opens the database of a stored term, whatever it had open before.
  pub open_log-get_current_term :
      (t : ℕ) (falls_off : Outcome Bool) (path : Bytes) (db : Database rocks)
      → IsDurable rocks
      → t < 18446744073709551616
      → rocks.get db.disk path current_term_key ≡ Reading.found (bytes_of 8 t)
      → (rocks.open_db db.disk path).0 ≡ true
      → let again = (open_log rocks falls_off path db).1 in
        (get_current_term rocks again ≡ (ret t, again))
        × (rocks.get again.disk path current_term_key ≡ Reading.found (bytes_of 8 t))
  open_log-get_current_term t falls_off path db law h found ok =
      let kept = law.get_open db.disk path current_term_key (bytes_of 8 t) found in
      rw (open_done falls_off path db ok) (
        get_found t path
            (record { disk = (rocks.open_db db.disk path).1; handle = Handle.opened path }) h refl
            kept,
        kept,
      )

  pub set_current_term-found :
      (t : ℕ) (path : Bytes) (db : Database rocks)
      → IsDurable rocks
      → db.handle ≡ Handle.opened path
      → (rocks.put db.disk path current_term_key (bytes_of 8 t)).0 ≡ true
      → rocks.get (set_current_term rocks t db).1.disk path current_term_key
        ≡ Reading.found (bytes_of 8 t)
  set_current_term-found t path db law handle written =
      rw (put_done t path db handle)
        (law.get_put db.disk path current_term_key (bytes_of 8 t) written)

  -- A term below 2 ^ 64 that `SetCurrentTerm` writes successfully is what `GetCurrentTerm` reads
  -- next. It is also what `GetCurrentTerm` reads after a restart, in which a new log opens the
  -- database of the same path, as long as that succeeds.
  pub set_current_term-get_current_term :
      (t : ℕ) (falls_off : Outcome Bool) (path : Bytes) (db : Database rocks)
      → IsDurable rocks
      → t < 18446744073709551616
      → db.handle ≡ Handle.opened path
      → (rocks.put db.disk path current_term_key (bytes_of 8 t)).0 ≡ true
      → (rocks.open_db (set_current_term rocks t db).1.disk path).0 ≡ true
      → let after = (set_current_term rocks t db).1 in
        let again =
          (open_log rocks falls_off path
            (record { disk = after.disk; handle = Handle.unassigned })).1 in
        (get_current_term rocks after ≡ (ret t, after))
        × (get_current_term rocks again ≡ (ret t, again))
  set_current_term-get_current_term t falls_off path db law h handle written opens =
      let after = (set_current_term rocks t db).1 in
      let found = set_current_term-found t path db law handle written in
      let still : after.handle ≡ Handle.opened path = rw (put_done t path db handle) handle in
      let fresh : Database rocks = record { disk = after.disk; handle = Handle.unassigned } in
      (
        get_found t path after h still found,
        (open_log-get_current_term t falls_off path fresh law h found opens).0,
      )
