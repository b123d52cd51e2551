-- ===== src/AnraftImpl/Restart.antt =====
-- What a node knows after its start.
use anraft.Base.{
  Bytes, ℕ, ◌<◌, ◌≡◌, ◌≢◌, List, ◌∷◌, refl, sym, subst, ap, ◌∙◌, Bool, true, [], ret, trap,
  uninitialised, bytes_of, arith, Outcome,
}
use anraft.Base.Action.{do_blocks}
use anraft.Base.Int.{pos, ◌+ℤ◌}
use anraft.RaftLog.{
  Rocks, Reading, Handle, Database, current_term_key, open_log, get_current_term, set_current_term,
}
use anraft.RaftLog.Recovery.{
  IsDurable, open_done, open_log-get_current_term, set_current_term-found,
}
use anraft.AnraftImpl.Election.{
  Incident, timeout, answer, incident, AllTold, timeouts, elections, elections_lost,
}
use anraft.AnraftImpl.Defs.{
  AnraftImpl, Outside, Role, LogPointer, Server, is_null, on_log, on_impl, serve_election,
  serve_callback, recover, construct, as_int64,
}
use anraft.AnraftClient.{new_client, add_stubs, rpc_callback}

module _ (rocks : Rocks) where
  recover_run :
      (falls_off : Outcome Bool) (t : ℕ) (path : Bytes) (s : Server rocks) (db db' : Database rocks)
      → s.log ≡ LogPointer.set
      → open_log rocks (ret true) path s.database ≡ (ret true, db)
      → get_current_term rocks db ≡ (ret t, db')
      → recover rocks (ret true) falls_off path s ≡ (
        falls_off,
        record s { impl = record (s.impl) { current_term = as_int64 t }; database = db' },
      )
  unfolding recover is_null on_log do_blocks
  recover_run falls_off t path s db db' set opened read = ground (arith, set, opened, read)

  -- `Recover` of a stored term, on a log that is there.
  recover_found :
      (falls_off : Outcome Bool) (t : ℕ) (path : Bytes) (s : Server rocks)
      → IsDurable rocks
      → t < 9223372036854775808
      → rocks.get s.database.disk path current_term_key ≡ Reading.found (bytes_of 8 t)
      → (rocks.open_db s.database.disk path).0 ≡ true
      → s.log ≡ LogPointer.set
      → recover rocks (ret true) falls_off path s ≡ (
        falls_off,
        record s {
          impl = record (s.impl) { current_term = pos t };
          database = (open_log rocks (ret true) path s.database).1;
        },
      )
  recover_found falls_off t path s law small found opens set =
      let again : Database rocks = (open_log rocks (ret true) path s.database).1 in
      let opened : open_log rocks (ret true) path s.database ≡ (ret true, again) =
        ap (λ x. (x.0, again)) (open_done rocks (ret true) path s.database opens) in
      let read =
        open_log-get_current_term rocks t (ret true) path s.database law (omega arith) found
          opens in
      let term : as_int64 t ≡ pos t = unfold as_int64 in ground arith in
      recover_run falls_off t path s again again set opened read.0
      ∙ ap
          (λ n.
            (falls_off, record s { impl = record (s.impl) { current_term = n }; database = again }))
          term

  -- A node that runs again after its term t was written, t below 2 ^ 63, has the term t when
  -- `Recover` returns: the log opens the database of the same path, as long as that succeeds, and
  -- the ends without a return statement are passed.
  pub recover-term :
      (falls_off : Outcome Bool) (t : ℕ) (path : Bytes) (old : Database rocks) (s : Server rocks)
      → IsDurable rocks
      → t < 9223372036854775808
      → old.handle ≡ Handle.opened path
      → (rocks.put old.disk path current_term_key (bytes_of 8 t)).0 ≡ true
      → (rocks.open_db (set_current_term rocks t old).1.disk path).0 ≡ true
      → s.log ≡ LogPointer.set
      → s.database
        ≡ record { disk = (set_current_term rocks t old).1.disk; handle = Handle.unassigned }
      → let (r, s') = recover rocks (ret true) falls_off path s in
        (r ≡ falls_off) × (s'.impl.current_term ≡ pos t)
  recover-term falls_off t path old s law small handle written opens set restarted =
      let found = set_current_term-found rocks t path old law handle written in
      let same : s.database.disk ≡ (set_current_term rocks t old).1.disk =
        ap (λ db. db.disk) restarted in
      rw
        (recover_found falls_off t path s law small
          (subst (λ d. rocks.get d path current_term_key ≡ Reading.found (bytes_of 8 t)) (sym same)
            found)
          (subst (λ d. (rocks.open_db d path).0 ≡ true) (sym same) opens) set)
        (refl, refl)

  -- The constructor never gets beyond its first test, since `log_` is not assigned: the term stays
  -- what it was, and the client has no stubs.
  pub construct_lem :
      (open_end falls_off : Outcome Bool) (s : Server rocks)
      → let (r, s') = construct rocks open_end falls_off s in
        (r ≡ trap uninitialised) × (s'.impl.current_term ≡ s.impl.current_term) × (s'.client ≡ [])
  unfolding construct recover is_null new_client add_stubs do_blocks
  construct_lem open_end falls_off s = (refl, refl, refl)

  -- Elections of a node with its log.
  abbrev pub serve_incident : Outside → Incident → Server rocks → Server rocks
  serve_incident outside timeout s = (serve_election rocks outside s).1
  serve_incident outside (answer response cntl) s =
      rpc_callback cntl (λ failed error node. serve_callback rocks response failed error node s)

  abbrev pub served : Outside → List Incident → Server rocks → Server rocks
  served outside [] s = s
  served outside (e ∷ es) s = served outside es (serve_incident outside e s)

  incident_served :
      (outside : Outside) (e : Incident) (s : Server rocks)
      → serve_incident outside e s ≡ record s { impl = incident outside e s.impl }
  unfolding serve_election on_impl serve_callback rpc_callback
  incident_served outside timeout s = refl
  incident_served outside (answer response cntl) s = refl

  -- They change the fields as they do without the log, and leave the log as it is.
  served_run :
      (outside : Outside) (es : List Incident) (s : Server rocks)
      → served outside es s ≡ record s { impl = elections outside es s.impl }
  served_run outside [] s = refl
  served_run outside (e ∷ es) s =
      rw (incident_served outside e s)
        (served_run outside es (record s { impl = incident outside e s.impl }))

  -- The term of a node is not kept over a restart. A node that does not lead recovers the stored
  -- term t, t below 2 ^ 63, from a database that gives back what was put into it and can be opened
  -- each time, through a pointer `log_` that is set. Each election that it then starts raises its
  -- term by one, where a call counts as failed exactly if it has an error code. When another run,
  -- whose `log_` is set too, recovers from the disk as the node has it after all these elections,
  -- its term is t again. The ends without a return statement are passed.
  pub recover-elections :
      (outside : Outside) (es : List Incident) (falls_off : Outcome Bool) (t : ℕ) (path : Bytes)
      (first second : Server rocks)
      → IsDurable rocks
      → t < 9223372036854775808
      → rocks.get first.database.disk path current_term_key ≡ Reading.found (bytes_of 8 t)
      → ((d : rocks.Disk) → (rocks.open_db d path).0 ≡ true)
      → first.log ≡ LogPointer.set
      → second.log ≡ LogPointer.set
      → second.database ≡ record {
        disk = (served outside es (recover rocks (ret true) falls_off path first).1).database.disk;
        handle = Handle.unassigned;
      }
      → first.impl.role ≢ Role.leader
      → AllTold es
      → let lived = served outside es (recover rocks (ret true) falls_off path first).1 in
        let again = (recover rocks (ret true) falls_off path second).1 in
        (lived.impl.current_term ≡ pos t +ℤ pos (timeouts es)) × (again.impl.current_term ≡ pos t)
  recover-elections outside es falls_off t path first second law small found opens set set' left
        role told =
      let run =
        recover_found falls_off t path first law small found (opens first.database.disk) set in
      let up : AnraftImpl = record (first.impl) { current_term = pos t } in
      let kept =
        (open_log-get_current_term rocks t (ret true) path first.database law (omega arith) found
          (opens first.database.disk)).1 in
      let after = served_run outside es (recover rocks (ret true) falls_off path first).1 in
      let disk : second.database.disk ≡ (open_log rocks (ret true) path first.database).1.disk =
        ap (λ db. db.disk) left
        ∙ ap (λ s. s.database.disk) after
        ∙ ap (λ x. x.1.database.disk) run in
      let found' =
        subst (λ d. rocks.get d path current_term_key ≡ Reading.found (bytes_of 8 t)) (sym disk)
          kept in
      let run' =
        recover_found falls_off t path second law small found' (opens second.database.disk) set' in
      let lived = elections_lost outside es up told role in
      (
        ap (λ s. s.impl.current_term) after
            ∙ ap (λ x. (elections outside es x.1.impl).current_term) run
            ∙ lived.2,
        ap (λ x. x.1.impl.current_term) run',
      )
