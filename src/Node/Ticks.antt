-- ===== src/Node/Ticks.antt =====
-- The election timer of a node, from the calls of `Tick` on.
use anraft.Base.{
  ℕ, zero, suc, ◌≡◌, ◌≢◌, refl, sym, ap, subst, ◌+◌, ◌∙◌, true, false, List, [], ◌∷◌, ◌++◌, arith,
  ret,
}
use anraft.Base.Action.{◌>>◌, pure, skip, bind_ret, then_ret, reads}
use anraft.Base.Int.{ℤ, pos, ◌+ℤ◌, ◌<ℤ◌, ◌≤ℤ◌, +ℤ_parts, +ℤ_pos, +ℤ_zero}
use anraft.Raft.{Raft, Env, StateType, TickFunc, StepFunc, promotable, tick}
use anraft.Raft.Campaign.{vote_requests}
use anraft.Raft.Timeout.{quiet_tick, last_tick, local_hup, risen, risen_fields, promotable_frame}
use mathlib.Core.List.{append-nil, append_assoc}
use anraft.Node.Batches.{batches, execute_accepted}
use anraft.Node.Defs.{
  NodeRecvMsg, NodeRecvMsgType, Body, Thread, execute, queue_tick, run_task, run_tasks, run_batch,
}

abbrev pub tick_task : NodeRecvMsg
tick_task = record { kind = NodeRecvMsgType.tick_task; body = Body.unset }

abbrev pub ticks : ℕ → List NodeRecvMsg
ticks zero = []
ticks (suc n) = tick_task ∷ ticks n

-- The queue after n calls of `Tick`.
abbrev pub queued_ticks : Thread → ℕ → List NodeRecvMsg → List NodeRecvMsg
queued_ticks thread zero queue = queue
queued_ticks thread (suc n) queue = queued_ticks thread n (queue_tick thread queue).1

-- Batches of ticks, each by the number of its ticks after the first.
abbrev pub tick_batches : List ℕ → List (NodeRecvMsg × List NodeRecvMsg)
tick_batches [] = []
tick_batches (k ∷ ks) = (tick_task, ticks k) ∷ tick_batches ks

abbrev pub total : List ℕ → ℕ
total [] = 0
total (k ∷ ks) = suc k + total ks

-- The tasks of batches, one after the other.
abbrev pub joined : List (NodeRecvMsg × List NodeRecvMsg) → List NodeRecvMsg
joined [] = []
joined ((t, ts) ∷ bs) = t ∷ ts ++ joined bs

ticks-append : (m n : ℕ) → ticks m ++ ticks n ≡ ticks (m + n)
ticks-append zero n = ap ticks (omega arith)
ticks-append (suc m) n =
    ap (λ ts. tick_task ∷ ts) (ticks-append m n)
    ∙ ap ticks (let e : suc (m + n) ≡ suc m + n = omega arith in e)

joined-tick_batches : (ks : List ℕ) → joined (tick_batches ks) ≡ ticks (total ks)
joined-tick_batches [] = refl
joined-tick_batches (k ∷ ks) =
    ap (λ ts. tick_task ∷ ticks k ++ ts) (joined-tick_batches ks) ∙ ticks-append (suc k) (total ks)

module _ (env : Env) where
  none_run : (body : Body) (r : Raft) → run_tasks env body [] r ≡ (ret tt, r)
  unfolding run_tasks skip
  none_run body r = refl

  one_tick :
      (body : Body) (ts : List NodeRecvMsg) (r : Raft) {r' : Raft}
      → tick env r ≡ (ret tt, r')
      → run_tasks env body (tick_task ∷ ts) r ≡ run_tasks env body ts r'
  unfolding run_tasks run_task pure
  one_tick body ts r {r'} h =
      bind_ret (tick env >> pure body) (λ b. run_tasks env b ts) r
        (then_ret (tick env) (pure body) r h)

  ticks_run :
      (n : ℕ) (r : Raft)
      → r.tick_func ≡ TickFunc.election_tick
      → promotable r ≡ true
      → r.state ≢ StateType.leader
      → r.pre_vote ≡ false
      → r.election_elapsed +ℤ pos n <ℤ r.randomized_election_timeout
      → r.randomized_election_timeout ≤ℤ r.election_elapsed +ℤ pos (suc n)
      → ((c : Raft) → env.poll_single c ≡ ret false)
      → run_tasks env Body.unset (ticks (suc n)) r
        ≡ (ret tt, record (risen env r) { msgs = r.msgs ++ vote_requests r.id r.term r.prs })
  ticks_run zero r f p s v early late single =
      one_tick Body.unset [] r
        (last_tick env r f p late ∙ local_hup env r s v (single (risen env r)))
      ∙ none_run Body.unset
          (record (risen env r) { msgs = r.msgs ++ vote_requests r.id r.term r.prs })
  ticks_run (suc n) r f p s v early late single =
      let r1 : Raft = record r { election_elapsed = r.election_elapsed +ℤ pos 1 } in
      let quiet = quiet_tick env r f (
        omega (
          arith,
          early,
          +ℤ_parts r.election_elapsed (pos 1),
          +ℤ_parts r.election_elapsed (pos (suc n)),
        )) in
      one_tick Body.unset (ticks (suc n)) r quiet
      ∙ ticks_run n r1 f (promotable_frame r (r.election_elapsed +ℤ pos 1) p) s v
          (rw (+ℤ_pos r.election_elapsed n) early) (rw (+ℤ_pos r.election_elapsed (suc n)) late)
          single

  -- Ticks before the timeout only count.
  quiet_run :
      (n : ℕ) (r : Raft)
      → r.tick_func ≡ TickFunc.election_tick
      → r.election_elapsed +ℤ pos n <ℤ r.randomized_election_timeout
      → run_tasks env Body.unset (ticks n) r
        ≡ (ret tt, record r { election_elapsed = r.election_elapsed +ℤ pos n })
  quiet_run zero r f early =
      none_run Body.unset r
      ∙ ap (λ t. (ret tt, record r { election_elapsed = t })) (sym (+ℤ_zero r.election_elapsed))
  quiet_run (suc n) r f early =
      let r1 : Raft = record r { election_elapsed = r.election_elapsed +ℤ pos 1 } in
      let sums = +ℤ_pos r.election_elapsed n in
      let quiet = quiet_tick env r f (
        omega (
          arith,
          early,
          +ℤ_parts r.election_elapsed (pos 1),
          +ℤ_parts r.election_elapsed (pos (suc n)),
        )) in
      one_tick Body.unset (ticks n) r quiet
      ∙ quiet_run n r1 f (rw sums early)
      ∙ ap (λ t. (ret tt, record r { election_elapsed = t })) sums

  batch_run :
      (thread : Thread) (ts : List NodeRecvMsg) (r : Raft) {r' : Raft}
      → run_tasks env Body.unset (tick_task ∷ ts) r ≡ (ret tt, r')
      → (run_batch env thread false tick_task ts r).1 ≡ r'
  unfolding run_batch reads
  batch_run thread ts r h =
      ap (λ x. x.1)
        (then_ret (run_tasks env Body.unset (tick_task ∷ ts)) (reads (λ _. thread.run_end)) r h)

  batches_run :
      (thread : Thread) (ks : List ℕ) (n : ℕ) (r : Raft)
      → total ks ≡ suc n
      → r.tick_func ≡ TickFunc.election_tick
      → promotable r ≡ true
      → r.state ≢ StateType.leader
      → r.pre_vote ≡ false
      → r.election_elapsed +ℤ pos n <ℤ r.randomized_election_timeout
      → r.randomized_election_timeout ≤ℤ r.election_elapsed +ℤ pos (suc n)
      → ((c : Raft) → env.poll_single c ≡ ret false)
      → batches env thread (tick_batches ks) r
        ≡ record (risen env r) { msgs = r.msgs ++ vote_requests r.id r.term r.prs }
  batches_run thread [] n r sum f p s v early late single = absurd (omega (arith, sum))
  batches_run thread (k ∷ []) n r sum f p s v early late single =
      let same : n ≡ k = omega (arith, sum) in
      batch_run thread (ticks k) r (
        subst
          (λ m.
            run_tasks env Body.unset (ticks (suc m)) r
            ≡ (ret tt, record (risen env r) { msgs = r.msgs ++ vote_requests r.id r.term r.prs }))
          same (ticks_run n r f p s v early late single))
  batches_run thread (k ∷ j ∷ js) n r sum f p s v early late single =
      let m : ℕ = j + total js in
      let e : ℤ = r.election_elapsed +ℤ pos (suc k) in
      let r1 : Raft = record r { election_elapsed = e } in
      let parts = +ℤ_parts r.election_elapsed (pos (suc k)) in
      let parts_n = +ℤ_parts r.election_elapsed (pos n) in
      let quiet = quiet_run (suc k) r f (omega (arith, sum, early, parts, parts_n)) in
      ap (λ t. batches env thread (tick_batches (j ∷ js)) t) (batch_run thread (ticks k) r quiet)
      ∙ batches_run thread (j ∷ js) m r1 (omega arith) f (promotable_frame r e p) s v
          (omega (arith, sum, early, parts, parts_n, +ℤ_parts e (pos m)))
          (omega (
            arith,
            sum,
            late,
            parts,
            +ℤ_parts r.election_elapsed (pos (suc n)),
            +ℤ_parts e (pos (suc m)),
          ))
          single

tick_queued :
    (thread : Thread) (queue : List NodeRecvMsg)
    → thread.accepts queue tick_task ≡ true
    → (queue_tick thread queue).1 ≡ queue ++ tick_task ∷ []
unfolding queue_tick skip
tick_queued thread queue h =
    ap (λ x. x.1)
      (then_ret (execute thread tick_task) skip queue (execute_accepted thread tick_task queue h))

ticks_queued :
    (thread : Thread) (n : ℕ) (queue : List NodeRecvMsg)
    → ((queue : List NodeRecvMsg) → thread.accepts queue tick_task ≡ true)
    → queued_ticks thread n queue ≡ queue ++ ticks n
ticks_queued thread zero queue h = sym (append-nil queue)
ticks_queued thread (suc n) queue h =
    ap (λ q. queued_ticks thread n q) (tick_queued thread queue (h queue))
    ∙ ticks_queued thread n (queue ++ tick_task ∷ []) h
    ∙ append_assoc queue (tick_task ∷ []) (ticks n)

-- A member that waits for an election, does not lead, wants no pre-vote, and whose own vote does
-- not decide (the `Poll` without arguments says false) gets as many calls of `Tick` as bring its
-- timer to the randomized timeout, and its queue takes them all. The queue then holds that many
-- ticks. However they are split into batches, after the last one the node votes for itself, handles
-- messages as a candidate, and has asked every other member once for its vote, in its old term.
pub ticks-campaign :
    (env : Env) (thread : Thread) (ks : List ℕ) (n : ℕ) (r : Raft)
    → ((queue : List NodeRecvMsg) → thread.accepts queue tick_task ≡ true)
    → total ks ≡ suc n
    → r.tick_func ≡ TickFunc.election_tick
    → promotable r ≡ true
    → r.state ≢ StateType.leader
    → r.pre_vote ≡ false
    → r.election_elapsed +ℤ pos n <ℤ r.randomized_election_timeout
    → r.randomized_election_timeout ≤ℤ r.election_elapsed +ℤ pos (suc n)
    → ((c : Raft) → env.poll_single c ≡ ret false)
    → let r' = batches env thread (tick_batches ks) r in
      (queued_ticks thread (suc n) [] ≡ joined (tick_batches ks))
      × (r'.vote ≡ r.id)
      × (r'.term ≡ r.term)
      × (r'.step_func ≡ StepFunc.candidate_step)
      × (r'.msgs ≡ r.msgs ++ vote_requests r.id r.term r.prs)
ticks-campaign env thread ks n r open_queue sum f p s v early late single =
    let (vote, term, handler) = risen_fields env r in
    rw (batches_run env thread ks n r sum f p s v early late single) (
      ticks_queued thread (suc n) [] open_queue ∙ ap ticks (sym sum) ∙ sym (joined-tick_batches ks),
      vote,
      term,
      handler,
      refl,
    )
