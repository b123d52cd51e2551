-- ===== src/Raft/Timeout.antt =====
-- The election timer of a node that hears nothing.
use anraft.Base.{
  ℕ, zero, suc, ◌≡◌, ◌≢◌, refl, sym, ap, ◌∙◌, true, false, List, [], ◌∷◌, ◌++◌, arith, ret,
}
use anraft.Base.Action.{do_blocks, bind_ret, then_ret, gets_ret, skip}
use anraft.Base.Int.{ℤ, pos, ◌+ℤ◌, ◌<ℤ◌, ◌≤ℤ◌, +ℤ_parts, +ℤ_zero, +ℤ_pos, +ℤ_suc}
use anraft.Proto.{Message, MessageType, empty_message}
use anraft.Raft.Defs.{
  Raft, Env, StateType, TickFunc, StepFunc, promotable, past_election_timeout, become_candidate,
  step_local, tick,
}
use anraft.Raft.Frame.{Event, timer, handle, run}
use anraft.Raft.Campaign.{vote_requests, step-hup}

abbrev pub timers : ℕ → List Event
timers zero = []
timers (suc n) = timer ∷ timers n

pub quiet_tick :
    (env : Env) (r : Raft)
    → r.tick_func ≡ TickFunc.election_tick
    → r.election_elapsed +ℤ pos 1 <ℤ r.randomized_election_timeout
    → tick env r ≡ (ret tt, record r { election_elapsed = r.election_elapsed +ℤ pos 1 })
unfolding tick past_election_timeout do_blocks
quiet_tick env r f h = ground arith

-- Below the timeout a tick only counts.
quiet_ticks :
    (env : Env) (n : ℕ) (r : Raft)
    → r.tick_func ≡ TickFunc.election_tick
    → r.election_elapsed +ℤ pos n <ℤ r.randomized_election_timeout
    → run env (timers n) r ≡ record r { election_elapsed = r.election_elapsed +ℤ pos n }
unfolding run handle
quiet_ticks env zero r f h =
    ap (λ t. record r { election_elapsed = t }) (sym (+ℤ_zero r.election_elapsed))
quiet_ticks env (suc n) r f h =
    let r1 : Raft = record r { election_elapsed = r.election_elapsed +ℤ pos 1 } in
    let sums = +ℤ_pos r.election_elapsed n in
    let one = quiet_tick env r f (
      omega (
        arith,
        h,
        +ℤ_parts r.election_elapsed (pos 1),
        +ℤ_parts r.election_elapsed (pos (suc n)),
      )) in
    ap (λ p. run env (timers n) p.1) one
    ∙ quiet_ticks env n r1 f (rw sums h)
    ∙ ap (λ t. record r { election_elapsed = t }) sums

pub last_tick :
    (env : Env) (r : Raft)
    → r.tick_func ≡ TickFunc.election_tick
    → promotable r ≡ true
    → r.randomized_election_timeout ≤ℤ r.election_elapsed +ℤ pos 1
    → tick env r ≡ step_local env MessageType.hup (record r { election_elapsed = pos 0 })
unfolding tick past_election_timeout promotable do_blocks
last_tick env r f p h = ground arith

-- The candidate that a node becomes when its timer runs out.
abbrev pub risen : Env → Raft → Raft
risen env r = become_candidate env (record r { election_elapsed = pos 0 })

pub local_hup :
    (env : Env) (r : Raft)
    → r.state ≢ StateType.leader
    → r.pre_vote ≡ false
    → env.poll_single (risen env r) ≡ ret false
    → step_local env MessageType.hup (record r { election_elapsed = pos 0 })
      ≡ (ret tt, record (risen env r) { msgs = r.msgs ++ vote_requests r.id r.term r.prs })
unfolding step_local skip
local_hup env r s p single =
    let r0 : Raft = record r { election_elapsed = pos 0 } in
    let msg : Message = record empty_message { kind = MessageType.hup; from = r.id } in
    bind_ret _ _ r0 (gets_ret _ r0) ∙ then_ret _ _ r0 (step-hup env msg r0 refl s p single).0 ∙ refl

due_tick :
    (env : Env) (r : Raft)
    → r.tick_func ≡ TickFunc.election_tick
    → promotable r ≡ true
    → r.state ≢ StateType.leader
    → r.pre_vote ≡ false
    → r.randomized_election_timeout ≤ℤ r.election_elapsed +ℤ pos 1
    → env.poll_single (risen env r) ≡ ret false
    → run env (timer ∷ []) r
      ≡ record (risen env r) { msgs = r.msgs ++ vote_requests r.id r.term r.prs }
unfolding run handle
due_tick env r f p s v late single =
    ap (λ x. x.1) (last_tick env r f p late ∙ local_hup env r s v single)

pub risen_fields :
    (env : Env) (r : Raft)
    → ((risen env r).vote ≡ r.id)
      × ((risen env r).term ≡ r.term)
      × ((risen env r).step_func ≡ StepFunc.candidate_step)
unfolding become_candidate
risen_fields env r = (refl, refl, refl)

pub promotable_frame :
    (r : Raft) (n : ℤ) → promotable r ≡ true → promotable (record r { election_elapsed = n }) ≡ true
unfolding promotable
promotable_frame r n p = p

-- A member that waits for an election, does not lead, wants no pre-vote, and whose own vote does
-- not decide (the `Poll` without arguments says false) hears nothing for as many ticks as bring
-- its timer to the randomized timeout. The ticks before the last only count. With the last it
-- votes for itself, handles messages as a candidate, and asks every other member for its vote, in
-- its old term.
pub timeout-campaign :
    (env : Env) (n : ℕ) (r : Raft)
    → r.tick_func ≡ TickFunc.election_tick
    → promotable r ≡ true
    → r.state ≢ StateType.leader
    → r.pre_vote ≡ false
    → r.election_elapsed +ℤ pos n <ℤ r.randomized_election_timeout
    → r.randomized_election_timeout ≤ℤ r.election_elapsed +ℤ pos (suc n)
    → ((c : Raft) → env.poll_single c ≡ ret false)
    → let waiting = run env (timers n) r in
      let r' = run env (timer ∷ []) waiting in
      (waiting ≡ record r { election_elapsed = r.election_elapsed +ℤ pos n })
      × (r'.vote ≡ r.id)
      × (r'.term ≡ r.term)
      × (r'.step_func ≡ StepFunc.candidate_step)
      × (r'.msgs ≡ r.msgs ++ vote_requests r.id r.term r.prs)
timeout-campaign env n r f p s v early late single =
    let w : Raft = record r { election_elapsed = r.election_elapsed +ℤ pos n } in
    let member : promotable w ≡ true = promotable_frame r (r.election_elapsed +ℤ pos n) p in
    let due : w.randomized_election_timeout ≤ℤ w.election_elapsed +ℤ pos 1 =
      rw (+ℤ_suc r.election_elapsed n) late in
    let (vote, term, handler) = risen_fields env w in
    let waits = quiet_ticks env n r f early in
    rw waits (
      rw (due_tick env w f member s v due (single (risen env w))) (refl, vote, term, handler, refl))
