-- ===== src/AnraftImpl/Threads.antt =====
-- The replicating thread among the other threads of a node.
use anraft.Base.{
  ℕ, zero, suc, ◌≡◌, ◌≢◌, refl, ◌∙◌, inl, inr, false, List, [], ◌∷◌, arith, ret, trap, at, not,
  Bool, map, Fault, Outcome, Outcome-cases, if◌then◌else◌,
}
use mathlib.Core.Path.{subst⁻¹}
use anraft.Base.Action.{Action, ◌>>=◌, ◌>>◌, reads, modify, pure, bind_ret, reads_ret, do_blocks}
use anraft.Base.Frame.{
  Preorder, Keeps, bind-Keeps, then-Keeps, reads-Keeps, pure-Keeps, modify-Keeps, if-Keeps,
}
use anraft.AnraftClient.{Controller, rpc_callback}
use anraft.Base.Int.{ltb_ℤ}
use anraft.AnraftImpl.Defs.{
  AnraftImpl, Outside, VoteResponse, FollowerContext, Turn, LoopState, wait_for_leader, turn,
  replicate_log, replicate_log_to_follower, election, election_callback,
}
use anraft.AnraftImpl.Election.{Incident, timeout, answer, incident}
use anraft.AnraftImpl.Replication.{AllOrdered, rounds-Replicates}

-- What another thread does in one go: the election timer or the end of a call, or a round of
-- replication to another follower.
pub data Other : Type 0 where
  elects : Outside → Incident → Other
  replicates : Outside → ℕ → Other

abbrev pub act : Other → AnraftImpl → AnraftImpl
act (elects outside e) s = incident outside e s
act (replicates outside id) s = (replicate_log_to_follower outside id s).1

abbrev pub act_all : List Other → AnraftImpl → AnraftImpl
act_all [] s = s
act_all (o ∷ os) s = act_all os (act o s)

-- One turn of the loop among such threads.
pub record Slot : Type 0 where
  pub is_stop : Outcome Bool
  pub waits : List (List Other)
  pub outside : Outside
  pub timed_wait : List Other

abbrev pub turn_of : Slot → Turn
turn_of t = record {
  is_stop = t.is_stop;
  waits = map act_all t.waits;
  outside = t.outside;
  timed_wait = act_all t.timed_wait;
}

-- No next index comes below the matched one.
abbrev KeepsOrder : AnraftImpl → AnraftImpl → Type 0
KeepsOrder s s' = AllOrdered s.follower_contexts → AllOrdered s'.follower_contexts

KeepsOrder-Preorder : Preorder KeepsOrder
KeepsOrder-Preorder = record { reflexive = λ s h. h; transitive = λ p q h. q (p h) }

election_contexts :
    (outside : Outside) (s : AnraftImpl)
    → (election outside s).1.follower_contexts ≡ s.follower_contexts
unfolding election do_blocks
election_contexts outside s = ground arith

callback_contexts :
    (response : VoteResponse) (cntl : Controller) (s : AnraftImpl)
    → (rpc_callback cntl
        (λ failed error node. election_callback response failed error node s)).follower_contexts
      ≡ s.follower_contexts
unfolding rpc_callback election_callback
callback_contexts response cntl s = ground arith

act-KeepsOrder : (o : Other) (s : AnraftImpl) → KeepsOrder s (act o s)
act-KeepsOrder (elects outside timeout) s = subst⁻¹ AllOrdered (election_contexts outside s)
act-KeepsOrder (elects outside (answer response cntl)) s =
    subst⁻¹ AllOrdered (callback_contexts response cntl s)
act-KeepsOrder (replicates outside id) s = (rounds-Replicates ((outside, id) ∷ []) s).ordered

act_all-KeepsOrder : (os : List Other) (s : AnraftImpl) → KeepsOrder s (act_all os s)
act_all-KeepsOrder [] s h = h
act_all-KeepsOrder (o ∷ os) s h = act_all-KeepsOrder os (act o s) (act-KeepsOrder o s h)

waits-KeepsOrder :
    (ws : List (List Other)) (s : AnraftImpl) → KeepsOrder s (wait_for_leader (map act_all ws) s).1
unfolding wait_for_leader
waits-KeepsOrder [] s h = h
waits-KeepsOrder (w ∷ ws) s h =
    ground (arith, h, waits-KeepsOrder ws (act_all w s) (act_all-KeepsOrder w s h))

-- In order, no context fails the assertion.
asserted :
    (id : ℕ) (fs : List FollowerContext) (f : FollowerContext)
    → AllOrdered fs
    → at fs id ≡ ret f
    → ltb_ℤ f.next_index f.match_index ≡ false
asserted id [] f h e = ground (arith, e)
asserted zero (g ∷ fs) f h e = ground (arith, e, h)
asserted (suc id) (g ∷ fs) f h e = asserted id fs f h.1 e

-- The turn behind the assertion.
abbrev pub after_assert : ℕ → Turn → Action AnraftImpl LoopState
after_assert id t = do
  stop ← reads (λ _. t.is_stop)
  if stop then pure LoopState.stopped else do
    leads ← wait_for_leader t.waits
    if not leads
        then pure LoopState.waiting
        else do replicate_log_to_follower t.outside id; modify t.timed_wait; pure LoopState.running

after_assert-KeepsOrder : (id : ℕ) (t : Slot) → Keeps KeepsOrder (after_assert id (turn_of t))
after_assert-KeepsOrder id t =
    bind-Keeps KeepsOrder KeepsOrder-Preorder _ _ (reads-Keeps KeepsOrder KeepsOrder-Preorder _)
      λ stop.
        if-Keeps KeepsOrder KeepsOrder-Preorder stop _ _
          (pure-Keeps KeepsOrder KeepsOrder-Preorder _)
          (bind-Keeps KeepsOrder KeepsOrder-Preorder _ _
            (record { apply = waits-KeepsOrder t.waits })
            λ leads.
              if-Keeps KeepsOrder KeepsOrder-Preorder (not leads) _ _
                (pure-Keeps KeepsOrder KeepsOrder-Preorder _)
                (then-Keeps KeepsOrder KeepsOrder-Preorder _ _
                  (record { apply = λ s. act-KeepsOrder (replicates t.outside id) s })
                  (then-Keeps KeepsOrder KeepsOrder-Preorder _ _
                    (modify-Keeps KeepsOrder KeepsOrder-Preorder _
                      (act_all-KeepsOrder t.timed_wait))
                    (pure-Keeps KeepsOrder KeepsOrder-Preorder _))))

not_aborted : (id : ℕ) (t : Turn) (s : AnraftImpl) → (after_assert id t s).0 ≢ ret LoopState.aborted
unfolding do_blocks
not_aborted id t s e = ground arith

pub turn_asserted :
    (id : ℕ) (t : Turn) (s : AnraftImpl) {f : FollowerContext}
    → AllOrdered s.follower_contexts
    → at s.follower_contexts id ≡ ret f
    → turn id t s ≡ after_assert id t s
unfolding turn
turn_asserted id t s {f} h e =
    let passed = asserted id s.follower_contexts f h e in
    bind_ret _ _ s (reads_ret (λ s'. at s'.follower_contexts id) s e) ∙ rw passed refl

turn_outside :
    (id : ℕ) (t : Turn) (s : AnraftImpl) {x : Fault}
    → at s.follower_contexts id ≡ trap x
    → turn id t s ≡ (trap x, s)
unfolding turn do_blocks
turn_outside id t s e = ground (arith, e)

-- A turn of the loop keeps the order, and passes the assertion.
abbrev Passes : AnraftImpl → Outcome LoopState × AnraftImpl → Type 0
Passes s (r, s') = (r ≢ ret LoopState.aborted) × AllOrdered s'.follower_contexts

turn-Passes :
    (id : ℕ) (t : Slot) (s : AnraftImpl)
    → AllOrdered s.follower_contexts
    → Passes s (turn id (turn_of t) s)
turn-Passes id t s h = elim (Outcome-cases (at s.follower_contexts id)) [
  | inl (f, e) ↦
      subst⁻¹ (Passes s) (turn_asserted id (turn_of t) s h e)
        (not_aborted id (turn_of t) s, (after_assert-KeepsOrder id t).apply s h)
  | inr (x, e) ↦ subst⁻¹ (Passes s) (turn_outside id (turn_of t) s e) ((λ k. ground arith), h)
]

-- The assertion of `ReplicateLog` never fails, in whatever turns of the loop, and whatever
-- elections, callbacks and rounds of replication the other threads of the node go through while it
-- waits, if no next index is below the matched one at first. That is then still so.
pub replicate_log-asserts :
    (id : ℕ) (ts : List Slot) (s : AnraftImpl)
    → AllOrdered s.follower_contexts
    → let (r, s') = replicate_log id (map turn_of ts) s in
      (r ≢ ret LoopState.aborted) × AllOrdered s'.follower_contexts
unfolding replicate_log do_blocks
replicate_log-asserts id [] s h = ((λ e. ground arith), h)
replicate_log-asserts id (t ∷ ts) s h = ground (
  arith,
  turn-Passes id t s h,
  replicate_log-asserts id ts (turn id (turn_of t) s).1 (turn-Passes id t s h).1,
)
