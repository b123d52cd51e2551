-- ===== src/AnraftImpl/Defs/Loop.antt =====
-- The thread that replicates to one follower: `ReplicateLog`, with what the other threads of the
-- node do while it waits.
use anraft.Base.{ℕ, Bool, List, [], ◌∷◌, not, true, false, if◌then◌else◌, Outcome, ret, at}
use anraft.Base.Action.{Action, ◌>>=◌, ◌>>◌, reads, modify, pure}
use anraft.Base.Int.{ltb_ℤ}
use anraft.AnraftImpl.Defs.State.{AnraftImpl, Outside, is_leader}
use anraft.AnraftImpl.Defs.Exchange.{replicate_log_to_follower}

-- One turn of the loop: what `is_stop_` holds, which nothing assigns; what other threads do during
-- each `Wait`, as far as these return; what lies outside of the exchange; and what other threads do
-- during the `TimedWait`, whose time nothing assigns.
pub record Turn : Type 0 where
  pub is_stop : Outcome Bool
  pub waits : List (AnraftImpl → AnraftImpl)
  pub outside : Outside
  pub timed_wait : AnraftImpl → AnraftImpl

-- Where the thread is: it returned, it is in a `Wait` that has not returned, an assertion ended the
-- program, or the loop goes on.
pub data LoopState : Type 0 where
  stopped waiting aborted running : LoopState

-- `while (role_ != kLeader) Wait()`, and whether it has ended.
unfoldable pub wait_for_leader : List (AnraftImpl → AnraftImpl) → Action AnraftImpl Bool
unfolding is_leader
wait_for_leader [] s = (ret (is_leader s.role), s)
wait_for_leader (others ∷ ws) s = elim (is_leader s.role) [
  | true ↦ (ret true, s)
  | false ↦ wait_for_leader ws (others s)
]

unfoldable pub turn : ℕ → Turn → Action AnraftImpl LoopState
unfolding wait_for_leader
turn id t = do
  follower ← reads (λ s. at s.follower_contexts id)
  if ltb_ℤ follower.next_index follower.match_index then pure aborted else do
    stop ← reads (λ _. t.is_stop)
    if stop then pure stopped else do
      leads ← wait_for_leader t.waits
      if not leads
          then pure waiting
          else do replicate_log_to_follower t.outside id; modify t.timed_wait; pure running

-- `ReplicateLog`, for as many turns as are given.
unfoldable pub replicate_log : ℕ → List Turn → Action AnraftImpl LoopState
unfolding turn
replicate_log id [] = pure running
replicate_log id (t ∷ ts) = do
  state ← turn id t
  elim state [
    | running ↦ replicate_log id ts
    | stopped ↦ pure stopped
    | waiting ↦ pure waiting
    | aborted ↦ pure aborted
  ]
