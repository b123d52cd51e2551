-- ===== src/AnraftImpl/Defs/Exchange.antt =====
-- The exchange of a leader with one follower: `ReplicateLogToFollower` from its call on.
use anraft.Base.{ℕ, ◌||◌, not, Option, none, some, if◌then◌else◌}
use anraft.Base.Action.{Action, ◌>>=◌, reads, gets, modify, skip, when}
use anraft.Base.Int.{same_ℤ, pos, ltb_ℤ}
use anraft.AnraftImpl.Defs.State.{AnraftImpl, Outside, AppendEntriesResponse, check_term}
use anraft.AnraftImpl.Defs.Leader.{
  Batch, distance, prepare, one_back, update_context, commit_candidate, apply_up_to,
}

-- The move of the commit index, and the callbacks that it sets off.
unfoldable pub advance : Action AnraftImpl (Unit {0})
unfolding commit_candidate apply_up_to distance
advance = do
  c ← reads commit_candidate
  grown ← gets (λ s. ltb_ℤ s.commit_index c)
  when grown
      (modify (λ s. apply_up_to (distance s.last_applied c) c (record s { commit_index = c })))

-- From the answer of the follower on.
unfoldable pub on_answer : ℕ → Batch → AppendEntriesResponse → Action AnraftImpl (Unit {0})
unfolding advance one_back update_context
on_answer id b resp = do
  valid ← check_term resp.term
  if not valid
      then skip
      else if not resp.success
      then modify
          (λ s. record s { follower_contexts = update_context one_back id s.follower_contexts })
      else do
        term ← gets (λ s. s.current_term)
        when (not (ltb_ℤ b.max_index (pos 0) || not (same_ℤ b.max_term term))) advance

-- From the call of `SendRequest` on.
unfoldable pub exchange : Outside → ℕ → Option Batch → Action AnraftImpl (Unit {0})
unfolding on_answer
exchange outside id none = skip
exchange outside id (some b) = do
  sent ← reads (λ _. (outside.send_append b.request).0)
  if sent then on_answer id b (outside.send_append b.request).1 else skip

-- `ReplicateLogToFollower`
unfoldable pub replicate_log_to_follower : Outside → ℕ → Action AnraftImpl (Unit {0})
unfolding prepare exchange
replicate_log_to_follower outside id = do
  prepared ← reads (prepare outside id)
  exchange outside id prepared
