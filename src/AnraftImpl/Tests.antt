-- ===== src/AnraftImpl/Tests.antt =====
-- Instances of the theorems on the RPC node.
use anraft.Base.{
  ℕ, ◌+◌, ◌<◌, ◌⊎◌, ◌≡◌, ◌≢◌, refl, true, false, some, List, [], ◌∷◌, ◌++◌, trap, missing_return,
  arith, length, ret, map,
}
use anraft.Base.Int.{ℤ, pos, ◌+ℤ◌}
use anraft.Base.Action.{do_blocks}
use anraft.Proto.{empty_entry}
use anraft.AnraftImpl.Defs.{
  AnraftImpl, Outside, Role, LoopState, replicate_log, LogPointer, Server, recover, FollowerContext,
  match_indices, apply_up_to, distance, advance,
}
use anraft.RaftLog.{Database, Handle, set_current_term}
use anraft.RaftLog.Shelf.{Stored, shelf, shelf-IsDurable}
use anraft.AnraftImpl.Restart.{served, recover-elections}
use anraft.AnraftImpl.Election.{Incident, timeout, answer, elections, elections_lost}
use anraft.AnraftImpl.Replication.{AllOrdered, rounds}
use anraft.AnraftImpl.Threads.{elects, replicates, Slot, turn_of, replicate_log-asserts}
use anraft.AnraftImpl.Blocked.{act_through, replicate_log-blocked}
use anraft.AnraftImpl.Stall.{IsWaiting, rounds-IsWaiting}
use anraft.AnraftImpl.Commit.{count_from, above, wanted, apply_up_to_lem}
use anraft.AnraftImpl.Advance.{HasCommitted, advance_lem}

abbrev follower_at : ℕ → FollowerContext
follower_at n = record { next_index = pos (n + 1); match_index = pos n }

-- The leader of five nodes in term 3, with the addresses 1 to 5.
abbrev five : AnraftImpl
five = record {
  current_term = pos 3;
  voted_for = 1 ∷ [];
  commit_index = pos 2;
  last_applied = pos 2;
  follower_contexts =
      follower_at 0 ∷ follower_at 6 ∷ follower_at 4 ∷ follower_at 7 ∷ follower_at 3 ∷ [];
  last_log_term = pos 3;
  last_log_index = pos 7;
  votes = (1 ∷ []) ∷ (2 ∷ []) ∷ (3 ∷ []) ∷ [];
  apply_callbacks = pos 4 ∷ pos 9 ∷ [];
  role = Role.leader;
  leader = 1 ∷ [];
  nodes = (1 ∷ []) ∷ (2 ∷ []) ∷ (3 ∷ []) ∷ (4 ∷ []) ∷ (5 ∷ []) ∷ [];
  local_addr = 1 ∷ [];
  asked = [];
  called = [];
}

-- Every call succeeds, and every string is an entry of term 3 at index 7.
abbrev willing : Outside
willing = record {
  send_vote = λ _ _. ret true;
  send_append = λ _. (ret true, record { term = pos 3; success = true });
  read_entry = λ _. ret true;
  parse_entry = λ _. some (record empty_entry { index = 7; term = 3 });
  byte_size = λ _. 10;
}

abbrev yes_from_2 : Incident
yes_from_2 =
    answer (record { term = pos 4; vote_granted = true })
      (record { failed = false; error_code = pos 0; remote_side = 2 ∷ [] })

abbrev following : AnraftImpl
following = record five { role = Role.follower; votes = [] }

elections_lost_example :
    let s' = elections willing (timeout ∷ yes_from_2 ∷ timeout ∷ []) following in
    (s'.role ≢ Role.leader)
    × (s'.votes ≡ [])
    × (s'.current_term ≡ pos 3 +ℤ pos 2)
    × (length s'.asked ≡ 2)
elections_lost_example =
    elections_lost willing (timeout ∷ yes_from_2 ∷ timeout ∷ []) following (refl, tt)
      (λ e. ground arith)

-- The leader after it has committed all that its contexts say.
abbrev caught_up : AnraftImpl
caught_up = record five { commit_index = pos 7 }

caught_up-IsWaiting : IsWaiting caught_up
caught_up-IsWaiting = record {
  sized = refl;
  several = omega arith;
  word = omega arith;
  own = omega arith;
  reached = omega arith;
}

rounds-IsWaiting_example :
    let s' = rounds ((willing, 1) ∷ (willing, 3) ∷ []) caught_up in
    IsWaiting s'
    × (s'.commit_index ≡ pos 7)
    × (s'.last_applied ≡ pos 2)
    × (s'.apply_callbacks ≡ pos 4 ∷ pos 9 ∷ [])
    × (s'.called ≡ [])
rounds-IsWaiting_example =
    rounds-IsWaiting ((willing, 1) ∷ (willing, 3) ∷ []) caught_up caught_up-IsWaiting

-- Of the matches 3, 4, 6, 7 and the leader's own, the second smallest is taken.
advance_lem_example :
    let (x, s') = advance five in
    (ms : List ℤ) × (match_indices five.local_addr five.follower_contexts five.nodes ≡ ret ms)
    × (x ≡ ret tt)
    × (count_from (s'.commit_index +ℤ pos 1) ms < 4)
    × ((s' ≡ five) ⊎ HasCommitted ms five s')
advance_lem_example = advance_lem five refl (omega arith) (omega arith) (omega arith)

apply_up_to_lem_example :
    let s' = apply_up_to (distance (pos 2) (pos 5)) (pos 5) five in
    (s'.last_applied ≡ pos 5)
    × (s'.called ≡ [] ++ wanted (pos 4 ∷ pos 9 ∷ []) (above (distance (pos 2) (pos 5)) (pos 2)))
apply_up_to_lem_example = apply_up_to_lem (pos 5) five (omega arith)

abbrev database_at : List Stored → Database shelf
database_at stored = record { disk = stored; handle = Handle.opened (5 ∷ []) }

abbrev restarted : Server shelf
restarted = record {
  impl = following;
  log = LogPointer.set;
  database = record {
    disk = (set_current_term shelf 6 (database_at [])).1.disk;
    handle = Handle.unassigned;
  };
  client = [];
}

abbrev first_run : Server shelf
first_run = restarted

abbrev second_run : Server shelf
second_run = record restarted {
  database = record {
    disk =
        (served shelf willing (timeout ∷ yes_from_2 ∷ timeout ∷ [])
          (recover shelf (ret true) (trap missing_return) (5 ∷ []) first_run).1).database.disk;
    handle = Handle.unassigned;
  };
}

recover-elections_example :
    let lived =
      served shelf willing
        (timeout ∷ yes_from_2 ∷ timeout ∷ [])
        (recover shelf (ret true) (trap missing_return) (5 ∷ []) first_run).1 in
    let again = (recover shelf (ret true) (trap missing_return) (5 ∷ []) second_run).1 in
    (lived.impl.current_term ≡ pos 6 +ℤ pos 2) × (again.impl.current_term ≡ pos 6)
unfolding set_current_term do_blocks
recover-elections_example =
    recover-elections shelf willing (timeout ∷ yes_from_2 ∷ timeout ∷ []) (trap missing_return) 6
      (5 ∷ []) first_run second_run shelf-IsDurable (omega arith) refl (λ d. refl) refl refl refl
      (λ e. ground arith) (refl, tt)

-- A thread that is not stopped, which wakes up twice: after a timeout, and after an answer.
abbrev woken : Slot
woken = record {
  is_stop = ret false;
  waits = (elects willing timeout ∷ []) ∷ (elects willing yes_from_2 ∷ []) ∷ [];
  outside = willing;
  timed_wait = replicates willing 3 ∷ [];
}

replicate_log-asserts_example :
    let (r, s') = replicate_log 1 (map turn_of (woken ∷ woken ∷ [])) five in
    (r ≢ ret LoopState.aborted) × AllOrdered s'.follower_contexts
replicate_log-asserts_example = replicate_log-asserts 1 (woken ∷ woken ∷ []) five (omega arith)

replicate_log-blocked_example : replicate_log 1 (map turn_of (woken ∷ woken ∷ [])) following ≡ (
  ret LoopState.waiting,
  act_through ((elects willing timeout ∷ []) ∷ (elects willing yes_from_2 ∷ []) ∷ []) following,
)
replicate_log-blocked_example =
    replicate_log-blocked 1 woken (woken ∷ []) following (follower_at 6) (omega arith) refl refl
      (λ e. ground arith) ((tt, tt), (((refl, tt), tt), tt))
