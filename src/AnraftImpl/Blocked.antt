-- ===== src/AnraftImpl/Blocked.antt =====
-- The replicating thread of a node that never leads.
use anraft.Base.{ℕ, ◌≡◌, ◌≢◌, false, List, [], ◌∷◌, arith, ret, at, map}
use anraft.Base.Action.{do_blocks}
use anraft.AnraftImpl.Defs.{
  AnraftImpl, Role, FollowerContext, LoopState, wait_for_leader, replicate_log,
}
use anraft.AnraftImpl.Election.{incident, AllTold, elections_lost}
use anraft.AnraftImpl.Replication.{AllOrdered}
use anraft.AnraftImpl.Threads.{Other, elects, replicates, act_all, Slot, turn_of, turn_asserted}

-- Elections whose calls count as failed exactly if they have an error code.
abbrev pub AllElect : List Other → Type 0
AllElect [] = Unit {0}
AllElect (elects outside e ∷ os) = AllTold (e ∷ []) × AllElect os
AllElect (replicates outside id ∷ os) = ⊥

abbrev pub EachElects : List (List Other) → Type 0
EachElects [] = Unit {0}
EachElects (os ∷ ws) = AllElect os × EachElects ws

abbrev pub act_through : List (List Other) → AnraftImpl → AnraftImpl
act_through [] s = s
act_through (os ∷ ws) s = act_through ws (act_all os s)

still_follows :
    (os : List Other) (s : AnraftImpl)
    → AllElect os
    → s.role ≢ Role.leader
    → (act_all os s).role ≢ Role.leader
still_follows [] s h k = k
still_follows (elects outside e ∷ os) s h k =
    still_follows os (incident outside e s) h.1 (elections_lost outside (e ∷ []) s h.0 k).0
still_follows (replicates outside id ∷ os) s h k = absurd h

waits_blocked :
    (ws : List (List Other)) (s : AnraftImpl)
    → EachElects ws
    → s.role ≢ Role.leader
    → wait_for_leader (map act_all ws) s ≡ (ret false, act_through ws s)
unfolding wait_for_leader
waits_blocked [] s h k = ground (arith, k)
waits_blocked (os ∷ ws) s h k =
    ground (arith, k, waits_blocked ws (act_all os s) h.1 (still_follows os s h.0 k))

-- The thread of a node that does not lead, whose loop is not stopped, never gets behind its wait:
-- whatever the elections of the other threads bring, as long as a call counts as failed exactly if
-- it has an error code, each time that it wakes up the node is still no leader. It has then done
-- nothing at all to the node, and no turn behind this one begins. There is a context for the
-- follower, and in each context the next index is not below the matched one at first.
pub replicate_log-blocked :
    (id : ℕ) (t : Slot) (ts : List Slot) (s : AnraftImpl) (f : FollowerContext)
    → AllOrdered s.follower_contexts
    → at s.follower_contexts id ≡ ret f
    → t.is_stop ≡ ret false
    → s.role ≢ Role.leader
    → EachElects t.waits
    → replicate_log id (map turn_of (t ∷ ts)) s ≡ (ret LoopState.waiting, act_through t.waits s)
unfolding replicate_log do_blocks
replicate_log-blocked id t ts s f h e going role told =
    let run = turn_asserted id (turn_of t) s h e in
    ground (arith, run, going, waits_blocked t.waits s told role)
