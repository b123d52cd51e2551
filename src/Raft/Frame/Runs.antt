-- ===== src/Raft/Frame/Runs.antt =====
-- Histories of messages and ticks.
use anraft.Base.{List, [], ◌∷◌}
use anraft.Proto.{Message}
use anraft.Base.Frame.{Keeps}
use anraft.Raft.Defs.{Raft, Env, on_vote_request, step, tick}
use anraft.Raft.Frame.Rules.{IsFrame, Grants}
use anraft.Raft.Frame.Local.{tick-Keeps, on_vote_request-Keeps}
use anraft.Raft.Frame.Steps.{IsRequest, step-Keeps}

pub data Event : Type 0 where
  deliver : Message → Event
  timer : Event

-- The node after a message or a tick; a trap leaves it in the state that it had reached.
unfoldable pub handle : Env → Event → Raft → Raft
handle env (deliver msg) r = (step env msg r).1
handle env timer r = (tick env r).1

unfoldable pub run : Env → List Event → Raft → Raft
unfolding handle
run env [] r = r
run env (e ∷ es) r = run env es (handle env e r)

-- Each request for a vote that comes in keeps to the relation.
abbrev pub AllRequests : Env → (Raft → Raft → Type 0) → List Event → Type 0
AllRequests env R [] = Unit {0}
AllRequests env R (deliver msg ∷ es) =
    (IsRequest msg.kind → Keeps R (on_vote_request env msg)) × AllRequests env R es
AllRequests env R (timer ∷ es) = AllRequests env R es

module _ (env : Env) (R : Raft → Raft → Type 0) (f : IsFrame env R) where
  -- What each basic change and each request for a vote keeps to, the history keeps to.
  pub run-Keeps : (es : List Event) → AllRequests env R es → (r : Raft) → R r (run env es r)
  unfolding run handle
  run-Keeps [] h r = f.alone.order.reflexive r
  run-Keeps (deliver msg ∷ es) h r =
      f.alone.order.transitive ((step-Keeps env R f msg h.0).apply r) (run-Keeps es h.1 _)
  run-Keeps (timer ∷ es) h r =
      f.alone.order.transitive ((tick-Keeps env R f.alone).apply r) (run-Keeps es h _)

  any_requests : Grants R → (es : List Event) → AllRequests env R es
  any_requests g [] = tt
  any_requests g (deliver msg ∷ es) =
      (λ _. on_vote_request-Keeps env R f.alone g msg, any_requests g es)
  any_requests g (timer ∷ es) = any_requests g es

  -- Where all votes keep to it too, every history does.
  pub run-frame : Grants R → (es : List Event) (r : Raft) → R r (run env es r)
  run-frame g es r = run-Keeps es (any_requests g es) r
