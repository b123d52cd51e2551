-- ===== src/Raft/Frame/Steps.antt =====
-- Any message.
use anraft.Base.Frame.{Keeps, bind-Keeps, then-Keeps, gets-Keeps, pure-Keeps}
use anraft.Proto.{RaftError, Message, MessageType}
use anraft.Raft.Defs.{Raft, Env, StepFunc, call_step, step_kind, step, on_vote_request}
use anraft.Raft.Frame.Rules.{IsFrame}
use anraft.Raft.Frame.Local.{call_step-Keeps, on_hup-Keeps}
use anraft.Raft.Frame.Followers.{on_follower-Keeps, on_candidate-Keeps}
use anraft.Raft.Frame.Leaders.{on_leader_local-Keeps, on_leader_peer-Keeps}

-- The requests for votes.
abbrev pub IsRequest : MessageType → Type 0
IsRequest MessageType.vote = Unit {0}
IsRequest MessageType.pre_vote = Unit {0}
IsRequest _ = ⊥

module _ (env : Env) (R : Raft → Raft → Type 0) (f : IsFrame env R) where
  by_role : (msg : Message) (g : StepFunc) → Keeps R (call_step env g msg)
  by_role msg g =
      call_step-Keeps env R f.alone.order msg (on_follower-Keeps env R f msg.kind msg)
        (on_candidate-Keeps env R f msg.kind msg) (on_leader_local-Keeps env R f msg.kind msg)
        (on_leader_peer-Keeps env R f msg.kind msg) g

  step_kind-Keeps :
      (kind : MessageType) (msg : Message)
      → (IsRequest kind → Keeps R (on_vote_request env msg))
      → Keeps R (step_kind env kind msg)
  unfolding step_kind
  step_kind-Keeps MessageType.hup msg request =
      then-Keeps R f.alone.order _ _ (on_hup-Keeps env R f.alone)
        (pure-Keeps R f.alone.order RaftError.none_err)
  step_kind-Keeps MessageType.vote msg request = request tt
  step_kind-Keeps MessageType.pre_vote msg request = request tt
  step_kind-Keeps _ msg request =
      bind-Keeps R f.alone.order _ _ (gets-Keeps R f.alone.order _) λ g. by_role msg g

  -- Any message, where a request for a vote keeps to the relation.
  pub step-Keeps :
      (msg : Message)
      → (IsRequest msg.kind → Keeps R (on_vote_request env msg))
      → Keeps R (step env msg)
  unfolding step
  step-Keeps msg request = step_kind-Keeps msg.kind msg request
