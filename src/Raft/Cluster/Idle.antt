-- ===== src/Raft/Cluster/Idle.antt =====
-- Clusters in which no node leads.
use anraft.Base.{ℕ, ◌≡◌, ◌≢◌, refl, sym, ◌∙◌, arith}
use mathlib.Core.Path.{subst⁻¹}
use anraft.Base.Action.{do_blocks}
use anraft.Base.Frame.{Preorder, Keeps}
use anraft.Proto.{Message, MessageType}
use anraft.Raft.Defs.{
  Raft, Env, StateType, StepFunc, become_follower, become_candidate, get_progress, send, step,
}
use anraft.Raft.Frame.{IsLocal, Grants, tick-Keeps}
use anraft.Raft.Cluster.{
  Cluster, AllVotes, append-AllVotes, IsKept, Reaches, Reaches-kept, vote-Keeps,
}

-- A node that does not lead or handle messages as a leader, and has sent nothing but requests for
-- votes.
pub record IsIdle (r : Raft) : Type 0 where
  pub not_leader : r.state ≢ StateType.leader
  pub not_leading : r.step_func ≢ StepFunc.leader_step
  pub asks : AllVotes r.msgs

-- A step that leaves a node idle, in its term.
abbrev StaysIdle : Raft → Raft → Type 0
StaysIdle r r' = IsIdle r → IsIdle r' × (r'.term ≡ r.term)

StaysIdle-Preorder : Preorder StaysIdle
StaysIdle-Preorder = record {
  reflexive = λ r h. (h, refl);
  transitive = λ p q h. let (h1, e1) = p h in let (h2, e2) = q h1 in (h2, e2 ∙ e1);
}

-- Fields that stay.
same_role :
    (r r' : Raft)
    → r'.state ≡ r.state
    → r'.step_func ≡ r.step_func
    → r'.msgs ≡ r.msgs
    → r'.term ≡ r.term
    → StaysIdle r r'
same_role r r' a b c d h = (
  record {
    not_leader = λ e. h.not_leader (sym a ∙ e);
    not_leading = λ e. h.not_leading (sym b ∙ e);
    asks = subst⁻¹ AllVotes c h.asks;
  },
  d,
)

send-StaysIdle : (msg : Message) → msg.kind ≡ MessageType.vote → Keeps StaysIdle (send msg)
unfolding send do_blocks
send-StaysIdle msg k = record {
  apply = λ r h. (
    record {
      not_leader = h.not_leader;
      not_leading = h.not_leading;
      asks = append-AllVotes r.msgs _ h.asks (k, tt);
    },
    refl,
  );
}

get_progress-StaysIdle : (id : ℕ) → Keeps StaysIdle (get_progress id)
unfolding get_progress
get_progress-StaysIdle id = record {
  apply = λ r. same_role r _ (ground arith) (ground arith) (ground arith) (ground arith);
}

StaysIdle-Grants : Grants StaysIdle
StaysIdle-Grants from r = same_role r _ refl refl refl refl

StaysIdle-IsLocal : (env : Env) → IsLocal env StaysIdle
unfolding become_follower become_candidate
StaysIdle-IsLocal env = record {
  order = StaysIdle-Preorder;
  requests = send-StaysIdle;
  follows = λ t lead r h. (
    record { not_leader = λ e. ground arith; not_leading = λ e. ground arith; asks = h.asks },
    refl,
  );
  campaigns = λ r h. (
    record { not_leader = λ e. ground arith; not_leading = λ e. ground arith; asks = h.asks },
    refl,
  );
  finds = get_progress-StaysIdle;
  waits = λ n r. same_role r _ refl refl refl refl;
  beats = λ n r. same_role r _ refl refl refl refl;
  beats_again = λ r. same_role r _ refl refl refl refl;
}

-- Only a leader takes a proposal.
proposal_ignored :
    (env : Env) (msg : Message) (r : Raft)
    → msg.kind ≡ MessageType.prop
    → r.step_func ≢ StepFunc.leader_step
    → (step env msg r).1 ≡ r
unfolding step do_blocks
proposal_ignored env msg r k h = ground arith

-- No node ever becomes the leader of a cluster in which at first no node leads or handles messages
-- as a leader, and what was sent are requests for votes. However the nodes tick, whatever clients
-- propose, and however the messages are lost, repeated or reordered, the nodes only ever ask for
-- votes, which nobody answers, and each stays in its term.
pub Reaches-IsIdle :
    (envs : ℕ → Env) (c d : Cluster)
    → ((i : ℕ) → IsIdle (c i))
    → Reaches envs c d
    → (i : ℕ) → IsIdle (d i) × ((d i).term ≡ (c i).term)
Reaches-IsIdle envs c d h steps = Reaches-kept envs InTerm kept steps (λ i. (h i, refl))
  where
    InTerm : ℕ → Raft → Type 0
    InTerm i r = IsIdle r × (r.term ≡ (c i).term)

    onward : {r r' : Raft} (i : ℕ) → StaysIdle r r' → InTerm i r → InTerm i r'
    onward i step p = let (idle, term) = step p.0 in (idle, term ∙ p.1)

    kept : IsKept envs InTerm
    kept = record {
      asks = λ i r p. p.0.asks;
      ticked =
          λ i r. onward i ((tick-Keeps (envs i) StaysIdle (StaysIdle-IsLocal (envs i))).apply r);
      asked = λ i msg r k.
          onward i
            (vote-Keeps (envs i) StaysIdle (StaysIdle-IsLocal (envs i)) StaysIdle-Grants msg r k);
      proposed =
          λ i msg r k p. subst⁻¹ (InTerm i) (proposal_ignored (envs i) msg r k p.0.not_leading) p;
    }
