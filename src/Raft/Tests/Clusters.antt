-- ===== src/Raft/Tests/Clusters.antt =====
-- Instances of the theorems on clusters.
use anraft.Base.{ℕ, ◌+◌, ◌≡◌, inr, refl, [], ◌∷◌, arith, ret}
use anraft.Proto.{Message, MessageType, empty_message}
use anraft.Raft.Defs.{Env, step, tick}
use anraft.Raft.Cluster.{Cluster, put_node, stays, ticks, delivers, proposes}
use anraft.Raft.Cluster.Idle.{IsIdle, Reaches-IsIdle}
use anraft.Raft.Cluster.Group.{IsStalled}
use anraft.Raft.Cluster.Stall.{Reaches-IsStalled}
use anraft.Raft.Tests.Data.{entry, log_to_7, zeroes, at_match, node, vote_from, leading}

-- Nodes that have each sent one request for a vote.
abbrev asking : Cluster
asking i = record node { id = i + 1; msgs = vote_from (i + 1) ∷ [] }

abbrev ticked : Cluster
ticked = put_node 1 (tick zeroes (asking 1)).1 asking

abbrev delivered : Cluster
delivered = put_node 2 (step zeroes (vote_from 1) (ticked 2)).1 ticked

asking-IsIdle : (i : ℕ) → IsIdle (asking i)
asking-IsIdle i = record {
  not_leader = λ e. ground arith;
  not_leading = λ e. ground arith;
  asks = (refl, tt);
}

Reaches-IsIdle_example : IsIdle (delivered 2) × ((delivered 2).term ≡ 2)
Reaches-IsIdle_example =
    Reaches-IsIdle (λ i. zeroes) asking delivered asking-IsIdle
      (ticks asking delivered 1
        (delivers ticked delivered 2 0 [] [] (vote_from 1) refl (stays delivered)))
      2

-- Leaders of three members, each of which has matched more than the others.
abbrev ahead : Cluster
ahead i = record leading {
  id = i + 1;
  prs = (1, at_match 6) ∷ (2, at_match 5) ∷ (3, at_match 5) ∷ [];
}

abbrev appending : Env
appending = record zeroes { log = record (zeroes.log) { append_repeated = λ _ _. ret 9 } }

abbrev proposal : Message
proposal = record empty_message { kind = MessageType.prop; entries = entry 0 0 ∷ [] }

abbrev proposed : Cluster
proposed = put_node 0 (step appending proposal (ahead 0)).1 ahead

ahead-IsStalled : (i : ℕ) → IsStalled (ahead i)
ahead-IsStalled i = record {
  named = λ e. ground arith;
  several = omega arith;
  sorted = (omega arith, (omega arith, tt));
  others = (inr (omega arith), (inr (omega arith), (inr (omega arith), tt)));
  asks = tt;
}

Reaches-IsStalled_example : IsStalled (proposed 0) × ((proposed 0).raftlog ≡ log_to_7)
Reaches-IsStalled_example =
    Reaches-IsStalled (λ i. appending) ahead proposed ahead-IsStalled
      (proposes ahead proposed 0 proposal refl (stays proposed)) 0
