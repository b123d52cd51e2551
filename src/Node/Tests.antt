-- ===== src/Node/Tests.antt =====
-- Instances of the theorems on batches of tasks, on a leader without members.
use anraft.Base.{ℕ, ◌≢◌, ◌≡◌, refl, arith, true, false, List, [], ◌∷◌, ret, trap, missing_return}
use anraft.Base.Int.{pos, ◌+ℤ◌}
use anraft.Proto.{MessageType, empty_message}
use anraft.Progress.{Progress, ProgressState}
use anraft.Raft.{Raft, Env, StateType, TickFunc, StepFunc, promotable}
use anraft.Raft.Campaign.{vote_requests}
use anraft.Raft.{tick}
use anraft.Raft.Cluster.{Cluster, put_node, stays, ticks}
use anraft.Node.Leaderless.{IsFresh, start_node-leaderless}
use anraft.Node.Ticks.{queued_ticks, joined, tick_batches, ticks-campaign}
use anraft.Raft.Samples.{trapping, lone, with_tail, with_tail-last_index}
use anraft.Node.Defs.{NodeRecvMsg, NodeRecvMsgType, Body, Thread, Peer, start_node}
use anraft.Node.Batches.{batches}

-- A queue that takes every task.
abbrev open_queue : Thread
open_queue = record {
  accepts = λ _ _. true;
  run_end = trap missing_return;
  propose_end = trap missing_return;
}

abbrev tick_of : NodeRecvMsg
tick_of = record { kind = NodeRecvMsgType.tick_task; body = Body.unset }

abbrev received : MessageType → NodeRecvMsg
received kind = record {
  kind = NodeRecvMsgType.recv_task;
  body = Body.message (record empty_message { kind = kind; from = 2 });
}

abbrev two_peers : List Peer
two_peers = record { id = 1; context = [] } ∷ record { id = 2; context = [] } ∷ []

abbrev returning : Env
returning = record trapping { log = record (trapping.log) { append_entry = λ _ _. ret 0 } }

abbrev probed : Progress
probed = record { match = 0; next = 1; state = ProgressState.probe; paused = false }

-- A follower of two members whose timer runs out with the third tick.
abbrev waiting : Raft
waiting = record lone {
  state = StateType.follower;
  prs = (1, probed) ∷ (2, probed) ∷ [];
  tick_func = TickFunc.election_tick;
  step_func = StepFunc.follower_step;
  election_elapsed = pos 9;
}

-- The three ticks come as one and two.
ticks-campaign_example :
    let r' = batches trapping open_queue (tick_batches (0 ∷ 1 ∷ [])) waiting in
    (queued_ticks open_queue 3 [] ≡ joined (tick_batches (0 ∷ 1 ∷ [])))
    × (r'.vote ≡ 1)
    × (r'.term ≡ 1)
    × (r'.step_func ≡ StepFunc.candidate_step)
    × (r'.msgs ≡ vote_requests 1 1 waiting.prs)
unfolding promotable ◌+ℤ◌
ticks-campaign_example =
    ticks-campaign trapping open_queue (0 ∷ 1 ∷ []) 2 waiting (λ queue. refl) refl refl refl
      (λ e. ground arith) refl (omega arith) (omega arith) (λ c. refl)

abbrev fresh_nodes : Cluster
fresh_nodes i = record with_tail { id = i }

fresh_nodes-IsFresh : (i : ℕ) → IsFresh (λ c. []) two_peers returning (fresh_nodes i)
fresh_nodes-IsFresh i = record {
  silent = refl;
  last = 4;
  last_is = with_tail-last_index;
  appends = ((0, refl), ((0, refl), tt));
}

abbrev started_nodes : Cluster
started_nodes i = (start_node returning (λ c. []) two_peers (fresh_nodes i)).1

abbrev ticked_nodes : Cluster
ticked_nodes = put_node 2 (tick returning (started_nodes 2)).1 started_nodes

start_node-leaderless_example :
    ((ticked_nodes 2).state ≢ StateType.leader) × ((ticked_nodes 2).term ≡ 1)
start_node-leaderless_example =
    start_node-leaderless (λ c. []) two_peers (λ i. returning) fresh_nodes ticked_nodes
      fresh_nodes-IsFresh (ticks started_nodes ticked_nodes 2 (stays ticked_nodes)) 2
