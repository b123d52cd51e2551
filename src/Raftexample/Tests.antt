-- ===== src/Raftexample/Tests.antt =====
-- Instances of the theorems on the example.
use anraft.Base.{
  ◌⊎◌, ◌==◌, ◌≡◌, refl, true, false, List, [], ◌∷◌, ◌++◌, ret, trap, if◌then◌else◌, bad_pointer,
  bad_weak_ptr, missing_return,
}
use anraft.Base.Int.{pos}
use anraft.Raft.{StateType}
use anraft.Raft.Samples.{trapping, lone, with_tail, with_tail-last_index}
use anraft.Node.{proposal, run_batch}
use anraft.Raftexample.Defs.{
  Queues, ChannalMsg, ChannalType, RaftNode, KvStore, StoreOutside, Platform, System, HandlerCall,
  Main, Flags, Program, proposal_msg, store_propose, serve_propose_channels, start_raft,
}
use anraft.Raftexample.Proposals.{Adds, store_propose-lost}
use anraft.Raftexample.Startup.{start_raft_lem}
use anraft.Raftexample.Requests.{StoreEvent, after_events, events-kv_store}

-- Queues that take everything.
abbrev open_queues : Queues
open_queues = record {
  accepts = λ queue msg. true;
  thread = record {
    accepts = λ tasks task. true;
    run_end = trap missing_return;
    propose_end = trap missing_return;
  };
  serve_end = trap missing_return;
  publish_end = trap missing_return;
}

abbrev store_outside : StoreOutside
store_outside = record {
  serialize_kv = λ key value. key ++ value;
  starts = true;
  accepts = λ queue msg. true;
  commits_end = trap missing_return;
}

abbrev tick_msg : ChannalMsg
tick_msg = record { kind = ChannalType.tick_type; propose = []; ready = [] }

abbrev three : List ChannalMsg
three = tick_msg ∷ proposal_msg (1 ∷ []) ∷ proposal_msg (2 ∷ []) ∷ []

store_propose-lost_example :
    let queue' = (store_propose store_outside open_queues (7 ∷ []) (8 ∷ []) []).1 in
    ((queue' ≡ []) ⊎ (queue' ≡ proposal_msg (7 ∷ 8 ∷ []) ∷ []))
    × Adds open_queues three [] (serve_propose_channels open_queues false three []).1
    × (run_batch trapping open_queues.thread false (proposal (7 ∷ 8 ∷ [])) [] lone
        ≡ (trap bad_pointer, lone))
    × (run_batch trapping open_queues.thread false
          (proposal (1 ∷ []))
          (proposal (7 ∷ 8 ∷ []) ∷ [])
          lone
        ≡ run_batch trapping open_queues.thread false
            (proposal (1 ∷ []))
            (proposal (9 ∷ []) ∷ [])
            lone)
store_propose-lost_example =
    store_propose-lost open_queues store_outside (7 ∷ []) (8 ∷ []) [] three trapping []
      (proposal (1 ∷ [])) [] [] (9 ∷ []) lone

abbrev platform : Platform
platform = record {
  http = record {
    serialize = λ m. [];
    call_fails = λ calls request. false;
    channel_opens = λ url. true;
    start_queue = λ null. if null then trap bad_pointer else ret (pos 0);
    adds_service = true;
    server_starts = λ port. true;
    serve_end = trap missing_return;
    writer_end = trap missing_return;
  };
  serialize = λ change. [];
  directory_ready = λ path. true;
  timer_added = true;
  assign_end = ret tt;
  init_end = ret true;
  start_end = ret true;
  peer_end = trap missing_return;
}

-- Node 1 of a cluster of two.
abbrev first_of_two : RaftNode
first_of_two = record {
  id = pos 1;
  peers = (1 ∷ []) ∷ (2 ∷ []) ∷ [];
  join = true;
  has_snapshot_func = false;
  snapdir = [];
  tasks = [];
  propose_queue = [];
  ready_queue = [];
  is_serving = false;
}

abbrev system : System
system = record {
  raft = with_tail;
  transport = record {
    id = 0;
    urls = [];
    cluster_id = 0;
    raft = 0;
    snapshotter = 0;
    peers = [];
    is_shared = false;
  };
  node = first_of_two;
}

start_raft_lem_example :
    let (x, s') = start_raft platform trapping 77 system in
    (x ≡ trap bad_weak_ptr)
    × (s'.node.is_serving ≡ false)
    × (s'.transport.peers ≡ [])
    × (s'.raft.state ≡ StateType.follower)
    × (s'.raft.term ≡ 1)
    × (s'.raft.prs ≡ [])
start_raft_lem_example =
    start_raft_lem platform refl trapping 77 system refl refl refl refl refl refl
      with_tail-last_index

abbrev one_pair : KvStore
one_pair = record { kv_store = ((1 ∷ []), (2 ∷ [])) ∷ []; snapshotter = 0; queue = [] }

abbrev busy : List StoreEvent
busy =
    StoreEvent.start_event 0
    ∷ StoreEvent.call_event (HandlerCall.put_call (5 ∷ []))
    ∷ StoreEvent.batch_event false (record { cmd = 0; body = 5 ∷ [] } ∷ [])
    ∷ []

events-kv_store_example :
    (after_events store_outside busy one_pair).kv_store ≡ ((1 ∷ []), (2 ∷ [])) ∷ []
events-kv_store_example = events-kv_store store_outside busy one_pair

abbrev main_outside : Main
main_outside = record {
  split = λ cluster. cluster ∷ [];
  thread_starts = true;
  store = store_outside;
  adds_service = true;
  server_starts = λ port. port == 9121;
  calls = HandlerCall.put_call (5 ∷ []) ∷ [];
}

abbrev flags : Flags
flags = record { cluster = 3 ∷ []; id = pos 1; kvport = 9121; join = false }

abbrev program : Program
program = record { node = first_of_two; store = one_pair }
