-- ===== src/Raftexample/Program.antt =====
-- The run of the main program, and the messages for the queue `queue_id_`.
use anraft.Base.{
  Bytes, ℕ, ◌≡◌, refl, sym, subst, ap, Bool, true, false, Bool-cases, ◌&&◌, inl, inr, List, [], ◌∷◌,
  map, ◌++◌, if◌then◌else◌, ret,
}
use anraft.Base.Action.{◌>>◌, do_blocks, pure, bind_ret, then_ret}
use anraft.Base.Int.{pos, negsuc}
use anraft.Proto.{Message}
use anraft.Raftexample.Defs.{
  Queues, KvStore, HttpResponse, ChannalMsg, ChannalType, RaftNode, Main, Flags, Program,
  proposal_msg, execute_channel, execute_ready, serve_all, serve_channels, on_node, on_store,
  init_node, start_thread, new_kv_store, serve_http_kv_api, run_main,
}
use anraft.Raftexample.Requests.{answer_to, handle_all_run}

module _ (queues : Queues) where
  -- The messages are handed to `ExecuteReady` one by one.
  abbrev pub ready_queue_after : List Message → List ChannalMsg → List ChannalMsg
  ready_queue_after [] queue = queue
  ready_queue_after (m ∷ ms) queue = ready_queue_after ms (execute_ready queues m queue).1

  abbrev AllProposals : List ChannalMsg → Type 0
  AllProposals [] = Unit {0}
  AllProposals (m ∷ ms) = (m.kind ≡ ChannalType.propose_type) × AllProposals ms

  append-AllProposals :
      (ms : List ChannalMsg) (buf : Bytes)
      → AllProposals ms
      → AllProposals (ms ++ proposal_msg buf ∷ [])
  append-AllProposals [] buf h = (refl, tt)
  append-AllProposals (m ∷ ms) buf h = (h.0, append-AllProposals ms buf h.1)

  ready_run :
      (accepted : Bool) (m : Message) (queue : List ChannalMsg) {queue' : List ChannalMsg}
      → execute_channel queues (proposal_msg []) queue ≡ (ret accepted, queue')
      → (execute_ready queues m queue).1 ≡ queue'
  unfolding execute_ready pure
  ready_run true m queue h = ap (λ x. x.1) (bind_ret _ _ queue h)
  ready_run false m queue h = ap (λ x. x.1) (bind_ret _ _ queue h)

  queued :
      (m : Message) (queue : List ChannalMsg)
      → AllProposals queue
      → AllProposals (execute_ready queues m queue).1
  queued m queue h = elim (Bool-cases (queues.accepts queue (proposal_msg []))) [
    | inl taken ↦
        let run : execute_channel queues (proposal_msg []) queue
            ≡ (ret true, queue ++ proposal_msg [] ∷ []) =
          unfold execute_channel in rw taken refl in
        subst AllProposals (sym (ready_run true m queue run)) (append-AllProposals queue [] h)
    | inr refused ↦
        let run : execute_channel queues (proposal_msg []) queue ≡ (ret false, queue) =
          unfold execute_channel in rw refused refl in
        subst AllProposals (sym (ready_run false m queue run)) h
  ]

  all_queued :
      (ms : List Message) (queue : List ChannalMsg)
      → AllProposals queue
      → AllProposals (ready_queue_after ms queue)
  all_queued [] queue h = h
  all_queued (m ∷ ms) queue h = all_queued ms (execute_ready queues m queue).1 (queued m queue h)

  served :
      (ms : List ChannalMsg) (n : RaftNode)
      → AllProposals ms
      → serve_all queues ms n ≡ (queues.serve_end, n)
  unfolding serve_all do_blocks
  served [] n h = refl
  served (m ∷ ms) n h = rw h.0 (served ms n h.1)

  -- What `ExecuteReady` queues is marked as a proposal, so a batch of it, however many messages it
  -- was called with and whichever of them the queue took, reaches the end of `ServeChannels`
  -- without a call of `PublishEntries`, and the node stays as it was.
  pub execute_ready-ignored :
      (ms : List Message) (n : RaftNode)
      → serve_channels queues false (ready_queue_after ms []) n ≡ (queues.serve_end, n)
  unfolding serve_channels
  execute_ready-ignored ms n = served (ready_queue_after ms []) n (all_queued ms [] tt)

serve_run :
    (main : Main) (port : ℕ) (s : KvStore)
    → (rs : List HttpResponse) × (serve_http_kv_api main port s ≡ (ret rs, s))
unfolding serve_http_kv_api pure
serve_run main port s = elim (Bool-cases main.adds_service) [
  | inr refused ↦ ([], rw refused refl)
  | inl added ↦ elim (Bool-cases (main.server_starts port)) [
    | inr refused ↦ ([], rw (added, refused) refl)
    | inl started ↦ (map answer_to main.calls, rw (added, started) (handle_all_run main.calls s))
  ]
]

-- The program when its server starts.
abbrev ready : Main → Flags → Program → Program
ready main flags s = record {
  node = record (s.node) {
    id = flags.id;
    peers = main.split flags.cluster;
    join = flags.join;
    has_snapshot_func = false;
  };
  store = record (s.store) { snapshotter = 0 };
}

ended :
    (main : Main) (flags : Flags) (s : Program)
    → let (r, s') =
        (on_store (serve_http_kv_api main flags.kvport) >> pure (pos 0)) (ready main flags s) in
      (r ≡ ret (pos 0))
      × (s'.node.id ≡ flags.id)
      × (s'.node.peers ≡ main.split flags.cluster)
      × (s'.store.kv_store ≡ s.store.kv_store)
unfolding on_store pure
ended main flags s =
    let p : Program = ready main flags s in
    let serve = serve_http_kv_api main flags.kvport in
    let served = serve_run main flags.kvport p.store in
    let run : on_store serve p ≡ (ret served.0, p) =
      ap (λ x. (x.0, record p { store = x.1 })) served.1 in
    rw (then_ret (on_store serve) (pure (pos 0)) p run) (refl, refl, refl, refl)

-- `main` ends with 0 if the thread of the raft node and the queue of the store are started, and
-- with -1 otherwise. In each case the node has the flags and the peers of the command line, and the
-- map of the store is what it was, whatever calls the server gets.
pub run_main_lem :
    (main : Main) (flags : Flags) (s : Program)
    → let (r, s') = run_main main flags s in
      (r ≡ ret (if main.thread_starts && main.store.starts then pos 0 else negsuc 0))
      × (s'.node.id ≡ flags.id)
      × (s'.node.peers ≡ main.split flags.cluster)
      × (s'.store.kv_store ≡ s.store.kv_store)
unfolding run_main on_node on_store init_node start_thread new_kv_store do_blocks
run_main_lem main flags s = elim (Bool-cases main.thread_starts) [
  | inr failed ↦ rw failed (refl, refl, refl, refl)
  | inl started ↦ elim (Bool-cases main.store.starts) [
    | inr failed ↦ rw (started, failed) (refl, refl, refl, refl)
    | inl stored ↦ rw (started, stored) (ended main flags s)
  ]
]
