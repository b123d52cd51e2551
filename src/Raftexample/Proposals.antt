-- ===== src/Raftexample/Proposals.antt =====
-- The way of a proposal from the store to the state machine.
use anraft.Base.{
  if◌then◌else◌, Bytes, ◌≡◌, ◌≢◌, ◌⊎◌, inl, inr, refl, sym, ap, ◌∙◌, true, false, Bool-cases, List,
  [], ◌∷◌, ◌++◌, arith, Outcome-cases, ret, trap, bad_pointer,
}
use anraft.Base.Action.{Action, do_blocks, ◌>>◌, pure, skip, bind_ret, then_ret, then_trap}
use anraft.Base.Int.{ℤ}
use anraft.Raft.{Raft, Env}
use anraft.Node.{NodeRecvMsg, Thread, proposal, propose, execute, run_batch}
use anraft.Node.Batches.{propose_run, proposal_first, SameKinds, run_batch-SameKinds}
use mathlib.Core.List.{append-nil, append_assoc}
use anraft.Raftexample.Defs.{
  Queues, ChannalType, ChannalMsg, StoreOutside, proposal_msg, execute_channel, raft_propose,
  propose_all, serve_propose_channels, store_propose,
}

proposal-cases : (k : ChannalType) → (k ≡ ChannalType.propose_type) ⊎ (k ≢ ChannalType.propose_type)
proposal-cases ChannalType.propose_type = inl refl
proposal-cases ChannalType.tick_type = inr (λ e. ground arith)
proposal-cases ChannalType.ready_type = inr (λ e. ground arith)
proposal-cases ChannalType.transport_error_type = inr (λ e. ground arith)
proposal-cases ChannalType.stop_type = inr (λ e. ground arith)
proposal-cases ChannalType.conf_change_type = inr (λ e. ground arith)

execute_refused :
    (thread : Thread) (task : NodeRecvMsg) (tasks : List NodeRecvMsg)
    → thread.accepts tasks task ≡ false
    → execute thread task tasks ≡ (ret false, tasks)
unfolding execute
execute_refused thread task tasks h = rw h refl

propose_refused :
    (thread : Thread) (bytes : Bytes) (tasks : List NodeRecvMsg)
    → thread.accepts tasks (proposal bytes) ≡ false
    → propose thread bytes tasks ≡ (ret false, tasks)
unfolding propose pure
propose_refused thread bytes tasks h =
    bind_ret _ _ tasks (execute_refused thread (proposal bytes) tasks h)

-- The proposals in a batch, as the tasks that `Propose` queues.
abbrev pub proposed_by : List ChannalMsg → List NodeRecvMsg
proposed_by [] = []
proposed_by (m ∷ ms) = elim m.kind [
  | ChannalType.propose_type ↦ proposal m.propose ∷ proposed_by ms
  | _ ↦ proposed_by ms
]

-- The tasks are some of the others, in their order.
abbrev pub IsPart : List NodeRecvMsg → List NodeRecvMsg → Type 0
IsPart [] ys = Unit {0}
IsPart (x ∷ xs) [] = ⊥
IsPart (x ∷ xs) (y ∷ ys) = ((x ≡ y) × IsPart xs ys) ⊎ IsPart (x ∷ xs) ys

IsPart-later : (y : NodeRecvMsg) (xs ys : List NodeRecvMsg) → IsPart xs ys → IsPart xs (y ∷ ys)
IsPart-later y [] ys h = tt
IsPart-later y (x ∷ xs) ys h = inr h

other_proposed :
    (m : ChannalMsg) (ms : List ChannalMsg)
    → m.kind ≢ ChannalType.propose_type
    → proposed_by (m ∷ ms) ≡ proposed_by ms
other_proposed m ms h = by_type m.kind h
  where
    by_type :
        (k : ChannalType)
        → k ≢ ChannalType.propose_type
        → elim k as (λ _. List NodeRecvMsg) [
          | ChannalType.propose_type ↦ proposal m.propose ∷ proposed_by ms
          | _ ↦ proposed_by ms
        ]
          ≡ proposed_by ms
    by_type ChannalType.propose_type h = elim (h refl) [ ]
    by_type _ h = refl

-- The same kinds, where one proposal has another string.
proposal-SameKinds :
    (before after : List NodeRecvMsg) (bytes other : Bytes)
    → SameKinds (before ++ proposal bytes ∷ after) (before ++ proposal other ∷ after)
proposal-SameKinds [] after bytes other = (refl, each_same after)
  where
    each_same : (ts : List NodeRecvMsg) → SameKinds ts ts
    each_same [] = tt
    each_same (t ∷ ts) = (refl, each_same ts)
proposal-SameKinds (t ∷ before) after bytes other =
    (refl, proposal-SameKinds before after bytes other)

module _ (channels : Queues) where
  -- The queue after a batch: the tasks that were there, and some of the batch's proposals.
  abbrev pub Adds : List ChannalMsg → List NodeRecvMsg → List NodeRecvMsg → Type 0
  Adds ms tasks tasks' =
      (new : List NodeRecvMsg) × (tasks' ≡ tasks ++ new) × IsPart new (proposed_by ms)

  other_type :
      (m : ChannalMsg) (ms : List ChannalMsg)
      → m.kind ≢ ChannalType.propose_type
      → propose_all channels (m ∷ ms) ≡ propose_all channels ms
  unfolding propose_all
  other_type m ms h = by_type m.kind h
    where
      by_type :
          (k : ChannalType)
          → k ≢ ChannalType.propose_type
          → elim k as (λ _. Action (List NodeRecvMsg) ℤ) [
            | ChannalType.propose_type ↦
                propose channels.thread m.propose >> propose_all channels ms
            | _ ↦ propose_all channels ms
          ]
            ≡ propose_all channels ms
      by_type ChannalType.propose_type h = elim (h refl) [ ]
      by_type _ h = refl

  this_type :
      (m : ChannalMsg) (ms : List ChannalMsg)
      → m.kind ≡ ChannalType.propose_type
      → propose_all channels (m ∷ ms)
        ≡ (propose channels.thread m.propose >> propose_all channels ms)
  unfolding propose_all
  this_type m ms h = rw h refl

  added :
      (m : ChannalMsg) (ms : List ChannalMsg) (tasks tasks' : List NodeRecvMsg)
      → m.kind ≡ ChannalType.propose_type
      → Adds ms (tasks ++ proposal m.propose ∷ []) tasks'
      → Adds (m ∷ ms) tasks tasks'
  added m ms tasks tasks' own (new, e, part) = (
    proposal m.propose ∷ new,
    e ∙ append_assoc tasks (proposal m.propose ∷ []) new,
    rw own (inl (refl, part)),
  )

  skipped :
      (m : ChannalMsg) (ms : List ChannalMsg) (tasks tasks' : List NodeRecvMsg)
      → m.kind ≡ ChannalType.propose_type
      → Adds ms tasks tasks'
      → Adds (m ∷ ms) tasks tasks'
  skipped m ms tasks tasks' own (new, e, part) =
      (new, e, rw own (IsPart-later (proposal m.propose) new (proposed_by ms) part))

  -- One proposal that the queue takes, and the rest of the batch, where `Propose` returns at all.
  taken_run :
      (m : ChannalMsg) (ms : List ChannalMsg) (tasks : List NodeRecvMsg)
      → m.kind ≡ ChannalType.propose_type
      → channels.thread.accepts tasks (proposal m.propose) ≡ true
      → Adds ms
          (tasks ++ proposal m.propose ∷ [])
          (propose_all channels ms (tasks ++ proposal m.propose ∷ [])).1
      → Adds (m ∷ ms) tasks (propose_all channels (m ∷ ms) tasks).1
  taken_run m ms tasks own taken rest =
      let put = tasks ++ proposal m.propose ∷ [] in
      let run = propose_run channels.thread m.propose tasks taken in
      rw (ap (λ f. f tasks) (this_type m ms own))
        (elim (Outcome-cases channels.thread.propose_end) [
          | inl (b, e) ↦
              let go = run ∙ ap (λ x. (x, put)) e in
              rw (then_ret _ (propose_all channels ms) tasks go) (added m ms tasks _ own rest)
          | inr (f, e) ↦
              let stop = run ∙ ap (λ x. (x, put)) e in
              rw (then_trap _ (propose_all channels ms) tasks stop)
                (added m ms tasks put own ([], sym (append-nil put), tt))
        ])

  pub propose_all_lem :
      (ms : List ChannalMsg) (tasks : List NodeRecvMsg)
      → Adds ms tasks (propose_all channels ms tasks).1
  propose_all_lem [] tasks =
      unfold propose_all in unfold do_blocks in ([], sym (append-nil tasks), tt)
  propose_all_lem (m ∷ ms) tasks = elim (proposal-cases m.kind) [
    | inr other ↦
        rw (ap (λ f. f tasks) (other_type m ms other), other_proposed m ms other)
          (propose_all_lem ms tasks)
    | inl own ↦ elim (Bool-cases (channels.thread.accepts tasks (proposal m.propose))) [
      | inl taken ↦
          taken_run m ms tasks own taken (propose_all_lem ms (tasks ++ proposal m.propose ∷ []))
      | inr refused ↦
          rw
            (ap (λ f. f tasks) (this_type m ms own)
              ∙ then_ret _ _ tasks (propose_refused channels.thread m.propose tasks refused))
            (skipped m ms tasks _ own (propose_all_lem ms tasks))
    ]
  ]

  channel_run :
      (msg : ChannalMsg) (queue : List ChannalMsg)
      → execute_channel channels msg queue
        ≡ (if channels.accepts queue msg then (ret true, queue ++ msg ∷ []) else (ret false, queue))
  unfolding execute_channel
  channel_run msg queue = refl

  stored_pair :
      (outside : StoreOutside) (key value : Bytes) (queue : List ChannalMsg)
      → let queue' = (store_propose outside channels key value queue).1 in
        (queue' ≡ queue) ⊎ (queue' ≡ queue ++ proposal_msg (outside.serialize_kv key value) ∷ [])
  unfolding store_propose raft_propose skip
  stored_pair outside key value queue =
      let msg = proposal_msg (outside.serialize_kv key value) in
      elim (Bool-cases (channels.accepts queue msg)) [
        | inl taken ↦
            let run : execute_channel channels msg queue ≡ (ret true, queue ++ msg ∷ []) =
              channel_run msg queue ∙ rw taken refl in
            inr (ap (λ p. p.1) (then_ret _ skip queue run))
        | inr refused ↦
            let run : execute_channel channels msg queue ≡ (ret false, queue) =
              channel_run msg queue ∙ rw refused refl in
            inl (ap (λ p. p.1) (then_ret _ skip queue run))
      ]

  -- A pair that the store proposes never reaches the state machine. The queue of the raft node
  -- takes it as it is serialised, or not at all. Of whatever a batch of that queue holds, some
  -- proposals go into the queue of the node, in their order, and nothing else. A batch of the node
  -- that starts with the pair is undefined before anything of the state machine has changed; and
  -- where it stands behind the first task of a batch, any other string in its place gives the same
  -- result.
  pub store_propose-lost :
      (outside : StoreOutside) (key value : Bytes) (queue ms : List ChannalMsg) (env : Env)
      (tasks : List NodeRecvMsg) (first : NodeRecvMsg) (before after : List NodeRecvMsg)
      (other : Bytes) (r : Raft)
      → let buf = outside.serialize_kv key value in
        let queue' = (store_propose outside channels key value queue).1 in
        ((queue' ≡ queue) ⊎ (queue' ≡ queue ++ proposal_msg buf ∷ []))
        × Adds ms tasks (serve_propose_channels channels false ms tasks).1
        × (run_batch env channels.thread false (proposal buf) after r ≡ (trap bad_pointer, r))
        × (run_batch env channels.thread false first (before ++ proposal buf ∷ after) r
            ≡ run_batch env channels.thread false first (before ++ proposal other ∷ after) r)
  store_propose-lost outside key value queue ms env tasks first before after other r =
      let buf = outside.serialize_kv key value in
      (
        stored_pair outside key value queue,
        unfold serve_propose_channels in propose_all_lem ms tasks,
        proposal_first env channels.thread buf after r,
        run_batch-SameKinds env channels.thread false first (before ++ proposal buf ∷ after)
            (before ++ proposal other ∷ after) r (proposal-SameKinds before after buf other),
      )
