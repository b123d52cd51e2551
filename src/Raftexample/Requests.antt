-- ===== src/Raftexample/Requests.antt =====
-- What the calls of the handlers and the commits do to the store.
use anraft.Base.{ℕ, ◌≡◌, refl, ap, ◌∙◌, Bool, true, false, List, [], ◌∷◌, map, arith, ret}
use anraft.Base.Action.{do_blocks, pure, bind_ret}
use anraft.Raftexample.Defs.{
  KvStore, KvStoreChannalMsg, StoreOutside, HandlerCall, HttpResponse, no_content, default_answer,
  new_kv_store, commit, read_all, read_commits, handle, handle_all, post, put, get, lookup,
}

-- What can happen to the store: its start, a call of a handler, a commit, or a batch of commits.
pub data StoreEvent : Type 0 where
  start_event : ℕ → StoreEvent
  call_event : HandlerCall → StoreEvent
  commit_event : KvStoreChannalMsg → StoreEvent
  batch_event : Bool → List KvStoreChannalMsg → StoreEvent

-- The answer to a call, which depends on nothing but its kind.
abbrev pub answer_to : HandlerCall → HttpResponse
answer_to HandlerCall.post_call = no_content
answer_to (HandlerCall.put_call message) = no_content
answer_to (HandlerCall.get_call message) = default_answer

handle_run : (c : HandlerCall) (s : KvStore) → handle c s ≡ (ret (answer_to c), s)
unfolding handle post put get lookup do_blocks
handle_run HandlerCall.post_call s = refl
handle_run (HandlerCall.put_call message) s = refl
handle_run (HandlerCall.get_call message) s = refl

pub handle_all_run :
    (cs : List HandlerCall) (s : KvStore) → handle_all cs s ≡ (ret (map answer_to cs), s)
unfolding handle_all pure
handle_all_run [] s = refl
handle_all_run (c ∷ cs) s =
    bind_ret (handle c) _ s (handle_run c s) ∙ bind_ret (handle_all cs) _ s (handle_all_run cs s)

module _ (outside : StoreOutside) where
  abbrev pub after_event : StoreEvent → KvStore → KvStore
  after_event (StoreEvent.start_event snapshotter) s = (new_kv_store outside snapshotter s).1
  after_event (StoreEvent.call_event c) s = (handle c s).1
  after_event (StoreEvent.commit_event msg) s = (commit outside msg s).1
  after_event (StoreEvent.batch_event stopped ms) s = (read_commits outside stopped ms s).1

  abbrev pub after_events : List StoreEvent → KvStore → KvStore
  after_events [] s = s
  after_events (e ∷ es) s = after_events es (after_event e s)

  read_all_run :
      (ms : List KvStoreChannalMsg) (s : KvStore) → read_all outside ms s ≡ (outside.commits_end, s)
  unfolding read_all do_blocks
  read_all_run [] s = refl
  read_all_run (m ∷ ms) s = ground (arith, read_all_run ms s)

  event_keeps : (e : StoreEvent) (s : KvStore) → (after_event e s).kv_store ≡ s.kv_store
  unfolding commit read_commits new_kv_store do_blocks
  event_keeps (StoreEvent.start_event snapshotter) s = ground arith
  event_keeps (StoreEvent.call_event c) s = ap (λ x. x.1.kv_store) (handle_run c s)
  event_keeps (StoreEvent.commit_event msg) s = ground arith
  event_keeps (StoreEvent.batch_event true ms) s = refl
  event_keeps (StoreEvent.batch_event false ms) s = ap (λ x. x.1.kv_store) (read_all_run ms s)

  -- The map of the store stays as it was at first through any history: no start, no call of the
  -- handlers (which no HTTP request reaches), no commit and no batch of commits changes it.
  pub events-kv_store :
      (es : List StoreEvent) (s : KvStore) → (after_events es s).kv_store ≡ s.kv_store
  events-kv_store [] s = refl
  events-kv_store (e ∷ es) s = events-kv_store es (after_event e s) ∙ event_keeps e s
