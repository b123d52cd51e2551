-- ===== src/Rafthttp/Defs/Links.antt =====
-- `Transport`, its peers, and the streams that it starts for them.
use anraft.Base.{
  Bytes, ℕ, Bool, true, List, sub64, bad_weak_ptr, if◌then◌else◌, Outcome, ret, trap, at, ◌>>=◌,
  ◌>>◌,
}
use anraft.Base.Action.{Action}
use anraft.Base.Map.{Map, assign}
use anraft.Rafthttp.Defs.Stream.{Http}

-- A peer, with whether each of its pointers to a queue's identifier is null.
pub record Peer : Type 0 where
  pub recv_queue_null : Bool
  pub prop_queue_null : Bool

-- `Peer()`, whose members are zeroed.
unfoldable pub new_peer : Peer
new_peer = record { recv_queue_null = true; prop_queue_null = true }

-- `Transport`, with the address of the node behind it, and whether a std::shared_ptr owns it.
-- Nothing ever enters `remotes_`.
pub record Transport : Type 0 where
  pub id : ℕ
  pub urls : List Bytes
  pub cluster_id : ℕ
  pub raft : ℕ
  pub snapshotter : ℕ
  pub peers : Map Peer
  pub is_shared : Bool

module _ (http : Http) where
  -- `StreamWriter::Start`: -1 as a bool is true. The members of the new stream are zeroed, so the
  -- pointer to the queue's identifier is null.
  unfoldable pub writer_start : Bytes → Outcome Bool
  writer_start url =
      if http.channel_opens url then (do http.start_queue true; http.writer_end) else ret true

  -- `StreamReader::Start`, which returns when the server is asked to quit.
  unfoldable pub reader_start : ℕ → Outcome Bool
  reader_start port =
      if http.adds_service
      then (if http.server_starts port then ret true else ret true)
      else ret true

  -- `StartPeer`; `start_end` is what it gives at its end, where no return statement stands.
  unfoldable pub start_peer : Outcome Peer → List Bytes → ℕ → Outcome Peer
  unfolding new_peer writer_start reader_start
  start_peer start_end urls peer_id = do
    http.start_queue new_peer.recv_queue_null
    http.start_queue new_peer.prop_queue_null
    url ← at urls (sub64 peer_id 1)
    writer_start url
    reader_start 1000
    start_end

  -- `AddPeer`, with the right side of its assignment first.
  unfoldable pub add_peer : Outcome Peer → ℕ → List Bytes → Action Transport (Unit {0})
  unfolding start_peer
  add_peer start_end id urls t =
      let started = if t.is_shared then start_peer start_end urls id else trap bad_weak_ptr in
      elim started [
        | ret peer ↦ (ret tt, record t { peers = assign id peer t.peers })
        | trap e ↦ (trap e, t)
      ]

-- `Init`, with what it gives at its end, where no return statement stands.
unfoldable pub init : Outcome Bool → ℕ → List Bytes → ℕ → ℕ → ℕ → Action Transport Bool
init init_end id urls cluster_id raft snapshotter t = (
  init_end,
  record t {
    id = id;
    urls = urls;
    cluster_id = cluster_id;
    raft = raft;
    snapshotter = snapshotter;
  },
)
