-- ===== src/Rafthttp/Peers.antt =====
-- What comes of the calls that start peers.
use anraft.Base.{
  Bytes, ℕ, ◌≡◌, true, false, List, arith, if◌then◌else◌, bad_pointer, bad_weak_ptr, Outcome, ret,
  trap,
}
use anraft.Rafthttp.Defs.{
  Http, Peer, Transport, new_peer, start_peer, add_peer, writer_start, reader_start,
}

module _ (http : Http) where
  -- `StreamWriter::Start` and `StreamReader::Start` report success whenever they return early.
  pub starts-true :
      (url : Bytes) (port : ℕ)
      → http.channel_opens url ≡ false
      → (writer_start http url ≡ ret true) × (reader_start http port ≡ ret true)
  unfolding writer_start reader_start
  starts-true url port closed = (ground (arith, closed), ground arith)

  -- `AddPeer` never adds a peer, as long as the queue's identifier cannot be written through a null
  -- pointer: a transport that no shared pointer owns, like the static one of `Instance`, has no
  -- shared pointer to itself, and any other fails in `StartPeer` at the first queue of the new
  -- peer.
  pub add_peer-traps :
      (start_end : Outcome Peer) (id : ℕ) (urls : List Bytes) (t : Transport)
      → http.start_queue true ≡ trap bad_pointer
      → add_peer http start_end id urls t
        ≡ (trap (if t.is_shared then bad_pointer else bad_weak_ptr), t)
  unfolding add_peer start_peer new_peer
  add_peer-traps start_end id urls t null = ground (arith, null)
