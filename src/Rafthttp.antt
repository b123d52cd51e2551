-- ===== src/Rafthttp.antt =====
-- src/rafthttp: the transport between the nodes, of which the sending of queued messages and the
-- start of peers are written.
mod Defs
pub mod Sending
pub mod Peers
mod Tests
unfoldable pub use Defs.*
