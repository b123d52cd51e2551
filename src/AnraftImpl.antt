-- ===== src/AnraftImpl.antt =====
-- src/anraft/anraft_impl.h and anraft_impl.cpp: the RPC node with its own election and replication,
-- which does not use `Raft`.
mod Defs
pub mod Election
pub mod Replication
pub mod Commit
pub mod Advance
pub mod Stall
pub mod Threads
pub mod Blocked
pub mod Restart
mod Tests
unfoldable pub use Defs.*
