-- ===== src/RaftLog.antt =====
-- src/anraft/raft_log.h and raft_log.cpp: the log, which joins a storage and the unstable tail and
-- holds the commit index.
mod Defs
pub mod Query
pub mod Slice
pub mod Whole
pub mod Commit
pub mod Append
pub mod Growing
pub mod Recovery
pub mod Shelf
mod Tests
unfoldable pub use Defs.*
