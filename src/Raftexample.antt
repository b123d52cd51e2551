-- ===== src/Raftexample.antt =====
-- examples/raftexample: the key-value server on top of the library, with its raft node, its store
-- and its HTTP interface.
mod Defs
pub mod Proposals
pub mod Startup
pub mod Requests
pub mod Program
pub mod Directories
mod Tests
unfoldable pub use Defs.*
