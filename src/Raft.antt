-- ===== src/Raft.antt =====
-- src/anraft/raft.h and raft.cpp: the state machine of a node.
mod Defs
pub mod Frame
pub mod Quorum
pub mod Campaign
pub mod Timeout
pub mod Election
pub mod Ballots
pub mod Overlap
pub mod Cluster
pub mod Replication
pub mod Acks
pub mod Commits
pub mod Roles
pub mod Silence
pub mod Growth
pub mod History
pub mod Samples
mod Tests
unfoldable pub use Defs.*
