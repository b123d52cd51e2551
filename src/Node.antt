-- ===== src/Node.antt =====
-- src/anraft/node.h and node.cpp: the queue of tasks in front of the state machine.
mod Defs
pub mod Batches
pub mod Bootstrap
pub mod Ticks
pub mod Leaderless
mod Tests
unfoldable pub use Defs.*
