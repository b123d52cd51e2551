-- ===== src/Storage.antt =====
-- src/anraft/storage.h and storage.cpp: the interface `Storage` and its in-memory implementation
-- `MemoryStorage`. `entries_[0]` is a dummy that holds the index and term of the last compaction.
-- The mutex only serialises the calls, so a method is one step on the object.
mod Defs
pub mod Log
pub mod Query
pub mod Write
pub mod Compact
pub mod History
mod Tests
unfoldable pub use Defs.*
