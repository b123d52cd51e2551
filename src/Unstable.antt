-- ===== src/Unstable.antt =====
-- src/anraft/log_unstable.h and log_unstable.cpp: the entries that are not in the storage yet.
-- `entries_[i]` has the log position i + `offset_`.
mod Defs
pub mod Truncate
mod Tests
unfoldable pub use Defs.*
