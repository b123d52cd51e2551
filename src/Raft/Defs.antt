-- ===== src/Raft/Defs.antt =====
-- The methods of `Raft`, over its whole state; each child holds a part of them.
mod State
mod Roles
mod Send
mod Commit
mod Step
unfoldable pub use State.*
unfoldable pub use Roles.*
unfoldable pub use Send.*
unfoldable pub use Commit.*
unfoldable pub use Step.*
