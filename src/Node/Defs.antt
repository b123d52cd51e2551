-- ===== src/Node/Defs.antt =====
-- The definitions of a node: the queue of tasks, and the start.
mod Tasks
mod Bootstrap
unfoldable pub use Tasks.*
unfoldable pub use Bootstrap.*
