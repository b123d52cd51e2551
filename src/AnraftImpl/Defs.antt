-- ===== src/AnraftImpl/Defs.antt =====
-- The definitions of the RPC node: its fields and elections, and what a leader does.
mod State
mod Leader
mod Exchange
mod Loop
mod Recover
unfoldable pub use State.*
unfoldable pub use Leader.*
unfoldable pub use Exchange.*
unfoldable pub use Loop.*
unfoldable pub use Recover.*
