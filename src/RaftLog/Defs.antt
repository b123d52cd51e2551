-- ===== src/RaftLog/Defs.antt =====
-- The methods of `RaftLog`. A reading method is a function of the log; a panic that the source
-- leaves as a TODO is not there. Where `l.storage` is `none`, the pointer is not valid.
mod Queries
mod Updates
mod Durable
unfoldable pub use Queries.*
unfoldable pub use Updates.*
unfoldable pub use Durable.*
