-- ===== src/Rafthttp/Defs.antt =====
-- The definitions of the transport: the streams, and the peers that use them.
mod Stream
mod Links
unfoldable pub use Stream.*
unfoldable pub use Links.*
