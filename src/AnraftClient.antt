-- ===== src/AnraftClient.antt =====
-- src/anraft/anraft_client.h and anraft_client.cpp: the client of an RPC node, which has one stub
-- for each node.
mod Defs
pub mod Calls
mod Tests
unfoldable pub use Defs.*
