-- ===== src/Raftexample/Defs.antt =====
-- The definitions of the example: the channels of its raft node, the start of that node, the store,
-- and the HTTP interface with the main program.
mod Channels
mod Start
mod Store
mod Api
mod Create
unfoldable pub use Channels.*
unfoldable pub use Start.*
unfoldable pub use Store.*
unfoldable pub use Api.*
unfoldable pub use Create.*
