-- ===== src/Raft/Frame.antt =====
-- What every message and tick keeps to. A relation between the states before and after that each
-- basic change and each vote keeps to is kept by the whole handler; `run` follows a history of
-- messages and ticks.
mod Rules
mod Local
mod Followers
mod Leaders
mod Steps
pub mod Broadcast
mod Runs
pub use Rules.{IsLocal, IsFrame, Grants}
pub use Local.{call_step-Keeps, on_vote_request-Keeps, tick-Keeps}
pub use Steps.{IsRequest, step-Keeps}
unfoldable pub use Runs.*
