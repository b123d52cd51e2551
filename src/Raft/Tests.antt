-- ===== src/Raft/Tests.antt =====
-- Instances of the theorems on the state machine.
mod Data
mod Elections
mod Steps
mod Clusters
