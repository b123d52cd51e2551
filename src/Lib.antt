-- ===== src/Lib.antt =====
-- Verification of anraft, a raft library in C++ with an example program.
--
-- The core of the library is `Raft` (src/anraft/raft.cpp), the state machine of one node. It is
-- driven by messages (`Step`) and by a timer (`Tick`), keeps one `Progress` for each member
-- (src/anraft/progress.cpp), and writes what it wants sent into its outbox `msgs_`. Its log is a
-- `RaftLog` (src/anraft/raft_log.cpp), which joins a `Storage` (src/anraft/storage.cpp) that holds
-- the stored entries and an `Unstable` (src/anraft/log_unstable.cpp) that holds the newer ones.
--
-- Files. Each component has its state and its methods in a module Defs or in its root file, and
-- its theorems in child modules that are named for what they prove; Tests holds instances.
--   Proto: src/proto/raft.proto, the messages, entries and error codes.
--   Storage: src/anraft/storage.h and storage.cpp. `Storage` is the virtual interface as a record
--     of answers, `MemoryStorage` the class, `as_storage` the object behind the interface.
--   Unstable: src/anraft/log_unstable.h and log_unstable.cpp.
--   RaftLog: src/anraft/raft_log.h and raft_log.cpp; the reading methods are in Defs/Queries and
--     the writing ones in Defs/Updates.
--   Config: src/anraft/config.h, its constructors, with the static storage that they refer to.
--   Progress: src/anraft/progress.h and progress.cpp.
--   Raft: src/anraft/raft.h and raft.cpp. Defs/State has the fields, Defs/Roles the changes of
--     role and the count of votes, Defs/Send the outbox, Defs/Commit the count of matches, and
--     Defs/Step the handlers and ticks. Raft/Frame has one proof principle for all of them: a
--     relation that each basic change and each request for a vote keeps, every history of messages
--     and ticks keeps. Raft/Cluster has the nodes of a cluster that get what they send each
--     other and what clients propose.
--   Node: src/anraft/node.h and node.cpp, the queue of tasks in front of `Raft`. Defs/Tasks has
--     `Tick` and `Propose`, which queue tasks, and `Run`, which handles a batch of them;
--     Defs/Bootstrap has the start of a node.
--   AnraftImpl: src/anraft/anraft_impl.h and anraft_impl.cpp, an RPC node that is independent of
--     `Raft`. Defs/State has its fields and elections, Defs/Leader and Defs/Exchange the method
--     ReplicateLogToFollower, Defs/Loop the thread that calls it, ReplicateLog, with the turns of the
--     endless loop and what other threads do during its waits as a list; Defs/Recover is the start
--     of the node. It keeps its term in the database of RaftLog
--     (RaftLog/Defs/Durable) and makes its calls through AnraftClient.
--   AnraftClient: src/anraft/anraft_client.h and anraft_client.cpp, the client over brpc: its stubs by
--     their keys, and the channel that each was made with.
--   Rafthttp: src/rafthttp, the transport; Defs/Stream has the sending of messages, Defs/Links the
--     start of streams and peers.
--   Raftexample: examples/raftexample, the key-value server. Defs/Channels has the queues of its
--     raft node, through which proposals go to Node; Defs/Start has the start of that node, which
--     starts Node and Rafthttp; Defs/Store has the store, Defs/Api the HTTP handlers and
--     `main`, and Defs/Create the node that NewRaftNode makes, which nothing calls.
--   Base: shared helpers. Base/Results and Base/Action are the results and methods of C++ code,
--     Base/Words the 64-bit words, Base/Map the ordered maps, Base/Frame the rules for relations.
--
-- Conventions. A method is a function from the state to an outcome and the new state; a snake_case
-- name stands for the method of the same name. An outcome is `ret`, or a `trap` at a point of
-- undefined behaviour: a read outside a vector, an empty std::function, a null pointer. Where the
-- source goes off the end of a function that returns a value, has an empty body, or reads a
-- variable that nothing has assigned, the result is a parameter (`Unwritten` for the log, `Env`
-- for the node, `Thread` for its queue, the first argument of `compact`), so that theorems hold
-- whatever the compiler makes of it, a trap included. uint64_t is a natural number below 2 ^ 64
-- with its wrap-around written out; indices in invariants stay below 2 ^ 63, since the source
-- computes some offsets as int64_t. The int counters are integers without overflow. The random
-- generator of brpc's butil is a parameter, numbered by the calls. The calls of AnraftImpl over
-- brpc, into protobuf and into the empty methods of the log are the record `Outside`. RocksDB is
-- the record `Rocks`, with what it documents as `IsDurable`; the HTTP library is `Http`, and the
-- queues, the file system and the timer of the example are `Queues` and `Platform`. Loops are
-- structural recursion on the vector or the map; the two loops of AnraftImpl over a range of
-- indices count down the distance between its ends, which is as many turns as the loop can take.
-- Mutexes are left out: a call is one step.
--
-- Not modelled: the plain data in src/anraft/status.h and anraft_options.h and the interface in
-- anraft.h, which nothing implements; the promises of the example, which nothing sets or reads; and
-- the declarations without bodies (src/wal, src/raftsnap, src/anraft/read_only.h).
pub mod Base
pub mod Proto
pub mod Storage
pub mod Unstable
pub mod RaftLog
pub mod Config
pub mod Progress
pub mod Raft
pub mod AnraftClient
pub mod Rafthttp
pub mod AnraftImpl
pub mod Node
pub mod Raftexample
