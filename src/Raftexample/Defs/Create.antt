-- ===== src/Raftexample/Defs/Create.antt =====
-- `NewRaftNode` with the constructor that it calls, and `ServeRaft`.
use anraft.Base.{
  Bytes, ℕ, suc, Bool, false, Option, none, some, List, [], ◌∷◌, ◌++◌, digits, if◌then◌else◌,
  Outcome, ret, at, ◌>>=◌,
}
use anraft.Base.Int.{ℤ, pos, negsuc, ◌+ℤ◌, ltb_ℤ}
use anraft.Raftexample.Defs.Channels.{RaftNode}
use anraft.Raftexample.Defs.Start.{as_uint64}

-- `std::to_string`, with room for all digits.
unfoldable pub to_string : ℤ → Bytes
to_string (pos n) = digits (suc n) n
to_string (negsuc n) = 45 ∷ digits (suc (suc n)) (suc n)

-- The letters of "raftexample-" and "-snap".
abbrev pub dir_prefix : Bytes
dir_prefix = 114 ∷ 97 ∷ 102 ∷ 116 ∷ 101 ∷ 120 ∷ 97 ∷ 109 ∷ 112 ∷ 108 ∷ 101 ∷ 45 ∷ []

abbrev pub snap_suffix : Bytes
snap_suffix = 45 ∷ 115 ∷ 110 ∷ 97 ∷ 112 ∷ []

-- What NewRaftNode is given; the promises are left out.
pub record NodeArguments : Type 0 where
  pub id : ℤ
  pub peers : List Bytes
  pub join : Bool
  pub has_snapshot_func : Bool

-- A node with the two fields that only the constructor sets.
pub record CreatedNode : Type 0 where
  pub node : RaftNode
  pub waldir : Bytes
  pub snap_count : ℕ

-- The constructor of six arguments.
unfoldable pub construct_node : NodeArguments → CreatedNode
unfolding to_string
construct_node args = record {
  node = record {
    id = args.id;
    peers = args.peers;
    join = args.join;
    has_snapshot_func = args.has_snapshot_func;
    snapdir = dir_prefix ++ to_string args.id ++ snap_suffix;
    tasks = [];
    propose_queue = [];
    ready_queue = [];
    is_serving = false;
  };
  waldir = dir_prefix ++ to_string args.id;
  snap_count = 10000;
}

-- `NewRaftNode`: its node is static, so only the first call constructs one. It then starts a thread
-- with `StartRaft`, and goes on also where that fails.
unfoldable pub new_raft_node : NodeArguments → Option CreatedNode → CreatedNode
unfolding construct_node
new_raft_node args none = construct_node args
new_raft_node args (some node) = node

-- `ServeRaft`, with the result of parsing the own URL, which it only tests.
unfoldable pub serve_raft : (Bytes → ℤ) → RaftNode → Outcome (Unit {0})
unfolding as_uint64
serve_raft parse node = do
  url ← at node.peers (as_uint64 (node.id +ℤ negsuc 0))
  if ltb_ℤ (parse url) (pos 0) then ret tt else ret tt
