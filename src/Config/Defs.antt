-- ===== src/Config/Defs.antt =====
-- The constructors of `Config`, and the static object that they take a reference to.
use anraft.Base.{
  ℕ, ◌-◌, ◌%◌, ltb, if◌then◌else◌, Option, none, some, List, [], uninitialised, Outcome, ret, trap,
}
use anraft.Base.Action.{Action, ◌>>◌, modify, pure}
use anraft.Base.Int.{ℤ, pos, negsuc}
use anraft.Storage.{MemoryStorage, new_memory_storage}

-- The static object of `NewMemoryStorage`: it is not there before the first call.
pub record Statics : Type 0 where
  pub memory_storage : Option MemoryStorage

-- `NewMemoryStorage`: the first call constructs the object, and each call refers to it.
unfoldable pub refer_to_storage : Statics → Statics
refer_to_storage s = elim s.memory_storage [
  | none ↦ record { memory_storage = some new_memory_storage }
  | some _ ↦ s
]

-- The fields; the reference `storage_` is to the static object. What no constructor assigns cannot
-- be read.
pub record Config : Type 0 where
  pub id : Outcome ℕ
  pub peers : List ℕ
  pub learners : List ℕ
  pub election_tick : Outcome ℤ
  pub heartbeat_tick : Outcome ℤ
  pub applied : Outcome ℕ
  pub max_size_per_msg : Outcome ℕ
  pub max_inflight_msgs : Outcome ℤ

-- A uint64_t that is assigned to an int.
unfoldable pub as_int32 : ℕ → ℤ
as_int32 n =
    let low = n % 4294967296 in
    if ltb low 2147483648 then pos low else negsuc (4294967296 - low - 1)

-- `Config()`
unfoldable pub default_config : Action Statics Config
default_config = do
  modify refer_to_storage
  pure record {
    id = trap uninitialised;
    peers = [];
    learners = [];
    election_tick = trap uninitialised;
    heartbeat_tick = trap uninitialised;
    applied = trap uninitialised;
    max_size_per_msg = trap uninitialised;
    max_inflight_msgs = trap uninitialised;
  }

-- `Config` with its five arguments.
unfoldable pub new_config : ℕ → ℤ → ℤ → ℕ → ℕ → Action Statics Config
unfolding as_int32
new_config id election_tick heartbeat_tick max_size_per_msg max_inflight_msgs = do
  modify refer_to_storage
  pure record {
    id = ret id;
    peers = [];
    learners = [];
    election_tick = ret election_tick;
    heartbeat_tick = ret heartbeat_tick;
    applied = trap uninitialised;
    max_size_per_msg = ret max_size_per_msg;
    max_inflight_msgs = ret (as_int32 max_inflight_msgs);
  }
