-- ===== src/Raftexample/Defs/Store.antt =====
-- `KvStore`: the map, and the queue of what is committed.
use anraft.Base.{
  Bytes, ℕ, ◌==◌, Bool, true, false, List, [], ◌∷◌, ◌++◌, if◌then◌else◌, Outcome, ret,
}
use anraft.Base.Action.{Action, ◌>>◌, pure, reads, modify}
use anraft.Base.Int.{ℤ, pos}
use anraft.Raftexample.Defs.Channels.{Queues, ChannalMsg, raft_propose}

-- A command of `KvStoreChannelMsgType` is a byte: 0 for a pair, 1 for an error.
pub record KvStoreChannalMsg : Type 0 where
  pub cmd : ℕ
  pub body : Bytes

pub record KvStore : Type 0 where
  pub kv_store : List (Bytes × Bytes)
  pub snapshotter : ℕ
  pub queue : List KvStoreChannalMsg

-- Protobuf's KV, the queue of the store, whether it could be started, and what ReadCommits does at
-- its end, where no return statement stands.
pub record StoreOutside : Type 0 where
  pub serialize_kv : Bytes → Bytes → Bytes
  pub starts : Bool
  pub accepts : List KvStoreChannalMsg → KvStoreChannalMsg → Bool
  pub commits_end : Outcome ℤ

module _ (outside : StoreOutside) where
  -- `NewKVStore`
  unfoldable pub new_kv_store : ℕ → Action KvStore Bool
  new_kv_store snapshotter =
      modify (λ s. record s { snapshotter = snapshotter })
      >> (if outside.starts then pure true else pure false)

  -- `Propose`, on the queue of the raft node.
  unfoldable pub store_propose : Queues → Bytes → Bytes → Action (List ChannalMsg) (Unit {0})
  store_propose channels key value = raft_propose channels (outside.serialize_kv key value)

  -- `Commit`
  unfoldable pub commit : KvStoreChannalMsg → Action KvStore Bool
  commit msg s =
      if outside.accepts s.queue msg
      then (ret true, record s { queue = s.queue ++ msg ∷ [] })
      else (ret false, s)

  -- The loop of `ReadCommits`: no branch of its switch does anything.
  unfoldable pub read_all : List KvStoreChannalMsg → Action KvStore ℤ
  read_all [] = reads (λ _. outside.commits_end)
  read_all (m ∷ ms) =
      if m.cmd == 0 then read_all ms else if m.cmd == 1 then read_all ms else read_all ms

  -- `ReadCommits` on a batch.
  unfoldable pub read_commits : Bool → List KvStoreChannalMsg → Action KvStore ℤ
  unfolding read_all
  read_commits true ms = pure (pos 0)
  read_commits false ms = read_all ms

-- `Lookup`, which gives no value back.
unfoldable pub lookup : Bytes → Bytes → Action KvStore Bool
lookup key value = pure true
