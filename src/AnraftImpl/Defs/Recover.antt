-- ===== src/AnraftImpl/Defs/Recover.antt =====
-- The start of an RPC node: its constructor, and `Recover`, which reads the term from the database.
use anraft.Base.{
  Bytes, Bool, true, false, not, [], if◌then◌else◌, uninitialised, Outcome, ret, trap,
}
use anraft.Base.Action.{Action, ◌>>=◌, ◌>>◌, pure, reads, modify, skip}
use anraft.RaftLog.{Rocks, Database, open_log, get_current_term}
use anraft.AnraftClient.{Stubs, new_client}
use anraft.Base.Int.{ℤ}
use anraft.AnraftImpl.Defs.State.{AnraftImpl, Outside, VoteResponse, election, election_callback}
use anraft.AnraftImpl.Defs.Leader.{as_int64}

-- The pointer `log_`, which the constructor does not assign, and the log that it may point to.
pub data LogPointer : Type 0 where
  unassigned null set : LogPointer

-- A node with its log and its client.
pub record Server (rocks : Rocks) : Type 0 where
  pub impl : AnraftImpl
  pub log : LogPointer
  pub database : Database rocks
  pub client : Stubs

unfoldable pub is_null : LogPointer → Outcome Bool
is_null LogPointer.unassigned = trap uninitialised
is_null LogPointer.null = ret true
is_null LogPointer.set = ret false

module _ (rocks : Rocks) where
  -- A call of a method of the log.
  unfoldable pub on_log : {A : Type 0} → Action (Database rocks) A → Action (Server rocks) A
  on_log m s = let (r, database) = m s.database in (r, record s { database = database })

  -- A method that uses the fields of the node alone.
  unfoldable pub on_impl : {A : Type 0} → Action AnraftImpl A → Action (Server rocks) A
  on_impl m s = let (r, impl) = m s.impl in (r, record s { impl = impl })

  -- `Election` of a node with its log, into which it writes nothing.
  unfoldable pub serve_election : Outside → Action (Server rocks) (Unit {0})
  unfolding on_impl
  serve_election outside = on_impl (election outside)

  -- `ElectionCallback`, which writes nothing either.
  unfoldable pub serve_callback : VoteResponse → Bool → ℤ → Bytes → Server rocks → Server rocks
  serve_callback response failed error vote_node s = record s {
    impl = election_callback response failed error vote_node s.impl;
  }

  -- `Recover`. `open_end` and `falls_off` are what `Open` and `Recover` give at their ends, where
  -- no return statement stands.
  unfoldable pub recover : Outcome Bool → Outcome Bool → Bytes → Action (Server rocks) Bool
  unfolding is_null on_log as_int64
  recover open_end falls_off path = do
    absent ← reads (λ s. is_null s.log)
    if absent then pure false else do
      is_open ← on_log (open_log rocks open_end path)
      if not is_open then pure false else do
        term ← on_log (get_current_term rocks)
        modify (λ s. record s { impl = record (s.impl) { current_term = as_int64 term } })
        reads (λ _. falls_off)

  -- The constructor: the containers, the strings and the options start empty, so the client is
  -- built for no nodes and the path of the database is empty, and the numbers stay unassigned.
  -- Either result of `Recover` only ends the constructor.
  unfoldable pub construct : Outcome Bool → Outcome Bool → Action (Server rocks) (Unit {0})
  unfolding recover new_client
  construct open_end falls_off = do
    modify (λ s. record s {
      impl = record (s.impl) {
        voted_for = [];
        follower_contexts = [];
        votes = [];
        apply_callbacks = [];
        leader = [];
        nodes = [];
        local_addr = [];
        asked = [];
        called = [];
      };
      log = LogPointer.unassigned;
      client = new_client [];
    })
    failed ← recover open_end falls_off []
    skip
