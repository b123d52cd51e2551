-- ===== src/Raft/Defs/Send.antt =====
-- The messages that a node sends.
use anraft.Base.{
  ℕ, Bool, true, false, ◌||◌, not, List, [], ◌∷◌, ◌++◌, ltb, ◌==◌, if◌then◌else◌, sub64,
}
use anraft.Base.Action.{Action, ◌>>=◌, ◌>>◌, reads, gets, modify, skip, when, for_each}
use anraft.Proto.{RaftError, Message, MessageType, is_none, empty_message}
use anraft.Progress.{Progress, is_paused}
use anraft.RaftLog
use anraft.Raft.Defs.State.{Raft, Env, on_log, get_progress, read_progress}

-- `Send`
unfoldable pub send : Message → Action Raft (Unit {0})
send msg = modify (λ r. record r { msgs = r.msgs ++ record msg { from = r.id } ∷ [] })

-- `VoteRespMsgType`
unfoldable pub vote_resp_msg_type : MessageType → MessageType
vote_resp_msg_type MessageType.vote = MessageType.vote_resp
vote_resp_msg_type _ = MessageType.pre_vote_resp

-- `IsResponseMsg`
unfoldable pub is_response_msg : MessageType → Bool
is_response_msg MessageType.app_resp = true
is_response_msg MessageType.vote_resp = true
is_response_msg MessageType.heartbeat_resp = true
is_response_msg MessageType.unreachable = true
is_response_msg MessageType.pre_vote_resp = true
is_response_msg _ = false

-- `ForEachProgress`. A callback adds at most the node's own id to the learners, and only where
-- that id is zero, the least key: so the loop over the learners sees the map that it began with.
unfoldable pub for_each_progress : (ℕ → Progress → Action Raft (Unit {0})) → Action Raft (Unit {0})
unfolding for_each
for_each_progress f = do
  prs ← gets (λ r. r.prs)
  for_each prs (λ (id, p). f id p)
  learners ← gets (λ r. r.learner_prs)
  for_each learners (λ (id, p). f id p)

-- `if (id = this->GetID()) return; body(id)`: the assignment, and its value as the test.
unfoldable pub to_others : (ℕ → Action Raft (Unit {0})) → ℕ → Progress → Action Raft (Unit {0})
to_others body _ _ = do id ← gets (λ r. r.id); if id == 0 then body id else skip

module _ (env : Env) where
  -- The message of `SendAppend` once term and entries are looked up. No entry is added to it; after
  -- an error it has no type, which is that of MsgHup.
  unfoldable pub append_message : ℕ → Progress → RaftError × ℕ → RaftError → Raft → Message
  append_message to p (term_error, term) entries_error r =
      if not (is_none term_error) || not (is_none entries_error)
      then record empty_message { to = to }
      else record empty_message {
        to = to;
        kind = MessageType.app;
        index = sub64 p.next 1;
        term = term;
        commit = r.raftlog.committed;
      }

  -- `SendAppend`
  unfoldable pub send_append : ℕ → Action Raft (Unit {0})
  unfolding append_message
  send_append to = do
    pr ← get_progress to
    p ← gets (read_progress pr)
    if is_paused p then skip else do
      term_result ← reads (λ r. RaftLog.term env.log r.raftlog (sub64 p.next 1))
      (entries_error, _) ← reads (λ r. RaftLog.entries r.raftlog p.next r.max_msg_size [])
      msg ← gets (append_message to p term_result entries_error)
      send msg

  -- `SendHeartbeat`; the commit index is not assigned.
  unfoldable pub send_heartbeat : ℕ → List ℕ → Action Raft (Unit {0})
  send_heartbeat to ctx = do
    commit ← reads env.heartbeat_commit
    send (record empty_message {
      to = to;
      kind = MessageType.heartbeat;
      commit = commit;
      context = ctx;
    })

  -- `BcastAppend`
  unfoldable pub bcast_append : Action Raft (Unit {0})
  unfolding for_each_progress to_others
  bcast_append = for_each_progress (to_others send_append)

  -- `BcastHeartbeatWithCtx` and `BcastHeartbeat`
  unfoldable pub bcast_heartbeat_with_ctx : List ℕ → Action Raft (Unit {0})
  unfolding for_each_progress to_others
  bcast_heartbeat_with_ctx ctx = for_each_progress (to_others (λ id. send_heartbeat id ctx))

  unfoldable pub bcast_heartbeat : Action Raft (Unit {0})
  unfolding bcast_heartbeat_with_ctx
  bcast_heartbeat = do ctx ← reads env.last_pending_request_ctx; bcast_heartbeat_with_ctx ctx

  -- `HandleAppendEntries`. The first answer is no early return.
  unfoldable pub handle_append_entries : Message → Action Raft (Unit {0})
  handle_append_entries msg = do
    committed ← gets (λ r. r.raftlog.committed)
    when (ltb msg.index committed) (
        send
          (record empty_message { to = msg.from; kind = MessageType.app_resp; index = committed }))
    (index, appended) ←
        on_log (RaftLog.maybe_append env.log msg.index msg.term msg.commit msg.entries)
    if appended
        then send
            (record empty_message { to = msg.from; kind = MessageType.app_resp; index = index })
        else do
          li ← reads (λ r. RaftLog.last_index r.raftlog)
          send (record empty_message {
            to = msg.from;
            kind = MessageType.app_resp;
            index = msg.index;
            reject = true;
            reject_hint = li;
          })
