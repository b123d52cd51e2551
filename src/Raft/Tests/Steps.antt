-- ===== src/Raft/Tests/Steps.antt =====
-- Instances of the theorems on the steps of a node, mostly one of three members.
use anraft.Base.{ℕ, ◌≡◌, ◌≢◌, ◌≤◌, ◌<◌, ◌⊎◌, refl, ap, true, [], ◌∷◌, arith, add64, ret}
use anraft.Proto.{RaftError, Message, MessageType, empty_message}
use anraft.Progress.{maybe_update}
use anraft.RaftLog.{RaftLog, Unwritten}
use anraft.RaftLog
use anraft.RaftLog.Query.{term_lem}
use anraft.RaftLog.Commit.{maybe_append_beyond}
use anraft.Raft.Defs.{
  Env, StateType, quorum, quorum_index, maybe_commit, handle_append_entries, become_follower, step,
}
use anraft.Raft.Frame.{run}
use anraft.Raft.Acks.{acked, Acknowledges, step-Acknowledges}
use anraft.Raft.Commits.{step-commits}
use anraft.Raft.Quorum.{matched, maybe_commit-quorum}
use anraft.Raft.Replication.{ack, handle_append_entries_lem}
use anraft.Raft.Roles.{IsCoherent, run-IsCoherent}
use anraft.Raft.Silence.{Sends, run_silent}
use anraft.Raft.History.{Evolves, run-Evolves}
use anraft.Raft.Tests.Data.{log_to_7, zeroes, at_match, node, asked, log_to_7-Ends, leading}

maybe_commit-quorum_example :
    let (changed, r') = maybe_commit zeroes node in
    ((changed ≡ ret true)
      × (6 < r'.raftlog.committed)
      × (quorum node ≤ matched r'.raftlog.committed node)
      × (r' ≡ record node { raftlog = r'.raftlog }))
    ⊎ ((changed ≢ ret true) × (r' ≡ node))
maybe_commit-quorum_example = maybe_commit-quorum zeroes node (λ e. ground arith)

-- An append behind the end of the log, which is accepted.
abbrev far_append : Message
far_append = record empty_message {
  kind = MessageType.app;
  from = 3;
  index = 9;
  term = 0;
  commit = 7;
}

handle_append_entries_lem_example : handle_append_entries zeroes far_append node ≡ (
  ret tt,
  record node { raftlog = record log_to_7 { committed = 7 }; msgs = ack 1 far_append 7 ∷ [] },
)
unfolding add64
handle_append_entries_lem_example =
    handle_append_entries_lem zeroes far_append node {n = 7} true
      (ap (λ p. p.0)
        (maybe_append_beyond zeroes.log log_to_7 log_to_7-Ends (omega arith) 9 7 [] (omega arith)
          (omega arith) tt))
      log_to_7-Ends.last_is

run-IsCoherent_example :
    let r' = run zeroes asked (become_follower zeroes 2 0 node) in
    IsCoherent r' × (r'.state ≢ StateType.candidate) × (r'.state ≢ StateType.pre_candidate)
run-IsCoherent_example = run-IsCoherent zeroes asked node 2 0

run_silent_example : Sends 1 [] (run zeroes asked node).msgs
run_silent_example = run_silent zeroes asked node (λ e. ground arith)

run-Evolves_example : Evolves node (run zeroes asked node)
run-Evolves_example = run-Evolves zeroes asked node

abbrev ack_from_3 : Message
ack_from_3 = record empty_message { kind = MessageType.app_resp; from = 3; term = 2; index = 7 }

step-Acknowledges_example : Acknowledges 3 7 (at_match 5) leading (step zeroes ack_from_3 leading).1
step-Acknowledges_example =
    step-Acknowledges zeroes ack_from_3 (at_match 5) leading refl refl refl (λ e. ground arith) refl

-- The log knows each of its entries with term 2.
abbrev knowing : Env
knowing = record zeroes { log = record (zeroes.log) { term = λ _ _. ret (RaftError.none_err, 2) } }

known : RaftLog.term knowing.log log_to_7 7 ≡ ret (RaftError.none_err, 2)
known = term_lem knowing.log log_to_7 log_to_7-Ends (omega arith) 7

step-commits_example :
    let r1 = acked 3 7 (at_match 5) leading in
    (quorum leading ≤ matched 7 r1)
    × ((y : ℕ) → (matched y r1 < quorum leading) ⊎ (y ≤ 7))
    × ((step knowing ack_from_3 leading).1
        ≡ record r1 { raftlog = record log_to_7 { committed = 7 } })
unfolding quorum_index quorum maybe_update RaftLog.zero_term_on_err_compacted add64
step-commits_example =
    step-commits knowing ack_from_3 (at_match 5) leading 7 7 refl refl refl (λ e. ground arith) refl
      refl (omega arith) known refl log_to_7-Ends.last_is
