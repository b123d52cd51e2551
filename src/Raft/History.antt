-- ===== src/Raft/History.antt =====
-- What no history of messages and ticks changes, and what only moves one way.
use anraft.Base.{ℕ, ◌≡◌, refl, List, arith}
use anraft.Base.Action.{do_blocks}
use anraft.Base.Frame.{Preorder, Keeps}
use anraft.Base.Int.{pos, ◌≤ℤ◌, +ℤ_parts}
use anraft.Base.Map.{keys, keys-replace}
use anraft.Proto.{Message}
use anraft.Progress.{maybe_update}
use anraft.RaftLog.Commit.{
  OnlyCommits, OnlyCommits-refl, OnlyCommits-trans, maybe_commit-OnlyCommits,
  maybe_append-OnlyCommits,
}
use anraft.Raft.Defs.{
  Raft, Env, ProgressRef, in_prs, in_learners, on_log, get_progress, update_progress, read_progress,
  write_progress, become_follower, become_candidate, become_leader, record_vote, send,
}
use anraft.Raft.Growth.{Grows, Grows-refl, Grows-trans, update-Grows}
use anraft.Raft.Frame.{IsFrame, Grants, Event, run, run-frame}
use anraft.Raft.Frame.Broadcast.{bcast_append-Keeps}

-- The identity, the term, the members and the settings stay; their indices only grow, the log only
-- commits, and nothing takes the heartbeat counter back.
pub record Evolves (r r' : Raft) : Type 0 where
  pub same_id : r'.id ≡ r.id
  pub same_term : r'.term ≡ r.term
  pub same_members : keys r'.prs ≡ keys r.prs
  pub members_grow : Grows r.prs r'.prs
  pub same_learner : r'.is_learner ≡ r.is_learner
  pub same_pre_vote : r'.pre_vote ≡ r.pre_vote
  pub same_check_quorum : r'.check_quorum ≡ r.check_quorum
  pub same_timeout : r'.election_timeout ≡ r.election_timeout
  pub same_beat_timeout : r'.heartbeat_timeout ≡ r.heartbeat_timeout
  pub same_max_size : r'.max_msg_size ≡ r.max_msg_size
  pub same_transferee : r'.lead_transferee ≡ r.lead_transferee
  pub log : OnlyCommits r.raftlog r'.raftlog
  pub beats : r.heartbeat_elapsed ≤ℤ r'.heartbeat_elapsed

Evolves-trans : {r s t : Raft} → Evolves r s → Evolves s t → Evolves r t
Evolves-trans {r} {s} {t} p q = record {
  same_id = cc;
  same_term = cc;
  same_members = cc;
  members_grow = Grows-trans r.prs s.prs t.prs p.members_grow q.members_grow;
  same_learner = cc;
  same_pre_vote = cc;
  same_check_quorum = cc;
  same_timeout = cc;
  same_beat_timeout = cc;
  same_max_size = cc;
  same_transferee = cc;
  log = OnlyCommits-trans p.log q.log;
  beats = omega (arith, p.beats, q.beats);
}

pub Evolves-Preorder : Preorder Evolves
Evolves-Preorder = record {
  reflexive = λ r. record {
    same_id = refl;
    same_term = refl;
    same_members = refl;
    members_grow = Grows-refl r.prs;
    same_learner = refl;
    same_pre_vote = refl;
    same_check_quorum = refl;
    same_timeout = refl;
    same_beat_timeout = refl;
    same_max_size = refl;
    same_transferee = refl;
    log = OnlyCommits-refl r.raftlog;
    beats = omega arith;
  };
  transitive = Evolves-trans;
}

send-Evolves : (msg : Message) → Keeps Evolves (send msg)
unfolding send do_blocks
send-Evolves msg = record {
  apply = λ r. ground (arith, OnlyCommits-refl r.raftlog, Grows-refl r.prs);
}

get_progress-Evolves : (id : ℕ) → Keeps Evolves (get_progress id)
unfolding get_progress
get_progress-Evolves id = record {
  apply = λ r. ground (arith, OnlyCommits-refl r.raftlog, Grows-refl r.prs);
}

update_progress-Evolves : (pr : ProgressRef) (n : ℕ) → Keeps Evolves (update_progress pr n)
unfolding update_progress write_progress
update_progress-Evolves (in_prs id) n = record {
  apply = λ r. ground (
    arith,
    OnlyCommits-refl r.raftlog,
    Grows-refl r.prs,
    keys-replace id (maybe_update n (read_progress (in_prs id) r)).0 r.prs,
    update-Grows id n r,
  );
}
update_progress-Evolves (in_learners id) n = record {
  apply = λ r. ground (arith, OnlyCommits-refl r.raftlog, Grows-refl r.prs);
}

pub Evolves-Grants : Grants Evolves
Evolves-Grants from r = ground (arith, OnlyCommits-refl r.raftlog, Grows-refl r.prs)

pub Evolves-IsFrame : (env : Env) → IsFrame env Evolves
unfolding become_follower become_candidate become_leader record_vote on_log
Evolves-IsFrame env = record {
  alone = record {
    order = Evolves-Preorder;
    requests = λ msg _. send-Evolves msg;
    follows = λ t lead r. ground (arith, OnlyCommits-refl r.raftlog, Grows-refl r.prs);
    campaigns = λ r. ground (arith, OnlyCommits-refl r.raftlog, Grows-refl r.prs);
    finds = get_progress-Evolves;
    waits = λ n r. ground (arith, OnlyCommits-refl r.raftlog, Grows-refl r.prs);
    beats = λ n r.
        ground (
          arith,
          OnlyCommits-refl r.raftlog,
          Grows-refl r.prs,
          +ℤ_parts r.heartbeat_elapsed (pos 1),
        );
    beats_again = λ r.
        ground (
          arith,
          OnlyCommits-refl r.raftlog,
          Grows-refl r.prs,
          +ℤ_parts r.heartbeat_elapsed (pos 1),
        );
  };
  answers = λ msg _. send-Evolves msg;
  broadcasts = bcast_append-Keeps env Evolves Evolves-Preorder get_progress-Evolves send-Evolves;
  leads = λ r. ground (arith, OnlyCommits-refl r.raftlog, Grows-refl r.prs);
  votes = λ id vote r. ground (arith, OnlyCommits-refl r.raftlog, Grows-refl r.prs);
  updates = update_progress-Evolves;
  commits = λ index t. record {
    apply =
        λ r. ground (arith, maybe_commit-OnlyCommits env.log index t r.raftlog, Grows-refl r.prs);
  };
  appends = λ msg. record {
    apply = λ r. ground (
      arith,
      maybe_append-OnlyCommits env.log msg.index msg.term msg.commit msg.entries r.raftlog,
      Grows-refl r.prs,
    );
  };
  hears = λ lead r. ground (arith, OnlyCommits-refl r.raftlog, Grows-refl r.prs);
}

-- Whatever comes in, in whatever order, and whatever the source leaves open, traps included: the
-- id, the term, the ids of the members, the learner mark, the target of a transfer and the settings
-- of a node stay (pre-vote, quorum check, election and heartbeat timeout, largest message); no
-- matched or next index of a member goes down, its log stores nothing and never lowers its commit
-- index, and the heartbeat counter never goes down.
pub run-Evolves : (env : Env) (es : List Event) (r : Raft) → Evolves r (run env es r)
run-Evolves env es r = run-frame env Evolves (Evolves-IsFrame env) Evolves-Grants es r
