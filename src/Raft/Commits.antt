-- ===== src/Raft/Commits.antt =====
-- When a leader commits.
use anraft.Base.{ℕ, ◌+◌, ◌/◌, ◌≡◌, ◌≢◌, ◌<◌, ◌≤◌, ◌⊎◌, sym, ap, ◌∙◌, false, some, ret}
use anraft.Base.Map.{find, length-replace}
use anraft.Proto.{Message, MessageType, RaftError}
use anraft.Progress.{Progress, maybe_update}
use anraft.Raft.Defs.{Raft, Env, StepFunc, quorum, quorum_index, step}
use anraft.RaftLog
use anraft.Raft.Quorum.{matched, quorum_index_lem, maybe_commit_run}
use anraft.Raft.Acks.{acked, acked_run}

ret_injective : {A : Type 0} {a b : A} → ret a ≡ ret b → a ≡ b
ret_injective e = cc

quorum-acked : (from n : ℕ) (p : Progress) (r : Raft) → quorum (acked from n p r) ≡ quorum r
unfolding quorum
quorum-acked from n p r = ap (λ k. k / 2 + 1) (length-replace from (maybe_update n p).0 r.prs)

-- The acknowledgement that completes a quorum is committed: where the largest index that a quorum
-- has matched with it is above the commit index, the log knows that index with the term of the
-- node, and the last index can be read, the step raises the commit index to it, and changes nothing
-- else but the progress of the sender.
pub step-commits :
    (env : Env) (msg : Message) (p : Progress) (r : Raft) (x li : ℕ) {found : RaftError × ℕ}
    → msg.kind ≡ MessageType.app_resp
    → msg.reject ≡ false
    → r.step_func ≡ StepFunc.leader_step
    → r.id ≢ 0
    → find msg.from r.prs ≡ some p
    → quorum_index (acked msg.from msg.index p r) ≡ ret x
    → r.raftlog.committed < x
    → RaftLog.term env.log r.raftlog x ≡ ret found
    → RaftLog.zero_term_on_err_compacted found ≡ r.term
    → RaftLog.last_index r.raftlog ≡ ret li
    → let r1 = acked msg.from msg.index p r in
      (quorum r ≤ matched x r1)
      × ((y : ℕ) → (matched y r1 < quorum r) ⊎ (y ≤ x))
      × ((step env msg r).1 ≡ record r1 { raftlog = record (r.raftlog) { committed = x } })
step-commits env msg p r x li kind good leads named is_member picked above term current ends =
    let r1 : Raft = acked msg.from msg.index p r in
    let (members, run) = acked_run env msg p r kind good leads named is_member in
    let (x', at, many, most) = quorum_index_lem r1 members in
    let same : x' ≡ x = ret_injective (sym at ∙ picked) in
    let size = quorum-acked msg.from msg.index p r in
    (
      rw (← size, ← same) many,
      λ y. rw (← size, ← same) (most y),
      run ∙ ap (λ x. x.1) (maybe_commit_run env r1 x li picked above term current ends),
    )
