-- ===== src/Raft/Replication.antt =====
-- How a leader numbers entries and picks the index to commit, and how a follower answers.
use anraft.Base.{
  ℕ, suc, ◌+◌, ◌<◌, ◌≡◌, ◌∙◌, inl, inr, refl, sym, ap, subst, Bool, true, false, List, [], ◌∷◌,
  ◌++◌, arith, length, ltb, add64, u64_mod, Outcome, ret, Bool-cases, if◌then◌else◌, min, max,
}
use mathlib.Core.List.{append-nil}
use anraft.Base.Action.{Action, do_blocks, when, bind_ret, then_ret, reads_ret, gets_ret}
use anraft.Proto.{Message, MessageType, LogEntry, empty_message}
use anraft.Storage.Log.{IsIndexed}
use anraft.RaftLog
use anraft.RaftLog.Commit as LogCommit
use anraft.RaftLog.{RaftLog}
use anraft.Raft.Defs.{Raft, Env, number_entries, handle_append_entries, on_log, send}

-- Every entry carries the term.
abbrev pub AllOfTerm : ℕ → List LogEntry → Type 0
AllOfTerm t [] = Unit {0}
AllOfTerm t (e ∷ es) = (e.term ≡ t) × AllOfTerm t es

number_word : (li i : ℕ) → li + 1 + i < u64_mod → add64 (add64 li 1) i ≡ li + 1 + i
unfolding add64
number_word li i h = omega arith

-- The proposed entries get the leader's term, and consecutive indices behind the last one, as long
-- as these fit in a word; none is added or lost.
pub number_entries_lem :
    (t li i : ℕ) (es : List LogEntry)
    → li + 1 + i + length es < u64_mod
    → let numbered = number_entries t li i es in
      IsIndexed (li + 1 + i) numbered × AllOfTerm t numbered × (length numbered ≡ length es)
unfolding number_entries
number_entries_lem t li i [] h = (tt, tt, refl)
number_entries_lem t li i (e ∷ es) h =
    let (run, terms, size) = number_entries_lem t li (suc i) es (omega arith) in
    let next : li + 1 + suc i ≡ suc (li + 1 + i) = omega arith in
    (
      (
        number_word li i (omega arith),
        subst (λ b. IsIndexed b (number_entries t li (suc i) es)) next run,
      ),
      (refl, terms),
      ap suc size,
    )

-- The answer to an append that the log accepted, and to one that it did not.
abbrev pub ack : ℕ → Message → ℕ → Message
ack id msg index = record empty_message {
  kind = MessageType.app_resp;
  to = msg.from;
  from = id;
  index = index;
}

abbrev pub nack : ℕ → Message → ℕ → Message
nack id msg hint = record (ack id msg msg.index) { reject = true; reject_hint = hint }

-- An append below the commit index is answered at once, and then handled all the same.
abbrev pub early : Raft → Message → List Message
early r msg =
    if ltb msg.index r.raftlog.committed then ack r.id msg r.raftlog.committed ∷ [] else []

-- The node once the early answer is in its outbox.
abbrev answered : Raft → Message → Raft
answered r msg = record r { msgs = r.msgs ++ early r msg }

early_run :
    (msg m : Message) (r : Raft)
    → record m { from = r.id } ≡ ack r.id msg r.raftlog.committed
    → when (ltb msg.index r.raftlog.committed) (send m) r ≡ (ret tt, answered r msg)
unfolding send do_blocks
early_run msg m r same =
    let nothing : r.msgs ++ [] ≡ r.msgs = append-nil r.msgs in
    elim (Bool-cases (ltb msg.index r.raftlog.committed)) [
      | inl below ↦ ground arith
      | inr above ↦ ground arith
    ]

on_log_run :
    {A : Type 0} (m : Action RaftLog A) (r : Raft) {x : Outcome A} {l : RaftLog}
    → m r.raftlog ≡ (x, l)
    → on_log m r ≡ (x, record r { raftlog = l })
unfolding on_log
on_log_run m r h = ap (λ p. (p.0, record r { raftlog = p.1 })) h

send_run :
    (m : Message) (r : Raft)
    → send m r ≡ (ret tt, record r { msgs = r.msgs ++ record m { from = r.id } ∷ [] })
unfolding send do_blocks
send_run m r = refl

-- The runs of the handler by what `MaybeAppend` says.
module _ (env : Env) (msg : Message) (r : Raft) {l : RaftLog} where
  accepted_run :
      (n : ℕ)
      → RaftLog.maybe_append env.log msg.index msg.term msg.commit msg.entries r.raftlog
        ≡ (ret (n, true), l)
      → handle_append_entries env msg r
        ≡ (ret tt, record r { raftlog = l; msgs = (r.msgs ++ early r msg) ++ ack r.id msg n ∷ [] })
  unfolding handle_append_entries
  accepted_run n h =
      bind_ret _ _ r (gets_ret _ r)
      ∙ then_ret _ _ r (early_run msg _ r refl)
      ∙ bind_ret _ _ (answered r msg) (on_log_run _ (answered r msg) h)
      ∙ send_run _ (record r { raftlog = l; msgs = r.msgs ++ early r msg })

  refused_run :
      (n li : ℕ)
      → RaftLog.maybe_append env.log msg.index msg.term msg.commit msg.entries r.raftlog
        ≡ (ret (n, false), l)
      → RaftLog.last_index l ≡ ret li
      → handle_append_entries env msg r ≡ (
        ret tt,
        record r { raftlog = l; msgs = (r.msgs ++ early r msg) ++ nack r.id msg li ∷ [] },
      )
  unfolding handle_append_entries
  refused_run n li h end =
      let r1 : Raft = record r { raftlog = l; msgs = r.msgs ++ early r msg } in
      bind_ret _ _ r (gets_ret _ r)
      ∙ then_ret _ _ r (early_run msg _ r refl)
      ∙ bind_ret _ _ (answered r msg) (on_log_run _ (answered r msg) h)
      ∙ bind_ret _ _ r1 (reads_ret _ r1 end)
      ∙ send_run _ r1

-- Where the comparison with the log does not trap and the last index can be read, an append below
-- the commit index is answered twice, and any other once. The last answer to an accepted append
-- acknowledges the leader's commit index, not the last entry that came with it, and the log's
-- commit index moves up; a refused one changes nothing but the outbox.
pub handle_append_entries_lem :
    (env : Env) (msg : Message) (r : Raft) {n li : ℕ} (accepted : Bool)
    → (RaftLog.maybe_append env.log msg.index msg.term msg.commit msg.entries r.raftlog).0
      ≡ ret (n, accepted)
    → RaftLog.last_index r.raftlog ≡ ret li
    → handle_append_entries env msg r ≡ (
      ret tt,
      record r {
        raftlog =
            if accepted
            then record r.raftlog {
              committed =
                  max r.raftlog.committed (min msg.commit (add64 msg.index (length msg.entries)));
            }
            else r.raftlog;
        msgs =
            (r.msgs ++ early r msg)
            ++ (if accepted then ack r.id msg msg.commit else nack r.id msg li) ∷ [];
      },
    )
handle_append_entries_lem env msg r {n} {li} true h end =
    elim (LogCommit.maybe_append_lem env.log msg.index msg.term msg.commit msg.entries r.raftlog) [
      | inl (said, _, after) ↦ accepted_run env msg r msg.commit (λ i. (said i, after i))
      | inr (never, _) ↦ absurd (never n h)
    ]
handle_append_entries_lem env msg r {n} {li} false h end =
    elim (LogCommit.maybe_append_lem env.log msg.index msg.term msg.commit msg.entries r.raftlog) [
      | inl (said, _, after) ↦ absurd (differ (sym said ∙ h))
      | inr (_, same) ↦ refused_run env msg r n li (λ i. (h i, same i)) end
    ]
  where
    differ : {m k : ℕ} → ◌≡◌ {A = Outcome (ℕ × Bool)} (ret (m, true)) (ret (k, false)) → ⊥
    differ e = ground arith
