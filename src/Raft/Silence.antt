-- ===== src/Raft/Silence.antt =====
-- What a node sends.
use mathlib.Core.List.{append-nil, append_assoc}
use anraft.Base.{
  ℕ, ◌≡◌, ◌≢◌, ◌⊎◌, inl, inr, refl, sym, ap, subst, ◌∙◌, List, [], ◌∷◌, ◌++◌, arith, ret,
}
use anraft.Base.Action.{do_blocks}
use anraft.Base.Frame.{Preorder, Keeps}
use anraft.Proto.{Message, MessageType}
use anraft.Raft.Defs.{
  Raft, Env, ProgressRef, in_prs, in_learners, on_log, get_progress, update_progress,
  write_progress, send_append, become_follower, become_candidate, become_leader, record_vote, send,
  bcast_append,
}
use anraft.Raft.Frame.{IsFrame, Grants, Event, run, run-frame}
use anraft.Raft.Frame.Broadcast.{for_each_progress_none}

-- On a node with an id other than zero, `BcastAppend` and `BcastHeartbeat` send nothing and change
-- nothing: the test that should skip the own id assigns it.
pub bcast_append_silent : (env : Env) (r : Raft) → r.id ≢ 0 → bcast_append env r ≡ (ret tt, r)
unfolding bcast_append
bcast_append_silent env r h = for_each_progress_none (send_append env) r h

-- The messages that are sent: answers to the leader and requests for votes, under the own id.
abbrev pub AllOwn : ℕ → List Message → Type 0
AllOwn id [] = Unit {0}
AllOwn id (m ∷ ms) =
    ((m.kind ≡ MessageType.app_resp) ⊎ (m.kind ≡ MessageType.vote)) × (m.from ≡ id) × AllOwn id ms

abbrev pub Sends : ℕ → List Message → List Message → Type 0
Sends id before after = (sent : List Message) × (after ≡ before ++ sent) × AllOwn id sent

append-AllOwn : (id : ℕ) (xs ys : List Message) → AllOwn id xs → AllOwn id ys → AllOwn id (xs ++ ys)
append-AllOwn id [] ys h k = k
append-AllOwn id (x ∷ xs) ys h k = (h.0, h.1, append-AllOwn id xs ys h.2 k)

-- From a node with an id, only such messages go out.
record Answers (r r' : Raft) : Type 0 where
  own : r.id ≢ 0 → (r'.id ≡ r.id) × Sends r.id r.msgs r'.msgs

quiet : (r r' : Raft) → r'.id ≡ r.id → r'.msgs ≡ r.msgs → Answers r r'
quiet r r' a b = record { own = λ h. (a, ([], b ∙ sym (append-nil r.msgs), tt)) }

Answers-transitive : {r s t : Raft} → Answers r s → Answers s t → Answers r t
Answers-transitive {r} {s} {t} p q = record { own = chain }
  where
    chain : r.id ≢ 0 → (t.id ≡ r.id) × Sends r.id r.msgs t.msgs
    chain h =
        let (i, (xs, e, first)) = p.own h in
        let (j, (ys, k, second)) = q.own (λ z. h (sym i ∙ z)) in
        (
          j ∙ i,
          (
            xs ++ ys,
            k ∙ ap (λ ms. ms ++ ys) e ∙ append_assoc r.msgs xs ys,
            append-AllOwn r.id xs ys first (subst (λ n. AllOwn n ys) i second),
          ),
        )

Answers-Preorder : Preorder Answers
Answers-Preorder = record { reflexive = λ r. quiet r r refl refl; transitive = Answers-transitive }

send-Answers :
    (msg : Message)
    → (msg.kind ≡ MessageType.app_resp) ⊎ (msg.kind ≡ MessageType.vote)
    → Keeps Answers (send msg)
unfolding send do_blocks
send-Answers msg h = record {
  apply = λ r. record { own = λ _. (refl, (record msg { from = r.id } ∷ [], refl, (h, refl, tt))) };
}

get_progress-Answers : (id : ℕ) → Keeps Answers (get_progress id)
unfolding get_progress
get_progress-Answers id = record { apply = λ r. quiet r _ (ground arith) (ground arith) }

update_progress-Answers : (pr : ProgressRef) (n : ℕ) → Keeps Answers (update_progress pr n)
unfolding update_progress write_progress
update_progress-Answers (in_prs id) n = record { apply = λ r. quiet r _ refl refl }
update_progress-Answers (in_learners id) n = record { apply = λ r. quiet r _ refl refl }

bcast_append-Answers : (env : Env) → Keeps Answers (bcast_append env)
bcast_append-Answers env = record {
  apply = λ r. record {
    own = λ h. rw (bcast_append_silent env r h) (refl, ([], sym (append-nil r.msgs), tt));
  };
}

Answers-Grants : Grants Answers
Answers-Grants from r = quiet r _ refl refl

Answers-IsFrame : (env : Env) → IsFrame env Answers
unfolding become_follower become_candidate become_leader record_vote on_log
Answers-IsFrame env = record {
  alone = record {
    order = Answers-Preorder;
    requests = λ msg k. send-Answers msg (inr k);
    follows = λ t lead r. quiet r _ refl refl;
    campaigns = λ r. quiet r _ refl refl;
    finds = get_progress-Answers;
    waits = λ n r. quiet r _ refl refl;
    beats = λ n r. quiet r _ refl refl;
    beats_again = λ r. quiet r _ refl refl;
  };
  answers = λ msg k. send-Answers msg (inl k);
  broadcasts = bcast_append-Answers env;
  leads = λ r. quiet r _ refl refl;
  votes = λ id vote r. quiet r _ (ground arith) (ground arith);
  updates = update_progress-Answers;
  commits = λ index t. record { apply = λ r. quiet r _ refl refl };
  appends = λ msg. record { apply = λ r. quiet r _ refl refl };
  hears = λ lead r. quiet r _ refl refl;
}

-- In any history of messages and ticks, traps included, a node with an id other than zero keeps
-- what it has sent, and adds only answers to a leader and requests for votes, under its own id:
-- never an append, a heartbeat, or an answer to a vote.
pub run_silent :
    (env : Env) (es : List Event) (r : Raft) → r.id ≢ 0 → Sends r.id r.msgs (run env es r).msgs
run_silent env es r h = ((run-frame env Answers (Answers-IsFrame env) Answers-Grants es r).own h).1
