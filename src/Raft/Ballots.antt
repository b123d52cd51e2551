-- ===== src/Raft/Ballots.antt =====
-- The votes that a node gives over time.
use anraft.Base.{ℕ, ◌≡◌, ◌≢◌, ◌≤◌, ◌⊎◌, inl, inr, refl, List, [], ◌∷◌, ◌∙◌, sym, arith}
use anraft.Base.Action.{do_blocks}
use anraft.Base.Frame.{Preorder, Keeps}
use anraft.Proto.{Message}
use anraft.Raft.Defs.{
  Raft, Env, ProgressRef, in_prs, in_learners, on_log, get_progress, update_progress,
  write_progress, become_follower, become_candidate, become_leader, record_vote, send,
  on_vote_request,
}
use anraft.Raft.Frame.{IsFrame, IsRequest, Event, deliver, timer, run, AllRequests, run-Keeps}
use anraft.Raft.Frame.Broadcast.{bcast_append-Keeps}

-- A vote stays, or the node takes it back for itself.
abbrev pub StaysOrOwn : Raft → Raft → Type 0
StaysOrOwn r r' = (r'.vote ≡ r.vote) ⊎ (r'.vote ≡ r.id)

-- From a node with an id, in a term that no request for a vote exceeds.
record OneVote (t : ℕ) (r r' : Raft) : Type 0 where
  kept :
      r.id ≢ 0
      → t ≤ r.term
      → (r'.id ≡ r.id) × (r'.term ≡ r.term) × (r.vote ≢ 0 → (r'.vote ≢ 0) × StaysOrOwn r r')

module _ (t : ℕ) where
  -- Fields that stay.
  same_vote : (r r' : Raft) → r'.id ≡ r.id → r'.term ≡ r.term → r'.vote ≡ r.vote → OneVote t r r'
  same_vote r r' a b c = record { kept = λ _ _. (a, b, λ v. ((λ e. v (sym c ∙ e)), inl c)) }

  OneVote-transitive : {r s u : Raft} → OneVote t r s → OneVote t s u → OneVote t r u
  OneVote-transitive p q = record {
    kept = λ named bound.
        let (i, e, v) = p.kept named bound in
        let (j, k, w) = q.kept (λ z. named (sym i ∙ z)) (omega (arith, e, bound)) in
        (j ∙ i, k ∙ e, λ z. ground (arith, v, w, z, i));
  }

  OneVote-Preorder : Preorder (OneVote t)
  OneVote-Preorder = record {
    reflexive = λ r. same_vote r r refl refl refl;
    transitive = OneVote-transitive;
  }

  send-OneVote : (msg : Message) → Keeps (OneVote t) (send msg)
  unfolding send do_blocks
  send-OneVote msg = record { apply = λ r. same_vote r _ refl refl refl }

  get_progress-OneVote : (id : ℕ) → Keeps (OneVote t) (get_progress id)
  unfolding get_progress
  get_progress-OneVote id = record {
    apply = λ r. same_vote r _ (ground arith) (ground arith) (ground arith);
  }

  update_progress-OneVote : (pr : ProgressRef) (n : ℕ) → Keeps (OneVote t) (update_progress pr n)
  unfolding update_progress write_progress
  update_progress-OneVote (in_prs id) n = record { apply = λ r. same_vote r _ refl refl refl }
  update_progress-OneVote (in_learners id) n = record { apply = λ r. same_vote r _ refl refl refl }

  OneVote-IsFrame : (env : Env) → IsFrame env (OneVote t)
  unfolding become_follower become_candidate become_leader record_vote on_log
  OneVote-IsFrame env = record {
    alone = record {
      order = OneVote-Preorder;
      requests = λ msg _. send-OneVote msg;
      follows = λ term lead r. same_vote r _ refl refl refl;
      campaigns = λ r. record { kept = λ named _. (refl, refl, λ v. (named, inr refl)) };
      finds = get_progress-OneVote;
      waits = λ n r. same_vote r _ refl refl refl;
      beats = λ n r. same_vote r _ refl refl refl;
      beats_again = λ r. same_vote r _ refl refl refl;
    };
    answers = λ msg _. send-OneVote msg;
    broadcasts =
        bcast_append-Keeps env (OneVote t) OneVote-Preorder get_progress-OneVote send-OneVote;
    leads = λ r. same_vote r _ refl refl refl;
    votes = λ id vote r. same_vote r _ (ground arith) (ground arith) (ground arith);
    updates = update_progress-OneVote;
    commits = λ index term. record { apply = λ r. same_vote r _ refl refl refl };
    appends = λ msg. record { apply = λ r. same_vote r _ refl refl refl };
    hears = λ lead r. same_vote r _ refl refl refl;
  }

  request-OneVote :
      (env : Env) (msg : Message) → msg.term ≤ t → Keeps (OneVote t) (on_vote_request env msg)
  unfolding on_vote_request do_blocks
  request-OneVote env msg h = record {
    apply = λ r. record { kept = λ named bound. ground (arith, h, bound) };
  }

-- No request for a vote is of a higher term.
abbrev pub RequestsUpTo : ℕ → List Event → Type 0
RequestsUpTo t [] = Unit {0}
RequestsUpTo t (deliver msg ∷ es) = (IsRequest msg.kind → msg.term ≤ t) × RequestsUpTo t es
RequestsUpTo t (timer ∷ es) = RequestsUpTo t es

all_requests :
    (env : Env) (t : ℕ) (es : List Event) → RequestsUpTo t es → AllRequests env (OneVote t) es
all_requests env t [] h = tt
all_requests env t (deliver msg ∷ es) h =
    (λ k. request-OneVote t env msg (h.0 k), all_requests env t es h.1)
all_requests env t (timer ∷ es) h = all_requests env t es h

-- A node with an id that has voted votes for no other candidate, as long as no request for a vote
-- is of a term above its own: after any history of messages and ticks, traps included, its vote is
-- what it was, or its own since it campaigns. Its term is the same all the while.
pub run-one_vote :
    (env : Env) (es : List Event) (r : Raft)
    → r.id ≢ 0
    → r.vote ≢ 0
    → RequestsUpTo r.term es
    → ((run env es r).term ≡ r.term) × StaysOrOwn r (run env es r)
run-one_vote env es r named voted h =
    let (_, term, vote) =
      (run-Keeps env (OneVote r.term) (OneVote-IsFrame r.term env) es (all_requests env r.term es h)
          r).kept
        named (omega arith) in
    (term, (vote voted).1)
