-- ===== src/Raft/Frame/Followers.antt =====
-- The handlers of a follower and of a candidate.
use anraft.Base.{ℕ, refl, Bool, not}
use anraft.Base.Frame.{
  Preorder, Keeps, bind-Keeps, then-Keeps, reads-Keeps, gets-Keeps, skip-Keeps, modify-Keeps,
  if-Keeps, when-Keeps,
}
use anraft.Proto.{Message, MessageType}
use anraft.Raft.Defs.{
  Raft, Env, poll, handle_append_entries, on_follower, on_vote_resp, on_candidate,
}
use anraft.Raft.Frame.Rules.{IsFrame}

module _ (env : Env) (R : Raft → Raft → Type 0) (f : IsFrame env R) where
  pub handle_append_entries-Keeps : (msg : Message) → Keeps R (handle_append_entries env msg)
  unfolding handle_append_entries
  handle_append_entries-Keeps msg = bind-Keeps R o _ _ (gets-Keeps R o _) λ committed.
      then-Keeps R o _ _ (when-Keeps R o _ _ (f.answers _ refl)) (
        bind-Keeps R o _ _ (f.appends msg) λ x.
          if-Keeps R o _ _ _ (f.answers _ refl)
            (bind-Keeps R o _ _ (reads-Keeps R o _) λ li. f.answers _ refl))
    where
      o : Preorder R
      o = f.alone.order

  pub on_follower-Keeps : (kind : MessageType) (msg : Message) → Keeps R (on_follower env kind msg)
  unfolding on_follower
  on_follower-Keeps MessageType.app msg =
      then-Keeps R f.alone.order _ _ (modify-Keeps R f.alone.order _ (f.hears msg.from))
        (handle_append_entries-Keeps msg)
  on_follower-Keeps _ msg = skip-Keeps R f.alone.order

  pub poll-Keeps : (id : ℕ) (kind : MessageType) (vote : Bool) → Keeps R (poll env id kind vote)
  unfolding poll
  poll-Keeps id kind vote =
      then-Keeps R o _ _ (modify-Keeps R o _ (f.votes id vote))
        (bind-Keeps R o _ _ (reads-Keeps R o _) λ start. gets-Keeps R o _)
    where
      o : Preorder R
      o = f.alone.order

  pub on_vote_resp-Keeps : (msg : Message) → Keeps R (on_vote_resp env msg)
  unfolding on_vote_resp
  on_vote_resp-Keeps msg =
      bind-Keeps R o _ _ (poll-Keeps msg.from msg.kind (not msg.reject)) λ grant.
        bind-Keeps R o _ _ (gets-Keeps R o _) λ needed.
          bind-Keeps R o _ _ (gets-Keeps R o _) λ state.
            if-Keeps R o _ _ _
              (if-Keeps R o _ _ _ (skip-Keeps R o)
                (then-Keeps R o _ _ (modify-Keeps R o _ f.leads) f.broadcasts))
              (modify-Keeps R o _ (λ r. f.alone.follows r.term 0 r))
    where
      o : Preorder R
      o = f.alone.order

  pub on_candidate-Keeps :
      (kind : MessageType) (msg : Message) → Keeps R (on_candidate env kind msg)
  unfolding on_candidate
  on_candidate-Keeps MessageType.pre_vote_resp msg = on_vote_resp-Keeps msg
  on_candidate-Keeps MessageType.vote_resp msg = on_vote_resp-Keeps msg
  on_candidate-Keeps _ msg = skip-Keeps R f.alone.order
