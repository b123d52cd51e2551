-- ===== src/Raft/Frame/Leaders.antt =====
-- The handlers of a leader.
use anraft.Base.{not, none, some, List, ◌==◌}
use anraft.Base.Frame.{
  Preorder, Keeps, bind-Keeps, then-Keeps, reads-Keeps, gets-Keeps, pure-Keeps, skip-Keeps,
  modify-Keeps, if-Keeps, when-Keeps,
}
use anraft.Proto.{LogEntry, RaftError, Message, MessageType}
use anraft.Raft.Defs.{Raft, Env, maybe_commit, append_entry, on_leader_local, on_leader_peer}
use anraft.Raft.Frame.Rules.{IsFrame}

module _ (env : Env) (R : Raft → Raft → Type 0) (f : IsFrame env R) where
  pub maybe_commit-Keeps : Keeps R (maybe_commit env)
  unfolding maybe_commit
  maybe_commit-Keeps =
      bind-Keeps R f.alone.order _ _ (reads-Keeps R f.alone.order _) λ index.
        bind-Keeps R f.alone.order _ _ (gets-Keeps R f.alone.order _) λ t. f.commits index t

  pub append_entry-Keeps : (entries : List LogEntry) → Keeps R (append_entry env entries)
  unfolding append_entry
  append_entry-Keeps entries = bind-Keeps R o _ _ (reads-Keeps R o _) λ li.
      bind-Keeps R o _ _ (gets-Keeps R o _) λ numbered.
        bind-Keeps R o _ _ (reads-Keeps R o _) λ last. bind-Keeps R o _ _ (gets-Keeps R o _) λ id.
          bind-Keeps R o _ _ (f.alone.finds id) λ pr.
            then-Keeps R o _ _ (f.updates pr last)
              (then-Keeps R o _ _ maybe_commit-Keeps (pure-Keeps R o numbered))
    where
      o : Preorder R
      o = f.alone.order

  pub on_leader_local-Keeps :
      (kind : MessageType) (msg : Message) → Keeps R (on_leader_local env kind msg)
  unfolding on_leader_local
  on_leader_local-Keeps MessageType.check_quorum msg =
      bind-Keeps R f.alone.order _ _ (reads-Keeps R f.alone.order _) λ active.
        then-Keeps R f.alone.order _ _
          (when-Keeps R f.alone.order _ _
            (modify-Keeps R f.alone.order _ (λ r. f.alone.follows r.term 0 r)))
          (pure-Keeps R f.alone.order none)
  on_leader_local-Keeps MessageType.prop msg =
      bind-Keeps R f.alone.order _ _ (gets-Keeps R f.alone.order _) λ member.
        bind-Keeps R f.alone.order _ _ (gets-Keeps R f.alone.order _) λ transferee.
          if-Keeps R f.alone.order (not member) _ _
            (pure-Keeps R f.alone.order (some RaftError.proposal_dropped))
            (if-Keeps R f.alone.order (not (transferee == 0)) _ _
              (pure-Keeps R f.alone.order (some RaftError.proposal_dropped))
              (then-Keeps R f.alone.order _ _
                (then-Keeps R f.alone.order _ _ (append_entry-Keeps msg.entries) f.broadcasts)
                (pure-Keeps R f.alone.order none)))
  on_leader_local-Keeps _ msg = pure-Keeps R f.alone.order none

  pub on_leader_peer-Keeps :
      (kind : MessageType) (msg : Message) → Keeps R (on_leader_peer env kind msg)
  unfolding on_leader_peer
  on_leader_peer-Keeps MessageType.app_resp msg =
      bind-Keeps R f.alone.order _ _ (f.alone.finds msg.from) λ pr.
        if-Keeps R f.alone.order _ _ _ (skip-Keeps R f.alone.order) (
          then-Keeps R f.alone.order _ _ (f.updates pr msg.index) (
            bind-Keeps R f.alone.order _ _ maybe_commit-Keeps
              λ changed. when-Keeps R f.alone.order _ _ f.broadcasts))
  on_leader_peer-Keeps _ msg =
      then-Keeps R f.alone.order _ _ (f.alone.finds msg.from) (skip-Keeps R f.alone.order)
