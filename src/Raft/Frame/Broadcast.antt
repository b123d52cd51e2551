-- ===== src/Raft/Frame/Broadcast.antt =====
-- Where every message may be sent, so may a broadcast.
use anraft.Base.{ℕ, ◌==◌, ◌≡◌, ◌≢◌, refl, arith, [], ◌∷◌, ret, ne→==}
use anraft.Base.Map.{Map}
use anraft.Base.Action.{Action, for_each, do_blocks}
use anraft.Base.Frame.{
  Preorder, Keeps, bind-Keeps, then-Keeps, reads-Keeps, gets-Keeps, skip-Keeps, if-Keeps,
  for_each-Keeps,
}
use anraft.Proto.{Message}
use anraft.Progress.{Progress, is_paused}
use anraft.Raft.Defs.{
  Raft, Env, get_progress, send, send_append, to_others, for_each_progress, bcast_append,
}

module _ (env : Env) (R : Raft → Raft → Type 0) (o : Preorder R)
    (finds : (id : ℕ) → Keeps R (get_progress id))
    (sends : (msg : Message) → Keeps R (send msg)) where
  send_append-Keeps : (to : ℕ) → Keeps R (send_append env to)
  unfolding send_append
  send_append-Keeps to = bind-Keeps R o _ _ (finds to) λ pr.
      bind-Keeps R o _ _ (gets-Keeps R o _) λ p. if-Keeps R o (is_paused p) _ _ (skip-Keeps R o) (
        bind-Keeps R o _ _ (reads-Keeps R o _) λ term_result.
          bind-Keeps R o _ _ (reads-Keeps R o _)
            λ entries_result. bind-Keeps R o _ _ (gets-Keeps R o _) λ msg. sends msg)

  to_others-Keeps : (id : ℕ) (p : Progress) → Keeps R (to_others (send_append env) id p)
  unfolding to_others
  to_others-Keeps id p =
      bind-Keeps R o _ _ (gets-Keeps R o _)
        λ self. if-Keeps R o (self == 0) _ _ (send_append-Keeps self) (skip-Keeps R o)

  pub bcast_append-Keeps : Keeps R (bcast_append env)
  unfolding bcast_append for_each_progress
  bcast_append-Keeps = bind-Keeps R o _ _ (gets-Keeps R o _) λ prs.
      then-Keeps R o _ _ (for_each-Keeps R o prs _ (λ x. to_others-Keeps x.0 x.1)) (
        bind-Keeps R o _ _ (gets-Keeps R o _)
          λ learners. for_each-Keeps R o learners _ (λ x. to_others-Keeps x.0 x.1))

module _ (body : ℕ → Action Raft (Unit {0})) (r : Raft) (named : r.id ≢ 0) where
  to_others_none : (id : ℕ) (p : Progress) → to_others body id p r ≡ (ret tt, r)
  unfolding to_others do_blocks
  to_others_none id p = ground (arith, ne→== r.id 0 named)

  each_none : (m : Map Progress) → for_each m (λ (id, p). to_others body id p) r ≡ (ret tt, r)
  unfolding for_each do_blocks
  each_none [] = refl
  each_none ((id, p) ∷ m) = ground (arith, to_others_none id p, each_none m)

  -- On a node whose id is not zero a broadcast reaches nobody: the test for the own id assigns it.
  pub for_each_progress_none : for_each_progress (to_others body) r ≡ (ret tt, r)
  unfolding for_each_progress do_blocks
  for_each_progress_none = ground (arith, each_none r.prs, each_none r.learner_prs)
