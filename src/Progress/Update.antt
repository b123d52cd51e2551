-- ===== src/Progress/Update.antt =====
-- What an acknowledged index does to a progress.
use anraft.Base.{ℕ, ◌+◌, ◌<◌, ◌≡◌, false, arith, ltb, if◌then◌else◌, add64_fits, u64_mod, max}
use anraft.Progress.{Progress, maybe_update}

-- The next index to send is above the matched one.
abbrev pub IsOrdered : Progress → Type 0
IsOrdered p = p.match < p.next

-- An acknowledged index below the last word raises the matched index to it and the next one above
-- it, and lowers neither; the answer says whether the matched index grew, and the follower is
-- unpaused exactly then.
pub maybe_update_lem :
    (n : ℕ) (p : Progress)
    → n + 1 < u64_mod
    → let (p', is_update) = maybe_update n p in
      (p'.match ≡ max p.match n)
      × (p'.next ≡ max p.next (n + 1))
      × (is_update ≡ ltb p.match n)
      × (p'.paused ≡ (if ltb p.match n then false else p.paused))
      × (p'.state ≡ p.state)
unfolding maybe_update
maybe_update_lem n p h = ground (arith, add64_fits n 1 h)

-- An acknowledged index keeps the order of the matched index and the next one.
pub maybe_update-IsOrdered :
    (n : ℕ) (p : Progress) → n + 1 < u64_mod → IsOrdered p → IsOrdered (maybe_update n p).0
unfolding maybe_update
maybe_update-IsOrdered n p h k = ground (arith, add64_fits n 1 h)

-- Acknowledging the same index twice changes nothing the second time.
pub maybe_update_twice :
    (n : ℕ) (p : Progress)
    → n + 1 < u64_mod
    → maybe_update n (maybe_update n p).0 ≡ ((maybe_update n p).0, false)
unfolding maybe_update
maybe_update_twice n p h = ground (arith, add64_fits n 1 h)
