-- ===== src/Progress.antt =====
-- src/anraft/progress.h and progress.cpp: what the leader knows of a follower.
pub mod Update
mod Tests
use anraft.Base.{ℕ, ◌+◌, ◌≤◌, ◌<◌, Bool, true, false, ltb, if◌then◌else◌, add64}

pub data ProgressState : Type 0 where
  probe replicate snapshot : ProgressState

pub record Progress : Type 0 where
  pub match : ℕ
  pub next : ℕ
  pub state : ProgressState
  pub paused : Bool

-- What `std::map::operator[]` puts at a new key.
abbrev pub empty_progress : Progress
empty_progress = record { match = 0; next = 0; state = ProgressState.probe; paused = false }

is_paused_in : ProgressState → Bool → Bool
is_paused_in ProgressState.probe paused = paused
is_paused_in ProgressState.replicate paused = false
is_paused_in ProgressState.snapshot paused = true

-- `IsPaused`
unfoldable pub is_paused : Progress → Bool
unfolding is_paused_in
is_paused p = is_paused_in p.state p.paused

raise_match : ℕ → Progress → Progress × Bool
raise_match n p =
    if ltb p.match n then (record p { match = n; paused = false }, true) else (p, false)

raise_next : ℕ → Progress → Progress
raise_next n p = if ltb p.next (add64 n 1) then record p { next = add64 n 1 } else p

-- `MaybeUpdate`
unfoldable pub maybe_update : ℕ → Progress → Progress × Bool
unfolding raise_match raise_next
maybe_update n p = let (p', is_update) = raise_match n p in (raise_next n p', is_update)
