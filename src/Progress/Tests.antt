-- ===== src/Progress/Tests.antt =====
-- Instances of the theorems on the progress of a follower.
use anraft.Base.{◌≡◌, refl, true}
use anraft.Progress.{Progress, ProgressState, is_paused}

abbrev behind : Progress
behind = record { match = 4; next = 5; state = ProgressState.probe; paused = true }

is_paused-behind : is_paused behind ≡ true
unfolding is_paused
is_paused-behind = refl
