-- ===== src/Base/Words.antt =====
-- Unsigned 64-bit words: a word is a number below 2 ^ 64, and its arithmetic wraps. The int64
-- fields of the protocol are read as their bit patterns, which is how the code converts them.
use Prim.Native.Nat.{ℕ, ◌+◌, ◌-◌, ◌%◌, ◌≤◌, ◌<◌}
use mathlib.Core.Path.{◌≡◌}
use native.Mathlib.Omega.{arith}

abbrev pub u64_mod : ℕ
u64_mod = 18446744073709551616

unfoldable pub add64 : ℕ → ℕ → ℕ
add64 a b = (a + b) % u64_mod

unfoldable pub sub64 : ℕ → ℕ → ℕ
sub64 a b = (a + u64_mod - b) % u64_mod

pub add64-lt : (a b : ℕ) → add64 a b < u64_mod
unfolding add64
add64-lt a b = omega arith

-- Where the true sum fits, nothing wraps.
pub add64_fits : (a b : ℕ) → a + b < u64_mod → add64 a b ≡ a + b
unfolding add64
add64_fits a b h = omega arith

pub sub64_fits : (a b : ℕ) → a < u64_mod → b ≤ a → sub64 a b ≡ a - b
unfolding sub64
sub64_fits a b h k = omega arith
