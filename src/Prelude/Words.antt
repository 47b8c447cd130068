-- ===== src/Prelude/Words.antt =====
-- u64 arithmetic as the release build compiles it: `+` wraps, `saturating_sub` stops at 0 (the
-- subtraction of the native numbers), `checked_add` reports an overflow.
use Prim.Native.Nat.{ℕ, ◌+◌, ◌%◌, ◌^◌, ◌<◌}
use mathlib.Core.Path.{◌≡◌}
use mathlib.Core.Option.{Option, none, some}
use native.Mathlib.Omega.{arith}
use athar.Prelude.Tests.{ltb, if◌then◌else◌}

abbrev pub u64_size : ℕ
u64_size = 2 ^ 64

abbrev pub u32_size : ℕ
u32_size = 2 ^ 32

unfoldable pub add64 : ℕ → ℕ → ℕ
add64 a b = (a + b) % u64_size

unfoldable pub checked_add64 : ℕ → ℕ → Option ℕ
checked_add64 a b = if ltb (a + b) u64_size then some (a + b) else none

pub add64-lt : (a b : ℕ) → add64 a b < u64_size
unfolding add64
add64-lt a b = omega arith

-- Where the true sum fits, the wrapping addition gives it.
pub add64_fits : (a b : ℕ) → a + b < u64_size → add64 a b ≡ a + b
unfolding add64
add64_fits a b h = omega arith
