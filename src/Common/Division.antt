-- ===== src/Common/Division.antt =====
-- Division that rounds up, and the bounds of both divisions, over the native numbers.
use Prim.Native.Nat.{ℕ, ◌+◌, ◌-◌, ◌*◌, ◌/◌, ◌≤◌, ◌<◌}
use native.Mathlib.Omega.{arith}

-- `Decimal.to_integral_value(ROUND_CEILING)` of a quotient of two non-negative numbers.
unfoldable pub ceil_div : ℕ → ℕ → ℕ
ceil_div a n = (a + (n - 1)) / n

pub div-mul-le : (a n : ℕ) → a / n * n ≤ a
div-mul-le a n = grind arith

pub lt-div-mul : (a n : ℕ) → 0 < n → a < a / n * n + n
lt-div-mul a n h = grind arith

pub ceil_div-ge : (a n : ℕ) → 0 < n → a ≤ ceil_div a n * n
unfolding ceil_div
ceil_div-ge a n h = grind arith

pub ceil_div-lt : (a n : ℕ) → 0 < n → ceil_div a n * n < a + n
unfolding ceil_div
ceil_div-lt a n h = grind arith

-- The rounded-up quotient is the least multiple that reaches its argument.
pub ceil_div-least : (a n k : ℕ) → 0 < n → a ≤ k * n → ceil_div a n ≤ k
unfolding ceil_div
ceil_div-least a n k h p = grind arith

pub div-greatest : (a n k : ℕ) → 0 < n → k * n ≤ a → k ≤ a / n
div-greatest a n k h p = grind arith
