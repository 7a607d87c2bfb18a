-- ===== src/Entry/Cost.antt =====
-- The cost of a contract is concave in its price: a price between two affordable ones is affordable.
use project.Common.{
  ℕ, ◌+◌, ◌-◌, ◌*◌, ◌≤◌, ◌<◌, ◌≡◌, ◌⊎◌, ◌↔◌, inl, inr, true, false, leb, arith, pos-add, Bool-cases,
  ceil_div, ceil_div-ge, ceil_div-least, le→leb,
}
use native.Mathlib.Nat.{mul-le-mul_left, mul-sub, le_of_mul-le-mul_right}
use project.Fees.{micro, fee_bound}
use project.Strategy.{Strategy}
use project.Entry.{is_affordable, required_edge}

-- A concave function has no dip. It is read on the points a, b = a + d and c = b + e, whose
-- distances from the top are x, y and f.
weight_rises :
    (r a b d e f x y n : ℕ)
    → b ≡ a + d
    → x ≡ d + e + f
    → y ≡ e + f
    → r * a ≤ n + r * (e + f)
    → a * n + r * a * x ≤ b * n + r * b * y
weight_rises r a b d e f x y n p q s h = rw (p, q, s) (omega (arith, mul-le-mul_left d h))

weight_falls :
    (r a b c d e f y n : ℕ)
    → b ≡ a + d
    → c ≡ a + d + e
    → y ≡ e + f
    → n + r * (e + f) ≤ r * a
    → c * n + r * c * f ≤ b * n + r * b * y
weight_falls r a b c d e f y n p q s h = rw (p, q, s) (omega (arith, mul-le-mul_left e h))

-- Rounding the fee up keeps an order of the exact costs.
cost_mono : (p q x y n : ℕ) → 0 < n → p * n + x ≤ q * n + y → p + ceil_div x n ≤ q + ceil_div y n
cost_mono p q x y n pos_n h =
    let k = q + ceil_div y n in
    let most : p * n + x ≤ k * n = omega (arith, ceil_div-ge y n pos_n) in
    let first : p ≤ k = le_of_mul-le-mul_right {k = n} (omega arith) pos_n in
    let left : x ≤ (k - p) * n = omega (arith, mul-sub n k p) in
    omega (arith, ceil_div-least x n (k - p) pos_n left)

-- What a price costs in millionths: itself and the fee, rounded up.
abbrev cost : ℕ → ℕ → ℕ
cost r p = p + ceil_div (r * p * (micro - p)) (micro * micro)

-- No dip: the cost in the middle is at least the cost at one of the ends.
cost-between :
    (r a b c : ℕ) → a ≤ b → b ≤ c → c ≤ micro → (cost r a ≤ cost r b) ⊎ (cost r c ≤ cost r b)
cost-between r a b c ab bc small =
    let d = b - a in
    let e = c - b in
    let f = micro - c in
    let n = micro * micro in
    let eb : b ≡ a + d = omega arith in
    elim (Bool-cases (leb (r * a) (n + r * (e + f)))) [
      | inl rises ↦ inl (
          cost_mono a b _ _ n (omega arith) (
            weight_rises r a b d e f (micro - a) (micro - b) n (omega arith) (omega arith)
              (omega arith) (ground arith)))
      | inr falls ↦ inr (
          cost_mono c b _ _ n (omega arith) (
            weight_falls r a b c d e f (micro - b) n (omega arith) (omega arith) (omega arith)
              (ground arith)))
    ]

-- What is affordable, as a bound on the cost.
affordable_cost :
    (c : Strategy) (p : ℕ) (conservative : ℕ)
    → p ≤ micro
    → (is_affordable c conservative p ≡ true) ↔ (
        (c.entry_value_filters_enabled ≡ false)
        ⊎ (required_edge c * micro
              + c.slippage * micro
              + c.fee_balance_precision
              + micro * cost c.taker_fee_rate p
            ≤ conservative))
unfolding is_affordable fee_bound
affordable_cost c p conservative small = rw (le→leb p micro small, pos-add, pos-add) (ground arith)

pub affordable-between :
    (c : Strategy) (conservative x y z : ℕ)
    → x ≤ y
    → y ≤ z
    → z ≤ micro
    → is_affordable c conservative y ≡ true
    → is_affordable c conservative z ≡ false
    → is_affordable c conservative x ≡ true
affordable-between c conservative x y z p q small good bad =
    let fx = affordable_cost c x conservative (omega arith) in
    let fy = affordable_cost c y conservative (omega arith) in
    let fz = affordable_cost c z conservative small in
    elim (cost-between c.taker_fee_rate x y z p q small) [
      | inl lower ↦ ground (arith, fx, fy, mul-le-mul_left micro lower)
      | inr upper ↦ absurd (ground (arith, fz, fy, mul-le-mul_left micro upper))
    ]
