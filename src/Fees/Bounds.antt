-- ===== src/Fees/Bounds.antt =====
-- How large a fee can be.
use project.Common.{
  ℕ, ◌-◌, ◌*◌, ◌≤◌, ◌<◌, arith, ℤ, pos, ◌+ℤ◌, ◌-ℤ◌, ◌≤ℤ◌, ◌<ℤ◌, floor_to, int_laws, floor_to-le,
  floor_to-gt, floor_to_nonneg, min_ℤ, min_ℤ-le_left, min_ℤ-le_right, le-min_ℤ, ≤ℤ_trans, le→leb,
  ceil_div, ceil_div-ge, ceil_div-least, scale, pos-add, scale-pos,
}
use native.Mathlib.Nat.{mul-le-mul_left}
use project.Fees.{Action, FeeAccumulator, charge, trade_fee, revenue_of, micro, fee_bound}

trade_fee_nonneg : (p q r : ℕ) → p ≤ micro → pos 0 ≤ℤ trade_fee p q r
trade_fee_nonneg p q r h = rw (le→leb p micro h) (omega arith)

pub record FeeBounds (t c n fee carry : ℤ) : Type 0 where
  pub fee_nonneg : pos 0 ≤ℤ fee
  pub carry_nonneg : pos 0 ≤ℤ carry
  pub fee_close : fee <ℤ t +ℤ n

-- The bounds, from what is known of the rounding and of the rebate.
bounds_of :
    (t c rd m n : ℤ)
    → pos 0 ≤ℤ t
    → pos 0 ≤ℤ rd
    → rd <ℤ n
    → pos 0 ≤ℤ m
    → m ≤ℤ c +ℤ rd
    → m ≤ℤ t +ℤ rd
    → FeeBounds t c n (t +ℤ rd -ℤ m) (c +ℤ rd -ℤ m)
bounds_of t c rd m n ht hr hn hm hc hf = omega int_laws

rounding_nonneg : (v : ℤ) (n : ℕ) → pos 0 ≤ℤ v -ℤ floor_to v n
rounding_nonneg v n = omega (int_laws, floor_to-le v n)

rounding-lt : (v : ℤ) (n : ℕ) → 0 < n → v -ℤ floor_to v n <ℤ pos n
rounding-lt v n h = omega (int_laws, floor_to-gt v n h)

add_nonneg : (a b : ℤ) → pos 0 ≤ℤ a → pos 0 ≤ℤ b → pos 0 ≤ℤ a +ℤ b
add_nonneg a b h k = omega int_laws

module _ (n : ℕ) (h : 0 < n) where
  -- The rebate: at least nothing, and no more than either of the amounts it is cut from.
  rebate_bounds :
      (t c v : ℤ)
      → pos 0 ≤ℤ t
      → pos 0 ≤ℤ c
      → let rd = v -ℤ floor_to v n in
        let m = min_ℤ (floor_to (c +ℤ rd) n) (floor_to (t +ℤ rd) n) in
        FeeBounds t c (pos n) (t +ℤ rd -ℤ m) (c +ℤ rd -ℤ m)
  rebate_bounds t c v ht hc =
      let rd = v -ℤ floor_to v n in
      let x = floor_to (c +ℤ rd) n in
      let y = floor_to (t +ℤ rd) n in
      let r0 = rounding_nonneg v n in
      bounds_of t c rd (min_ℤ x y) (pos n) ht r0 (rounding-lt v n h)
        (le-min_ℤ x y (pos 0) (floor_to_nonneg _ n h (add_nonneg c rd hc r0))
          (floor_to_nonneg _ n h (add_nonneg t rd ht r0)))
        (≤ℤ_trans (min_ℤ x y) x (c +ℤ rd) (min_ℤ-le_left x y) (floor_to-le _ n))
        (≤ℤ_trans (min_ℤ x y) y (t +ℤ rd) (min_ℤ-le_right x y) (floor_to-le _ n))

-- With a positive precision, a fill at a price of at most one dollar, charged to a carry of zero or more: the fee is not
-- negative, the carry stays at zero or more, and the fee is less than one step of the precision
-- above the raw fee.
pub charge-FeeBounds :
    (a : FeeAccumulator) (price quantity rate : ℕ) (action : Action)
    → 0 < a.precision
    → pos 0 ≤ℤ a.carry
    → price ≤ micro
    → let c = charge a price quantity rate action in
      FeeBounds (trade_fee price quantity rate) a.carry (pos a.precision) c.fee c.accumulator.carry
unfolding charge
charge-FeeBounds a p q r act h c small =
    rebate_bounds a.precision h (trade_fee p q r) a.carry (revenue_of p q act -ℤ trade_fee p q r)
      (trade_fee_nonneg p q r small) c

-- The raw fee of k contracts is at most k times the raw fee of one, rounded up.
raw_fee_scales :
    (r k p d : ℕ)
    → ceil_div (r * (k * micro) * p * d) (micro * micro * micro)
      ≤ k * ceil_div (r * p * d) (micro * micro)
raw_fee_scales r k p d =
    let c = ceil_div (r * p * d) (micro * micro) in
    ceil_div-least (r * (k * micro) * p * d) (micro * micro * micro) (k * c) (omega arith)
      (omega (arith, mul-le-mul_left k (ceil_div-ge (r * p * d) (micro * micro) (omega arith))))

trade_fee-le-fee_bound :
    (k p r n : ℕ)
    → p ≤ micro
    → trade_fee p (k * micro) r +ℤ pos (k * n) ≤ℤ scale k (fee_bound p r n)
unfolding fee_bound
trade_fee-le-fee_bound k p r n small =
    rw (le→leb p micro small)
      (rw (pos-add, pos-add, scale-pos) (omega (arith, raw_fee_scales r k p (micro - p))))

one_step_each : (k n : ℕ) → 0 < k → n ≤ k * n
one_step_each k n h = grind arith

-- With a positive precision, one or more whole contracts, at a price of at most one dollar and from a carry of zero or more, are never
-- charged more than `fee_bound` for each: a reservation made with it covers the fee.
pub charge-le-fee_bound :
    (a : FeeAccumulator) (price contracts rate : ℕ) (action : Action)
    → 0 < a.precision
    → pos 0 ≤ℤ a.carry
    → price ≤ micro
    → 0 < contracts
    → (charge a price (contracts * micro) rate action).fee
      ≤ℤ scale contracts (fee_bound price rate a.precision)
charge-le-fee_bound a p k r act h c small some_contracts = omega (
  int_laws,
  (charge-FeeBounds a p (k * micro) r act h c small).fee_close,
  trade_fee-le-fee_bound k p r a.precision small,
  one_step_each k a.precision some_contracts,
)
