-- ===== src/Fees.antt =====
-- src/btc15/strategies/settlement_edge/rules.py: FeeAccumulator and fee_bound.
--
-- Prices, quantities and rates are whole numbers of millionths, money is a whole number of
-- billionths of a millidollar (10^-12), so that price times quantity is exact.
pub mod Alignment
pub mod Bounds
mod Tests
use project.Common.{
  ℕ, ◌-◌, ◌*◌, ◌/◌, if◌then◌else◌, leb, ℤ, pos, ◌+ℤ◌, ◌-ℤ◌, min_ℤ, floor_to, ceil_div,
}

-- One dollar, one contract, or the rate 1, in millionths.
abbrev pub micro : ℕ
micro = 1000000

-- One dollar of money.
abbrev pub pico : ℕ
pico = 1000000000000

pub data Action : Type 0 where
  buy sell : Action

pub record FeeAccumulator : Type 0 where
  pub precision : ℕ
  pub carry : ℤ

-- `(r * q * p * (1 - p)).quantize(.000001, ROUND_CEILING)`; above 1 the product is negative.
abbrev pub trade_fee : ℕ → ℕ → ℕ → ℤ
trade_fee price quantity rate =
    if leb price micro
    then pos (micro * ceil_div (rate * quantity * price * (micro - price)) (micro * micro * micro))
    else pos 0
      -ℤ pos (micro * (rate * quantity * price * (price - micro) / (micro * micro * micro)))

-- `p * q * (-1 if action == "buy" else 1)`
abbrev pub revenue_of : ℕ → ℕ → Action → ℤ
revenue_of price quantity buy = pos 0 -ℤ pos (price * quantity)
revenue_of price quantity sell = pos (price * quantity)

pub record Charge : Type 0 where
  pub accumulator : FeeAccumulator
  pub fee : ℤ

-- `FeeAccumulator.charge`: the new accumulator, and the fee that it returns.
unfoldable pub charge : FeeAccumulator → ℕ → ℕ → ℕ → Action → Charge
charge self price quantity rate action =
    let trade = trade_fee price quantity rate in
    let revenue = revenue_of price quantity action in
    let aligned = floor_to (revenue -ℤ trade) self.precision in
    let rounding = revenue -ℤ trade -ℤ aligned in
    let carried = self.carry +ℤ rounding in
    let rebate =
      min_ℤ (floor_to carried self.precision) (floor_to (trade +ℤ rounding) self.precision) in
    record {
      accumulator = record self { carry = carried -ℤ rebate };
      fee = trade +ℤ rounding -ℤ rebate;
    }

-- `fee_bound`: what one contract can cost in fees, with no rebate.
unfoldable pub fee_bound : ℕ → ℕ → ℕ → ℤ
fee_bound price taker_fee_rate precision =
    (if leb price micro
      then pos (micro * ceil_div (taker_fee_rate * price * (micro - price)) (micro * micro))
      else pos 0 -ℤ pos (micro * (taker_fee_rate * price * (price - micro) / (micro * micro))))
    +ℤ pos precision

-- A fill, for which an order's accumulator is charged once.
pub record Fill : Type 0 where
  pub price : ℕ
  pub quantity : ℕ
  pub rate : ℕ
  pub action : Action
