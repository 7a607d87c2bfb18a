-- ===== src/Settlement.antt =====
-- src/btc15/domain.py: SettlementSpecification, how an average settles a contract, and which side
-- a price favors.
--
-- Prices of the reference are whole numbers of a unit that is finer than the rounding digits;
-- `quantum` is the step of the rounding in that unit, 10^-round_digits.
pub mod Ties
pub mod Favored
mod Tests
use project.Common.{
  ℕ, ◌+◌, ◌*◌, ◌/◌, ◌%◌, Bool, true, false, not, if◌then◌else◌, ltb, leb, ◌==◌, Option, none, some,
}
use project.Book.{Side, yes_side, no_side}

pub data Operator : Type 0 where
  at_least greater_than at_most less_than : Operator

pub data Rounding : Type 0 where
  ambiguous_half_tie half_even half_up unrounded : Rounding

pub record Specification : Type 0 where
  pub strike : ℕ
  pub quantum : ℕ
  pub operator : Operator
  pub rounding : Rounding

-- The dict of comparisons, at the operator.
abbrev pub compares : Operator → ℕ → ℕ → Bool
compares at_least value strike = leb strike value
compares greater_than value strike = ltb strike value
compares at_most value strike = leb value strike
compares less_than value strike = ltb value strike

-- `quantize(…, ROUND_HALF_UP)`
unfoldable pub quantize_half_up : ℕ → ℕ → ℕ
quantize_half_up value u = (2 * value + u) / (2 * u) * u

-- `quantize(…, ROUND_HALF_EVEN)`
unfoldable pub quantize_half_even : ℕ → ℕ → ℕ
quantize_half_even value u =
    let q = value / u in
    let twice = 2 * (value % u) in
    if ltb twice u
    then q * u
    else if ltb u twice
    then (q + 1) * u
    else if q % 2 == 0
    then q * u
    else (q + 1) * u

abbrev pub same : Bool → Bool → Bool
same true b = b
same false b = not b

-- `a` if both roundings agree, and the ValueError of the ambiguous tie otherwise
abbrev pub agreed : Bool → Bool → Option Bool
agreed a b = if same a b then some a else none

-- `SettlementSpecification.yes` at a rounding; `none` is the ValueError.
abbrev pub yes_rounded : Specification → ℕ → Rounding → Option Bool
yes_rounded self average unrounded = some (compares self.operator average self.strike)
yes_rounded self average half_even =
    some (compares self.operator (quantize_half_even average self.quantum) self.strike)
yes_rounded self average half_up =
    some (compares self.operator (quantize_half_up average self.quantum) self.strike)
yes_rounded self average ambiguous_half_tie =
    agreed (compares self.operator (quantize_half_even average self.quantum) self.strike)
      (compares self.operator (quantize_half_up average self.quantum) self.strike)

abbrev pub rounding_or : Option Rounding → Rounding → Rounding
rounding_or none r = r
rounding_or (some r) _ = r

-- `SettlementSpecification.yes`
unfoldable pub yes_settles : Specification → ℕ → Option Rounding → Option Bool
yes_settles self average rounding = yes_rounded self average (rounding_or rounding self.rounding)

-- `self.comparison_operator in (">=", ">")`
abbrev pub is_above_operator : Operator → Bool
is_above_operator at_least = true
is_above_operator greater_than = true
is_above_operator _ = false

abbrev pub side_at_strike : Rounding → Option Side
side_at_strike unrounded = some yes_side
side_at_strike _ = none

-- `SettlementSpecification.favored`
unfoldable pub favored : Specification → ℕ → Option Side
favored self price =
    if price == self.strike
    then side_at_strike self.rounding
    else some (
        if same (ltb self.strike price) (is_above_operator self.operator)
        then yes_side
        else no_side)
