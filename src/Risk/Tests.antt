-- ===== src/Risk/Tests.antt =====
-- Reservations against a small portfolio.
use project.Common.{
  ◌≡◌, ◌≢◌, refl, true, false, some, [], ◌∷◌, pos, ◌+ℤ◌, ◌-ℤ◌, ceil_div, scale, arith,
}
use project.Fees.{fee_bound}
use project.Strategy.Samples.{sample}
use project.Risk
use project.Risk.{
  Risk, cost_per_contract, size_details, reserve, limits, vetoes, kill_switch, sizing_target,
  book_amount,
}
use project.Risk.Exposure.{Reserved, reserve-Reserved}
use project.Risk.Sizing.{size_details-reasons}

abbrev portfolio : Risk
portfolio = record {
  reserved = (7, pos 4000000000000) ∷ [];
  realized = pos 0;
  daily = [];
  halted = false;
}

abbrev after : Risk
after = book_amount portfolio 8 (scale 5 (cost_per_contract sample 910000)) 1000

abbrev halted : Risk
halted = record portfolio { halted = true }

five_granted : (size_details sample portfolio 910000 1000).quantity ≡ 5
unfolding size_details limits vetoes cost_per_contract Risk.day ◌+ℤ◌ ◌-ℤ◌ fee_bound scale ceil_div
five_granted = refl

reserve_five : reserve sample portfolio 8 910000 5 1000 ≡ some after
unfolding reserve size_details limits vetoes cost_per_contract Risk.day ◌+ℤ◌ ◌-ℤ◌ fee_bound scale
    ceil_div
reserve_five = refl

halted_none : (size_details sample halted 910000 1000).quantity ≡ 0
unfolding size_details limits vetoes cost_per_contract Risk.day ◌+ℤ◌ ◌-ℤ◌ fee_bound scale ceil_div
halted_none = refl

-- A contract limit of zero, which the configuration accepts, gives no size and no reason.
no_contracts_no_reason :
    ((size_details (record sample { max_contracts = 0 }) portfolio 910000 1000).quantity ≡ 0)
    × ((size_details (record sample { max_contracts = 0 }) portfolio 910000 1000).reasons ≡ [])
unfolding size_details limits vetoes cost_per_contract Risk.day ◌+ℤ◌ ◌-ℤ◌ fee_bound scale ceil_div
no_contracts_no_reason = (refl, refl)

reserve-Reserved_example :
    Reserved sample portfolio after 8 5 (scale 5 (cost_per_contract sample 910000)) 1000
reserve-Reserved_example =
    reserve-Reserved sample portfolio 8 910000 5 1000 (omega arith) reserve_five

size_details-reasons_example : (size_details sample halted 910000 1000).reasons ≢ []
size_details-reasons_example =
    size_details-reasons sample halted 910000 1000 (omega arith) (omega arith) (omega arith)
      halted_none
