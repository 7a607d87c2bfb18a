-- ===== src/Fees/Tests.antt =====
-- Fees of concrete fills.
use project.Common.{
  ◌≡◌, ◌*◌, refl, List, [], ◌∷◌, pos, ◌+ℤ◌, ◌-ℤ◌, ◌≤ℤ◌, floor_mod, floor_to, ceil_div, scale, arith,
}
use project.Fees.{micro, FeeAccumulator, charge, fee_bound, Fill, buy, sell}
use project.Fees.Alignment.{charge_fills, charge_fills_conserve, trade_fees}
use project.Fees.Bounds.{charge-le-fee_bound}

-- The precision of a hundredth of a cent, and a carry of three millionths.
abbrev account : FeeAccumulator
account = record { precision = 100000000; carry = pos 3000000 }

abbrev fills : List Fill
fills =
    record { price = 910000; quantity = 2500000; rate = 70000; action = buy }
    ∷ record { price = 930000; quantity = 2500000; rate = 70000; action = sell }
    ∷ []

-- 7% of 5 contracts at 91 cents is 2.8665 cents; 2.87 are taken.
charge_five : (charge account 910000 5000000 70000 buy).fee ≡ pos 28700000000
unfolding charge ◌-ℤ◌ ◌+ℤ◌ ceil_div floor_to floor_mod
charge_five = refl

charge_fills_conserve_example :
    (charge_fills account fills).fee +ℤ pos 3000000
    ≡ trade_fees fills +ℤ (charge_fills account fills).accumulator.carry
charge_fills_conserve_example = charge_fills_conserve account fills

charge-le-fee_bound_example :
    (charge account 910000 (5 * micro) 70000 buy).fee ≤ℤ scale 5 (fee_bound 910000 70000 100000000)
charge-le-fee_bound_example =
    charge-le-fee_bound account 910000 5 70000 buy (omega arith) (omega arith) (omega arith)
      (omega arith)
