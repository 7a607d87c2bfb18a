-- ===== src/Fees/Alignment.antt =====
-- Fees keep a balance on whole steps of the account's precision, and lose nothing.
use project.Common.{
  ℕ, ◌<◌, ◌≡◌, refl, List, [], ◌∷◌, ℤ, pos, ◌+ℤ◌, ◌-ℤ◌, floor_mod, parts_of_eq, int_laws,
  floor_mod-add, floor_mod-floor_to, min_ℤ, leb_ℤ, Bool-cases, inl, inr,
}
use project.Fees.{Action, FeeAccumulator, Charge, charge, trade_fee, revenue_of, Fill}

abbrev charge_fill : FeeAccumulator → Fill → Charge
charge_fill a f = charge a f.price f.quantity f.rate f.action

-- What a charge takes beyond the raw fee is what it adds to the carry.
charge_conserves :
    (a : FeeAccumulator) (p q r : ℕ) (act : Action)
    → (charge a p q r act).fee +ℤ a.carry
      ≡ trade_fee p q r +ℤ (charge a p q r act).accumulator.carry
unfolding charge
charge_conserves a p q r act = omega int_laws

min_multiple :
    (a b : ℤ) (n : ℕ) → floor_mod a n ≡ 0 → floor_mod b n ≡ 0 → floor_mod (min_ℤ a b) n ≡ 0
min_multiple a b n p q = elim (Bool-cases (leb_ℤ a b)) [ inl e ↦ rw e p | inr e ↦ rw e q ]

-- What is left of a revenue after the fee, in terms of the two multiples that `charge` computes.
regroup : (v t al rb : ℤ) → v -ℤ (t +ℤ (v -ℤ t -ℤ al) -ℤ rb) ≡ al +ℤ rb
regroup v t al rb = omega int_laws

-- With a positive precision, the change of the balance by a fill, its fee taken, is a whole
-- number of precision steps, whatever the carry and the price.
pub charge-aligned :
    (a : FeeAccumulator) (price quantity rate : ℕ) (action : Action)
    → 0 < a.precision
    → floor_mod
        (revenue_of price quantity action -ℤ (charge a price quantity rate action).fee)
        a.precision
      ≡ 0
unfolding charge
charge-aligned a p q r act h = rw (regroup (revenue_of p q act) (trade_fee p q r) _ _) (
    floor_mod-add _ _ a.precision h (floor_mod-floor_to _ a.precision h) (
      min_multiple _ _ a.precision (floor_mod-floor_to _ a.precision h)
        (floor_mod-floor_to _ a.precision h)))

-- A run of fills on one accumulator: the accumulator at the end, and the sum of the fees.
abbrev pub charge_fills : FeeAccumulator → List Fill → Charge
charge_fills a [] = record { accumulator = a; fee = pos 0 }
charge_fills a (f ∷ fs) =
    let c = charge_fill a f in
    let rest = charge_fills c.accumulator fs in record rest { fee = c.fee +ℤ rest.fee }

abbrev pub trade_fees : List Fill → ℤ
trade_fees [] = pos 0
trade_fees (f ∷ fs) = trade_fee f.price f.quantity f.rate +ℤ trade_fees fs

-- Over any run of fills the fees that were taken and the carry at the start add up to the raw
-- fees and the carry at the end: rounding moves money between fills and loses none.
pub charge_fills_conserve :
    (a : FeeAccumulator) (fills : List Fill)
    → (charge_fills a fills).fee +ℤ a.carry
      ≡ trade_fees fills +ℤ (charge_fills a fills).accumulator.carry
charge_fills_conserve a [] = refl
charge_fills_conserve a (f ∷ fs) = omega (
  int_laws,
  parts_of_eq (charge_conserves a f.price f.quantity f.rate f.action),
  parts_of_eq (charge_fills_conserve (charge_fill a f).accumulator fs),
)
