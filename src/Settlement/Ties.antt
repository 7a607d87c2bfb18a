-- ===== src/Settlement/Ties.antt =====
-- The two roundings differ at an exact tie only, so only there is a settlement ambiguous.
use project.Common.{ℕ, ◌+◌, ◌*◌, ◌/◌, ◌%◌, ◌≤◌, ◌<◌, ◌≡◌, ◌≢◌, refl, Bool, true, false, some, arith}
use native.Mathlib.Nat.{div-add-mod', mod-lt, div-eq_of_lt-le}
use project.Settlement.{
  Specification, half_up, half_even, ambiguous_half_tie, quantize_half_up, quantize_half_even,
  yes_settles, compares, agreed,
}

-- Rounding half up, by the remainder.
half_up-below : (value u : ℕ) → 0 < u → 2 * (value % u) < u → (2 * value + u) / (2 * u) ≡ value / u
half_up-below value u h k =
    div-eq_of_lt-le (2 * u) (omega (arith, div-add-mod' value u))
      (omega (arith, div-add-mod' value u))

half_up-above :
    (value u : ℕ) → 0 < u → u ≤ 2 * (value % u) → (2 * value + u) / (2 * u) ≡ value / u + 1
half_up-above value u h k =
    div-eq_of_lt-le (2 * u) (omega (arith, div-add-mod' value u))
      (omega (arith, div-add-mod' value u, mod-lt value h))

agreed_self : (b : Bool) → agreed b b ≡ some b
agreed_self true = refl
agreed_self false = refl

-- Off an exact tie, rounding half to even is rounding half up.
quantize_off_tie :
    (value u : ℕ)
    → 0 < u
    → 2 * (value % u) ≢ u
    → quantize_half_even value u ≡ quantize_half_up value u
unfolding quantize_half_even quantize_half_up
quantize_off_tie value u pos_u off =
    ground (arith, half_up-below value u pos_u, half_up-above value u pos_u)

-- Rounding half up moves a value by at most half a step, either way.
pub quantize_half_up_bounds :
    (value u : ℕ)
    → 0 < u
    → (2 * value ≤ 2 * quantize_half_up value u + u)
      × (2 * quantize_half_up value u ≤ 2 * value + u)
unfolding quantize_half_up
quantize_half_up_bounds value u pos_u = ground (
  arith,
  half_up-below value u pos_u,
  half_up-above value u pos_u,
  div-add-mod' value u,
  mod-lt value pos_u,
)

-- With a positive rounding step, a settlement under the ambiguous rule can raise only where the average lies exactly between
-- two steps of the rounding. Elsewhere it gives the outcome of both roundings.
pub yes_settles_off_tie :
    (spec : Specification) (average : ℕ)
    → 0 < spec.quantum
    → 2 * (average % spec.quantum) ≢ spec.quantum
    → (b : Bool) × (yes_settles spec average (some ambiguous_half_tie) ≡ some b)
      × (yes_settles spec average (some half_up) ≡ some b)
      × (yes_settles spec average (some half_even) ≡ some b)
unfolding yes_settles
yes_settles_off_tie spec average pos_u off =
    let v = quantize_half_up average spec.quantum in
    let e = quantize_off_tie average spec.quantum pos_u off in
    (
      compares spec.operator v spec.strike,
      rw e (agreed_self (compares spec.operator v spec.strike)),
      refl,
      rw e,
    )
