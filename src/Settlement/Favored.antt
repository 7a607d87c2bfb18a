-- ===== src/Settlement/Favored.antt =====
-- The side that a price favors is the side that the price would settle for, except at the strike.
use project.Common.{ℕ, ◌*◌, ◌+◌, ◌<◌, ◌≡◌, ◌≢◌, ◌⊎◌, refl, Bool, some, arith, if◌then◌else◌}
use project.Book.{Side, yes_side, no_side}
use project.Settlement.{Specification, Operator, half_up, yes_settles, favored, compares}
use project.Settlement.Ties.{quantize_half_up_bounds}

abbrev pub side_of : Bool → Side
side_of b = if b then yes_side else no_side

favored_apart :
    (op : Operator) (spec : Specification) (price : ℕ)
    → spec.operator ≡ op
    → price ≢ spec.strike
    → favored spec price ≡ some (side_of (compares op price spec.strike))
unfolding favored
favored_apart op spec price e ne = ground arith

-- With a positive rounding step, and more than half of it away from the strike, a price favors the
-- side for which it settles when rounded half up.
pub favored_rounded :
    (spec : Specification) (price : ℕ) {outcome : Bool}
    → 0 < spec.quantum
    → (2 * price + spec.quantum < 2 * spec.strike) ⊎ (2 * spec.strike + spec.quantum < 2 * price)
    → yes_settles spec price (some half_up) ≡ some outcome
    → favored spec price ≡ some (side_of outcome)
unfolding yes_settles
favored_rounded spec price {outcome} pos_u far h = ground (
  arith,
  favored_apart spec.operator spec price refl,
  quantize_half_up_bounds price spec.quantum pos_u,
)
