-- ===== src/Settlement/Tests.antt =====
-- Contracts that settle in cents, at a strike of 100 dollars; a unit is a tenth of a cent.
use project.Common.{◌≡◌, ◌≤◌, ◌*◌, ◌+◌, inr, refl, Bool, true, false, none, some, arith}
use project.Book.{yes_side}
use project.Settlement.{
  Specification, at_least, greater_than, half_up, half_even, ambiguous_half_tie, unrounded,
  yes_settles, favored, quantize_half_up, quantize_half_even,
}
use project.Settlement.Ties.{yes_settles_off_tie, quantize_half_up_bounds}
use project.Settlement.Favored.{favored_rounded, side_of}

abbrev contract : Specification
contract = record {
  strike = 100000;
  quantum = 10;
  operator = at_least;
  rounding = ambiguous_half_tie;
}

-- At the strike a strict contract favors YES, and settles NO.
abbrev strict : Specification
strict = record { strike = 100000; quantum = 10; operator = greater_than; rounding = unrounded }

strict_favors : favored strict 100000 ≡ some yes_side
unfolding favored
strict_favors = refl

strict_settles : yes_settles strict 100000 none ≡ some false
unfolding yes_settles
strict_settles = refl

-- Exactly between two cents, of which the strike is the odd one, the two roundings differ.
tie : yes_settles (record contract { strike = 100010 }) 100005 none ≡ none
unfolding yes_settles quantize_half_up quantize_half_even
tie = refl

rounded_up : yes_settles contract 99996 (some half_up) ≡ some true
unfolding yes_settles quantize_half_up
rounded_up = refl

unrounded_no : yes_settles contract 99996 (some unrounded) ≡ some false
unfolding yes_settles
unrounded_no = refl

far_yes : yes_settles contract 100007 (some half_up) ≡ some true
unfolding yes_settles quantize_half_up
far_yes = refl

yes_settles_off_tie_example :
    (b : Bool) × (yes_settles contract 99996 (some ambiguous_half_tie) ≡ some b)
    × (yes_settles contract 99996 (some half_up) ≡ some b)
    × (yes_settles contract 99996 (some half_even) ≡ some b)
yes_settles_off_tie_example = yes_settles_off_tie contract 99996 (omega arith) (omega arith)

quantize_half_up_bounds_example :
    (2 * 99996 ≤ 2 * quantize_half_up 99996 10 + 10)
    × (2 * quantize_half_up 99996 10 ≤ 2 * 99996 + 10)
quantize_half_up_bounds_example = quantize_half_up_bounds 99996 10 (omega arith)

favored_rounded_example : favored contract 100007 ≡ some (side_of true)
favored_rounded_example = favored_rounded contract 100007 (omega arith) (inr (omega arith)) far_yes
