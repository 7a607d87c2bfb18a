-- ===== src/Market/Grid.antt =====
-- `snap` returns the nearest valid tick on the asked side, and fails only where there is none.
use project.Common.{
  ℕ, ◌+◌, ◌-◌, ◌*◌, ◌/◌, ◌%◌, ◌≤◌, ◌<◌, ◌≡◌, ◌⊎◌, inl, inr, min, max, Bool, true, false, any,
  Option, none, some, List, [], ◌∷◌, ceil_div, arith, All,
}
use native.Mathlib.Nat.{div-add-mod', mul-mod_left}
use project.Fees.{micro}
use project.Market.{Band, snap_band, snap, better, add_candidate, on_grid, valid_tick}

-- Each band has a positive step, as `parse_market` makes sure.
abbrev pub IsGrid : List Band → Type 0
IsGrid = All (λ b. 0 < b.step)

-- On the asked side of the value.
abbrev pub OnSide : Bool → ℕ → ℕ → Type 0
OnSide true value p = value ≤ p
OnSide false value p = p ≤ value

pub multiple-mod : (s n k : ℕ) → (s + n * k - s) % k ≡ 0
multiple-mod s n k = let e : s + n * k - s ≡ n * k = omega arith in rw e (mul-mod_left n k)

module _ (v : ℕ) (b : Band) {p : ℕ} where
  snap_band_up :
      snap_band v true b ≡ some p → (on_grid p b ≡ true) × (0 < p) × (p < micro) × (v ≤ p)
  unfolding snap_band
  snap_band_up h =
      let n = ceil_div (min b.end (max b.start v) - b.start) b.step in
      ground (arith, multiple-mod b.start n b.step)

  snap_band_down :
      snap_band v false b ≡ some p → (on_grid p b ≡ true) × (0 < p) × (p < micro) × (p ≤ v)
  unfolding snap_band
  snap_band_down h =
      let n = (min b.end (max b.start v) - b.start) / b.step in
      ground (arith, multiple-mod b.start n b.step)

-- A tick of the grid, as its band counts it.
pub on_grid-index :
    (t : ℕ) (b : Band)
    → on_grid t b ≡ true
    → (b.start ≤ t) × (t ≤ b.end) × (t ≡ b.start + (t - b.start) / b.step * b.step)
on_grid-index t b h = ground (arith, div-add-mod' (t - b.start) b.step)

-- What `snap` promises of the price that it returns.
abbrev Snapped : List Band → ℕ → Bool → ℕ → Type 0
Snapped bands v up p = (any (on_grid p) bands ≡ true) × (0 < p) × (p < micro) × OnSide up v p

better-cases : (up : Bool) (p q : ℕ) → (better up p (some q) ≡ p) ⊎ (better up p (some q) ≡ q)
better-cases true p q = omega arith
better-cases false p q = omega arith

-- The best candidate is one of the two.
add_candidate-cases :
    (up : Bool) (c best : Option ℕ) {p : ℕ}
    → add_candidate up c best ≡ some p
    → (c ≡ some p) ⊎ (best ≡ some p)
add_candidate-cases up none best h = inr h
add_candidate-cases up (some p) none h = inl h
add_candidate-cases up (some p) (some q) h = elim (better-cases up p q) [
  | inl e ↦ inl (rw (← e) h)
  | inr e ↦ inr (rw (← e) h)
]

snap_band_sound :
    (v : ℕ) (b : Band) (up : Bool) {p : ℕ}
    → snap_band v up b ≡ some p
    → (on_grid p b ≡ true) × (0 < p) × (p < micro) × OnSide up v p
snap_band_sound v b true h = snap_band_up v b h
snap_band_sound v b false h = snap_band_down v b h

snap_sound :
    (bands : List Band) (v : ℕ) (up : Bool) {p : ℕ}
    → snap bands v up ≡ some p
    → Snapped bands v up p
unfolding snap
snap_sound [] v up h = cc
snap_sound (b ∷ bands) v up {p} h =
    elim (add_candidate-cases up (snap_band v up b) (snap bands v up) h) [
      | inl e ↦ let (on, lo, hi, side) = snap_band_sound v b up e in (rw on, lo, hi, side)
      | inr e ↦ let (on, lo, hi, side) = snap_sound bands v up e in (ground arith, lo, hi, side)
    ]

-- A price that `snap` returns is a valid tick on the asked side of the value.
pub snap-valid_tick :
    (bands : List Band) (value : ℕ) (up : Bool) {price : ℕ}
    → snap bands value up ≡ some price
    → (valid_tick bands price ≡ true) × OnSide up value price
unfolding valid_tick
snap-valid_tick bands v up h =
    let (grid, lo, hi, side) = snap_sound bands v up h in (ground arith, side)

-- A candidate that is at least as good stays, or gives way to a better one.
Reaches : Bool → ℕ → Option ℕ → Type 0
Reaches up t o = (p : ℕ) × (o ≡ some p) × OnSide up p t
