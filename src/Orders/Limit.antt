-- ===== src/Orders/Limit.antt =====
-- `snap_buy_limit`: the best price within the inside that the venue supports.
use native.Mathlib.Nat.{mul-mod_left}
use project.Common.{
  ℕ, ◌+◌, ◌-◌, ◌*◌, ◌/◌, ◌%◌, ◌≤◌, ◌<◌, ◌≡◌, refl, max, min, ceil_div, true, ltb, Option, none,
  some, List, [], ◌∷◌, arith, div-mul-le, ceil_div-ge, ceil_div-least, div-greatest, &&-true, ◌⊎◌,
  inl, inr, Bool-cases, taken_branch, not_taken,
}
use project.Book.{Side, yes_side, no_side}
use project.Market.{Band}
use project.Orders.{
  dollar, yes_price, snap_band, larger, snapped, snap_buy_limit, valid_steps, on_tick_grid,
}

-- A price of the outcome that one of the bands supports: inside the dollar, and on a tick of the
-- YES book.
abbrev OnTick : Side → ℕ → Band → Type 0
OnTick side p b =
    (k : ℕ) × (yes_price side p ≡ b.start + k * b.step)
    × (yes_price side p ≤ b.end)
    × (0 < p)
    × (p < dollar)

snap_band-OnTick :
    (limit : ℕ) (side : Side) (b : Band) (p : ℕ)
    → snap_band limit side b ≡ some p
    → OnTick side p b × (p ≤ limit)
unfolding snap_band
snap_band-OnTick limit yes_side b p h =
    let k = (min b.end limit - b.start) / b.step in
    (
      (k, ground (arith, h), ground (arith, h), ground (arith, h), ground (arith, h)),
      ground (arith, h),
    )
snap_band-OnTick limit no_side b p h =
    let k = ceil_div (max b.start (dollar - limit) - b.start) b.step in
    (
      (k, ground (arith, h), ground (arith, h), ground (arith, h), ground (arith, h)),
      ground (arith, h),
    )

snap_band-best :
    (limit : ℕ) (side : Side) (b : Band) (p : ℕ)
    → 0 < b.step
    → limit < dollar
    → OnTick side p b
    → p ≤ limit
    → (q : ℕ) × (snap_band limit side b ≡ some q) × (p ≤ q)
unfolding snap_band
snap_band-best limit yes_side b p pos inside (k, at, top, lo, hi) h =
    let n = (min b.end limit - b.start) / b.step in
    let least : k ≤ n = div-greatest (min b.end limit - b.start) b.step k pos (ground arith) in
    let more : k * b.step ≤ n * b.step = grind arith in
    (
      b.start + n * b.step,
      ground (arith, div-mul-le (min b.end limit - b.start) b.step),
      omega arith,
    )
snap_band-best limit no_side b p pos inside (k, at, top, lo, hi) h =
    let target = max b.start (dollar - limit) in
    let n = ceil_div (target - b.start) b.step in
    let least : n ≤ k = ceil_div-least (target - b.start) b.step k pos (ground arith) in
    let less : n * b.step ≤ k * b.step = grind arith in
    let reach = ceil_div-ge (target - b.start) b.step pos in
    (dollar - (b.start + n * b.step), ground arith, omega arith)

larger-cases : (x y : Option ℕ) (p : ℕ) → larger x y ≡ some p → (x ≡ some p) ⊎ (y ≡ some p)
unfolding larger
larger-cases x y p h = ground (arith, h)

larger-left : (x y : Option ℕ) (p : ℕ) → x ≡ some p → (q : ℕ) × (larger x y ≡ some q) × (p ≤ q)
unfolding larger
larger-left (some x) none p h = (x, refl, ground (arith, h))
larger-left (some x) (some y) p h = (max x y, refl, ground (arith, h))
larger-left none y p h = absurd (ground (arith, h))

larger-right : (x y : Option ℕ) (p : ℕ) → y ≡ some p → (q : ℕ) × (larger x y ≡ some q) × (p ≤ q)
unfolding larger
larger-right none (some y) p h = (y, refl, ground (arith, h))
larger-right (some x) (some y) p h = (max x y, refl, ground (arith, h))
larger-right none none p h = absurd (ground (arith, h))
larger-right (some x) none p h = absurd (ground (arith, h))

added : (a b : ℕ) → a + b - a ≡ b
added a b = omega arith

multiple : (k start step : ℕ) → (start + k * step - start) % step ≡ 0
multiple k start step = rw (added start (k * step)) (mul-mod_left k step)

abbrev pub Supported : Side → ℕ → List Band → Type 0
Supported side p [] = ⊥
Supported side p (b ∷ bands) = OnTick side p b ⊎ Supported side p bands

snapped-Supported :
    (limit : ℕ) (side : Side) (bands : List Band) (p : ℕ)
    → snapped limit side bands ≡ some p
    → Supported side p bands × (p ≤ limit)
unfolding snapped larger
snapped-Supported limit side [] p h = absurd (ground (arith, h))
snapped-Supported limit side (b ∷ bands) p h =
    elim (larger-cases (snap_band limit side b) (snapped limit side bands) p h) [
      | inl e ↦ let (tick, le) = snap_band-OnTick limit side b p e in (inl tick, le)
      | inr e ↦ let (tick, le) = snapped-Supported limit side bands p e in (inr tick, le)
    ]

snapped-best :
    (limit : ℕ) (side : Side) (bands : List Band) (p : ℕ)
    → valid_steps bands ≡ true
    → limit < dollar
    → Supported side p bands
    → p ≤ limit
    → (q : ℕ) × (snapped limit side bands ≡ some q) × (p ≤ q)
unfolding snapped valid_steps
snapped-best limit side [] p v inside t h = elim t [ ]
snapped-best limit side (b ∷ bands) p v inside (inl tick) h =
    let (pos, _) = &&-true (ltb 0 b.step) (valid_steps bands) v in
    let (q, e, le) = snap_band-best limit side b p (ground (arith, pos)) inside tick h in
    let (r, f, le') = larger-left (snap_band limit side b) (snapped limit side bands) q e in
    (r, f, omega (arith, le, le'))
snapped-best limit side (b ∷ bands) p v inside (inr tick) h =
    let (_, rest) = &&-true (ltb 0 b.step) (valid_steps bands) v in
    let (q, e, le) = snapped-best limit side bands p rest inside tick h in
    let (r, f, le') = larger-right (snap_band limit side b) (snapped limit side bands) q e in
    (r, f, omega (arith, le, le'))

-- A supported price passes the test of the final price.
Supported-on_tick_grid :
    (side : Side) (p : ℕ) (bands : List Band)
    → valid_steps bands ≡ true
    → Supported side p bands
    → on_tick_grid (yes_price side p) bands ≡ true
unfolding valid_steps on_tick_grid
Supported-on_tick_grid side p [] v t = elim t [ ]
Supported-on_tick_grid side p (b ∷ bands) v (inl (k, at, top, lo, hi)) =
    let (pos, _) = &&-true (ltb 0 b.step) (valid_steps bands) v in
    let whole : (yes_price side p - b.start) % b.step ≡ 0 = rw at (multiple k b.start b.step) in
    ground (arith, pos, whole, at, top)
Supported-on_tick_grid side p (b ∷ bands) v (inr s) =
    let (pos, rest) = &&-true (ltb 0 b.step) (valid_steps bands) v in
    ground (arith, pos, Supported-on_tick_grid side p bands rest s)

pub snap_buy_limit-le :
    (limit : ℕ) (side : Side) (bands : List Band) (p : ℕ)
    → snap_buy_limit limit side bands ≡ some p
    → p ≤ limit
unfolding snap_buy_limit
snap_buy_limit-le limit side bands p h = elim (Bool-cases (valid_steps bands)) [
  | inl v ↦
      let k = taken_branch (valid_steps bands) (snapped limit side bands) none v h in
      (snapped-Supported limit side bands p k).1
  | inr v ↦
      absurd (ground (arith, not_taken (valid_steps bands) (snapped limit side bands) none v h))
]

-- The limit that `snap_buy_limit` gives for a cap below a dollar is supported, is within the cap,
-- passes the test of the final price once it is quoted on the YES book, and is the largest of the
-- supported prices within the cap.
pub snap_buy_limit-best :
    (limit : ℕ) (side : Side) (bands : List Band) (p : ℕ)
    → limit < dollar
    → snap_buy_limit limit side bands ≡ some p
    → Supported side p bands
      × (p ≤ limit)
      × (on_tick_grid (yes_price side p) bands ≡ true)
      × ((q : ℕ) → Supported side q bands → q ≤ limit → q ≤ p)
unfolding snap_buy_limit
snap_buy_limit-best limit side bands p inside h = elim (Bool-cases (valid_steps bands)) [
  | inl v ↦
      let k = taken_branch (valid_steps bands) (snapped limit side bands) none v h in
      let (s, le) = snapped-Supported limit side bands p k in
      (
        s,
        le,
        Supported-on_tick_grid side p bands v s,
        λ q t l.
            let (r, e, m) = snapped-best limit side bands q v inside t l in ground (arith, e, k, m),
      )
  | inr v ↦
      absurd (ground (arith, not_taken (valid_steps bands) (snapped limit side bands) none v h))
]
