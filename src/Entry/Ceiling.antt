-- ===== src/Entry/Ceiling.antt =====
-- `effective_entry_ceiling` is the largest affordable price on any band.
use project.Common.{
  ℕ, ◌*◌, ◌≤◌, ◌<◌, ◌≡◌, ◌⊎◌, inl, inr, refl, Bool, true, false, ltb, max, any, Option, none, some,
  List, [], ◌∷◌, arith, Bool-cases, All,
}
use project.Fees.{micro}
use project.Strategy.{Strategy, probability_floor}
use project.Market.{Band, Market, on_grid}
use project.Entry.{is_affordable, band_ceiling, larger, ceiling_of, effective_entry_ceiling}
use project.Entry.Tick.{band_ceiling-BestTick}

-- The bands as `parse_market` accepts them: a positive step, and prices of at most a dollar.
abbrev pub Bands : List Band → Type 0
Bands = All (λ b. (0 < b.step) × (b.end ≤ micro))

-- A price on the grid, between the configured prices.
abbrev pub InBounds : Strategy → List Band → ℕ → Type 0
InBounds c bands p =
    (any (on_grid p) bands ≡ true) × (c.min_entry_price ≤ p) × (p ≤ c.max_entry_price)

-- The largest affordable price among those in bounds, where there is one.
pub record Best (c : Strategy) (conservative : ℕ) (bands : List Band) (r : Option ℕ) : Type 0 where
  pub sound : (p : ℕ) → r ≡ some p → InBounds c bands p × (is_affordable c conservative p ≡ true)
  pub greatest :
      (t : ℕ)
      → InBounds c bands t
      → is_affordable c conservative t ≡ true
      → (p : ℕ) × (r ≡ some p) × (t ≤ p)

larger-cases : (x y : Option ℕ) (p : ℕ) → larger x y ≡ some p → (x ≡ some p) ⊎ (y ≡ some p)
larger-cases none y p h = inr h
larger-cases (some x) none p h = inl h
larger-cases (some x) (some y) p h = ground arith

larger-first : (x y : Option ℕ) (p : ℕ) → x ≡ some p → (q : ℕ) × (larger x y ≡ some q) × (p ≤ q)
larger-first none y p h = absurd (ground arith)
larger-first (some x) none p h = (x, refl, ground arith)
larger-first (some x) (some y) p h = (max x y, refl, ground arith)

larger-second : (x y : Option ℕ) (p : ℕ) → y ≡ some p → (q : ℕ) × (larger x y ≡ some q) × (p ≤ q)
larger-second none y p h = (p, h, omega arith)
larger-second (some x) none p h = absurd (ground arith)
larger-second (some x) (some y) p h = (max x y, refl, ground arith)

ceiling_of-Best :
    (c : Strategy) (conservative : ℕ) (bands : List Band)
    → Bands bands
    → Best c conservative bands (ceiling_of c conservative bands)
unfolding ceiling_of
ceiling_of-Best c conservative [] h = record {
  sound = λ p e. absurd (ground arith);
  greatest = λ t s g. absurd (ground arith);
}
ceiling_of-Best c conservative (b ∷ bands) ((step, small), hs) =
    let one = band_ceiling-BestTick c conservative b step small in
    let rest = ceiling_of-Best c conservative bands hs in
    record {
      sound = λ p e.
          elim (larger-cases (band_ceiling c conservative b) (ceiling_of c conservative bands) p
            e) [
              | inl here ↦ let ((on, lo, hi), good) = one.sound p here in ((simp on, lo, hi), good)
              | inr there ↦
                  let ((on, lo, hi), good) = rest.sound p there in ((ground arith, lo, hi), good)
            ];
      greatest = λ t s g.
          let (on, lo, hi) = s in
          elim (Bool-cases (on_grid t b)) [
            | inl here ↦
                let (p, e, le) = one.complete t (here, lo, hi) g in
                let (q, f, more) =
                  larger-first (band_ceiling c conservative b) (ceiling_of c conservative bands) p
                    e in
                (q, f, omega arith)
            | inr there ↦
                let (p, e, le) = rest.greatest t (ground arith, lo, hi) g in
                let (q, f, more) =
                  larger-second (band_ceiling c conservative b) (ceiling_of c conservative bands) p
                    e in
                (q, f, omega arith)
          ];
    }

-- For a probability at or above the floor, on bands of positive steps up to a dollar:
-- `effective_entry_ceiling` returns a price on the grid and between the configured prices that is
-- affordable, and no less than any other such price. It returns none only where there is none.
pub effective_entry_ceiling-Best :
    (m : Market) (conservative : ℕ) (c : Strategy) (late : Bool) (remaining : Option ℕ)
    → Bands m.price_ranges
    → probability_floor c late remaining * micro ≤ conservative
    → Best c conservative m.price_ranges (effective_entry_ceiling m conservative c late remaining)
unfolding effective_entry_ceiling
effective_entry_ceiling-Best m conservative c late remaining bands enough =
    let e : ltb conservative (probability_floor c late remaining * micro) ≡ false = ground arith in
    simp e (ceiling_of-Best c conservative m.price_ranges bands)
