-- ===== src/Entry/Tick.antt =====
-- The largest affordable tick of one band.
use project.Common.{
  ℕ, ◌-◌, ◌*◌, ◌/◌, ◌≤◌, ◌<◌, ◌≡◌, inl, inr, refl, Bool, true, false, ltb, min, Option, none, some,
  ap, sym, ◌∙◌, arith, Bool-cases, ceil_div, ceil_div-ge, ceil_div-least, div-greatest, div-mul-le,
}
use native.Mathlib.Nat.{mul-le-mul_right}
use project.Fees.{micro}
use project.Strategy.{Strategy}
use project.Market.{Band, on_grid}
use project.Market.Grid.{multiple-mod, on_grid-index}
use project.Entry.{is_affordable, search_ticks, tick_price, tick_of, band_ceiling}
use project.Entry.Bisect.{Prefix, Searched, search_ticks-Searched}
use project.Entry.Cost.{affordable-between}

-- A price that the configuration and the grid of one band support.
abbrev pub IsSupported : Strategy → Band → ℕ → Type 0
IsSupported c b p = (on_grid p b ≡ true) × (c.min_entry_price ≤ p) × (p ≤ c.max_entry_price)

-- The largest supported and affordable price of one band.
pub record BestTick (c : Strategy) (conservative : ℕ) (b : Band) : Type 0 where
  pub sound :
      (p : ℕ)
      → band_ceiling c conservative b ≡ some p
      → IsSupported c b p × (is_affordable c conservative p ≡ true)
  pub complete :
      (t : ℕ)
      → IsSupported c b t
      → is_affordable c conservative t ≡ true
      → (p : ℕ) × (band_ceiling c conservative b ≡ some p) × (t ≤ p)

module _ (c : Strategy) (conservative : ℕ) (b : Band) (pos_step : 0 < b.step)
    (small : b.end ≤ micro) where
  -- The ticks of the band that stand inside the configured prices.
  abbrev top : ℕ
  top = min b.end c.max_entry_price

  abbrev low : ℕ
  low = ceil_div (c.min_entry_price - b.start) b.step

  abbrev high : ℕ
  high = (top - b.start) / b.step

  abbrev passes : ℕ → Bool
  passes n = is_affordable c conservative (tick_price b n)

  ticks-Prefix : b.start ≤ top → passes high ≡ false → Prefix passes low high
  ticks-Prefix inside bad i j p q r good =
      affordable-between c conservative (tick_price b i) (tick_price b j) (tick_price b high)
        (omega (arith, mul-le-mul_right b.step q)) (omega (arith, mul-le-mul_right b.step r))
        (omega (arith, div-mul-le (top - b.start) b.step)) good bad

  ticks-Searched : b.start ≤ top → Searched passes low high (search_ticks passes low high)
  ticks-Searched inside = search_ticks-Searched passes low high (ticks-Prefix inside)

  tick_price-IsSupported :
      (n : ℕ) → b.start ≤ top → low ≤ n → n ≤ high → IsSupported c b (tick_price b n)
  tick_price-IsSupported n inside p q =
      let up : n * b.step ≤ top - b.start =
        omega (arith, mul-le-mul_right b.step q, div-mul-le (top - b.start) b.step) in
      let from : c.min_entry_price - b.start ≤ n * b.step = omega (
        arith,
        mul-le-mul_right b.step p,
        ceil_div-ge (c.min_entry_price - b.start) b.step pos_step,
      ) in
      (ground (arith, multiple-mod b.start n b.step), omega arith, omega arith)

  tick-index :
      (t : ℕ)
      → IsSupported c b t
      → (b.start ≤ top)
        × (low ≤ (t - b.start) / b.step)
        × ((t - b.start) / b.step ≤ high)
        × (tick_price b ((t - b.start) / b.step) ≡ t)
  tick-index t (grid, least, most) =
      let (lo, hi, at) = on_grid-index t b grid in
      let k = (t - b.start) / b.step in
      (
        omega arith,
        ceil_div-least (c.min_entry_price - b.start) b.step k pos_step (omega arith),
        div-greatest (top - b.start) b.step k pos_step (omega arith),
        sym at,
      )

  inside_sound :
      b.start ≤ top
      → (r : Option ℕ) → Searched passes low high r
      → (p : ℕ) → tick_of b r ≡ some p
      → IsSupported c b p × (is_affordable c conservative p ≡ true)
  inside_sound inside none s p h = absurd (ground arith)
  inside_sound inside (some m) s p h =
      let (a, d, good) = s.sound m refl in
      let e : tick_price b m ≡ p = ground arith in
      simp (← e) (tick_price-IsSupported m inside a d, good)

  band_inside : b.start ≤ top → BestTick c conservative b
  unfolding band_ceiling
  band_inside inside =
      let s = ticks-Searched inside in
      let e : band_ceiling c conservative b ≡ tick_of b (search_ticks passes low high) =
        ground arith in
      record {
        sound = λ p h. inside_sound inside (search_ticks passes low high) s p (sym e ∙ h);
        complete = λ t sup good.
            let (from, lo, hi, at) = tick-index t sup in
            let (m, r, le) = s.complete ((t - b.start) / b.step) lo hi (simp at good) in
            (tick_price b m, e ∙ ap (tick_of b) r, omega (arith, at, mul-le-mul_right b.step le));
      }

  pub band_ceiling-BestTick : BestTick c conservative b
  unfolding band_ceiling
  band_ceiling-BestTick = elim (Bool-cases (ltb top b.start)) [
    | inr inside ↦ band_inside (ground arith)
    | inl outside ↦ record {
      sound = λ p h. absurd (ground arith);
      complete = λ t sup good. let (from, lo, hi, at) = tick-index t sup in absurd (ground arith);
    }
  ]
