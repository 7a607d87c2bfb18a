-- ===== src/Paper/Exit/Sale.antt =====
-- The sale of a position against the bids: what is sold, at which prices, of which depth.
use project.Common.{
  ℕ, ◌+◌, ◌*◌, ◌≤◌, ◌<◌, ◌≡◌, refl, max, min, Bool, true, false, not, ◌||◌, ◌&&◌, ◌==◌,
  if◌then◌else◌, Option, List, [], ◌∷◌, arith, Bool-cases, inl, inr, Dict, lookup, insert,
  lookup-insert, div-mul-le,
}
use project.Strategy.{Strategy}
use project.Market.{Band, valid_tick}
use project.Paper.{lot}
use project.Paper.Exit

abbrev pub total : List Exit.SaleFill → ℕ
total [] = 0
total (f ∷ fs) = f.quantity + total fs

abbrev pub takings : List Exit.SaleFill → ℕ
takings [] = 0
takings (f ∷ fs) = f.quantity * lot * f.price + takings fs

-- The largest size that is displayed at a price.
abbrev pub displayed : ℕ → List Exit.Bid → ℕ
displayed price [] = 0
displayed price (b ∷ bids) = max (if b.price == price then b.size else 0) (displayed price bids)

abbrev pub used : ℕ → Dict ℕ → ℕ
used price consumed = Exit.or_zero (lookup price consumed)

-- A sale on the grid, and at the target or better where the reason has a limit.
abbrev pub allowed : Strategy → List Band → Exit.Reason → Option ℕ → ℕ → Bool
allowed c bands reason target price =
    valid_tick bands price
    && (c.full_position_execution || not (Exit.has_limit reason && Exit.below_target target price))

abbrev pub AllAllowed : Strategy → List Band → Exit.Reason → Option ℕ → List Exit.SaleFill → Type 0
AllAllowed c bands reason target [] = Unit
AllAllowed c bands reason target (f ∷ fs) =
    (allowed c bands reason target f.price ≡ true)
    × (0 < f.quantity)
    × AllAllowed c bands reason target fs

module _ (c : Strategy) (bands : List Band) (reason : Exit.Reason) (target : Option ℕ) where
  -- From one state of the loop to a later one.
  pub record Sells (bids : List Exit.Bid) (s s' : Exit.Selling) : Type 0 where
    pub quantities : s'.position.quantity + total s'.sales ≡ s.position.quantity + total s.sales
    pub proceeds : s'.position.proceeds + takings s.sales ≡ s.position.proceeds + takings s'.sales
    pub depth :
        (price : ℕ) → used price s'.consumed ≤ max (used price s.consumed) (displayed price bids)
    pub all_allowed : AllAllowed c bands reason target s'.sales

  sellable-le :
      (consumed : Dict ℕ) (quantity : ℕ) (b : Exit.Bid)
      → (Exit.sellable consumed quantity b ≤ quantity)
        × (used b.price consumed + Exit.sellable consumed quantity b * lot
            ≤ max (used b.price consumed) b.size)
  sellable-le consumed quantity b =
      let h = div-mul-le (min (quantity * lot) (Exit.left_at consumed b)) lot in
      (omega (arith, h), omega (arith, h))

  insert-depth :
      (b : Exit.Bid) (bids : List Exit.Bid) (price : ℕ) (consumed : Dict ℕ) (q : ℕ)
      → used b.price consumed + q * lot ≤ max (used b.price consumed) b.size
      → used price (insert b.price (used b.price consumed + q * lot) consumed)
        ≤ max (used price consumed) (displayed price (b ∷ bids))
  insert-depth b bids price consumed q deep = elim (Bool-cases (b.price == price)) [
    | inl same ↦
        let e : b.price ≡ price = ground arith in
        rw (lookup-insert b.price price (used b.price consumed + q * lot) consumed, same)
          (simp e (omega (arith, simp e at deep)))
    | inr other ↦
        rw (lookup-insert b.price price (used b.price consumed + q * lot) consumed, other)
          (omega arith)
  ]

  sell_at-Sells :
      (b : Exit.Bid) (bids : List Exit.Bid) (s : Exit.Selling)
      → Exit.is_skipped c bands reason target s b ≡ false
      → AllAllowed c bands reason target s.sales
      → Sells (b ∷ bids) s (Exit.sell_at c (Exit.sellable s.consumed s.position.quantity b) b s)
  unfolding Exit.sell_at Exit.is_skipped
  sell_at-Sells b bids s h so_far =
      let q = Exit.sellable s.consumed s.position.quantity b in
      let (small, deep) = sellable-le s.consumed s.position.quantity b in
      record {
        quantities = omega (arith, small);
        proceeds = omega arith;
        depth = λ price. insert-depth b bids price s.consumed q deep;
        all_allowed = (ground arith, ground arith, so_far);
      }

  Sells-refl :
      (bids : List Exit.Bid) (s : Exit.Selling)
      → AllAllowed c bands reason target s.sales
      → Sells bids s s
  Sells-refl bids s h = record {
    quantities = refl;
    proceeds = omega arith;
    depth = λ price. omega arith;
    all_allowed = h;
  }

  Sells-more :
      (b : Exit.Bid) (bids : List Exit.Bid) (s s' : Exit.Selling)
      → Sells bids s s'
      → Sells (b ∷ bids) s s'
  Sells-more b bids s s' h = record {
    quantities = h.quantities;
    proceeds = h.proceeds;
    depth = λ price. omega (arith, h.depth price);
    all_allowed = h.all_allowed;
  }

  Sells-trans :
      (b : Exit.Bid) (bids : List Exit.Bid) (s1 s2 s3 : Exit.Selling)
      → Sells (b ∷ bids) s1 s2
      → Sells bids s2 s3
      → Sells (b ∷ bids) s1 s3
  Sells-trans b bids s1 s2 s3 h g = record {
    quantities = let x = h.quantities in let y = g.quantities in omega arith;
    proceeds = let x = h.proceeds in let y = g.proceeds in omega arith;
    depth = λ price. omega (arith, h.depth price, g.depth price);
    all_allowed = g.all_allowed;
  }

  pub sell_bids-Sells :
      (bids : List Exit.Bid) (s : Exit.Selling)
      → AllAllowed c bands reason target s.sales
      → Sells bids s (Exit.sell_bids c bands reason target bids s)
  unfolding Exit.sell_bids
  sell_bids-Sells [] s h = Sells-refl [] s h
  sell_bids-Sells (b ∷ bids) s h =
      let sold = Exit.sell_at c (Exit.sellable s.consumed s.position.quantity b) b s in
      elim (Bool-cases (Exit.is_skipped c bands reason target s b)) [
        | inl skip ↦ rw skip (Sells-more b bids s _ (sell_bids-Sells bids s h))
        | inr take_ ↦
            let first = sell_at-Sells b bids s take_ h in
            elim (Bool-cases (sold.position.quantity == 0)) [
              | inl last ↦ rw (take_, last) first
              | inr more ↦
                  rw (take_, more)
                    (Sells-trans b bids s sold _ first
                      (sell_bids-Sells bids sold first.all_allowed))
            ]
      ]
