-- ===== src/Paper/Exit/Liquidity.antt =====
-- The depth that counts as consumed, after the book has been seen again.
use project.Common.{ℕ, ◌≡◌, ap, min, ◌==◌, List, [], ◌∷◌, Dict, arith, Bool-cases, inl, inr}
use project.Paper.Exit
use project.Paper.Exit.Sale.{used}

-- Of what is consumed at a price, no more counts than the book still shows there.
pub capped_consumption-used :
    (bids : List Exit.Bid) (consumed : Dict ℕ) (price : ℕ)
    → used price (Exit.capped_consumption bids consumed)
      ≡ min (used price consumed) (Exit.size_at price bids)
unfolding Exit.capped_consumption
capped_consumption-used bids [] price = omega arith
capped_consumption-used bids ((at, n) ∷ rest) price = elim (Bool-cases (at == price)) [
  | inl same ↦
      let e : at ≡ price = ground arith in rw same (ap (λ x. min n (Exit.size_at x bids)) e)
  | inr other ↦ rw other (capped_consumption-used bids rest price)
]
