-- ===== src/Orders/Direction.antt =====
-- Orders are quoted on the YES book: what the quote says of the purchased outcome.
use project.Common.{ℕ, ◌-◌, ◌≤◌, ◌≡◌, refl, ap, arith}
use project.Fees.{Action, buy, sell}
use project.Book.{Side, yes_side, no_side}
use project.Orders.{BookSide, bid, ask, dollar, order_direction}

-- What an order of the YES book does, for its sender: a bid for YES buys YES or sells NO.
abbrev leg_side : Action → BookSide → Side
leg_side buy bid = yes_side
leg_side buy ask = no_side
leg_side sell bid = no_side
leg_side sell ask = yes_side

abbrev leg_price : Side → ℕ → ℕ
leg_price yes_side price = price
leg_price no_side price = dollar - price

unfoldable pub leg : Action → BookSide × ℕ → Side × ℕ
leg action (side, price) = (leg_side action side, leg_price (leg_side action side) price)

there :
    (action : Action) (side : Side) (price : ℕ)
    → price ≤ dollar
    → leg action (order_direction action side price) ≡ (side, price)
unfolding leg order_direction
there buy yes_side price h = refl
there buy no_side price h = ap (λ p. (no_side, p)) (omega (arith, h))
there sell yes_side price h = refl
there sell no_side price h = ap (λ p. (no_side, p)) (omega (arith, h))

back :
    (action : Action) (quote : BookSide) (price : ℕ)
    → price ≤ dollar
    → let (s, p) = leg action (quote, price) in order_direction action s p ≡ (quote, price)
unfolding leg order_direction
back buy bid price h = refl
back buy ask price h = ap (λ p. (ask, p)) (omega (arith, h))
back sell ask price h = refl
back sell bid price h = ap (λ p. (bid, p)) (omega (arith, h))

-- An outcome and its price, of at most a dollar, are read back from the quote on the YES book, and
-- each such quote is that of the outcome and price read from it.
pub leg-order_direction :
    (action : Action) (side : Side) (quote : BookSide) (price : ℕ)
    → price ≤ dollar
    → (leg action (order_direction action side price) ≡ (side, price))
      × (let (s, p) = leg action (quote, price) in order_direction action s p ≡ (quote, price))
unfolding leg order_direction
leg-order_direction action side quote price h =
    (there action side price h, back action quote price h)
