-- ===== src/LiveLoss/Tests.antt =====
-- Ten contracts of YES bought at 40 cents, of which four are sold at 60 and six are settled.
use project.Common.{◌≡◌, refl, ◌+ℤ◌, ◌-ℤ◌, scale, true, none, some, List, [], ◌∷◌, pos, arith}
use project.Fees.{buy, sell}
use project.Book.{yes_side, no_side}
use project.LiveLoss.{
  Row, Settlement, Sums, no_sums, allocate, allocate_row, allocate_all, pnl_of, daily_pnl,
  tickers_pnl, ticker_pnl, day_start, order_time, sales_pnl, settled_pnl, bought_side,
}
use project.LiveLoss.Allocation.{pnl_of-whole, payout, proceeds_of}

abbrev bought : Row
bought = record {
  bot = true;
  action = buy;
  side = yes_side;
  created_at = 86401000;
  exchange_order = some (record {
    fill_count = 10000000;
    paid = 4000000;
    fees = 170000;
    outcome_side = yes_side;
    last_update_time = some 86402000;
  });
}

-- A sale of YES is reported as a purchase of NO, at 40 cents.
abbrev sold : Row
sold = record {
  bot = true;
  action = sell;
  side = yes_side;
  created_at = 86500000;
  exchange_order = some (record {
    fill_count = 4000000;
    paid = 1600000;
    fees = 70000;
    outcome_side = no_side;
    last_update_time = some 86501000;
  });
}

abbrev orders : List Row
orders = bought ∷ sold ∷ []

abbrev won : Settlement
won = record { timestamp = 87000000; result = some yes_side }

abbrev sums : Sums
sums = record {
  bought = 10000000;
  basis = 4170000;
  sold = 4000000;
  sales = record { quantity = 4000000; proceeds = pos 2330000; at = 86501000 } ∷ [];
}

looped : allocate_all yes_side 86400000 (some no_sums) orders ≡ some sums
unfolding allocate_all allocate_row allocate order_time
looped = refl

-- 2.33 + 6 - 4.17 dollars, over the quantity bought
total : daily_pnl ((orders, some won) ∷ []) 88000000 ≡ some (pos 41600000000000, 10000000)
unfolding daily_pnl tickers_pnl ticker_pnl day_start order_time pnl_of allocate_all allocate_row
    allocate sales_pnl settled_pnl bought_side scale ◌+ℤ◌ ◌-ℤ◌
total = refl

-- A sale that began on the day before, and was filled on this one, is refused.
across :
    daily_pnl ((bought ∷ record sold { created_at = 86300000 } ∷ [], none) ∷ []) 88000000 ≡ none
unfolding daily_pnl tickers_pnl ticker_pnl day_start order_time pnl_of allocate_all allocate_row
    allocate sales_pnl settled_pnl bought_side
across = refl

pnl_of-whole_example :
    pnl_of 86400000 88000000 yes_side
      (some won)
      (allocate_all yes_side 86400000 (some no_sums) orders)
    ≡ some (
      scale 10000000
          ((proceeds_of sums.sales +ℤ pos (payout yes_side yes_side 6000000)) -ℤ pos 4170000),
      10000000,
    )
pnl_of-whole_example =
    pnl_of-whole 86400000 88000000 yes_side yes_side orders sums won looped (omega arith)
      (omega arith) refl refl refl
