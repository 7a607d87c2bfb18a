-- ===== src/Risk.antt =====
-- src/btc15/strategies/settlement_edge/rules.py: `class Risk`, the sizing and the reservations of
-- a portfolio.
--
-- Money is in 10^-12 dollars. The six limits are in 10^-18 dollars, since one of them is a product
-- of a balance and a fraction. A day is counted from the epoch, times are milliseconds.
pub mod Sizing
pub mod Exposure
mod Tests
use project.Common.{
  ℕ, ◌+◌, ◌*◌, ◌/◌, min, Bool, true, false, ◌&&◌, ◌||◌, not, if◌then◌else◌, ltb, leb, ◌==◌, Option,
  none, some, List, [], ◌∷◌, ◌++◌, is_empty, Dict, lookup, contains, insert, erase, ℤ, pos,
  pos_part, ◌+ℤ◌, ◌-ℤ◌, ltb_ℤ, leb_ℤ, min_ℤ, scale,
}
use project.Fees.{micro, fee_bound}
use project.Strategy.{
  Strategy, SizingMode, fixed_contracts_mode, fixed_dollars_mode, bankroll_percentage, other_mode,
}

-- A figure of one UTC day.
pub record Day : Type 0 where
  pub pnl : ℤ
  pub exposure : ℤ
  pub trades : ℕ

pub record Risk : Type 0 where
  pub reserved : Dict ℤ
  pub realized : ℤ
  pub daily : Dict Day
  pub halted : Bool

pub data Reason : Type 0 where
  kill_switch daily_loss_limit daily_attempt_limit : Reason
  sizing_target max_trade_dollars bankroll_allocation : Reason
  open_exposure_limit daily_exposure_limit available_bankroll : Reason

abbrev pub no_day : Day
no_day = record { pnl = pos 0; exposure = pos 0; trades = 0 }

-- The UTC date of a POSIX time in milliseconds.
abbrev pub day_of : ℕ → ℕ
day_of now = now / 86400000

abbrev pub day_or_empty : Option Day → Day
day_or_empty none = no_day
day_or_empty (some d) = d

-- `Risk.day`: `setdefault` may add an empty day, which `lookup` shows in any case.
unfoldable pub day : Risk → ℕ → Day
day self now = day_or_empty (lookup (day_of now) self.daily)

-- `D(price) + D(fee_bound(price, c)) + D(c.slippage)`
unfoldable pub cost_per_contract : Strategy → ℕ → ℤ
cost_per_contract c price =
    pos (price * micro)
    +ℤ fee_bound price c.taker_fee_rate c.fee_balance_precision
    +ℤ pos (c.slippage * micro)

abbrev pub sum_values : Dict ℤ → ℤ
sum_values [] = pos 0
sum_values ((k, v) ∷ d) = v +ℤ sum_values d

abbrev pub when : Bool → Reason → List Reason
when b r = if b then r ∷ [] else []

-- The tests that stop any entry.
unfoldable pub vetoes : Strategy → Risk → Day → List Reason
vetoes c self d =
    when self.halted kill_switch
    ++ (when (leb_ℤ (d.pnl +ℤ pos (c.max_daily_loss * micro)) (pos 0)) daily_loss_limit
        ++ when (c.daily_entry_limits_enabled && leb c.max_daily_trades d.trades)
            daily_attempt_limit)

abbrev pub Limit : Type 0
Limit = Reason × ℤ

-- Dollars with six decimals as 10^-18 dollars, and money as 10^-18 dollars.
abbrev pub fine_dollars : ℕ → ℤ
fine_dollars x = pos (x * micro * micro)

abbrev pub fine : ℤ → ℤ
fine x = scale micro x

abbrev pub target_of : Strategy → SizingMode → ℤ → ℤ → ℤ
target_of c fixed_contracts_mode cost allocation = scale c.fixed_contracts (fine cost)
target_of c fixed_dollars_mode cost allocation = fine_dollars c.fixed_dollars
target_of c bankroll_percentage cost allocation = allocation
target_of c other_mode cost allocation = pos 0

-- The bankroll with what has been realized, never below zero.
abbrev pub bankroll_of : Strategy → Risk → ℤ
bankroll_of c self = pos (pos_part (pos (c.bankroll * micro) +ℤ self.realized))

-- `del limits["DAILY_EXPOSURE_LIMIT"]` where the daily limits are off
abbrev pub daily_limit : Strategy → Day → List Limit → List Limit
daily_limit c d rest =
    if c.daily_entry_limits_enabled
    then (daily_exposure_limit, fine (pos (c.max_daily_exposure * micro) -ℤ d.exposure)) ∷ rest
    else rest

-- The dict `limits`.
unfoldable pub limits : Strategy → Risk → Day → ℤ → List Limit
limits c self d cost =
    let bankroll = bankroll_of c self in
    let reserved = sum_values self.reserved in
    let allocation = scale c.bankroll_fraction bankroll in
    (sizing_target, target_of c c.sizing_mode cost allocation)
    ∷ (max_trade_dollars, fine_dollars c.max_trade_dollars)
    ∷ (bankroll_allocation, allocation)
    ∷ (open_exposure_limit, fine (pos (c.max_open_exposure * micro) -ℤ reserved))
    ∷ daily_limit c d ((available_bankroll, fine (bankroll -ℤ reserved)) ∷ [])

-- `min(limits.values())`, of the first limit and the others
abbrev pub min_limit : ℤ → List Limit → ℤ
min_limit m [] = m
min_limit m ((r, v) ∷ ls) = min_limit (min_ℤ m v) ls

abbrev pub smallest : List Limit → ℤ
smallest [] = pos 0
smallest ((r, v) ∷ ls) = min_limit v ls

-- The limits that cannot fund one contract.
abbrev pub unfunded : ℤ → List Limit → List Reason
unfunded cost [] = []
unfunded cost ((r, v) ∷ ls) = when (ltb_ℤ v (fine cost)) r ++ unfunded cost ls

pub record SizeDetails : Type 0 where
  pub quantity : ℕ
  pub reasons : List Reason
  pub budget : ℤ

-- `max(0, min(c.max_contracts, int(budget // cost)))`; a budget below zero gives 0.
abbrev pub affordable : ℕ → ℤ → ℤ → ℕ
affordable max_contracts budget cost = min max_contracts (pos_part budget / pos_part (fine cost))

-- The answer of `size_details`, from its vetoes, the quantity, the unfunded limits and the budget.
abbrev pub sized : List Reason → ℕ → List Reason → ℤ → SizeDetails
sized stops quantity unable budget =
    if not (is_empty stops)
    then record { quantity = 0; reasons = stops; budget = pos 0 }
    else record {
      quantity = quantity;
      reasons = if quantity == 0 then unable else [];
      budget = budget;
    }

-- `Risk.size_details`; a veto leaves no budget.
unfoldable pub size_details : Strategy → Risk → ℕ → ℕ → SizeDetails
size_details c self price now =
    let d = day self now in
    let cost = cost_per_contract c price in
    let ls = limits c self d cost in
    let budget = smallest ls in
    sized (vetoes c self d) (affordable c.max_contracts budget cost) (unfunded cost ls) budget

-- What a reservation that passed its guard writes.
unfoldable pub book_amount : Risk → ℕ → ℤ → ℕ → Risk
book_amount self key amount now =
    let d = day self now in
    record self {
      reserved = insert key amount self.reserved;
      daily =
          insert (day_of now) (record d { exposure = d.exposure +ℤ amount; trades = d.trades + 1 })
            self.daily;
    }

-- `Risk.reserve`; `none` is the ValueError.
unfoldable pub reserve : Strategy → Risk → ℕ → ℕ → ℕ → ℕ → Option Risk
reserve c self key price quantity now =
    if contains key self.reserved
      || quantity == 0
      || ltb (size_details c self price now).quantity quantity
    then none
    else some (book_amount self key (scale quantity (cost_per_contract c price)) now)

-- `Risk.close`
unfoldable pub close : Risk → ℕ → ℤ → ℕ → Risk
close self key pnl now =
    let d = day self now in
    record self {
      reserved = erase key self.reserved;
      realized = self.realized +ℤ pnl;
      daily = insert (day_of now) (record d { pnl = d.pnl +ℤ pnl }) self.daily;
    }
