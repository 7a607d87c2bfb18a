-- ===== src/LiveLoss.antt =====
-- src/btc15/live_loss_guard.py: the realized profit and loss of the live bot for one UTC day.
--
-- Quantities and dollars are counted in millionths, times in milliseconds. Fill figures are
-- non-negative numbers: the code raises at others. A quotient is kept exact, as a numerator over
-- the quantity bought; the total of a day is a fraction too, a non-zero denominator under it.
pub mod Allocation
mod Tests
use project.Common.{
  ℕ, ◌+◌, ◌-◌, ◌*◌, ◌/◌, Bool, true, false, ◌&&◌, ◌||◌, not, if◌then◌else◌, leb, ltb, ◌==◌, any,
  max, Option, none, some, List, [], ◌∷◌, ◌++◌, ℤ, pos, ◌+ℤ◌, ◌-ℤ◌, sub_ℕ, scale,
}
use project.Fees.{Action, buy, sell}
use project.Book.{Side, yes_side, no_side, other_side}

-- What the code reads of the exchange's order; `paid` and `fees` are maker and taker together.
pub record Economics : Type 0 where
  pub fill_count : ℕ
  pub paid : ℕ
  pub fees : ℕ
  pub outcome_side : Side
  pub last_update_time : Option ℕ

pub record Row : Type 0 where
  pub bot : Bool
  pub action : Action
  pub side : Side
  pub created_at : ℕ
  pub exchange_order : Option Economics

-- The official result: a side, or a text that is none.
pub record Settlement : Type 0 where
  pub timestamp : ℕ
  pub result : Option Side

pub record Sale : Type 0 where
  pub quantity : ℕ
  pub proceeds : ℤ
  pub at : ℕ

pub record Sums : Type 0 where
  pub bought : ℕ
  pub basis : ℕ
  pub sold : ℕ
  pub sales : List Sale

-- numerator and denominator
abbrev pub Fraction : Type 0
Fraction = ℤ × ℕ

abbrev pub same_side : Side → Side → Bool
same_side yes_side yes_side = true
same_side no_side no_side = true
same_side _ _ = false

abbrev is_buy : Action → Bool
is_buy buy = true
is_buy sell = false

abbrev fill_of : Option Economics → ℕ
fill_of none = 0
fill_of (some e) = e.fill_count

abbrev update_of : Option Economics → Option ℕ
update_of none = none
update_of (some e) = e.last_update_time

abbrev or_time : Option ℕ → ℕ → ℕ
or_time none t = t
or_time (some u) t = u

unfoldable pub order_time : Row → ℕ
order_time r = or_time (update_of r.exchange_order) r.created_at

-- `int(now // 86400) * 86400`
unfoldable pub day_start : ℕ → ℕ
day_start now = now / 86400000 * 86400000

-- The loop over a ticker's orders, one round; it raises `none`.
unfoldable pub allocate : Side → ℕ → Sums → Row → Economics → Option Sums
unfolding order_time
allocate side start s r e =
    let at = order_time r in
    let expected = if is_buy r.action then side else other_side side in
    if e.fill_count == 0
    then some s
    else (if not (same_side r.side side) || (is_buy r.action && not r.bot)
        then none
        else (if not (same_side e.outcome_side expected) || ltb e.fill_count e.paid
            then none
            else (if is_buy r.action
                then some (record s {
                  bought = s.bought + e.fill_count;
                  basis = s.basis + (e.paid + e.fees);
                })
                else (if ltb r.created_at start && leb start at
                    then none
                    else some (record s {
                      sold = s.sold + e.fill_count;
                      sales =
                          s.sales
                          ++ record {
                            quantity = e.fill_count;
                            proceeds = sub_ℕ e.fill_count (e.paid + e.fees);
                            at = at;
                          }
                            ∷ [];
                    })))))

unfoldable pub allocate_row : Side → ℕ → Sums → Row → Option Economics → Option Sums
allocate_row side start s r none = some s
allocate_row side start s r (some e) = allocate side start s r e

unfoldable pub allocate_all : Side → ℕ → Option Sums → List Row → Option Sums
allocate_all side start s [] = s
allocate_all side start none (r ∷ rest) = none
allocate_all side start (some s) (r ∷ rest) =
    allocate_all side start (allocate_row side start s r r.exchange_order) rest

-- `start <= at <= now`
abbrev pub within : ℕ → ℕ → ℕ → Bool
within start now at = leb start at && leb at now

-- What the sales of the day add, times the quantity bought: the proceeds less the sold part of
-- the basis.
unfoldable pub sales_pnl : ℕ → ℕ → ℕ → ℕ → List Sale → ℤ
sales_pnl start now bought basis [] = pos 0
sales_pnl start now bought basis (s ∷ rest) =
    let later = sales_pnl start now bought basis rest in
    if within start now s.at
    then (scale bought s.proceeds -ℤ pos (basis * s.quantity)) +ℤ later
    else later

abbrev pub settle : Side → ℕ → ℕ → ℕ → Option Side → Option ℤ
settle side bought basis remaining none = none
settle side bought basis remaining (some result) =
    some (pos (if same_side result side then remaining * bought else 0) -ℤ pos (basis * remaining))

-- What the settlement of the remainder adds, times the quantity bought; it raises `none`.
unfoldable pub settled_pnl : ℕ → ℕ → Side → ℕ → ℕ → ℕ → Option Settlement → Option ℤ
settled_pnl start now side bought basis remaining none = some (pos 0)
settled_pnl start now side bought basis remaining (some s) =
    if remaining == 0 || not (within start now s.timestamp)
    then some (pos 0)
    else settle side bought basis remaining s.result

abbrev pub over : ℕ → ℤ → Option ℤ → Option Fraction
over bought sales none = none
over bought sales (some settled) = some (sales +ℤ settled, bought)

-- After the loop: sales may not exceed the purchases.
unfoldable pub pnl_of : ℕ → ℕ → Side → Option Settlement → Option Sums → Option Fraction
unfolding sales_pnl settled_pnl
pnl_of start now side settlement none = none
pnl_of start now side settlement (some s) =
    if ltb s.bought s.sold || s.bought == 0
    then none
    else over s.bought (sales_pnl start now s.bought s.basis s.sales)
        (settled_pnl start now side s.bought s.basis (s.bought - s.sold) settlement)

-- `buys[0]["request"]["side"]`
unfoldable pub bought_side : List Row → Option Side
bought_side [] = none
bought_side (r ∷ rest) =
    let later = bought_side rest in
    if r.bot && is_buy r.action && ltb 0 (fill_of r.exchange_order) then some r.side else later

abbrev settled_since : ℕ → Option Settlement → Bool
settled_since start none = false
settled_since start (some s) = leb start s.timestamp

abbrev nothing : Fraction
nothing = (pos 0, 1)

abbrev pub no_sums : Sums
no_sums = record { bought = 0; basis = 0; sold = 0; sales = [] }

abbrev allocated : ℕ → ℕ → List Row → Option Settlement → Option Side → Option Fraction
allocated start now orders settlement none = some nothing
allocated start now orders settlement (some side) =
    pnl_of start now side settlement (allocate_all side start (some no_sums) orders)

-- One ticker's part of `daily_pnl`: one that nothing happened to since the day began is passed
-- over, and one that the bot did not buy.
unfoldable pub ticker_pnl : ℕ → ℕ → List Row → Option Settlement → Option Fraction
unfolding order_time pnl_of allocate_all bought_side
ticker_pnl start now orders settlement =
    if not (any (λ r. leb start (order_time r)) orders) && not (settled_since start settlement)
    then some nothing
    else allocated start now orders settlement (bought_side orders)

abbrev add : Fraction → Option Fraction → Option Fraction
add x none = none
add (a, b) (some (c, d)) = some (scale d a +ℤ scale b c, b * d)

-- `daily_pnl`, over the orders and the settlement of each ticker
unfoldable pub tickers_pnl :
    ℕ → ℕ → Option Fraction → List (List Row × Option Settlement) → Option Fraction
tickers_pnl start now total [] = total
tickers_pnl start now none (t ∷ rest) = none
tickers_pnl start now (some total) ((orders, settlement) ∷ rest) =
    tickers_pnl start now (add total (ticker_pnl start now orders settlement)) rest

unfoldable pub daily_pnl : List (List Row × Option Settlement) → ℕ → Option Fraction
unfolding tickers_pnl day_start
daily_pnl tickers now = tickers_pnl (day_start now) now (some nothing) tickers
