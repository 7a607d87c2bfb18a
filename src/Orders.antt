-- ===== src/Orders.antt =====
-- src/btc15/manual_trading.py: the ledger of real orders, their payloads and the limit of a buy;
-- src/btc15/domain.py: order_direction.
--
-- Prices are ten-thousandths of a dollar, the four decimals of a payload, also in a `Band`;
-- quantities are hundredths of a contract. Texts, ids among them, are numbers, 0 the empty one.
-- The table `manual_orders` is a dict from an order's id to its row. The wall-clock readings in
-- `timing`, and the texts of messages, are left out of a row.
pub mod Store
pub mod Limit
pub mod Direction
mod Kept
pub mod Submit
pub mod Fills
pub mod Cancel
pub mod Requests
mod Tests
use project.Common.{
  ℕ, ◌+◌, ◌-◌, ◌*◌, ◌/◌, ◌%◌, ceil_div, min, max, Bool, true, false, ◌&&◌, ◌||◌, not, if◌then◌else◌,
  leb, ltb, ◌==◌, Option, none, some, List, [], ◌∷◌, Dict,
}
use project.Fees.{Action, buy, sell}
use project.Book.{Side, yes_side, no_side}
use project.Market.{Band}

-- $1
abbrev pub dollar : ℕ
dollar = 10000

abbrev pub is_buy : Action → Bool
is_buy buy = true
is_buy sell = false

abbrev pub is_yes : Side → Bool
is_yes yes_side = true
is_yes no_side = false

-- `ManualOrder`, whose `limit_cents` is in hundredths of a cent.
pub record Order : Type 0 where
  pub client_order_id : ℕ
  pub ticker : ℕ
  pub action : Action
  pub side : Side
  pub count : ℕ
  pub limit_cents : ℕ

pub data State : Type 0 where
  submitting accepted unknown complete rejected : State

-- The statuses that the code tells apart.
pub data Status : Type 0 where
  resting executed canceled other_status : Status

-- What the code reads of the exchange's order.
pub record ExchangeOrder : Type 0 where
  pub order_id : ℕ
  pub client_order_id : ℕ
  pub ticker : ℕ
  pub status : Status
  pub fill_count : ℕ

pub record Notification : Type 0 where
  pub trade_ids : List ℕ
  pub count : ℕ
  pub order_id : ℕ

-- A row's body; `bot` is `origin == "bot"`.
pub record Row : Type 0 where
  pub id : ℕ
  pub request : Order
  pub bot : Bool
  pub resting_take_profit : Bool
  pub state : State
  pub order_id : Option ℕ
  pub exchange_index : Option ℕ
  pub exchange_order : Option ExchangeOrder
  pub cancel_requested : Bool
  pub fill_notification : Option Notification
  pub effective_limit : Option ℕ

abbrev pub Orders : Type 0
Orders = Dict Row

pub data BookSide : Type 0 where
  bid ask : BookSide

pub data TimeInForce : Type 0 where
  good_till_canceled fill_or_kill immediate_or_cancel : TimeInForce

-- The fields of the payload that vary, but for the time at which a resting order expires.
pub record Payload : Type 0 where
  pub ticker : ℕ
  pub client_order_id : ℕ
  pub side : BookSide
  pub price : ℕ
  pub count : ℕ
  pub time_in_force : TimeInForce
  pub reduce_only : Bool
  pub exchange_index : ℕ

-- `"bid" if (action == "buy") == (side == "yes") else "ask"`
abbrev pub book_side : Action → Side → BookSide
book_side buy yes_side = bid
book_side buy no_side = ask
book_side sell yes_side = ask
book_side sell no_side = bid

-- `price if side == "yes" else 1 - price`
abbrev pub yes_price : Side → ℕ → ℕ
yes_price yes_side price = price
yes_price no_side price = dollar - price

unfoldable pub order_direction : Action → Side → ℕ → BookSide × ℕ
order_direction action side leg_price = (book_side action side, yes_price side leg_price)

unfoldable pub exchange_order : Order → ℕ → Bool → Payload
exchange_order order index is_resting = record {
  ticker = order.ticker;
  client_order_id = order.client_order_id;
  side = book_side order.action order.side;
  price = yes_price order.side order.limit_cents;
  count = order.count;
  time_in_force =
      if is_resting
      then good_till_canceled
      else (if is_buy order.action then fill_or_kill else immediate_or_cancel);
  reduce_only = not (is_buy order.action) && not is_resting;
  exchange_index = index;
}

-- The loop body of `snap_buy_limit`: the nearest tick of one band, as the purchased side's price.
-- A buy of YES whose limit is below the band has no tick there: the code's is below `start`.
unfoldable pub snap_band : ℕ → Side → Band → Option ℕ
snap_band limit yes_side b =
    let target = min b.end limit in
    let price = b.start + (target - b.start) / b.step * b.step in
    if leb b.start target && leb price b.end && ltb 0 price && ltb price dollar && leb price limit
    then some price
    else none
snap_band limit no_side b =
    let target = max b.start (dollar - limit) in
    let price = b.start + ceil_div (target - b.start) b.step * b.step in
    if leb price b.end && ltb 0 price && ltb price dollar && leb (dollar - price) limit
    then some (dollar - price)
    else none

-- `max(prices)`, of the band's price and those of the bands after it
unfoldable pub larger : Option ℕ → Option ℕ → Option ℕ
larger none q = q
larger (some p) none = some p
larger (some p) (some q) = some (max p q)

unfoldable pub snapped : ℕ → Side → List Band → Option ℕ
snapped limit side [] = none
snapped limit side (b ∷ bands) = larger (snap_band limit side b) (snapped limit side bands)

-- The loop raises at a step that is not positive.
unfoldable pub valid_steps : List Band → Bool
valid_steps [] = true
valid_steps (b ∷ bands) = ltb 0 b.step && valid_steps bands

-- `snap_buy_limit`; it raises `none`
unfoldable pub snap_buy_limit : ℕ → Side → List Band → Option ℕ
snap_buy_limit limit side bands = if valid_steps bands then snapped limit side bands else none

-- The test of the final price: the remainder by a step of 0 raises, which refuses it too.
unfoldable pub on_tick_grid : ℕ → List Band → Bool
on_tick_grid price [] = false
on_tick_grid price (b ∷ bands) =
    let later = on_tick_grid price bands in
    if leb b.start price && leb price b.end
    then (if b.step == 0 then false else ((price - b.start) % b.step == 0 || later))
    else later
