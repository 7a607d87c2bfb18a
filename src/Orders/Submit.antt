-- ===== src/Orders/Submit.antt =====
-- `submit` and `_submit`: from the claim of an id to the single request, and its answer.
--
-- One submission is one step; `order_lock` orders them. What the exchange, the account and the
-- caller's hooks answer stands in `Answers`, where `none` or `false` is an exception of theirs.
pub mod Passed
pub mod Sent
pub mod Once
use project.Common.{
  ℕ, Bool, true, false, ◌&&◌, ◌||◌, not, if◌then◌else◌, ltb, ◌==◌, min, Option, none, some, List,
  [], ◌∷◌, ℤ, pos_part, neg_part,
}
use project.Fees.{Action, buy, sell}
use project.Book.{Side, yes_side, no_side, other_side}
use project.Market.{Band}
use project.Orders.{
  Order, Row, Orders, State, unknown, rejected, accepted, Payload, is_buy, exchange_order,
  snap_buy_limit, on_tick_grid,
}
use project.Orders.Store.{
  Claim, conflict, existing, claimed, claim, save, Exchange, reconcile, Reconciled,
}

-- The reasons that the code tells apart.
pub data Reason : Type 0 where
  hard_stop resting_profit other_reason : Reason

abbrev pub is_hard_stop : Reason → Bool
is_hard_stop hard_stop = true
is_hard_stop _ = false

abbrev is_resting_profit : Reason → Bool
is_resting_profit resting_profit = true
is_resting_profit _ = false

-- The arguments of `submit`; `bot` says whether `authorize` is given.
pub record Terms : Type 0 where
  pub order : Order
  pub bot : Bool
  pub reason : Reason
  pub resting : Bool

pub record Venue : Type 0 where
  pub exchange_index : ℕ
  pub price_ranges : List Band

-- The answer to the request: lost, also where its status raises; a refusal by one of the listed
-- codes; or an acknowledgement with two ids.
pub data Post : Type 0 where
  lost : Post
  refused : Post
  acknowledged : ℕ → ℕ → Post

pub record Answers : Type 0 where
  pub manual_allowed : Bool
  pub supported : Bool
  pub client : Bool
  pub cached : Option Venue
  pub market : Option Venue
  pub position : Option ℤ
  pub authorized : Bool
  pub post : Post
  pub exchange : Exchange

-- The row returned, `none` where the call raises; the table; and the payload sent, if one was.
pub record Outcome : Type 0 where
  pub row : Option Row
  pub orders : Orders
  pub posted : Option Payload

-- `holdings`: the net position as what is held of each side
abbrev pub holding : ℤ → Side → ℕ
holding position yes_side = pos_part position
holding position no_side = neg_part position

abbrev pub is_stop : Terms → Bool
is_stop t = t.bot && is_hard_stop t.reason && not (is_buy t.order.action)

abbrev cached_or : Option Venue → Option Venue → Option Venue
cached_or none m = m
cached_or (some v) m = some v

-- The market that the preflight reads: a stop takes the cached one.
unfoldable pub venue_of : Terms → Answers → Option Venue
venue_of t a = if is_stop t then cached_or a.cached a.market else a.market

-- The row as the preflight leaves it, and the order that it cleared.
abbrev pub Cleared : Type 0
Cleared = Row × Option Order

-- The checks of an order against the position; `row` comes back with a stop's own count.
unfoldable pub checked : Bool → Order → Row → ℤ → Cleared
checked bot order row position =
    let held = holding position order.side in
    let opposite = holding position (other_side order.side) in
    if not (is_buy order.action) && ltb held order.count
    then (row, none)
    else (if is_buy order.action && ltb 0 opposite
        then (row, none)
        else (if bot && is_buy order.action && (ltb 0 held || ltb 0 opposite)
            then (row, none)
            else (row, some order)))

-- A hard stop sells what is held, up to its count.
unfoldable pub with_position : Terms → Order → Row → ℤ → Cleared
unfolding checked
with_position t order row position =
    let count = min order.count (holding position order.side) in
    let reduced = record order { count = count } in
    if is_stop t
    then (if count == 0
        then (row, none)
        else checked t.bot reduced (record row { request = record row.request { count = count } })
            position)
    else checked t.bot order row position

unfoldable pub with_answer : Terms → Order → Row → Option ℤ → Cleared
with_answer t order row none = (row, none)
with_answer t order row (some position) = with_position t order row position

unfoldable pub with_limit : Terms → Row → Option ℕ → Option ℤ → Cleared
with_limit t row none position = (row, none)
with_limit t row (some limit) position =
    with_answer t (record t.order { limit_cents = limit })
      (record row { effective_limit = some limit }) position

-- The preflight at the market read: an automatic buy is snapped to the venue's grid first.
unfoldable pub preflight : Terms → Row → Venue → Answers → Cleared
preflight t row v a =
    if t.bot && is_buy t.order.action
    then with_limit t row (snap_buy_limit t.order.limit_cents t.order.side v.price_ranges)
        a.position
    else with_answer t t.order row a.position

-- The row saved in the state that ends the submission; a `save` that raises leaves no row.
abbrev ended_as : Orders → Option Payload → Option (Row × Orders) → Outcome
ended_as orders posted none = record { row = none; orders = orders; posted = posted }
ended_as orders posted (some (row, saved)) = record {
  row = some row;
  orders = saved;
  posted = posted;
}

unfoldable pub end : State → Orders → Row → Option Payload → Outcome
unfolding save
end state orders row posted = ended_as orders posted (save orders (record row { state = state }))

-- Nothing was sent.
abbrev stop : Orders → Row → Outcome
stop orders row = end rejected orders row none

-- The tail of a sent order: what is reconciled is returned, and an exception leaves it unknown.
unfoldable pub settled : Orders → Payload → Reconciled → Outcome
settled orders sent (row, none) = end unknown orders row (some sent)
settled orders sent (row, some saved) = record {
  row = some row;
  orders = saved;
  posted = some sent;
}

unfoldable pub acknowledge : Orders → Row → Payload → Option (Row × Orders) → Exchange → Outcome
acknowledge orders row sent none e = end unknown orders row (some sent)
acknowledge orders row sent (some (r, saved)) e = settled saved sent (reconcile saved r e)

unfoldable pub refuse : Orders → Row → Payload → Option (Row × Orders) → Outcome
refuse orders row sent none = end unknown orders row (some sent)
refuse orders row sent (some (r, saved)) = record {
  row = some r;
  orders = saved;
  posted = some sent;
}

-- What becomes of the request.
unfoldable pub answer : Orders → Row → Payload → Post → Exchange → Outcome
answer orders row sent lost e = end unknown orders row (some sent)
answer orders row sent refused e =
    let r = record row { state = rejected } in refuse orders r sent (save orders r)
answer orders row sent (acknowledged client_id order_id) e =
    let r = record row { state = accepted; order_id = some order_id } in
    if not (client_id == row.id) || order_id == 0
    then end unknown orders row (some sent)
    else acknowledge orders r sent (save orders r) e

-- The last authorization, after the attempt is saved.
unfoldable pub authorize :
    Terms → Answers → Payload → Option (Row × Orders) → Row → Orders → Outcome
authorize t a sent none row orders = stop orders row
authorize t a sent (some (r, saved)) row orders =
    if t.bot && not a.authorized then stop saved r else answer saved r sent a.post a.exchange

-- The payload of the cleared order, whose price must be on the venue's grid.
unfoldable pub attempt :
    Terms → Answers → Venue → Order → Option (Row × Orders) → Row → Orders → Outcome
attempt t a v order none row orders = stop orders row
attempt t a v order (some (r, saved)) row orders =
    let sent = exchange_order order v.exchange_index t.resting in
    if on_tick_grid sent.price v.price_ranges
    then authorize t a sent (save saved r) r saved
    else stop saved r

unfoldable pub after_preflight : Terms → Answers → Venue → Orders → Cleared → Outcome
after_preflight t a v orders (row, none) = stop orders row
after_preflight t a v orders (row, some order) =
    let r = record row { exchange_index = some v.exchange_index } in
    attempt t a v order (save orders r) r orders

unfoldable pub at_venue : Terms → Answers → Orders → Row → Option Venue → Outcome
at_venue t a orders row none = stop orders row
at_venue t a orders row (some v) = after_preflight t a v orders (preflight t row v a)

unfoldable pub start : Terms → Answers → Orders → Option (Row × Orders) → Outcome
start t a orders none = record { row = none; orders = orders; posted = none }
start t a orders (some (row, saved)) =
    if a.client then at_venue t a saved row (venue_of t a) else stop saved row

-- A repeated request gives the row that there is, and nothing is sent.
unfoldable pub on_claim : Terms → Answers → Orders → Claim → Outcome
on_claim t a orders conflict = record { row = none; orders = orders; posted = none }
on_claim t a orders (existing row) = record { row = some row; orders = orders; posted = none }
on_claim t a orders (claimed row saved) = start t a saved (save saved row)

-- `submit`, whose guards raise, and `_submit`
unfoldable pub submit : Orders → Terms → Answers → Outcome
submit orders t a =
    let raised : Outcome = record { row = none; orders = orders; posted = none } in
    let is_profit_order =
      t.bot
      && not (is_buy t.order.action)
      && t.order.limit_cents == 9900
      && is_resting_profit t.reason in
    if t.resting && not is_profit_order
    then raised
    else (if not t.bot && not a.manual_allowed
        then raised
        else (if not a.supported
            then raised
            else on_claim t a orders (claim orders t.order t.bot t.resting)))
