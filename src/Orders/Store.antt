-- ===== src/Orders/Store.antt =====
-- The ledger's rows: the claim of an id, the saving of a row, and the exchange's answer on it.
use project.Common.{
  ℕ, Bool, true, false, ◌&&◌, ◌||◌, not, if◌then◌else◌, ltb, ◌==◌, any, Option, none, some, List,
  [], ◌∷◌, lookup, insert,
}
use project.Orders.{
  Order, State, submitting, accepted, unknown, complete, rejected, Status, resting, executed,
  canceled, other_status, ExchangeOrder, Notification, Row, Orders, is_buy, is_yes,
}

-- `state in UNRESOLVED`
abbrev pub is_unresolved : State → Bool
is_unresolved submitting = true
is_unresolved accepted = true
is_unresolved unknown = true
is_unresolved complete = false
is_unresolved rejected = false

abbrev is_accepted : State → Bool
is_accepted accepted = true
is_accepted _ = false

abbrev is_complete : State → Bool
is_complete complete = true
is_complete _ = false

abbrev is_resting : Status → Bool
is_resting resting = true
is_resting _ = false

abbrev rests : Option ExchangeOrder → Bool
rests none = false
rests (some o) = is_resting o.status

unfoldable pub confirmed_resting : Row → Bool
confirmed_resting row =
    row.resting_take_profit
    && row.bot
    && is_accepted row.state
    && rests row.exchange_order
    && not row.cancel_requested

abbrev pub same_bool : Bool → Bool → Bool
same_bool true b = b
same_bool false b = not b

-- `row["request"] == payload`
unfoldable pub same_request : Order → Order → Bool
same_request a b =
    a.client_order_id == b.client_order_id
    && a.ticker == b.ticker
    && same_bool (is_buy a.action) (is_buy b.action)
    && same_bool (is_yes a.side) (is_yes b.side)
    && a.count == b.count
    && a.limit_cents == b.limit_cents

-- An order of the ledger keeps another from being submitted.
unfoldable pub blocks : Order → Bool → Row → Bool
unfolding confirmed_resting
blocks order bot r =
    is_unresolved r.state
    && not (confirmed_resting r && not (r.request.ticker == order.ticker))
    && (not bot || is_buy order.action || r.request.ticker == order.ticker)

abbrev pub rows : Orders → List Row
rows [] = []
rows ((id, row) ∷ rest) = row ∷ rows rest

unfoldable pub fresh_row : Order → Bool → Bool → Row
fresh_row order bot is_resting = record {
  id = order.client_order_id;
  request = order;
  bot = bot;
  resting_take_profit = is_resting;
  state = submitting;
  order_id = none;
  exchange_index = none;
  exchange_order = none;
  cancel_requested = false;
  fill_notification = none;
  effective_limit = none;
}

-- `claim` raises a 409, gives the row that has the id, or inserts one.
pub data Claim : Type 0 where
  conflict : Claim
  existing : Row → Claim
  claimed : Row → Orders → Claim

unfoldable pub claim_row : Option Row → Orders → Order → Bool → Bool → Claim
unfolding blocks same_request fresh_row
claim_row (some row) orders order bot is_resting =
    if same_request row.request order && same_bool row.resting_take_profit is_resting
    then existing row
    else conflict
claim_row none orders order bot is_resting =
    let row = fresh_row order bot is_resting in
    if any (blocks order bot) (rows orders)
    then conflict
    else claimed row (insert order.client_order_id row orders)

unfoldable pub claim : Orders → Order → Bool → Bool → Claim
unfolding claim_row
claim orders order bot is_resting =
    claim_row (lookup order.client_order_id orders) orders order bot is_resting

-- `Decimal((row.get("exchange_order") or {}).get("fill_count_fp", "0"))`
abbrev filled_of : Option ExchangeOrder → ℕ
filled_of none = 0
filled_of (some o) = o.fill_count

abbrev or_else : Option Notification → Option Notification → Option Notification
or_else none n = n
or_else (some m) n = some m

-- What `save` takes over from the row that the table has.
unfoldable pub merged : Row → Row → Row
merged previous row = record row {
  cancel_requested =
      row.cancel_requested || (previous.resting_take_profit && previous.cancel_requested);
  fill_notification = or_else previous.fill_notification row.fill_notification;
}

-- `save`: the row it returns and the table; it raises `none`.
unfoldable pub save_over : Option Row → Orders → Row → Option (Row × Orders)
save_over none orders row = some (row, orders)
save_over (some previous) orders row =
    if previous.resting_take_profit && is_complete previous.state && is_unresolved row.state
    then some (previous, orders)
    else (if previous.resting_take_profit
          && ltb (filled_of row.exchange_order) (filled_of previous.exchange_order)
        then none
        else some (merged previous row, insert row.id (merged previous row) orders))

unfoldable pub save : Orders → Row → Option (Row × Orders)
unfolding save_over
save orders row = save_over (lookup row.id orders) orders row

-- The exchange's answers to `reconcile`: the order under a known id, or the pages of orders;
-- `none` is a request that fails.
pub record Exchange : Type 0 where
  pub by_id : Option ExchangeOrder
  pub pages : Option (List ExchangeOrder)

pub data Found : Type 0 where
  failed : Found
  absent : Found
  found : ExchangeOrder → Found

abbrev pub is_known : Option ℕ → Bool
is_known none = false
is_known (some id) = not (id == 0)

abbrev from_id : Option ExchangeOrder → Found
from_id none = failed
from_id (some o) = found o

-- The first candidate with our client id.
unfoldable pub first_of : ℕ → List ExchangeOrder → Found
first_of id [] = absent
first_of id (o ∷ rest) = if o.client_order_id == id then found o else first_of id rest

abbrev from_pages : ℕ → Option (List ExchangeOrder) → Found
from_pages id none = failed
from_pages id (some candidates) = first_of id candidates

unfoldable pub find_order : Row → Exchange → Found
find_order row e = if is_known row.order_id then from_id e.by_id else from_pages row.id e.pages

abbrev is_final : Status → Bool
is_final executed = true
is_final canceled = true
is_final resting = false
is_final other_status = false

-- `row.update(...)` with the exchange's order
unfoldable pub observed : Row → ExchangeOrder → Row
observed row o = record row {
  order_id = some o.order_id;
  exchange_order = some o;
  state = if is_final o.status then complete else accepted;
}

-- The row after `reconcile`, as its caller holds it, and the table; `none` where it raised.
abbrev pub Reconciled : Type 0
Reconciled = Row × Option Orders

abbrev pub saved_as : Row → Option (Row × Orders) → Reconciled
saved_as row none = (row, none)
saved_as row (some (r, orders)) = (r, some orders)

unfoldable pub reconcile_found : Orders → Row → Found → Reconciled
unfolding observed save
reconcile_found orders row failed = (row, none)
reconcile_found orders row absent = (row, some orders)
reconcile_found orders row (found o) =
    if not (o.client_order_id == row.id) || not (o.ticker == row.request.ticker)
    then (row, none)
    else saved_as (observed row o) (save orders (observed row o))

unfoldable pub reconcile : Orders → Row → Exchange → Reconciled
unfolding reconcile_found find_order
reconcile orders row e = elim row.exchange_index [
  | none ↦ (row, some orders)
  | some index ↦ reconcile_found orders row (find_order row e)
]

abbrev pub or_before : Orders → Option Orders → Orders
or_before before none = before
or_before before (some after) = after
