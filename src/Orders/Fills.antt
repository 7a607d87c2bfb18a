-- ===== src/Orders/Fills.antt =====
-- `_receive_fill`: the authenticated notices of fills, kept beside the exchange's own figures.
--
-- The record of the fill in the execution journal, under the id of its trade, is Journal's.
pub mod Notices
use mathlib.Core.Path.{subst}
use mathlib.Core.Option.{some-injective}
use project.Common.{
  ℕ, ◌+◌, ◌≤◌, ◌≡◌, refl, sym, ap, ◌∙◌, Bool, true, false, ◌&&◌, ◌||◌, not, if◌then◌else◌, ltb,
  ◌==◌, any, Option, none, some, List, [], ◌∷◌, ◌++◌, lookup, insert, lookup-insert, arith, eq_self,
  both_branches, tested_branches, else_branch,
}
use project.Fees.{Action}
use project.Book.{Side}
use project.Orders.{Row, Orders, Notification, is_buy, is_yes}
use project.Orders.Store.{is_known, same_bool}
use project.Orders.Kept.{Keeps, Keeps-refl, insert-Keeps}

-- A message; a count that is not a positive number is 0.
pub record Fill : Type 0 where
  pub is_fill : Bool
  pub client_order_id : ℕ
  pub trade_id : ℕ
  pub order_id : ℕ
  pub ticker : ℕ
  pub exchange_index : Option ℕ
  pub primary_account : Bool
  pub action : Action
  pub side : Side
  pub count : ℕ

abbrev same_index : Option ℕ → Option ℕ → Bool
same_index none none = true
same_index (some i) (some j) = i == j
same_index _ _ = false

abbrev same_order : Option ℕ → ℕ → Bool
same_order none id = true
same_order (some own) id = not (is_known (some own)) || id == own

-- The fill is one of the row's order.
unfoldable pub matches : Row → Fill → Bool
matches row f =
    f.ticker == row.request.ticker
    && same_index f.exchange_index row.exchange_index
    && f.primary_account
    && same_bool (is_buy f.action) (is_buy row.request.action)
    && same_bool (is_yes f.side) (is_yes row.request.side)
    && same_order row.order_id f.order_id

-- `row.get("fill_notification", dict(...))`
unfoldable pub note_of : Option Notification → ℕ → Notification
note_of none id = record { trade_ids = []; count = 0; order_id = id }
note_of (some n) id = n

abbrev pub has_trade : ℕ → List ℕ → Bool
has_trade id trades = any (λ t. t == id) trades

unfoldable pub noted : Notification → Fill → Notification
noted n f = record n { trade_ids = n.trade_ids ++ f.trade_id ∷ []; count = n.count + f.count }

-- The row with the fill, `none` where the notice is not taken.
unfoldable pub take_fill : Row → Fill → Option Row
unfolding matches note_of noted
take_fill row f =
    let n = note_of row.fill_notification f.order_id in
    if not (matches row f)
      || not (n.order_id == f.order_id)
      || has_trade f.trade_id n.trade_ids
      || f.count == 0
      || ltb row.request.count (n.count + f.count)
    then none
    else some (record row { fill_notification = some (noted n f) })

abbrev pub written : ℕ → Orders → Option Row → Bool × Orders
written id orders none = (false, orders)
written id orders (some row) = (true, insert id row orders)

abbrev pub taken : Option Row → Fill → Option Row
taken none f = none
taken (some row) f = take_fill row f

unfoldable pub receive_fill : Orders → Fill → Bool × Orders
unfolding take_fill
receive_fill orders f =
    if not f.is_fill || f.client_order_id == 0 || f.trade_id == 0 || f.order_id == 0
    then (false, orders)
    else written f.client_order_id orders (taken (lookup f.client_order_id orders) f)

pub receive_fill-Keeps : (orders : Orders) (f : Fill) → Keeps orders (receive_fill orders f).1
unfolding receive_fill
receive_fill-Keeps orders f =
    both_branches (λ (r : Bool × Orders). Keeps orders r.1)
      (not f.is_fill || f.client_order_id == 0 || f.trade_id == 0 || f.order_id == 0)
      (Keeps-refl orders) (kept (taken (lookup f.client_order_id orders) f))
  where
    kept : (r : Option Row) → Keeps orders (written f.client_order_id orders r).1
    kept none = Keeps-refl orders
    kept (some row) = insert-Keeps f.client_order_id row orders
