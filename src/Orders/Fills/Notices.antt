-- ===== src/Orders/Fills/Notices.antt =====
-- The notices taken for an order: different trades, of no more than its count, each taken once.
use mathlib.Core.Path.{subst}
use mathlib.Core.Option.{some-injective}
use project.Common.{
  ℕ, ◌+◌, ◌≤◌, ◌≡◌, refl, sym, ap, ◌∙◌, Bool, true, false, ◌&&◌, ◌||◌, not, if◌then◌else◌, ltb,
  ◌==◌, Option, none, some, List, [], ◌∷◌, ◌++◌, lookup, insert, lookup-insert, arith, eq_self,
  both_branches, tested_branches, else_branch,
}
use project.Orders.{Row, Orders, Notification}
use project.Orders.Fills.{
  Fill, matches, note_of, has_trade, noted, take_fill, written, taken, receive_fill,
}

abbrev distinct : List ℕ → Bool
distinct [] = true
distinct (t ∷ ts) = not (has_trade t ts) && distinct ts

-- The trades noted for a row are different ones, and together no more than was asked for.
abbrev NotedWithin : ℕ → Option Notification → Type 0
NotedWithin most none = Unit
NotedWithin most (some n) = (n.count ≤ most) × (distinct n.trade_ids ≡ true)

abbrev pub Within : Option Row → Type 0
Within none = Unit
Within (some row) = NotedWithin row.request.count row.fill_notification

has_trade-append :
    (id t : ℕ) (ts : List ℕ) → has_trade id (ts ++ t ∷ []) ≡ (has_trade id ts || t == id)
has_trade-append id t [] = ground arith
has_trade-append id t (x ∷ ts) = ground (arith, has_trade-append id t ts)

distinct-append :
    (ts : List ℕ) (t : ℕ)
    → distinct ts ≡ true
    → has_trade t ts ≡ false
    → distinct (ts ++ t ∷ []) ≡ true
distinct-append [] t d h = refl
distinct-append (x ∷ ts) t d h = ground (arith, d, h, distinct-append ts t, has_trade-append x t ts)

note_of-Within :
    (most : ℕ) (o : Option Notification) (id : ℕ)
    → NotedWithin most o
    → NotedWithin most (some (note_of o id))
unfolding note_of
note_of-Within most none id w = (omega arith, refl)
note_of-Within most (some n) id w = w

take_fill-Within : (row : Row) (f : Fill) → Within (some row) → Within (take_fill row f)
unfolding take_fill noted
take_fill-Within row f w =
    let n = note_of row.fill_notification f.order_id in
    let (most, apart) = note_of-Within row.request.count row.fill_notification f.order_id w in
    tested_branches Within
      (not (matches row f)
        || not (n.order_id == f.order_id)
        || has_trade f.trade_id n.trade_ids
        || f.count == 0
        || ltb row.request.count (n.count + f.count))
      (λ _. _)
      (λ e. (ground (arith, e), distinct-append n.trade_ids f.trade_id apart (ground (arith, e))))

taken-Within : (row : Option Row) (f : Fill) → Within row → Within (taken row f)
taken-Within none f w = _
taken-Within (some row) f w = take_fill-Within row f w

-- So it is for every row of the table.
pub record Noted (orders : Orders) : Type 0 where
  pub at_id : (id : ℕ) → Within (lookup id orders)

written-Noted :
    (id : ℕ) (orders : Orders) (row : Option Row)
    → Noted orders
    → Within row
    → Noted (written id orders row).1
written-Noted id orders none n w = n
written-Noted id orders (some row) n w = record {
  at_id = λ at.
      subst Within (sym (lookup-insert id at row orders))
        (both_branches Within (id == at) w (n.at_id at));
}

receive_fill-Noted : (orders : Orders) (f : Fill) → Noted orders → Noted (receive_fill orders f).1
unfolding receive_fill
receive_fill-Noted orders f n =
    let row = taken (lookup f.client_order_id orders) f in
    both_branches (λ (r : Bool × Orders). Noted r.1)
      (not f.is_fill || f.client_order_id == 0 || f.trade_id == 0 || f.order_id == 0) n
      (written-Noted f.client_order_id orders row n
        (taken-Within (lookup f.client_order_id orders) f (n.at_id f.client_order_id)))

unfoldable pub receive_fills : Orders → List Fill → Orders
receive_fills orders [] = orders
receive_fills orders (f ∷ fs) = receive_fills (receive_fill orders f).1 fs

-- Where the notices taken for each order are of different trades and of no more than its count, so
-- they are after any further notices, whatever trades these repeat.
pub receive_fills-Noted :
    (orders : Orders) (fs : List Fill) → Noted orders → Noted (receive_fills orders fs)
unfolding receive_fills
receive_fills-Noted orders [] n = n
receive_fills-Noted orders (f ∷ fs) n =
    receive_fills-Noted (receive_fill orders f).1 fs (receive_fill-Noted orders f n)

noted_again :
    (row : Row) (f : Fill)
    → let n = note_of row.fill_notification f.order_id in
      take_fill (record row { fill_notification = some (noted n f) }) f ≡ none
unfolding take_fill noted note_of
noted_again row f =
    let n = note_of row.fill_notification f.order_id in
    ground (arith, eq_self f.trade_id, has_trade-append f.trade_id f.trade_id n.trade_ids)

taken_again : (row : Row) (f : Fill) (r : Row) → take_fill row f ≡ some r → take_fill r f ≡ none
unfolding take_fill
taken_again row f =
    let n = note_of row.fill_notification f.order_id in
    tested_branches (λ (o : Option Row). (r : Row) → o ≡ some r → take_fill r f ≡ none)
      (not (matches row f)
        || not (n.order_id == f.order_id)
        || has_trade f.trade_id n.trade_ids
        || f.count == 0
        || ltb row.request.count (n.count + f.count))
      (λ _ r h. absurd (ground (arith, h)))
      (λ _ r h. subst (λ x. take_fill x f ≡ none) (some-injective _ _ h) (noted_again row f))

written_again :
    (id : ℕ) (orders : Orders) (f : Fill) (o : Option Row)
    → (written id orders (taken o f)).0 ≡ true
    → let after = (written id orders (taken o f)).1 in
      written id after (taken (lookup id after) f) ≡ (false, after)
written_again id orders f none h = absurd (ground (arith, h))
written_again id orders f (some row) h = again (take_fill row f) refl h
  where
    again :
        (r : Option Row)
        → take_fill row f ≡ r
        → (written id orders r).0 ≡ true
        → let after = (written id orders r).1 in
          written id after (taken (lookup id after) f) ≡ (false, after)
    again none e h = absurd (ground (arith, h))
    again (some r) e h =
        let found : lookup id (insert id r orders) ≡ some r =
          ground (arith, lookup-insert id id r orders) in
        ap (λ o. written id (insert id r orders) (taken o f)) found
        ∙ ap (written id (insert id r orders)) (taken_again row f r e)

-- A notice that is taken changes nothing the second time, and is then reported as not taken.
pub receive_fill-again :
    (orders : Orders) (f : Fill)
    → (receive_fill orders f).0 ≡ true
    → let after = (receive_fill orders f).1 in receive_fill after f ≡ (false, after)
unfolding receive_fill
receive_fill-again orders f =
    let ignored : Bool × Orders = (false, orders) in
    let invalid = not f.is_fill || f.client_order_id == 0 || f.trade_id == 0 || f.order_id == 0 in
    let again : Orders → Bool × Orders = λ after.
      if invalid
      then (false, after)
      else written f.client_order_id after (taken (lookup f.client_order_id after) f) in
    tested_branches (λ (r : Bool × Orders). r.0 ≡ true → again r.1 ≡ (false, r.1)) invalid
      (λ e h. absurd (ground (arith, h)))
      (λ e h.
        else_branch invalid _ e
          (written_again f.client_order_id orders f (lookup f.client_order_id orders) h))
