-- ===== src/Orders/Submit/Passed.antt =====
-- What the preflight has checked of an order that it clears.
use project.Common.{
  ℕ, ◌≤◌, ◌≡◌, refl, ap, ◌∙◌, Bool, true, false, ◌&&◌, not, if◌then◌else◌, ◌==◌, min, Option, none,
  some, ℤ, arith, Bool-cases, inl, inr, taken_branch, not_taken,
}
use project.Book.{other_side}
use project.Orders.{Order, Row, is_buy, snap_buy_limit}
use project.Orders.Limit.{snap_buy_limit-le}
use project.Orders.Submit.{
  Terms, Venue, Answers, Cleared, checked, with_position, with_answer, with_limit, preflight,
  holding, is_stop, is_hard_stop,
}

-- The order goes with the position p: a sale sells no more than is held, and a buy nets nothing
-- out; an automatic buy finds no position.
pub record Fits (bot : Bool) (order : Order) (p : ℤ) : Type 0 where
  pub sells : is_buy order.action ≡ false → order.count ≤ holding p order.side
  pub buys : is_buy order.action ≡ true → holding p (other_side order.side) ≡ 0
  pub flat : (bot && is_buy order.action) ≡ true → holding p order.side ≡ 0

-- The same order, but for a smaller count or a lower limit.
pub record Derived (base order : Order) : Type 0 where
  pub client_order_id : order.client_order_id ≡ base.client_order_id
  pub ticker : order.ticker ≡ base.ticker
  pub action : order.action ≡ base.action
  pub side : order.side ≡ base.side
  pub count : order.count ≤ base.count
  pub limit : order.limit_cents ≤ base.limit_cents

pub record Passed (t : Terms) (a : Answers) (order : Order) : Type 0 where
  pub derived : Derived t.order order
  pub position : ℤ
  pub known : a.position ≡ some position
  pub fits : Fits t.bot order position

Derived-refl : (base order : Order) → order ≡ base → Derived base order
Derived-refl base order e = record {
  client_order_id = ap (λ o. o.client_order_id) e;
  ticker = ap (λ o. o.ticker) e;
  action = ap (λ o. o.action) e;
  side = ap (λ o. o.side) e;
  count = omega (arith, ap (λ o. o.count) e);
  limit = omega (arith, ap (λ o. o.limit_cents) e);
}

Derived-trans : {a b c : Order} → Derived a b → Derived b c → Derived a c
Derived-trans d e = record {
  client_order_id = e.client_order_id ∙ d.client_order_id;
  ticker = e.ticker ∙ d.ticker;
  action = e.action ∙ d.action;
  side = e.side ∙ d.side;
  count = omega (arith, d.count, e.count);
  limit = omega (arith, d.limit, e.limit);
}

checked-Fits :
    (bot : Bool) (order : Order) (row : Row) (p : ℤ) (r : Row) (cleared : Order)
    → checked bot order row p ≡ (r, some cleared)
    → (cleared ≡ order) × Fits bot cleared p
unfolding checked
checked-Fits bot order row p r cleared h = (
  ground (arith, h),
  record {
    sells = λ e. ground (arith, h, e);
    buys = λ e. ground (arith, h, e);
    flat = λ e. ground (arith, h, e);
  },
)

with_position-Fits :
    (t : Terms) (order : Order) (row : Row) (p : ℤ) (r : Row) (cleared : Order)
    → with_position t order row p ≡ (r, some cleared)
    → Derived order cleared × Fits t.bot cleared p
unfolding with_position
with_position-Fits t order row p r cleared h =
    let count = min order.count (holding p order.side) in
    let reduced : Order = record order { count = count } in
    let row' : Row = record row { request = record row.request { count = count } } in
    let whole = checked t.bot order row p in
    let zero_left : Cleared = (row, none) in
    let part = if count == 0 then zero_left else checked t.bot reduced row' p in
    elim (Bool-cases (t.bot && is_hard_stop t.reason && not (is_buy t.order.action))) [
      | inl e ↦
          let k = taken_branch (is_stop t) part whole e h in
          elim (Bool-cases (count == 0)) [
            | inl z ↦ absurd (
                ground
                  (arith, taken_branch (count == 0) zero_left (checked t.bot reduced row' p) z k))
            | inr z ↦
                let l = not_taken (count == 0) zero_left (checked t.bot reduced row' p) z k in
                let (same, fits) = checked-Fits t.bot reduced row' p r cleared l in
                let shrunk : Derived order reduced = record {
                  client_order_id = refl;
                  ticker = refl;
                  action = refl;
                  side = refl;
                  count = omega arith;
                  limit = omega arith;
                } in
                (Derived-trans shrunk (Derived-refl reduced cleared same), fits)
          ]
      | inr e ↦
          let k = not_taken (is_stop t) part whole e h in
          let (same, fits) = checked-Fits t.bot order row p r cleared k in
          (Derived-refl order cleared same, fits)
    ]

with_answer-Passed :
    (t : Terms) (a : Answers) (order : Order) (row : Row) (position : Option ℤ) (r : Row)
    (cleared : Order)
    → a.position ≡ position
    → Derived t.order order
    → with_answer t order row position ≡ (r, some cleared)
    → Passed t a cleared
unfolding with_answer
with_answer-Passed t a order row none r cleared known d h = absurd (ground (arith, h))
with_answer-Passed t a order row (some p) r cleared known d h =
    let (e, fits) = with_position-Fits t order row p r cleared h in
    record { derived = Derived-trans d e; position = p; known = known; fits = fits }

with_limit-Passed :
    (t : Terms) (a : Answers) (v : Venue) (row : Row) (limit : Option ℕ) (r : Row) (cleared : Order)
    → snap_buy_limit t.order.limit_cents t.order.side v.price_ranges ≡ limit
    → with_limit t row limit a.position ≡ (r, some cleared)
    → Passed t a cleared
unfolding with_limit
with_limit-Passed t a v row none r cleared e h = absurd (ground (arith, h))
with_limit-Passed t a v row (some limit) r cleared e h =
    with_answer-Passed t a (record t.order { limit_cents = limit })
      (record row { effective_limit = some limit }) a.position r cleared refl
      (record {
        client_order_id = refl;
        ticker = refl;
        action = refl;
        side = refl;
        count = omega arith;
        limit = snap_buy_limit-le t.order.limit_cents t.order.side v.price_ranges limit e;
      })
      h

pub preflight-Passed :
    (t : Terms) (a : Answers) (v : Venue) (row r : Row) (cleared : Order)
    → preflight t row v a ≡ (r, some cleared)
    → Passed t a cleared
unfolding preflight
preflight-Passed t a v row r cleared h =
    let limit = snap_buy_limit t.order.limit_cents t.order.side v.price_ranges in
    let snapped = with_limit t row limit a.position in
    let plain = with_answer t t.order row a.position in
    elim (Bool-cases (t.bot && is_buy t.order.action)) [
      | inl e ↦
          with_limit-Passed t a v row limit r cleared refl
            (taken_branch (t.bot && is_buy t.order.action) snapped plain e h)
      | inr e ↦
          with_answer-Passed t a t.order row a.position r cleared refl
            (Derived-refl t.order t.order refl)
            (not_taken (t.bot && is_buy t.order.action) snapped plain e h)
    ]
