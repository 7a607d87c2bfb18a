-- ===== src/Orders/Submit/Once.antt =====
-- One submission: what it sends, and for which id.
use mathlib.Core.Path.{subst}
use mathlib.Core.Option.{some-injective}
use project.Common.{
  ◌≡◌, refl, ap, Bool, true, false, ◌&&◌, not, any, Option, none, some, contains, lookup, insert,
  lookup-insert, arith, both_branches, tested_branches, is_present,
}
use project.Orders.{Order, Row, Orders, Payload}
use project.Orders.Store.{
  Claim, conflict, existing, claimed, claim, claim_row, save, rows, blocks, same_request, same_bool,
}
use project.Orders.Kept.{Keeps, Keeps-refl, Keeps-trans, insert-Keeps, save-Keeps}
use project.Orders.Submit.{Terms, Answers, Outcome, submit, start, on_claim}
use project.Orders.Submit.Sent.{Sent, Ended, silent, sent, start-Ended}

-- A claim that goes on inserts a row under an id that the table does not have, and no order of the
-- table blocks it.
data Claims (orders : Orders) (order : Order) (bot : Bool) : Claim → Type 0 where
  refused_as : Claims orders order bot conflict
  existing_as : {row : Row} → Claims orders order bot (existing row)
  claimed_as :
      {row : Row}
      → contains order.client_order_id orders ≡ false
      → any (blocks order bot) (rows orders) ≡ false
      → Claims orders order bot (claimed row (insert order.client_order_id row orders))

claim_row-Claims :
    (previous : Option Row) (orders : Orders) (order : Order) (bot is_resting : Bool)
    → lookup order.client_order_id orders ≡ previous
    → Claims orders order bot (claim_row previous orders order bot is_resting)
unfolding claim_row
claim_row-Claims (some row) orders order bot is_resting e =
    both_branches (Claims orders order bot)
      (same_request row.request order && same_bool row.resting_take_profit is_resting) existing_as
      refused_as
claim_row-Claims none orders order bot is_resting e =
    tested_branches (Claims orders order bot) (any (blocks order bot) (rows orders))
      (λ _. refused_as) (λ f. claimed_as (ap is_present e) f)

-- What a submission did to the table, and of what it sent.
pub record Submitted (orders : Orders) (t : Terms) (a : Answers) (o : Outcome) : Type 0 where
  pub keeps : Keeps orders o.orders
  pub sends :
      (p : Payload)
      → o.posted ≡ some p
      → Sent t a p
        × (contains t.order.client_order_id orders ≡ false)
        × (contains t.order.client_order_id o.orders ≡ true)
        × (any (blocks t.order t.bot) (rows orders) ≡ false)

silent-Submitted :
    (orders : Orders) (t : Terms) (a : Answers) (row : Option Row)
    → Submitted orders t a (record { row = row; orders = orders; posted = none })
silent-Submitted orders t a row = record {
  keeps = Keeps-refl orders;
  sends = λ p e. absurd (ground (arith, e));
}

Ended-Submitted :
    (orders before : Orders) (t : Terms) (a : Answers) (o : Outcome)
    → Keeps orders before
    → contains t.order.client_order_id orders ≡ false
    → contains t.order.client_order_id before ≡ true
    → any (blocks t.order t.bot) (rows orders) ≡ false
    → Ended t a before o
    → Submitted orders t a o
Ended-Submitted orders before t a _ k new now clear (silent l) = record {
  keeps = Keeps-trans k l;
  sends = λ p e. absurd (ground (arith, e));
}
Ended-Submitted orders before t a _ k new now clear (sent l s) = record {
  keeps = Keeps-trans k l;
  sends = λ p e.
      (subst (Sent t a) (some-injective _ _ e) s, new, l.at_id t.order.client_order_id now, clear);
}

on_claim-Submitted :
    (orders : Orders) (t : Terms) (a : Answers) (c : Claim)
    → Claims orders t.order t.bot c
    → Submitted orders t a (on_claim t a orders c)
unfolding on_claim
on_claim-Submitted orders t a conflict refused_as = silent-Submitted orders t a none
on_claim-Submitted orders t a (existing row) existing_as = silent-Submitted orders t a (some row)
on_claim-Submitted orders t a (claimed row saved) (claimed_as new clear) =
    let id = t.order.client_order_id in
    let before = insert id row orders in
    Ended-Submitted orders before t a (start t a before (save before row))
      (insert-Keeps id row orders) new (ground (arith, lookup-insert id id row orders)) clear
      (start-Ended t a before before (save before row) (save-Keeps before row) (Keeps-refl before))

pub submit-Submitted :
    (orders : Orders) (t : Terms) (a : Answers) → Submitted orders t a (submit orders t a)
unfolding submit claim
submit-Submitted orders t a =
    let raised = silent-Submitted orders t a none in
    let c = claim_row (lookup t.order.client_order_id orders) orders t.order t.bot t.resting in
    both_branches (Submitted orders t a) _ raised (
      both_branches (Submitted orders t a) (not t.bot && not a.manual_allowed) raised (
        both_branches (Submitted orders t a) (not a.supported) raised (
          on_claim-Submitted orders t a c (
            claim_row-Claims (lookup t.order.client_order_id orders) orders t.order t.bot t.resting
              refl))))

-- A submission that sends a request sends the payload of its order, of a smaller count or a lower
-- limit at most: a sale of no more than the known position holds, a buy with nothing held of the
-- other side and, for the bot, nothing at all; its price is on the grid of the market read, and the
-- bot's last authorization was given. The table did not have the id before, and has it then; no
-- order of the table blocked it.
pub submit-Sent :
    (orders : Orders) (t : Terms) (a : Answers) (p : Payload)
    → (submit orders t a).posted ≡ some p
    → Sent t a p
      × (contains t.order.client_order_id orders ≡ false)
      × (contains t.order.client_order_id (submit orders t a).orders ≡ true)
      × (any (blocks t.order t.bot) (rows orders) ≡ false)
submit-Sent orders t a p e = (submit-Submitted orders t a).sends p e
