-- ===== src/Orders/Requests.antt =====
-- No id is sent twice, over all submissions, cancellations, checks of orders and notices of fills.
use project.Common.{
  ℕ, ◌≡◌, refl, ap, ◌∙◌, true, false, if◌then◌else◌, ◌==◌, Option, none, some, List, [], ◌∷◌, All,
  contains, lookup, arith, ==_iff, Bool-cases, inl, inr, both_branches,
}
use project.Orders.{Row, Orders, Payload, exchange_order}
use project.Orders.Store.{reconcile, Reconciled, Exchange, or_before, is_unresolved}
use project.Orders.Kept.{Keeps, Keeps-refl, ReconciledKeeps, failed_at, known_at, reconcile-Keeps}
use project.Orders.Fills.{Fill, receive_fill, receive_fill-Keeps}
use project.Orders.Cancel
use project.Orders.Cancel.{cancel_resting, cancel_resting-Keeps}
use project.Orders.Submit.{Terms, Answers, submit}
use project.Orders.Submit.Once.{submit-Submitted}
use project.Orders.Submit.Sent.{Sent}

-- `GET /orders/{id}`: an unresolved order is reconciled; the table, also where that raises
unfoldable pub checked_row : Orders → Exchange → Option Row → Orders
checked_row orders e none = orders
checked_row orders e (some row) =
    let (_, after) = reconcile orders row e in
    if is_unresolved row.state then or_before orders after else orders

unfoldable pub check : Orders → ℕ → Exchange → Orders
unfolding checked_row
check orders id e = checked_row orders e (lookup id orders)

checked_row-Keeps :
    (orders : Orders) (e : Exchange) (row : Option Row) → Keeps orders (checked_row orders e row)
unfolding checked_row
checked_row-Keeps orders e none = Keeps-refl orders
checked_row-Keeps orders e (some row) =
    both_branches (Keeps orders) (is_unresolved row.state)
      (after (reconcile orders row e) (reconcile-Keeps orders row e)) (Keeps-refl orders)
  where
    after : (r : Reconciled) → ReconciledKeeps orders r → Keeps orders (or_before orders r.1)
    after (r, none) failed_at = Keeps-refl orders
    after (r, some saved) (known_at k) = k

-- The table and the requests sent, the last one first.
pub record World : Type 0 where
  pub orders : Orders
  pub requests : List Payload

pub data Step : Type 0 where
  submits : Terms → Answers → Step
  checks : ℕ → Exchange → Step
  fills : Fill → Step
  cancels : ℕ → Cancel.Answers → Step

abbrev with_request : Option Payload → List Payload → List Payload
with_request none requests = requests
with_request (some p) requests = p ∷ requests

unfoldable pub happen : World → Step → World
happen w (submits t a) =
    let o = submit w.orders t a in
    record { orders = o.orders; requests = with_request o.posted w.requests }
happen w (checks id e) = record w { orders = check w.orders id e }
happen w (fills f) = record w { orders = (receive_fill w.orders f).1 }
happen w (cancels id a) = record w { orders = (cancel_resting w.orders id a).1 }

unfoldable pub run : World → List Step → World
run w [] = w
run w (x ∷ xs) = run (happen w x) xs

-- Each request has its own id, and the table knows it.
abbrev pub Distinct : Orders → List Payload → Type 0
Distinct orders [] = Unit
Distinct orders (p ∷ ps) =
    (contains p.client_order_id orders ≡ true)
    × All (λ q. (q.client_order_id == p.client_order_id) ≡ false) ps
    × Distinct orders ps

Keeps-Distinct :
    (before after : Orders) (ps : List Payload)
    → Keeps before after
    → Distinct before ps
    → Distinct after ps
Keeps-Distinct before after [] k d = _
Keeps-Distinct before after (p ∷ ps) k (known, others, d) =
    (k.at_id p.client_order_id known, others, Keeps-Distinct before after ps k d)

-- An id that the table does not know was not sent.
Distinct-others :
    (orders : Orders) (id : ℕ) (ps : List Payload)
    → contains id orders ≡ false
    → Distinct orders ps
    → All (λ q. (q.client_order_id == id) ≡ false) ps
Distinct-others orders id [] h d = _
Distinct-others orders id (p ∷ ps) h (known, others, d) = (differ, Distinct-others orders id ps h d)
  where
    differ : (p.client_order_id == id) ≡ false
    differ = elim (Bool-cases (p.client_order_id == id)) [
      | inl e ↦
          let same : p.client_order_id ≡ id = (==_iff p.client_order_id id).0 e in
          absurd (ground (arith, h, known, ap (λ i. contains i orders) same))
      | inr e ↦ e
    ]

requested-Distinct :
    (orders after : Orders) (t : Terms) (a : Answers) (posted : Option Payload) (ps : List Payload)
    → Keeps orders after
    → ((p : Payload)
        → posted ≡ some p
        → (p.client_order_id ≡ t.order.client_order_id)
          × (contains t.order.client_order_id orders ≡ false)
          × (contains t.order.client_order_id after ≡ true))
    → Distinct orders ps
    → Distinct after (with_request posted ps)
requested-Distinct orders after t a none ps k new d = Keeps-Distinct orders after ps k d
requested-Distinct orders after t a (some p) ps k new d =
    let (same, unknown_before, known) = new p refl in
    let others =
      Distinct-others orders p.client_order_id ps
        (ap (λ i. contains i orders) same ∙ unknown_before) d in
    (ap (λ i. contains i after) same ∙ known, others, Keeps-Distinct orders after ps k d)

Sent-id :
    (t : Terms) (a : Answers) (p : Payload)
    → Sent t a p
    → p.client_order_id ≡ t.order.client_order_id
unfolding exchange_order
Sent-id t a p s = ap (λ q. q.client_order_id) s.is_payload ∙ s.passed.derived.client_order_id

happen-Distinct :
    (w : World) (x : Step)
    → Distinct w.orders w.requests
    → Distinct (happen w x).orders (happen w x).requests
unfolding happen check
happen-Distinct w (submits t a) d =
    let o = submit w.orders t a in
    let done = submit-Submitted w.orders t a in
    requested-Distinct w.orders o.orders t a o.posted w.requests done.keeps
      (λ p e. let (s, new, known, _) = done.sends p e in (Sent-id t a p s, new, known)) d
happen-Distinct w (checks id e) d =
    Keeps-Distinct w.orders (check w.orders id e) w.requests
      (checked_row-Keeps w.orders e (lookup id w.orders)) d
happen-Distinct w (fills f) d =
    Keeps-Distinct w.orders (receive_fill w.orders f).1 w.requests (receive_fill-Keeps w.orders f) d
happen-Distinct w (cancels id a) d =
    Keeps-Distinct w.orders (cancel_resting w.orders id a).1 w.requests
      (cancel_resting-Keeps w.orders id a) d

-- In a state where the requests sent have different client order ids, and the table has a row for
-- each: whatever the exchange, the account and the hooks answer, over any sequence of submissions,
-- cancellations, checks of orders and fill notices from such a state, the requests sent all have
-- different client order ids, and the table has a row for each of them.
pub run-Distinct :
    (w : World) (xs : List Step)
    → Distinct w.orders w.requests
    → Distinct (run w xs).orders (run w xs).requests
unfolding run
run-Distinct w [] d = d
run-Distinct w (x ∷ xs) d = run-Distinct (happen w x) xs (happen-Distinct w x d)
