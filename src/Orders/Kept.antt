-- ===== src/Orders/Kept.antt =====
-- The table never loses an order: what every write of it keeps.
use project.Common.{
  ℕ, ◌≡◌, true, ◌||◌, not, ◌==◌, Option, none, some, contains, lookup, insert, lookup-insert, arith,
  both_branches,
}
use project.Orders.{Row, Orders}
use project.Orders.Store.{
  save, save_over, merged, reconcile, reconcile_found, find_order, Exchange, Found, failed, absent,
  found, observed, Reconciled, saved_as,
}

-- Every id of the one table is an id of the other.
pub record Keeps (before after : Orders) : Type 0 where
  pub at_id : (id : ℕ) → contains id before ≡ true → contains id after ≡ true

pub Keeps-refl : (orders : Orders) → Keeps orders orders
Keeps-refl orders = record { at_id = λ id h. h }

pub Keeps-trans : {x y z : Orders} → Keeps x y → Keeps y z → Keeps x z
Keeps-trans k l = record { at_id = λ id h. l.at_id id (k.at_id id h) }

pub insert-Keeps : (id : ℕ) (row : Row) (orders : Orders) → Keeps orders (insert id row orders)
insert-Keeps id row orders = record {
  at_id = λ at h. ground (arith, h, lookup-insert id at row orders);
}

pub data SavedKeeps (before : Orders) : Option (Row × Orders) → Type 0 where
  raised : SavedKeeps before none
  kept : {row : Row} {after : Orders} → Keeps before after → SavedKeeps before (some (row, after))

save_over-Keeps :
    (previous : Option Row) (orders : Orders) (row : Row)
    → SavedKeeps orders (save_over previous orders row)
unfolding save_over
save_over-Keeps none orders row = kept (Keeps-refl orders)
save_over-Keeps (some previous) orders row =
    both_branches (SavedKeeps orders) _ (kept (Keeps-refl orders)) (
      both_branches (SavedKeeps orders) _ raised
        (kept (insert-Keeps row.id (merged previous row) orders)))

pub save-Keeps : (orders : Orders) (row : Row) → SavedKeeps orders (save orders row)
unfolding save
save-Keeps orders row = save_over-Keeps (lookup row.id orders) orders row

pub data ReconciledKeeps (before : Orders) : Reconciled → Type 0 where
  failed_at : {row : Row} → ReconciledKeeps before (row, none)
  known_at :
      {row : Row} {after : Orders} → Keeps before after → ReconciledKeeps before (row, some after)

saved_as-Keeps :
    (orders : Orders) (row : Row) (s : Option (Row × Orders))
    → SavedKeeps orders s
    → ReconciledKeeps orders (saved_as row s)
saved_as-Keeps orders row none raised = failed_at
saved_as-Keeps orders row (some (r, saved)) (kept k) = known_at k

reconcile_found-Keeps :
    (orders : Orders) (row : Row) (f : Found)
    → ReconciledKeeps orders (reconcile_found orders row f)
unfolding reconcile_found
reconcile_found-Keeps orders row failed = failed_at
reconcile_found-Keeps orders row absent = known_at (Keeps-refl orders)
reconcile_found-Keeps orders row (found o) =
    both_branches (ReconciledKeeps orders)
      (not (o.client_order_id == row.id) || not (o.ticker == row.request.ticker)) failed_at
      (saved_as-Keeps orders (observed row o) (save orders (observed row o))
        (save-Keeps orders (observed row o)))

pub reconcile-Keeps :
    (orders : Orders) (row : Row) (e : Exchange) → ReconciledKeeps orders (reconcile orders row e)
unfolding reconcile
reconcile-Keeps orders row e =
    elim row.exchange_index
      as (λ i. ReconciledKeeps orders (elim i [
        | none ↦ (row, some orders)
        | some index ↦ reconcile_found orders row (find_order row e)
      ])) [
        | none ↦ known_at (Keeps-refl orders)
        | some index ↦ reconcile_found-Keeps orders row (find_order row e)
      ]
