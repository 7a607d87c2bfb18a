-- ===== src/Orders/Cancel.antt =====
-- `cancel_resting`: the bot's resting sale is canceled, and its final fills are read.
use project.Common.{
  ℕ, Bool, true, ◌||◌, not, if◌then◌else◌, Option, none, some, lookup, both_branches,
}
use project.Orders.{Row, Orders}
use project.Orders.Store.{save, reconcile, Reconciled, Exchange, is_unresolved, is_known}
use project.Orders.Kept.{
  Keeps, Keeps-refl, Keeps-trans, SavedKeeps, raised, kept, save-Keeps, ReconciledKeeps, failed_at,
  known_at, reconcile-Keeps,
}

-- Whether there are credentials, what comes of the request to cancel (an answer, and one that
-- does not raise), and the exchange's answers before and after it.
pub record Answers : Type 0 where
  pub client : Bool
  pub answered : Bool
  pub confirmed : Bool
  pub before : Exchange
  pub after : Exchange

-- The row that the call returns, `none` where it raises, and the table.
abbrev pub Canceled : Type 0
Canceled = Option Row × Orders

abbrev returned : Orders → Reconciled → Canceled
returned orders (row, none) = (none, orders)
returned orders (row, some saved) = (some row, saved)

-- An exception of a `save` leaves the call.
unfoldable pub then_save : (Row → Orders → Canceled) → Orders → Option (Row × Orders) → Canceled
then_save next orders none = (none, orders)
then_save next orders (some (row, saved)) = next row saved

unfoldable pub verify : Exchange → Row → Orders → Canceled
verify e row orders = returned orders (reconcile orders row e)

-- A request that raised, or was not answered, is noted as unknown.
unfoldable pub cancel_answered : Answers → Row → Orders → Canceled
unfolding then_save verify
cancel_answered a row orders =
    if a.confirmed
    then verify a.after row orders
    else then_save (verify a.after) orders (save orders row)

unfoldable pub attempted : Answers → Row → Orders → Canceled
unfolding then_save cancel_answered
attempted a row orders =
    if a.answered
    then then_save (cancel_answered a) orders (save orders row)
    else then_save (verify a.after) orders (save orders row)

-- An order that is over by now, or that the exchange does not know, is not canceled.
unfoldable pub attempt_cancel : Answers → Reconciled → Orders → Canceled
unfolding then_save attempted
attempt_cancel a (row, none) orders = (none, orders)
attempt_cancel a (row, some saved) orders =
    if not (is_unresolved row.state) || not (is_known row.order_id)
    then (some row, saved)
    else then_save (attempted a) saved (save saved row)

unfoldable pub with_client : Answers → Row → Orders → Canceled
unfolding attempt_cancel
with_client a row orders =
    if a.client
    then (if is_known row.order_id
        then attempt_cancel a (row, some orders) orders
        else attempt_cancel a (reconcile orders row a.before) orders)
    else (none, orders)

unfoldable pub cancel_row : Answers → Orders → Option Row → Canceled
unfolding then_save with_client
cancel_row a orders none = (none, orders)
cancel_row a orders (some row) =
    let requested = record row { cancel_requested = true } in
    if not row.resting_take_profit || not row.bot
    then (none, orders)
    else (if is_unresolved row.state
        then then_save (with_client a) orders (save orders requested)
        else (some row, orders))

unfoldable pub cancel_resting : Orders → ℕ → Answers → Canceled
unfolding cancel_row
cancel_resting orders id a = cancel_row a orders (lookup id orders)

-- A call that keeps the table.
pub record CanceledKeeps (before : Orders) (c : Canceled) : Type 0 where
  pub keeps : Keeps before c.1

same : (orders : Orders) (row : Option Row) → CanceledKeeps orders (row, orders)
same orders row = record { keeps = Keeps-refl orders }

then_save-Keeps :
    (next : Row → Orders → Canceled) (orders : Orders) (s : Option (Row × Orders))
    → ((row : Row) (saved : Orders) → CanceledKeeps saved (next row saved))
    → SavedKeeps orders s
    → CanceledKeeps orders (then_save next orders s)
unfolding then_save
then_save-Keeps next orders none h raised = same orders none
then_save-Keeps next orders (some (row, saved)) h (kept k) = record {
  keeps = Keeps-trans k (h row saved).keeps;
}

verify-Keeps :
    (e : Exchange) (row : Row) (orders : Orders) → CanceledKeeps orders (verify e row orders)
unfolding verify
verify-Keeps e row orders = after (reconcile orders row e) (reconcile-Keeps orders row e)
  where
    after : (r : Reconciled) → ReconciledKeeps orders r → CanceledKeeps orders (returned orders r)
    after (r, none) failed_at = same orders none
    after (r, some saved) (known_at k) = record { keeps = k }

cancel_answered-Keeps :
    (a : Answers) (row : Row) (orders : Orders)
    → CanceledKeeps orders (cancel_answered a row orders)
unfolding cancel_answered
cancel_answered-Keeps a row orders =
    both_branches (CanceledKeeps orders) a.confirmed (verify-Keeps a.after row orders) (
      then_save-Keeps (verify a.after) orders (save orders row) (verify-Keeps a.after)
        (save-Keeps orders row))

attempted-Keeps :
    (a : Answers) (row : Row) (orders : Orders) → CanceledKeeps orders (attempted a row orders)
unfolding attempted
attempted-Keeps a row orders =
    both_branches (CanceledKeeps orders) a.answered
      (then_save-Keeps (cancel_answered a) orders (save orders row) (cancel_answered-Keeps a)
        (save-Keeps orders row))
      (then_save-Keeps (verify a.after) orders (save orders row) (verify-Keeps a.after)
        (save-Keeps orders row))

attempt_cancel-Keeps :
    (a : Answers) (r : Reconciled) (orders : Orders)
    → ReconciledKeeps orders r
    → CanceledKeeps orders (attempt_cancel a r orders)
unfolding attempt_cancel
attempt_cancel-Keeps a (row, none) orders failed_at = same orders none
attempt_cancel-Keeps a (row, some saved) orders (known_at k) =
    both_branches (CanceledKeeps orders)
      (not (is_unresolved row.state) || not (is_known row.order_id)) (record { keeps = k })
      (record {
        keeps =
            Keeps-trans k
              (then_save-Keeps (attempted a) saved (save saved row) (attempted-Keeps a)
                (save-Keeps saved row)).keeps;
      })

with_client-Keeps :
    (a : Answers) (row : Row) (orders : Orders) → CanceledKeeps orders (with_client a row orders)
unfolding with_client
with_client-Keeps a row orders =
    both_branches (CanceledKeeps orders) a.client
      (both_branches (CanceledKeeps orders) (is_known row.order_id)
        (attempt_cancel-Keeps a (row, some orders) orders (known_at (Keeps-refl orders)))
        (attempt_cancel-Keeps a (reconcile orders row a.before) orders
          (reconcile-Keeps orders row a.before)))
      (same orders none)

cancel_row-Keeps :
    (a : Answers) (orders : Orders) (row : Option Row)
    → CanceledKeeps orders (cancel_row a orders row)
unfolding cancel_row
cancel_row-Keeps a orders none = same orders none
cancel_row-Keeps a orders (some row) =
    let requested : Row = record row { cancel_requested = true } in
    both_branches (CanceledKeeps orders) (not row.resting_take_profit || not row.bot)
      (same orders none)
      (both_branches (CanceledKeeps orders) (is_unresolved row.state)
        (then_save-Keeps (with_client a) orders (save orders requested) (with_client-Keeps a)
          (save-Keeps orders requested))
        (same orders (some row)))

pub cancel_resting-Keeps :
    (orders : Orders) (id : ℕ) (a : Answers) → Keeps orders (cancel_resting orders id a).1
unfolding cancel_resting
cancel_resting-Keeps orders id a = (cancel_row-Keeps a orders (lookup id orders)).keeps
