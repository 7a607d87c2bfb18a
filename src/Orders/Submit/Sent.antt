-- ===== src/Orders/Submit/Sent.antt =====
-- What a submission sends, and that it keeps the table, stage by stage.
use project.Common.{
  ◌≡◌, refl, true, false, ◌&&◌, ◌||◌, not, ◌==◌, Option, none, some, both_branches, tested_branches,
}
use project.Orders.{
  Order, Row, Orders, State, unknown, rejected, accepted, Payload, exchange_order, on_tick_grid,
}
use project.Orders.Store.{save, reconcile, Reconciled, Exchange}
use project.Orders.Kept.{
  Keeps, Keeps-trans, SavedKeeps, raised, kept, save-Keeps, ReconciledKeeps, failed_at, known_at,
  reconcile-Keeps,
}
use project.Orders.Submit.{
  Terms, Answers, Venue, Outcome, Cleared, Post, lost, refused, acknowledged, end, ended_as, answer,
  attempt, authorize, preflight, settled, refuse, acknowledge, after_preflight, at_venue, start,
  venue_of,
}
use project.Orders.Submit.Passed.{Passed, preflight-Passed}

-- The payload is that of an order that passed the preflight, at a price of the grid of the market
-- that the submission read, and its last authorization was given.
pub record Sent (t : Terms) (a : Answers) (p : Payload) : Type 0 where
  pub order : Order
  pub venue : Venue
  pub from_market : venue_of t a ≡ some venue
  pub passed : Passed t a order
  pub is_payload : p ≡ exchange_order order venue.exchange_index t.resting
  pub on_grid : on_tick_grid p.price venue.price_ranges ≡ true
  pub authorized : (t.bot && not a.authorized) ≡ false

-- What comes of a submission that begins with the table `before`.
pub data Ended (t : Terms) (a : Answers) (before : Orders) : Outcome → Type 0 where
  silent :
      {row : Option Row} {after : Orders}
      → Keeps before after
      → Ended t a before (record { row = row; orders = after; posted = none })
  sent :
      {row : Option Row} {after : Orders} {p : Payload}
      → Keeps before after
      → Sent t a p
      → Ended t a before (record { row = row; orders = after; posted = some p })

module _ (t : Terms) (a : Answers) (before : Orders) where
  end-Sent :
      (state : State) (orders : Orders) (row : Row) (p : Payload)
      → Keeps before orders
      → Sent t a p
      → Ended t a before (end state orders row (some p))
  unfolding end
  end-Sent state orders row p k s =
      ended (save orders (record row { state = state }))
        (save-Keeps orders (record row { state = state }))
    where
      ended :
          (saved : Option (Row × Orders))
          → SavedKeeps orders saved
          → Ended t a before (ended_as orders (some p) saved)
      ended none raised = sent k s
      ended (some (r, after)) (kept l) = sent (Keeps-trans k l) s

  end-silent :
      (state : State) (orders : Orders) (row : Row)
      → Keeps before orders
      → Ended t a before (end state orders row none)
  unfolding end
  end-silent state orders row k =
      ended (save orders (record row { state = state }))
        (save-Keeps orders (record row { state = state }))
    where
      ended :
          (saved : Option (Row × Orders))
          → SavedKeeps orders saved
          → Ended t a before (ended_as orders none saved)
      ended none raised = silent k
      ended (some (r, after)) (kept l) = silent (Keeps-trans k l)

  settled-Sent :
      (orders : Orders) (p : Payload) (r : Reconciled)
      → ReconciledKeeps orders r
      → Keeps before orders
      → Sent t a p
      → Ended t a before (settled orders p r)
  unfolding settled
  settled-Sent orders p (row, none) failed_at k s = end-Sent unknown orders row p k s
  settled-Sent orders p (row, some saved) (known_at l) k s = sent (Keeps-trans k l) s

  acknowledge-Sent :
      (orders : Orders) (row : Row) (p : Payload) (saved : Option (Row × Orders)) (e : Exchange)
      → SavedKeeps orders saved
      → Keeps before orders
      → Sent t a p
      → Ended t a before (acknowledge orders row p saved e)
  unfolding acknowledge
  acknowledge-Sent orders row p none e raised k s = end-Sent unknown orders row p k s
  acknowledge-Sent orders row p (some (r, saved)) e (kept l) k s =
      settled-Sent saved p (reconcile saved r e) (reconcile-Keeps saved r e) (Keeps-trans k l) s

  refuse-Sent :
      (orders : Orders) (row : Row) (p : Payload) (saved : Option (Row × Orders))
      → SavedKeeps orders saved
      → Keeps before orders
      → Sent t a p
      → Ended t a before (refuse orders row p saved)
  unfolding refuse
  refuse-Sent orders row p none raised k s = end-Sent unknown orders row p k s
  refuse-Sent orders row p (some (r, saved)) (kept l) k s = sent (Keeps-trans k l) s

  answer-Sent :
      (orders : Orders) (row : Row) (p : Payload) (post : Post) (e : Exchange)
      → Keeps before orders
      → Sent t a p
      → Ended t a before (answer orders row p post e)
  unfolding answer
  answer-Sent orders row p lost e k s = end-Sent unknown orders row p k s
  answer-Sent orders row p refused e k s =
      let r : Row = record row { state = rejected } in
      refuse-Sent orders r p (save orders r) (save-Keeps orders r) k s
  answer-Sent orders row p (acknowledged client_id order_id) e k s =
      let r : Row = record row { state = accepted; order_id = some order_id } in
      both_branches (Ended t a before) (not (client_id == row.id) || order_id == 0)
        (end-Sent unknown orders row p k s)
        (acknowledge-Sent orders r p (save orders r) e (save-Keeps orders r) k s)

  authorize-Ended :
      (v : Venue) (order : Order) (p : Payload) (s : Option (Row × Orders)) (row : Row)
      (orders : Orders)
      → SavedKeeps orders s
      → Keeps before orders
      → venue_of t a ≡ some v
      → Passed t a order
      → p ≡ exchange_order order v.exchange_index t.resting
      → on_tick_grid p.price v.price_ranges ≡ true
      → Ended t a before (authorize t a p s row orders)
  unfolding authorize
  authorize-Ended v order p none row orders raised k at_market passed e g =
      end-silent rejected orders row k
  authorize-Ended v order p (some (r, saved)) row orders (kept l) k at_market passed e g =
      tested_branches (Ended t a before) (t.bot && not a.authorized)
        (λ _. end-silent rejected saved r (Keeps-trans k l))
        (λ f. answer-Sent saved r p a.post a.exchange (Keeps-trans k l) (record {
          order = order;
          venue = v;
          from_market = at_market;
          passed = passed;
          is_payload = e;
          on_grid = g;
          authorized = f;
        }))

  attempt-Ended :
      (v : Venue) (order : Order) (s : Option (Row × Orders)) (row : Row) (orders : Orders)
      → SavedKeeps orders s
      → Keeps before orders
      → venue_of t a ≡ some v
      → Passed t a order
      → Ended t a before (attempt t a v order s row orders)
  unfolding attempt
  attempt-Ended v order none row orders raised k at_market passed = end-silent rejected orders row k
  attempt-Ended v order (some (r, saved)) row orders (kept l) k at_market passed =
      let p = exchange_order order v.exchange_index t.resting in
      tested_branches (Ended t a before) (on_tick_grid p.price v.price_ranges)
        (λ g.
          authorize-Ended v order p (save saved r) r saved (save-Keeps saved r) (Keeps-trans k l)
            at_market passed refl g)
        (λ _. end-silent rejected saved r (Keeps-trans k l))

  after_preflight-Ended :
      (v : Venue) (orders : Orders) (c : Cleared)
      → Keeps before orders
      → venue_of t a ≡ some v
      → ((r : Row) (order : Order) → c ≡ (r, some order) → Passed t a order)
      → Ended t a before (after_preflight t a v orders c)
  unfolding after_preflight
  after_preflight-Ended v orders (row, none) k at_market passed = end-silent rejected orders row k
  after_preflight-Ended v orders (row, some order) k at_market passed =
      let r : Row = record row { exchange_index = some v.exchange_index } in
      attempt-Ended v order (save orders r) r orders (save-Keeps orders r) k at_market
        (passed row order refl)

  at_venue-Ended :
      (orders : Orders) (row : Row) (v : Option Venue)
      → Keeps before orders
      → venue_of t a ≡ v
      → Ended t a before (at_venue t a orders row v)
  unfolding at_venue
  at_venue-Ended orders row none k at_market = end-silent rejected orders row k
  at_venue-Ended orders row (some v) k at_market =
      after_preflight-Ended v orders (preflight t row v a) k at_market
        (λ r order e. preflight-Passed t a v row r order e)

  pub start-Ended :
      (orders : Orders) (s : Option (Row × Orders))
      → SavedKeeps orders s
      → Keeps before orders
      → Ended t a before (start t a orders s)
  unfolding start
  start-Ended orders none raised k = silent k
  start-Ended orders (some (row, saved)) (kept l) k =
      both_branches (Ended t a before) a.client
        (at_venue-Ended saved row (venue_of t a) (Keeps-trans k l) refl)
        (end-silent rejected saved row (Keeps-trans k l))
