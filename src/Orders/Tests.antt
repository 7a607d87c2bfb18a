-- ===== src/Orders/Tests.antt =====
-- An automatic buy of NO whose answer is lost, its fill, and a second submission.
use project.Common.{
  ◌≤◌, ◌≡◌, refl, true, false, none, some, List, [], ◌∷◌, pos, ceil_div, arith, both_branches, ◌==◌,
  inl,
}
use project.Fees.{buy}
use project.Book.{no_side}
use project.Market.{Band}
use project.Orders.{
  Order, Row, Orders, unknown, ask, fill_or_kill, Payload, snap_buy_limit, valid_steps, snapped,
  larger, snap_band, exchange_order, order_direction, on_tick_grid,
}
use project.Orders.Cancel
use project.Orders.Submit.{
  Terms, Answers, Venue, lost, other_reason, submit, on_claim, start, at_venue, venue_of,
  after_preflight, preflight, with_limit, with_answer, with_position, checked, attempt, authorize,
  answer, acknowledge, refuse, settled, end,
}
use project.Orders.Store.{
  claim, claim_row, blocks, confirmed_resting, find_order, first_of, fresh_row, merged, observed,
  reconcile, reconcile_found, same_request, save, save_over,
}
use project.Orders.Direction.{leg, leg-order_direction}
use project.Orders.Limit.{snap_buy_limit-best}
use project.Orders.Submit.Once.{submit-Sent}
use project.Orders.Submit.Sent.{Sent}
use project.Orders.Requests.{World, submits, fills, run, happen, run-Distinct, Distinct, cancels}
use project.Orders.Fills.{Fill, receive_fill}
use project.Orders.Fills.Notices.{
  Noted, Within, receive_fills, receive_fills-Noted, receive_fill-again,
}

abbrev bands : List Band
bands =
    record { start = 100; end = 1000; step = 10 }
    ∷ record { start = 1000; end = 9900; step = 100 }
    ∷ []

-- Buy 5 contracts of NO for 91.25 cents at most: the YES book's ticks give 91.2 cents.
abbrev order : Order
order = record {
  client_order_id = 41;
  ticker = 7;
  action = buy;
  side = no_side;
  count = 500;
  limit_cents = 9125;
}

abbrev terms : Terms
terms = record { order = order; bot = true; reason = other_reason; resting = false }

abbrev venue : Venue
venue = record { exchange_index = 2; price_ranges = bands }

abbrev answers : Answers
answers = record {
  manual_allowed = true;
  supported = true;
  client = true;
  cached = none;
  market = some venue;
  position = some (pos 0);
  authorized = true;
  post = lost;
  exchange = record { by_id = none; pages = none };
}

abbrev payload : Payload
payload = record {
  ticker = 7;
  client_order_id = 41;
  side = ask;
  price = 880;
  count = 500;
  time_in_force = fill_or_kill;
  reduce_only = false;
  exchange_index = 2;
}

abbrev fill : Fill
fill = record {
  is_fill = true;
  client_order_id = 41;
  trade_id = 900;
  order_id = 77;
  ticker = 7;
  exchange_index = some 2;
  primary_account = true;
  action = buy;
  side = no_side;
  count = 300;
}

abbrev no_orders : Orders
no_orders = []

abbrev started : World
started = record { orders = no_orders; requests = [] }

-- The NO cap of 91.25 cents is 8.75 cents of YES: the next tick up is 8.8 cents.
posted : (submit no_orders terms answers).posted ≡ some payload
unfolding submit on_claim start at_venue venue_of after_preflight preflight with_limit with_answer
    with_position checked attempt authorize answer acknowledge refuse settled end claim claim_row
    blocks confirmed_resting find_order first_of fresh_row merged observed reconcile reconcile_found
    same_request save save_over snap_buy_limit valid_steps snapped larger snap_band exchange_order
    on_tick_grid ceil_div
posted = refl

-- The second submission is stopped by the first, whose outcome is unknown.
abbrev second : Terms
second = record terms { order = record order { client_order_id = 42 } }

sent_once :
    (run started (submits terms answers ∷ submits second answers ∷ [])).requests ≡ payload ∷ []
unfolding submit on_claim start at_venue venue_of after_preflight preflight with_limit with_answer
    with_position checked attempt authorize answer acknowledge refuse settled end claim claim_row
    blocks confirmed_resting find_order first_of fresh_row merged observed reconcile reconcile_found
    same_request save save_over snap_buy_limit valid_steps snapped larger snap_band exchange_order
    on_tick_grid ceil_div run happen
sent_once = refl

submit-Sent_example : Sent terms answers payload
submit-Sent_example = (submit-Sent no_orders terms answers payload posted).0

snap_buy_limit-best_example : 9100 ≤ 9120
unfolding snap_buy_limit valid_steps snapped larger snap_band ceil_div
snap_buy_limit-best_example =
    (snap_buy_limit-best 9125 no_side bands 9120 (omega arith) refl).3 9100
      (inl (80, refl, omega arith, omega arith, omega arith)) (omega arith)

abbrev cancel_answers : Cancel.Answers
cancel_answers = record {
  client = true;
  answered = true;
  confirmed = true;
  before = answers.exchange;
  after = answers.exchange;
}

run-Distinct_example :
    let w = run started (
      submits terms answers
      ∷ fills fill
      ∷ cancels 41 cancel_answers
      ∷ submits second answers
      ∷ []) in
    Distinct w.orders w.requests
run-Distinct_example =
    run-Distinct started
      (submits terms answers ∷ fills fill ∷ cancels 41 cancel_answers ∷ submits second answers ∷ [])
      _

-- The row of the first order as its reconciliation leaves it.
abbrev row : Row
row = record {
  id = 41;
  request = order;
  bot = true;
  resting_take_profit = false;
  state = unknown;
  order_id = some 77;
  exchange_index = some 2;
  exchange_order = none;
  cancel_requested = false;
  fill_notification = none;
  effective_limit = some 9120;
}

abbrev known : Orders
known = (41, row) ∷ []

taken_once : (receive_fill known fill).0 ≡ true
unfolding receive_fill
taken_once = refl

receive_fill-again_example :
    let after = (receive_fill known fill).1 in receive_fill after fill ≡ (false, after)
receive_fill-again_example = receive_fill-again known fill taken_once

known-Noted : Noted known
known-Noted = record { at_id = λ id. both_branches Within (41 == id) _ _ }

receive_fills-Noted_example :
    Noted (receive_fills known (fill ∷ record fill { trade_id = 901 } ∷ []))
receive_fills-Noted_example =
    receive_fills-Noted known (fill ∷ record fill { trade_id = 901 } ∷ []) known-Noted

leg-order_direction_example :
    (leg buy (order_direction buy no_side 880) ≡ (no_side, 880))
    × (let (s, p) = leg buy (ask, 880) in order_direction buy s p ≡ (ask, 880))
leg-order_direction_example = leg-order_direction buy no_side ask 880 (omega arith)
