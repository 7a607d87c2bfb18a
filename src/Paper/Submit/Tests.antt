-- ===== src/Paper/Submit/Tests.antt =====
-- A first entry at 90 cents, five contracts of the sample configuration, with a quarter of a
-- second of latency.
use project.Common.{
  ◌≡◌, refl, true, false, none, some, [], ◌∷◌, pos, arith, ◌+ℤ◌, ◌-ℤ◌, ceil_div, scale,
}
use project.Fees.{fee_bound}
use project.Strategy.{probability_floor, entry_cutoff}
use project.Strategy.Samples.{sample}
use project.Risk
use project.Market.{Market, active, tradable, valid_tick, snap, snap_band}
use project.Book.{Book, yes_side, ask_level, bid}
use project.Lifecycle.{trade_candidate, transition, transitions, targets, recovers}
use project.Entry.Signal
use project.Paper.{
  Desk, Result, ok, enter, post_close_ready, market_trade_limit_reached, retry_ready, reentry_ready,
}
use project.Paper.Submit
use project.Paper.Submit.Accepted.{Ending, submit-Ending}

abbrev market : Market
market = record {
  ticker = 42;
  open_time = 400000;
  close_time = 1300000;
  status = active;
  price_ranges = record { start = 10000; end = 990000; step = 10000 } ∷ [];
}

-- 89 cents bid for YES, and NO bid at 10 cents, which the code stores at the price 90.
abbrev book : Book
book = record {
  yes_levels = record { price = pos 890000; size = pos 7000000 } ∷ [];
  no_levels = record { price = pos 100000; size = pos 9000000 } ∷ [];
  received = 1000000;
  source_time = 1000000;
  valid = true;
}

abbrev desk : Desk
desk = record {
  ticker = 42;
  order = none;
  position = none;
  quarantined = false;
  paused = false;
  state = some trade_candidate;
  risk = record { reserved = []; realized = pos 0; daily = []; halted = false };
  closed_at = none;
  pending_reference = false;
  collector_paused = false;
  fills = [];
}

abbrev ledger : Submit.Ledger
ledger = record { desk = desk; claims = []; contract = none }

abbrev ticket : Submit.Ticket
ticket = record {
  opportunity = 1;
  is_candidate = true;
  late_path = some false;
  lead = record {
    side = some yes_side;
    sigma = pos 1500000;
    confirmed_late = false;
    confirmed_normal = true;
  };
  side = some yes_side;
  conservative = some 970000000000;
  premium = some 80000000000;
  freshness_ok = true;
}

abbrev submission_of : Result Submit.Submission → Submit.Submission
submission_of (ok s) = s
submission_of _ = record { ledger = ledger; rejection = some Submit.no_ask }

abbrev first : Result Submit.Submission
first = Submit.submit sample market book [] ticket 1000000 ledger

abbrev placed : Submit.Submission
placed = submission_of first

is_placed : first ≡ ok placed
unfolding Submit.submit Submit.terms Submit.entry_gates market_trade_limit_reached
    Submit.event_has_room post_close_ready tradable entry_cutoff Submit.lead_holds Submit.at_entry
    Submit.price_entry ask_level ◌-ℤ◌ bid Submit.at_bid Submit.confidence Signal.capped_confidence
    probability_floor ceil_div scale ◌+ℤ◌ fee_bound recovers targets transition transitions snap
    snap_band valid_tick Submit.at_attempt Submit.at_price Submit.claim_and_place Submit.new_order
    Submit.place Submit.queue_ahead Submit.size_entry enter reentry_ready retry_ready
    Risk.book_amount Risk.cost_per_contract Risk.day Risk.limits Risk.reserve Risk.size_details
    Risk.vetoes
is_placed = refl

no_rejection : placed.rejection ≡ none
unfolding Submit.submit Submit.terms Submit.entry_gates market_trade_limit_reached
    Submit.event_has_room post_close_ready tradable entry_cutoff Submit.lead_holds Submit.at_entry
    Submit.price_entry ask_level ◌-ℤ◌ bid Submit.at_bid Submit.confidence Signal.capped_confidence
    probability_floor ceil_div scale ◌+ℤ◌ fee_bound recovers targets transition transitions snap
    snap_band valid_tick Submit.at_attempt Submit.at_price Submit.claim_and_place Submit.new_order
    Submit.place Submit.queue_ahead Submit.size_entry enter reentry_ready retry_ready
    Risk.book_amount Risk.cost_per_contract Risk.day Risk.limits Risk.reserve Risk.size_details
    Risk.vetoes
no_rejection = refl

-- The same submission once more finds the order at work.
abbrev second : Submit.Submission
second = submission_of (Submit.submit sample market book [] ticket 1000000 placed.ledger)

second_refused : second.rejection ≡ some Submit.order_already_attempted
unfolding Submit.submit Submit.terms Submit.entry_gates market_trade_limit_reached
    Submit.event_has_room post_close_ready tradable entry_cutoff Submit.lead_holds Submit.at_entry
    Submit.price_entry ask_level ◌-ℤ◌ bid Submit.at_bid Submit.confidence Signal.capped_confidence
    probability_floor ceil_div scale ◌+ℤ◌ fee_bound recovers targets transition transitions snap
    snap_band valid_tick Submit.at_attempt Submit.at_price Submit.claim_and_place Submit.new_order
    Submit.place Submit.queue_ahead Submit.size_entry enter reentry_ready retry_ready
    Risk.book_amount Risk.cost_per_contract Risk.day Risk.limits Risk.reserve Risk.size_details
    Risk.vetoes
second_refused = refl

submit-Ending_example : Ending sample market book [] ticket 1000000 ledger placed
submit-Ending_example =
    submit-Ending sample market book [] ticket 1000000 ledger (omega arith) is_placed
