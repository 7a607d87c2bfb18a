-- ===== src/Paper/Exit/Tests.antt =====
-- Four contracts of YES at the hard stop, against bids for five.
use project.Common.{
  ◌≡◌, refl, true, false, none, some, [], ◌∷◌, pos, ◌+ℤ◌, ◌-ℤ◌, ceil_div, floor_to, floor_mod,
}
use project.Fees.{charge}
use project.Strategy.Samples.{sample}
use project.Risk
use project.Market.{valid_tick}
use project.Book.{yes_side}
use project.Lifecycle.{exiting, position_open, transition, transitions, targets, recovers}
use project.Paper.{Desk, Position, Result, ok, cancel, enter}
use project.Paper.Settle
use project.Paper.Exit
use project.Paper.Exit.Executed.{Executed, sell_position-Executed}

abbrev position : Position
position = record {
  opportunity = 1;
  side = yes_side;
  quantity = 400;
  bought = 500;
  cost = 4500000000000;
  fees = pos 34000000000;
  proceeds = 950000000000;
  opened = 1000000;
}

abbrev desk : Desk
desk = record {
  ticker = 42;
  order = none;
  position = some position;
  quarantined = false;
  paused = false;
  state = some position_open;
  risk = record {
    reserved = (42, pos 4600000000000) ∷ [];
    realized = pos 0;
    daily = [];
    halted = false;
  };
  closed_at = none;
  pending_reference = false;
  collector_paused = false;
  fills = [];
}

-- One contract of the bid at 60 cents is consumed already.
abbrev holding : Exit.Holding
holding = record {
  account = record {
    desk = desk;
    contract = none;
    settlement = none;
    claimed = false;
    evidence = [];
    results = [];
  };
  exits = record {
    reason = some Exit.hard_stop;
    value_limit = none;
    value_count = 0;
    eligible = some 1100250;
    last_event = some 7;
    consumed = (600000, 1000000) ∷ [];
  };
}

abbrev event : Exit.Event
event = record {
  id = 8;
  now = 1100500;
  received = 1100400;
  bids = record { price = 600000; size = 3500000 } ∷ record { price = 590000; size = 2000000 } ∷ [];
  bands = record { start = 10000; end = 990000; step = 10000 } ∷ [];
  extremum = false;
  warning = false;
  clear_pending = true;
}

abbrev holding_of : Result Exit.Holding → Exit.Holding
holding_of (ok h) = h
holding_of _ = holding

abbrev after : Exit.Holding
after = holding_of (Exit.apply_monitor sample (some Exit.hard_stop) none event holding)

-- Two and a half contracts at 60 cents, and one and a half at 59.
consumed_after : after.exits.consumed ≡ (600000, 3500000) ∷ (590000, 1500000) ∷ []
unfolding Exit.apply_monitor Exit.idles Exit.commit_monitor Exit.dropped Exit.intend
    Exit.execute_exit Exit.after_sales Exit.sell_bids Exit.sell_at Exit.is_skipped
    Exit.spoils_cashout Exit.expire_value_exit Settle.finish cancel enter charge valid_tick
    Risk.close Risk.day transition transitions targets recovers ◌+ℤ◌ ◌-ℤ◌ ceil_div floor_to
    floor_mod
consumed_after = refl

is_flat : after.account.desk.position ≡ none
unfolding Exit.apply_monitor Exit.idles Exit.commit_monitor Exit.dropped Exit.intend
    Exit.execute_exit Exit.after_sales Exit.sell_bids Exit.sell_at Exit.is_skipped
    Exit.spoils_cashout Exit.expire_value_exit Settle.finish cancel enter charge valid_tick
    Risk.close Risk.day transition transitions targets recovers ◌+ℤ◌ ◌-ℤ◌ ceil_div floor_to
    floor_mod
is_flat = refl

-- Too early, nothing happens.
waits_for_latency :
    Exit.apply_monitor sample (some Exit.hard_stop) none (record event { now = 1100100 }) holding
    ≡ ok holding
unfolding Exit.apply_monitor Exit.idles Exit.commit_monitor Exit.dropped Exit.intend
    Exit.execute_exit Exit.after_sales Exit.sell_bids Exit.sell_at Exit.is_skipped
    Exit.spoils_cashout Exit.expire_value_exit Settle.finish cancel enter charge valid_tick
    Risk.close Risk.day transition transitions targets recovers ◌+ℤ◌ ◌-ℤ◌ ceil_div floor_to
    floor_mod
waits_for_latency = refl

-- A book for one contract leaves three.
abbrev selling_desk : Exit.Holding
selling_desk = record holding {
  account = record (holding.account) { desk = record desk { state = some exiting } };
}

abbrev thin : Exit.Event
thin = record event { bids = record { price = 590000; size = 1000000 } ∷ [] }

abbrev sold_one : Exit.Holding
sold_one =
    holding_of (Exit.sell_position sample Exit.hard_stop none thin (some position) selling_desk)

sells_one :
    Exit.sell_position sample Exit.hard_stop none thin (some position) selling_desk ≡ ok sold_one
unfolding Exit.apply_monitor Exit.idles Exit.commit_monitor Exit.dropped Exit.intend
    Exit.execute_exit Exit.after_sales Exit.sell_bids Exit.sell_at Exit.is_skipped
    Exit.spoils_cashout Exit.expire_value_exit Settle.finish cancel enter charge valid_tick
    Risk.close Risk.day transition transitions targets recovers ◌+ℤ◌ ◌-ℤ◌ ceil_div floor_to
    floor_mod
sells_one = refl

sell_position-Executed_example :
    Executed sample Exit.hard_stop none thin position selling_desk sold_one
sell_position-Executed_example =
    sell_position-Executed sample Exit.hard_stop none thin position selling_desk sells_one
