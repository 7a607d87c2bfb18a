-- ===== src/Paper/Tests.antt =====
-- A market with an order for five contracts at 91 cents or less.
use project.Common.{
  ◌≡◌, inl, ◌||◌, ◌+ℤ◌, ◌-ℤ◌, refl, true, false, none, some, [], ◌∷◌, pos, arith, ceil_div,
  floor_to, floor_mod,
}
use project.Fees.{charge}
use project.Strategy.{Strategy, entry_cutoff}
use project.Strategy.Samples.{sample}
use project.Book.{yes_side, no_side}
use project.Paper.Tape.{Print, Tape, trade, trade_order, consume}
use project.Paper.Queue.{Printed, trade-Printed, trade-trade}
use project.Market.{Market, active, tradable, valid_tick}
use project.Risk.{Risk}
use project.Lifecycle.{order_pending, order_cancelled, transition, transitions, targets, recovers}
use project.Paper.{
  PaperOrder, Desk, Result, ok, fill_order, verdict, book_fill, cancel, cancel_active, enter,
  reentry_ready, retry_ready, post_close_ready, market_trade_limit_reached,
}
use project.Paper.Aggressive.{
  Quotes, aggressive, aggressive_order, may_execute, execute, has_bad_tick, available, match_offers,
}
use project.Paper.Accounts.{Booked}
use project.Paper.FullEntry.{Ascending, FullOrKept, aggressive-full}
use project.Paper.Books.{Held, aggressive-Held}
use project.Paper.Returns.{aggressive-returns}

abbrev market : Market
market = record {
  ticker = 42;
  open_time = 400000;
  close_time = 1300000;
  status = active;
  price_ranges = record { start = 10000; end = 990000; step = 10000 } ∷ [];
}

abbrev order : PaperOrder
order = record {
  opportunity = 1;
  side = yes_side;
  limit = 910000;
  quantity = 500;
  created = 1000000;
  eligible = 1000250;
  queue = 0;
  remaining = 500;
  attempt = 1;
  cycle = 1;
  completed_at = none;
  cancelled_at = none;
  active = true;
  fees = record { precision = 100000000; carry = pos 0 };
}

abbrev risk : Risk
risk = record {
  reserved = (42, pos 4600000000000) ∷ [];
  realized = pos 0;
  daily = [];
  halted = false;
}

abbrev desk : Desk
desk = record {
  ticker = 42;
  order = some order;
  position = none;
  quarantined = false;
  paused = false;
  state = some order_pending;
  risk = risk;
  closed_at = none;
  pending_reference = false;
  collector_paused = false;
  fills = [];
}

-- Three contracts at 90 cents and four at 91.
abbrev quotes : Quotes
quotes = record {
  valid = true;
  received = 1000300;
  source_time = 1000200;
  asks = record { price = 900000; quantity = 300 } ∷ record { price = 910000; quantity = 400 } ∷ [];
}

-- Only three contracts within the limit.
abbrev thin : Quotes
thin = record quotes { asks = record { price = 900000; quantity = 300 } ∷ [] }

abbrev order_of : Desk → PaperOrder
order_of d = elim d.order [ none ↦ order | some o ↦ o ]

abbrev desk_of : Result Desk → Desk
desk_of (ok d) = d
desk_of _ = desk

abbrev full_desk : Desk
full_desk = desk_of (aggressive sample market quotes 1000500 desk)

abbrev thin_desk : Desk
thin_desk = desk_of (aggressive sample market thin 1000500 desk)

full_entry : aggressive sample market quotes 1000500 desk ≡ ok full_desk
unfolding aggressive aggressive_order may_execute execute has_bad_tick available match_offers
    fill_order verdict book_fill cancel cancel_active enter post_close_ready tradable valid_tick
    entry_cutoff transition transitions targets recovers charge ◌+ℤ◌ ◌-ℤ◌ ceil_div floor_to
    floor_mod
full_entry = refl

-- The book is too thin for all five contracts: nothing is bought.
thin_entry : aggressive sample market thin 1000500 desk ≡ ok thin_desk
unfolding aggressive aggressive_order may_execute execute has_bad_tick available match_offers
    fill_order verdict book_fill cancel cancel_active enter post_close_ready tradable valid_tick
    entry_cutoff transition transitions targets recovers charge ◌+ℤ◌ ◌-ℤ◌ ceil_div floor_to
    floor_mod
thin_entry = refl

bought_five : (order_of full_desk).remaining ≡ 0
unfolding aggressive aggressive_order may_execute execute has_bad_tick available match_offers
    fill_order verdict book_fill cancel cancel_active enter post_close_ready tradable valid_tick
    entry_cutoff transition transitions targets recovers charge ◌+ℤ◌ ◌-ℤ◌ ceil_div floor_to
    floor_mod
bought_five = refl

bought_nothing : ((order_of thin_desk).remaining ≡ 500) × ((order_of thin_desk).active ≡ false)
unfolding aggressive aggressive_order may_execute execute has_bad_tick available match_offers
    fill_order verdict book_fill cancel cancel_active enter post_close_ready tradable valid_tick
    entry_cutoff transition transitions targets recovers charge ◌+ℤ◌ ◌-ℤ◌ ceil_div floor_to
    floor_mod
bought_nothing = (refl, refl)

desk-Booked : Booked order none
desk-Booked = λ e. refl

quotes-Ascending : Ascending quotes.asks
quotes-Ascending = ground arith

aggressive-full_example : FullOrKept order desk full_desk
aggressive-full_example =
    aggressive-full sample market quotes order 1000500 desk full_desk refl quotes-Ascending refl
      desk-Booked full_entry

aggressive-Held_example : Held 910000 500 500 full_desk
aggressive-Held_example =
    aggressive-Held sample market quotes order 1000500 desk full_desk refl desk-Booked full_entry

aggressive-returns_example : (d' : Desk) × (aggressive sample market thin 1000500 desk ≡ ok d')
aggressive-returns_example =
    aggressive-returns sample market thin order 1000500 desk refl (λ e. inl refl)

-- Ten seconds after its order was cancelled whole.
abbrev cancelled_order : PaperOrder
cancelled_order = record order { active = false; cancelled_at = some 1000500 }

abbrev cancelled_desk : Desk
cancelled_desk = record desk { order = some cancelled_order; state = some order_cancelled }

retry :
    (reentry_ready sample cancelled_desk 1010500 || retry_ready sample cancelled_desk 1010500)
    ≡ true
unfolding reentry_ready retry_ready post_close_ready market_trade_limit_reached
retry = refl

-- A passive order with two contracts ahead of it, and a print of four.
abbrev passive : Strategy
passive = record sample { passive = true; full_position_execution = false }

abbrev resting : PaperOrder
resting = record order { queue = 2000000 }

abbrev tape : Tape
tape = record { desk = record desk { order = some resting }; seen = 7 ∷ [] }

abbrev print : Print
print = record {
  id = some 9;
  ts_ms = 1000400;
  taker = some no_side;
  yes_price = some 900000;
  count = some 4000000;
}

abbrev tape_of : Result Tape → Tape
tape_of (ok t) = t
tape_of _ = tape

abbrev printed_tape : Tape
printed_tape = tape_of (trade passive 17500 print 1000500 tape)

printed : trade passive 17500 print 1000500 tape ≡ ok printed_tape
unfolding trade trade_order consume fill_order verdict book_fill cancel cancel_active enter
    post_close_ready transition transitions targets recovers charge ◌+ℤ◌ ◌-ℤ◌ ceil_div floor_to
    floor_mod
printed = refl

two_filled :
    ((order_of printed_tape.desk).remaining ≡ 300) × ((order_of printed_tape.desk).queue ≡ 0)
unfolding trade trade_order consume fill_order verdict book_fill cancel cancel_active enter
    post_close_ready transition transitions targets recovers charge ◌+ℤ◌ ◌-ℤ◌ ceil_div floor_to
    floor_mod
two_filled = (refl, refl)

resting-Booked : Booked resting none
resting-Booked = λ e. refl

trade-Printed_example : Printed resting 200 printed_tape.desk
trade-Printed_example =
    trade-Printed passive 17500 resting print 4000000 1000500 tape printed_tape refl resting-Booked
      refl printed

trade-trade_example : trade passive 17500 print 1000900 printed_tape ≡ ok printed_tape
trade-trade_example = trade-trade passive 17500 print 1000500 1000900 tape printed_tape printed
