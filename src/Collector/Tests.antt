-- ===== src/Collector/Tests.antt =====
-- A feed that connects, brings metadata, a snapshot and a reference, and is then ready.
use project.Common.{◌≡◌, refl, true, false, none, some, List, [], ◌∷◌}
use project.Strategy.Samples.{sample}
use project.Market.{Market, active, tradable}
use project.Book.{Book}
use project.Collector
use project.Collector.Survey
use project.Collector.Check
use project.Collector.Backlog.{
  Report, Decision, backlog_warning, stale_reference, backlog_not_drained, stale_book,
  model_quality, existing_entry, permitted,
}
use project.Collector.Ready.{Open, check-Open}
use project.Collector.Steps.{Step, run, is_gated, run-gated, observes}

abbrev market : Market
market = record {
  ticker = 42;
  open_time = 400000;
  close_time = 1300000;
  status = active;
  price_ranges = [];
}

abbrev book : Book
book = record {
  yes_levels = [];
  no_levels = [];
  received = 1001000;
  source_time = 1001000;
  valid = true;
}

abbrev engine : Collector.Engine
engine = record {
  connection = some 5;
  integrity_failed = false;
  clock_ok = true;
  exchange_open = true;
  halted = false;
  healthy = true;
  tick = some (record { received = 1001500; source = 1001400 });
  markets = record { market = market; blocked = false; book = some book } ∷ [];
  watchlist = none;
}

abbrev row : Collector.Row
row = record { connection_id = 5; received = 1001500 }

abbrev opening : Collector.Row
opening = record { connection_id = 5; received = 1000500 }

abbrev feed : List Step
feed =
    observes engine opening Collector.connected true
    ∷ observes engine opening (Collector.metadata (some 1000100)) true
    ∷ observes engine opening (Collector.orderbook_snapshot true 42) true
    ∷ observes engine row Collector.reference_value true
    ∷ []

abbrev fed : Collector.Collector
fed = run sample feed (Collector.start 1000000)

abbrev look : Check.Look
look = record {
  now = 1002000;
  lag = 100;
  depth = 3;
  capacity = 1000;
  connected = true;
  stopping = false;
  monotonic = 5000;
}

abbrev checked : Collector.Collector
checked = Check.check sample engine look fed

is_open : checked.paused ≡ false
unfolding run Collector.start Collector.request Collector.pressure Collector.reconnect
    Collector.observe Survey.freshness_rechecks Survey.examine Survey.survey Check.general_reasons
    Check.all_reasons Check.all_stalled Check.assess Check.conclude Check.check tradable
is_open = refl

-- Without the snapshot, that is the only reason.
abbrev unfed : Collector.Collector
unfed = Check.check sample engine look (record fed { snapshots = [] })

waits_for_snapshot : unfed.reasons ≡ Collector.waiting_for_sequenced_snapshot 42 ∷ []
unfolding run Collector.start Collector.request Collector.pressure Collector.reconnect
    Collector.observe Survey.freshness_rechecks Survey.examine Survey.survey Check.general_reasons
    Check.all_reasons Check.all_stalled Check.assess Check.conclude Check.check tradable
waits_for_snapshot = refl

-- A backlog of over two seconds blocks again.
backlog_blocks : (Collector.pressure sample 2500 10 1000 1002100 checked).paused ≡ true
unfolding run Collector.start Collector.request Collector.pressure Collector.reconnect
    Collector.observe Survey.freshness_rechecks Survey.examine Survey.survey Check.general_reasons
    Check.all_reasons Check.all_stalled Check.assess Check.conclude Check.check tradable
backlog_blocks = refl

check-Open_example : Open sample engine look fed checked
unfolding run Collector.start Collector.request Collector.pressure Collector.reconnect
    Collector.observe Survey.freshness_rechecks Survey.examine Survey.survey Check.general_reasons
    Check.all_reasons Check.all_stalled Check.assess Check.conclude Check.check tradable
check-Open_example = check-Open sample engine look fed refl is_open

run-gated_example : is_gated (run sample feed (Collector.start 1000000)) ≡ true
run-gated_example = run-gated sample feed 1000000

-- A backlog with old books: the exception applies, and clears every reason.
abbrev backlog : Report
backlog = record {
  status_age = some 1000;
  reasons = backlog_warning ∷ stale_reference ∷ [];
  connected = true;
  clock_ok = true;
  exchange_open = true;
  live_signals = true;
  halted = false;
  settlement_recovery = false;
  ready = true;
  recovery_reasons = backlog_not_drained ∷ [];
  queue_depth = some 40;
  processing_lag = some 2500;
}

abbrev decision : Decision
decision = record {
  reasons = stale_book ∷ model_quality ∷ existing_entry ∷ [];
  quality_reasons = stale_book ∷ [];
  score = some 60;
}

-- Without its connection the report permits nothing.
disconnected : permitted true (record backlog { connected = false }) ≡ false
unfolding permitted
disconnected = refl
