-- ===== src/Collector.antt =====
-- src/btc15/collector_recovery.py: CollectorRecovery, the gate that blocks entries while the feed
-- recovers, and `freshness_rechecks` of engine.py.
--
-- The methods run on two threads, which meet at the lock: `check` reads first (`assess`) and
-- decides under the lock (`conclude`), so that other steps may come in between. Times are
-- milliseconds. The reasons are kept in the order in which they are found, where the code sorts
-- them and drops repetitions.
pub mod Survey
pub mod Check
pub mod Fresh
pub mod Ladder
pub mod Ready
pub mod Steps
pub mod Backlog
mod Tests
use project.Common.{
  ℕ, ◌+◌, ◌*◌, min, max, Bool, true, false, ◌&&◌, ◌||◌, not, if◌then◌else◌, ltb, leb, ◌==◌, any,
  Option, none, some, List, [], ◌∷◌, ◌++◌, is_empty, map,
}
use project.Strategy.{Strategy}
use project.Market.{Market, tradable}
use project.Book.{Book}

pub data Failure : Type 0 where
  book_invalid processing_lag book_receive_age book_source_age : Failure
  missing_reference reference_receive_age reference_source_age : Failure

pub data Stream : Type 0 where
  reference_stream : Stream
  book_stream : ℕ → Stream

-- `requested` stands for the reasons that callers outside this file give.
pub data Cause : Type 0 where
  startup waiting_for_connection data_integrity_failure processing_overload : Cause
  processing_backlog unsequenced_snapshot stopping waiting_for_fresh_metadata clock_skew : Cause
  exchange_closed halted waiting_for_fresh_reference backlog_not_drained no_active_market : Cause
  market_integrity waiting_for_sequenced_snapshot requested : ℕ → Cause
  stale : Failure → ℕ → Cause
  stalled : Stream → Cause

pub data Phase : Type 0 where
  recovering draining ready : Phase

pub record Collector : Type 0 where
  pub paused : Bool
  pub drain : Bool
  pub catching_up : Bool
  pub phase : Phase
  pub reason : Cause
  pub since : ℕ
  pub connection : Option ℕ
  pub connection_started : Option ℕ
  pub reference : Bool
  pub snapshots : List ℕ
  pub metadata_at : Option ℕ
  pub reasons : List Cause
  pub warning : Bool
  pub lag : ℕ
  pub depth : ℕ
  pub stalled_since : List (Stream × ℕ)

-- WARNING_LAG and STALLED_STREAM_SECONDS
abbrev pub warning_lag : ℕ
warning_lag = 500

abbrev pub stalled_stream : ℕ
stalled_stream = 10000

-- `__init__`
unfoldable pub start : ℕ → Collector
start now = record {
  paused = true;
  drain = false;
  catching_up = false;
  phase = recovering;
  reason = startup;
  since = now;
  connection = none;
  connection_started = none;
  reference = false;
  snapshots = [];
  metadata_at = none;
  reasons = waiting_for_connection ∷ [];
  warning = false;
  lag = 0;
  depth = 0;
  stalled_since = [];
}

-- `request`
unfoldable pub request : Cause → ℕ → Collector → Collector
request reason now self =
    if self.drain
    then record self { paused = true }
    else record self { paused = true; reason = reason; since = now; drain = true }

-- The suspension of a backlog that is still contiguous.
abbrev pub suspend : ℕ → Collector → Collector
suspend now self =
    if not self.catching_up && not self.drain
    then record self { paused = true; reason = processing_backlog; since = now; catching_up = true }
    else record self { paused = true; catching_up = true }

-- `pressure`
unfoldable pub pressure : Strategy → ℕ → ℕ → ℕ → ℕ → Collector → Collector
pressure c lag depth capacity now self =
    let seen = record self {
      lag = lag;
      depth = depth;
      warning = leb warning_lag lag || leb capacity (2 * depth);
    } in
    if leb (4 * capacity) (5 * depth)
    then request processing_overload now seen
    else if leb (min 2000 (min c.reference_max_age c.book_max_age)) lag
    then suspend now seen
    else seen

-- `reconnect`
unfoldable pub reconnect : Collector → Collector
reconnect self = record self {
  phase = recovering;
  connection = none;
  connection_started = none;
  reference = false;
  snapshots = [];
  metadata_at = none;
  reasons = waiting_for_connection ∷ [];
  stalled_since = [];
  drain = false;
  catching_up = false;
}

pub record Tick : Type 0 where
  pub received : ℕ
  pub source : ℕ

-- A market of the engine, with its book and whether it is quarantined or paused.
pub record Watched : Type 0 where
  pub market : Market
  pub blocked : Bool
  pub book : Option Book

-- What is read of the engine.
pub record Engine : Type 0 where
  pub connection : Option ℕ
  pub integrity_failed : Bool
  pub clock_ok : Bool
  pub exchange_open : Bool
  pub halted : Bool
  pub healthy : Bool
  pub tick : Option Tick
  pub markets : List Watched
  pub watchlist : Option (List ℕ)

-- A message as `observe` tells them apart; `sequenced` is a snapshot whose sid and seq are integers.
pub data Payload : Type 0 where
  connected other_message : Payload
  metadata : Option ℕ → Payload
  reference_value : Payload
  orderbook_snapshot : Bool → ℕ → Payload

pub record Row : Type 0 where
  pub connection_id : ℕ
  pub received : ℕ

abbrev pub is_connection : Option ℕ → ℕ → Bool
is_connection none id = false
is_connection (some c) id = c == id

abbrev pub same_connection : Option ℕ → Option ℕ → Bool
same_connection none none = true
same_connection (some a) (some b) = a == b
same_connection _ _ = false

-- The first two cases of `observe`.
abbrev pub note : Row → Payload → Bool → Collector → Collector
note row connected valid self = record self {
  connection = some row.connection_id;
  connection_started = some row.received;
  reference = false;
  snapshots = [];
  stalled_since = [];
}
note row (metadata (some started)) true self =
    if leb self.since started then record self { metadata_at = some row.received } else self
note row _ valid self = self

abbrev pub proves_reference : Option ℕ → Option Tick → ℕ → ℕ → Bool
proves_reference (some started) (some t) received since =
    t.received == received && leb (max since started) t.received
proves_reference _ _ received since = false

abbrev pub is_present {ℓ} : {A : Type ℓ} → Option A → Bool
is_present none = false
is_present (some a) = true

abbrev pub has_book : ℕ → List Watched → Bool
has_book ticker [] = false
has_book ticker (w ∷ ws) = (w.market.ticker == ticker && is_present w.book) || has_book ticker ws

abbrev pub take_tick : Option Tick → Row → Collector → Collector
take_tick none row self = self
take_tick (some t) row self = record self {
  reference = proves_reference self.connection_started (some t) row.received self.since;
}

-- What a valid message of the connection proves.
abbrev pub take_in : Engine → Row → Payload → Collector → Collector
take_in e row reference_value self = take_tick e.tick row self
take_in e row (orderbook_snapshot false ticker) self =
    request unsequenced_snapshot row.received self
take_in e row (orderbook_snapshot true ticker) self =
    if has_book ticker e.markets then record self { snapshots = ticker ∷ self.snapshots } else self
take_in e row _ self = self

-- `observe`
unfoldable pub observe : Engine → Row → Payload → Bool → Collector → Collector
observe e row payload valid self =
    if self.drain
    then self
    else (let noted = note row payload valid self in
        if not (is_connection noted.connection row.connection_id) || not valid
        then noted
        else take_in e row payload noted)
