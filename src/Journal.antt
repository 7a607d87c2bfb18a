-- ===== src/Journal.antt =====
-- src/btc15/execution_journal.py: the execution journal, an append-only table of events, and
-- src/btc15/research_log.py: the archiver that reads it page by page behind a cursor.
--
-- Texts are numbers, 0 the empty one; times are milliseconds. The JSON values that callers hand
-- over, an event's body and an order's snapshot, are of a type `Json`, and the text of a stored
-- event is of a type `Text`: `dumps` and `loads` are the parameters that stand for the `json`
-- module, `like` for SQL's `LIKE` with the prefix pattern. The table is kept in the order of its
-- primary key, in which SQLite scans it.
pub mod Log
mod Scan
pub mod Backfill
pub mod Synced
pub mod Delivery
mod Tests
use project.Common.{
  ℕ, ◌+◌, ◌==◌, Bool, true, false, ◌&&◌, ◌||◌, if◌then◌else◌, ltb, any, Option, none, some, List,
  [], ◌∷◌, ◌++◌, zero, suc,
}

-- What `append` reads of an order row; `snapshot` is the row's `order_snapshot`.
pub record Row {ℓ} (Json : Type ℓ) : Type ℓ where
  pub id : ℕ
  pub ticker : Option ℕ
  pub order_id : Option ℕ
  pub decision_id : Option ℕ
  pub execution_check_id : Option ℕ
  pub snapshot : Json

-- The arguments of a call of `append`, and what it asks the clock and `uuid4`.
pub record Call {ℓ} (Json : Type ℓ) : Type ℓ where
  pub kind : ℕ
  pub row : Option (Row Json)
  pub body : Option Json
  pub market : Option ℕ
  pub received_at : Option ℕ
  pub source_time : Option ℕ
  pub event_id : Option ℕ
  pub now : ℕ
  pub monotonic_ns : ℕ
  pub uuid4 : ℕ

-- An event; no `body` is the empty dict, no `order` is an absent key.
pub record Event {ℓ} (Json : Type ℓ) : Type ℓ where
  pub event_id : ℕ
  pub kind : ℕ
  pub market : ℕ
  pub order_id : Option ℕ
  pub exchange_order_id : Option ℕ
  pub decision_id : Option ℕ
  pub execution_check_id : Option ℕ
  pub source_time : Option ℕ
  pub received_at : Option ℕ
  pub observed_at : ℕ
  pub observed_monotonic_ns : ℕ
  pub body : Option Json
  pub order : Option Json

-- A row of `execution_events`.
pub record Entry {ℓ} (Text : Type ℓ) : Type ℓ where
  pub seq : ℕ
  pub event_id : ℕ
  pub market : ℕ
  pub kind : ℕ
  pub body : Text

-- The table with its AUTOINCREMENT counter, the largest `seq` ever given.
pub record Table {ℓ} (Text : Type ℓ) : Type ℓ where
  pub rows : List (Entry Text)
  pub counter : ℕ

-- `.get(key, "")`
abbrev text_or_empty : Option ℕ → ℕ
text_or_empty none = 0
text_or_empty (some text) = text

-- LIMIT
abbrev pub take {κ} : {A : Type κ} → ℕ → List A → List A
take zero xs = []
take (suc n) [] = []
take (suc n) (x ∷ xs) = x ∷ take n xs

-- `event_id or str(uuid.uuid4())`
unfoldable pub chosen_id : Option ℕ → ℕ → ℕ
chosen_id none uuid = uuid
chosen_id (some id) uuid = if id == 0 then uuid else id

module _ {ℓ} {Text : Type ℓ} where
  -- `initialize`: CREATE TABLE
  abbrev pub created : Table Text
  created = record { rows = []; counter = 0 }

  abbrev pub has_id : ℕ → List (Entry Text) → Bool
  has_id id rows = any (λ r. r.event_id == id) rows

module _ {ℓ} {Json : Type ℓ} where
  -- `market if market is not None else (row or {}).get("request", {}).get("ticker", "")`
  unfoldable pub chosen_market : Option ℕ → Option (Row Json) → ℕ
  chosen_market (some market) row = market
  chosen_market none none = 0
  chosen_market none (some row) = text_or_empty row.ticker

  -- `(row or {}).get(...)`
  unfoldable pub of_row {κ} : {A : Type κ} → (Row Json → Option A) → Option (Row Json) → Option A
  of_row field none = none
  of_row field (some row) = field row

  unfoldable pub event_of : Call Json → Event Json
  unfolding chosen_id chosen_market of_row
  event_of c = record {
    event_id = chosen_id c.event_id c.uuid4;
    kind = c.kind;
    market = chosen_market c.market c.row;
    order_id = of_row (λ r. some r.id) c.row;
    exchange_order_id = of_row (λ r. r.order_id) c.row;
    decision_id = of_row (λ r. r.decision_id) c.row;
    execution_check_id = of_row (λ r. r.execution_check_id) c.row;
    source_time = c.source_time;
    received_at = c.received_at;
    observed_at = c.now;
    observed_monotonic_ns = c.monotonic_ns;
    body = c.body;
    order = of_row (λ r. some r.snapshot) c.row;
  }

  module _ {Text : Type ℓ} where
    module _ (dumps : Event Json → Text) where
      abbrev pub entry_of : ℕ → Event Json → Entry Text
      entry_of seq e = record {
        seq = seq;
        event_id = e.event_id;
        market = e.market;
        kind = e.kind;
        body = dumps e;
      }

      -- INSERT OR IGNORE into the table whose `event_id` is unique; the event comes back with
      -- its `journal_seq`, or None where the row was ignored.
      unfoldable pub append : Table Text → Call Json → Option (ℕ × Event Json) × Table Text
      append t c =
          let e = event_of c in
          if has_id e.event_id t.rows then (none, t) else (
            some (suc t.counter, e),
            record { rows = t.rows ++ entry_of (suc t.counter) e ∷ []; counter = suc t.counter },
          )

    module _ (loads : Text → Event Json) where
      -- The WHERE clause, over the rows in order, with the stored text read back.
      unfoldable pub selected : (ℕ → Bool) → ℕ → List (Entry Text) → List (ℕ × Event Json)
      selected like after [] = []
      selected like after (r ∷ rest) =
          let later = selected like after rest in
          if ltb after r.seq && (like r.market || r.market == 0)
          then (r.seq, loads r.body) ∷ later
          else later

      unfoldable pub read_events : (ℕ → Bool) → Table Text → ℕ → ℕ → List (ℕ × Event Json)
      read_events like t after limit = take limit (selected like after t.rows)
