-- ===== src/Journal/Backfill.antt =====
-- src/btc15/research_log.py, `_execution_records`: the archiver's cursor over the journal, where
-- the database and its table are there; and `research_execution` of src/btc15/live_automation.py,
-- which hands a committed event to the same archive at once.
use project.Common.{◌==◌, ◌&&◌, ◌||◌, ℕ, zero, suc, Bool, true, if◌then◌else◌, List, [], ◌∷◌, ◌++◌}
use project.Journal.{Event, Table, Call, append, read_events}

-- The `delivery` that `capture_execution` writes into a record.
pub data Delivery : Type 0 where
  immediate journal_backfill : Delivery

pub record Copy {ℓ} (Json : Type ℓ) : Type ℓ where
  pub delivery : Delivery
  pub event : ℕ × Event Json

-- `archived` is what `capture_execution` accepted, in order.
pub record Archiver {ℓ} (Json : Type ℓ) : Type ℓ where
  pub execution_cursor : ℕ
  pub archived : List (Copy Json)

-- `capture_execution`, where the archive accepts the record
abbrev pub capture {ℓ} : {Json : Type ℓ} → Delivery → ℕ × Event Json → Archiver Json → Archiver Json
capture d e a = record a { archived = a.archived ++ record { delivery = d; event = e } ∷ [] }

-- The events of the copies that the backfill made.
abbrev pub backfilled {ℓ} : {Json : Type ℓ} → List (Copy Json) → List (ℕ × Event Json)
backfilled [] = []
backfilled (c ∷ rest) = elim c.delivery [
  | immediate ↦ backfilled rest
  | journal_backfill ↦ c.event ∷ backfilled rest
]

-- `limit=500`
abbrev pub page : ℕ
page = 500

-- `self.execution_cursor = event["journal_seq"]`, of an event that was accepted
abbrev pub accepted {ℓ} : {Json : Type ℓ} → Archiver Json → ℕ × Event Json → Archiver Json
accepted a e = record (capture journal_backfill e a) { execution_cursor = e.0 }

-- The loop over a page: `accepts` says of which events `capture_execution` answers yes.
module _ {ℓ} {Json : Type ℓ} (accepts : ℕ × Event Json → Bool) where
  unfoldable pub deliver : Archiver Json → List (ℕ × Event Json) → Archiver Json
  deliver a [] = a
  deliver a (e ∷ rest) = let next = deliver (accepted a e) rest in if accepts e then next else a

module _ {ℓ} {Json Text : Type ℓ} (loads : Text → Event Json) (like : ℕ → Bool) where
  unfoldable pub execution_records :
      Table Text → (ℕ × Event Json → Bool) → Archiver Json → Archiver Json
  execution_records t accepts a =
      deliver accepts a (read_events loads like t a.execution_cursor page)

-- `research_execution` at one recorder: an event of no market, or of one under the recorder's prefix,
-- is captured; `starts` is the test of the prefix, `accepts` the answer of the archive.
unfoldable pub research_execution {ℓ} :
    {Json : Type ℓ}
    → (ℕ → Bool)
    → (ℕ × Event Json → Bool)
    → ℕ × Event Json
    → Archiver Json
    → Archiver Json
research_execution starts accepts e a =
    if (e.1.market == 0 || starts e.1.market) && accepts e then capture immediate e a else a

-- What happens to the journal and the archiver: an event is appended, or handed on at once, or a page
-- is read. Which event is handed on, and when, is left open, as several threads publish.
pub data Step {ℓ} (Json : Type ℓ) : Type ℓ where
  appended : Call Json → Step Json
  published : (ℕ → Bool) → (ℕ × Event Json → Bool) → ℕ × Event Json → Step Json
  polled : (ℕ × Event Json → Bool) → Step Json

module _ {ℓ} {Json : Type ℓ} where
  -- The archiver at its start: `self.execution_cursor = 0`
  abbrev pub started : Archiver Json
  started = record { execution_cursor = 0; archived = [] }

  -- n pages read, every event accepted
  unfoldable pub polls : ℕ → List (Step Json)
  polls zero = []
  polls (suc n) = polled (λ e. true) ∷ polls n

module _ {ℓ} {Json Text : Type ℓ} (dumps : Event Json → Text) (loads : Text → Event Json)
    (like : ℕ → Bool) where
  unfoldable pub happen : Table Text × Archiver Json → Step Json → Table Text × Archiver Json
  happen (t, a) (appended c) = ((append dumps t c).1, a)
  happen (t, a) (published starts accepts e) = (t, research_execution starts accepts e a)
  happen (t, a) (polled accepts) = (t, execution_records loads like t accepts a)

  unfoldable pub run : Table Text × Archiver Json → List (Step Json) → Table Text × Archiver Json
  run s [] = s
  run s (x ∷ xs) = run (happen s x) xs
