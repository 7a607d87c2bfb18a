-- ===== src/Journal/Tests.antt =====
-- A journal of three events, of which one is recorded twice, and its archiver.
use project.Common.{ℕ, ◌≡◌, refl, Bool, true, not, ◌==◌, none, some, List, [], ◌∷◌, arith}
use project.Journal.{
  Call, Event, Row, append, selected, read_events, chosen_id, chosen_market, of_row, event_of,
  created,
}
use project.Journal.Log.{append_all, append_all-logged, visible, logged, events}
use project.Journal.Backfill.{
  Step, appended, published, polled, run, backfilled, research_execution, happen, execution_records,
  deliver, polls, started,
}
use project.Journal.Delivery.{run-delivered}

abbrev row : Row ℕ
row = record {
  id = 501;
  ticker = some 7;
  order_id = none;
  decision_id = some 31;
  execution_check_id = none;
  snapshot = 90;
}

-- An order is requested: its id is drawn, its market is the order's.
abbrev requested : Call ℕ
requested = record {
  kind = 1;
  row = some row;
  body = none;
  market = none;
  received_at = none;
  source_time = none;
  event_id = none;
  now = 1000;
  monotonic_ns = 11;
  uuid4 = 801;
}

-- A fill, under the exchange's id.
abbrev filled : Call ℕ
filled = record requested {
  kind = 2;
  body = some 91;
  received_at = some 1040;
  source_time = some 1030;
  event_id = some 600;
  now = 1050;
  uuid4 = 802;
}

-- An event of another market.
abbrev elsewhere : Call ℕ
elsewhere = record requested { kind = 3; row = none; market = some 8; now = 1060; uuid4 = 803 }

abbrev calls : List (Call ℕ)
calls = requested ∷ filled ∷ elsewhere ∷ filled ∷ []

abbrev same : Event ℕ → Event ℕ
same e = e

abbrev seventh : ℕ → Bool
seventh m = m == 7

-- The fill is archived at once; the archiver refuses it at first when it reads the journal.
abbrev steps : List (Step ℕ)
steps =
    appended requested
    ∷ appended filled
    ∷ published seventh (λ e. true) (2, event_of filled)
    ∷ polled (λ e. not (e.1.event_id == 600))
    ∷ appended elsewhere
    ∷ appended filled
    ∷ []

recorded_once :
    events (read_events same seventh (append_all same created calls) 0 500)
    ≡ event_of requested ∷ event_of filled ∷ []
unfolding read_events selected append_all append event_of chosen_id chosen_market of_row
recorded_once = refl

resumed : (run same same seventh (created, started) steps).1.execution_cursor ≡ 1
unfolding run happen execution_records research_execution deliver read_events selected append
    event_of chosen_id chosen_market of_row
resumed = refl

append_all-logged_example :
    events (read_events same seventh (append_all same created calls) 0 1) ≡ event_of requested ∷ []
unfolding visible logged event_of chosen_id chosen_market of_row
append_all-logged_example = append_all-logged same same (λ e. refl) calls seventh 1

run-delivered_example :
    events (
      backfilled
        (run same same seventh
          (run same same seventh (created, started) steps)
          (polls 1)).1.archived)
    ≡ event_of requested ∷ event_of filled ∷ []
unfolding visible logged event_of chosen_id chosen_market of_row
run-delivered_example = run-delivered same same seventh (λ e. refl) steps 1 (omega arith)
