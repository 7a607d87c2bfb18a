-- ===== src/Paper/Venue/Tests.antt =====
-- A market that is deactivated, resumes, and closes for good.
use project.Common.{◌≡◌, refl, true, false, Bool, Option, none, some, List, [], ◌∷◌}
use project.Market.{Market, active, tradable}
use project.Lifecycle.{evaluating}
use project.Paper.{Result, ok, cancel}
use project.Paper.Venue
use project.Paper.Venue.Pauses.{pauses, resumes, run, run-kept}

abbrev market : Market
market = record {
  ticker = 42;
  open_time = 400000;
  close_time = 1300000;
  status = active;
  price_ranges = [];
}

abbrev venue : Venue.Venue
venue = record {
  desk = record {
    ticker = 42;
    order = none;
    position = none;
    quarantined = false;
    paused = false;
    state = some evaluating;
    risk = record { reserved = []; realized = project.Common.pos 0; daily = []; halted = false };
    closed_at = none;
    pending_reference = false;
    collector_paused = false;
    fills = [];
  };
  pause = none;
  contract = none;
}

abbrev seen : Venue.Observation
seen = record { requested = 1000600; is_rest = true; clock_ok = true; hash = 7 }

abbrev venue_of : Result Venue.Venue → Venue.Venue
venue_of (ok v) = v
venue_of _ = venue

-- The observation was asked for after the pause.
abbrev resumed : Venue.Venue
resumed =
    venue_of (run (pauses 7 1000500 Venue.deactivated ∷ resumes market 1000700 seen ∷ []) venue)

is_resumed : resumed.desk.paused ≡ false
unfolding run Venue.pause_market Venue.resume_market Venue.may_resume cancel tradable
is_resumed = refl

-- One that was already on its way does not count.
abbrev held : Venue.Venue
held = venue_of (run (pauses 7 1000650 Venue.deactivated ∷ resumes market 1000700 seen ∷ []) venue)

is_held : held.desk.paused ≡ true
unfolding run Venue.pause_market Venue.resume_market Venue.may_resume cancel tradable
is_held = refl

abbrev gone : Venue.Venue
gone = record venue {
  desk = record (venue.desk) { paused = true };
  pause = some (record { event = Venue.determined; since = 1000500; hash = 7 });
}

run-kept_example :
    run (pauses 7 1000650 Venue.activated ∷ resumes market 1000700 seen ∷ []) gone ≡ ok gone
run-kept_example =
    run-kept (pauses 7 1000650 Venue.activated ∷ resumes market 1000700 seen ∷ []) gone (refl, refl)
