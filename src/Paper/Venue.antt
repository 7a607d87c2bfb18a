-- ===== src/Paper/Venue.antt =====
-- src/btc15/execution.py: `halt`, `pause_market`, `resume_market` and `revalidate`: what stops an
-- order at one market, and what lets the market go on.
--
-- A pause keeps the hash of the contract, which recovery.py computes. A state that is missing here
-- is one that no run has stored.
pub mod Pauses
mod Tests
use project.Common.{
  ℕ, ◌+◌, ◌*◌, Bool, true, false, ◌&&◌, ◌||◌, not, if◌then◌else◌, ltb, leb, ◌==◌, Option, none,
  some, List, [], ◌∷◌, is_empty,
}
use project.Strategy.{Strategy, entry_cutoff}
use project.Market.{Market, tradable}
use project.Book.{Side}
use project.Lifecycle.{MarketState, halted, error, closed, settlement_pending}
use project.Entry.Signal.{same_side}
use project.Paper.{PaperOrder, Desk, Result, ok, ◌>>=◌, cancel, is_active}
use project.Paper.Settle.{is_in}

pub data PauseEvent : Type 0 where
  deactivated inactive activated price_level_structure_updated : PauseEvent
  closed_event determined disputed amended finalized other_event : PauseEvent

-- The events that no hint and no old message releases.
abbrev pub is_terminal : PauseEvent → Bool
is_terminal closed_event = true
is_terminal determined = true
is_terminal disputed = true
is_terminal amended = true
is_terminal finalized = true
is_terminal _ = false

abbrev pub is_resumable : PauseEvent → Bool
is_resumable deactivated = true
is_resumable inactive = true
is_resumable activated = true
is_resumable price_level_structure_updated = true
is_resumable _ = false

pub record Pause : Type 0 where
  pub event : PauseEvent
  pub since : ℕ
  pub hash : ℕ

-- The desk, its pause, and the hash of its contract once it is pinned. The desk's `paused` says
-- whether there is a pause.
pub record Venue : Type 0 where
  pub desk : Desk
  pub pause : Option Pause
  pub contract : Option ℕ

abbrev pub keeps_pause : Option Pause → ℕ → Bool
keeps_pause none now = false
keeps_pause (some p) now = leb now p.since || is_terminal p.event

abbrev pub or_hash : Option ℕ → ℕ → ℕ
or_hash none hash = hash
or_hash (some known) hash = known

-- `pause_market`, of a market with the given hash
unfoldable pub pause_market : ℕ → ℕ → PauseEvent → Venue → Result Venue
pause_market hash now event v =
    if keeps_pause v.pause now
    then ok v
    else cancel now v.desk >>= λ d. ok (record {
      desk = record d { paused = true };
      pause = some (record { event = event; since = now; hash = or_hash v.contract hash });
      contract = some (or_hash v.contract hash);
    })

-- An observation of the market: when it was asked for, whether it came over REST, whether the
-- clock is right, and the hash of what was seen.
pub record Observation : Type 0 where
  pub requested : ℕ
  pub is_rest : Bool
  pub clock_ok : Bool
  pub hash : ℕ

abbrev pub is_stopped : Option MarketState → Bool
is_stopped s = is_in halted s || is_in error s || is_in closed s || is_in settlement_pending s

unfoldable pub may_resume : Market → ℕ → Observation → Venue → Pause → Bool
may_resume m now o v p =
    is_resumable p.event
    && not v.desk.quarantined
    && not (is_stopped v.desk.state)
    && o.is_rest
    && o.clock_ok
    && (ltb p.since o.requested && leb o.requested now)
    && tradable m now
    && o.hash == p.hash

pub record Resumed : Type 0 where
  pub venue : Venue
  pub answer : Bool

abbrev pub resume_from : Market → ℕ → Observation → Option Pause → Venue → Resumed
resume_from m now o none v = record { venue = v; answer = false }
resume_from m now o (some p) v =
    if may_resume m now o v p
    then record {
      venue = record v { desk = record (v.desk) { paused = false }; pause = none };
      answer = true;
    }
    else record { venue = v; answer = false }

-- `resume_market`
unfoldable pub resume_market : Market → ℕ → Observation → Venue → Resumed
resume_market m now o v = resume_from m now o v.pause v

-- `halt` at this market: the portfolio is halted, then its order is cancelled.
unfoldable pub halt : ℕ → Desk → Result Desk
halt now d = cancel now (record d { risk = record (d.risk) { halted = true } })

-- What `revalidate` reads of a decision and of the caller's health.
pub record Recheck : Type 0 where
  pub reasons : ℕ
  pub is_candidate : Bool
  pub side : Option Side
  pub healthy : Bool
  pub health_reasons : ℕ

abbrev pub side_changed : Option Side → Side → Bool
side_changed none side = false
side_changed (some new) side = not (same_side (some new) (some side))

-- The reasons that the signal gives; a candidate that is none counts where nothing else does, and
-- then it is itself the reason.
abbrev pub signal_invalid : Strategy → Recheck → PaperOrder → Bool
signal_invalid c r o =
    c.revalidate_entry_signal
    && (not (r.reasons == 0) || side_changed r.side o.side || not r.is_candidate)

unfoldable pub is_invalid : Strategy → Market → Recheck → PaperOrder → Desk → ℕ → Bool
is_invalid c m r o d now =
    not (r.health_reasons == 0)
    || signal_invalid c r o
    || not r.healthy
    || d.paused
    || leb (o.created + c.max_wait) now
    || leb m.close_time (now + entry_cutoff c * 1000)
    || not (tradable m now)

abbrev pub revalidate_order :
    Strategy → Market → Recheck → Option PaperOrder → ℕ → Desk → Result Desk
revalidate_order c m r none now d = ok d
revalidate_order c m r (some o) now d =
    if o.active && is_invalid c m r o d now then cancel now d else ok d

-- `revalidate`
unfoldable pub revalidate : Strategy → Market → Recheck → ℕ → Desk → Result Desk
revalidate c m r now d = revalidate_order c m r d.order now d
