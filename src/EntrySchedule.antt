-- ===== src/EntrySchedule.antt =====
-- src/btc15/entry_schedule.py: the blackout windows of automatic entries, in Eastern time.
--
-- The conversion of a POSIX time to Eastern time is the time zone database's, outside the
-- repository: `entry_blackout` takes the local weekday (Monday is 0), hour and minute.
pub mod Windows
mod Tests
use project.Common.{
  ℕ, ◌+◌, ◌*◌, Bool, true, false, ◌&&◌, if◌then◌else◌, ltb, leb, ◌==◌, Option, none, some, List, [],
  ◌∷◌, ◌++◌,
}

pub data Label : Type 0 where
  weekdays weekends tuesday thursday : Label

-- A window of a day in minutes: the start is inclusive, the end exclusive.
pub record Window : Type 0 where
  pub start : ℕ
  pub end : ℕ
  pub label : Label

abbrev pub daily : ℕ → List Window
daily weekday =
    if ltb weekday 5
    then record { start = 705; end = 780; label = weekdays } ∷ []
    else record { start = 675; end = 750; label = weekends } ∷ []

abbrev pub evening : ℕ → List Window
evening weekday =
    if weekday == 1
    then record { start = 1200; end = 1275; label = tuesday } ∷ []
    else if weekday == 3
    then record { start = 1185; end = 1260; label = thursday } ∷ []
    else []

abbrev pub first_active : ℕ → List Window → Option Label
first_active minute [] = none
first_active minute (w ∷ ws) =
    if leb w.start minute && ltb minute w.end then some w.label else first_active minute ws

-- `entry_blackout`, of the local time
unfoldable pub entry_blackout : ℕ → ℕ → ℕ → Option Label
entry_blackout weekday hour minute =
    first_active (hour * 60 + minute) (daily weekday ++ evening weekday)
