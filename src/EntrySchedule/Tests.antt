-- ===== src/EntrySchedule/Tests.antt =====
-- The windows at their edges.
use project.Common.{◌≡◌, refl, none, some}
use project.EntrySchedule.{weekdays, tuesday, entry_blackout}

monday_noon : entry_blackout 0 12 0 ≡ some weekdays
unfolding entry_blackout
monday_noon = refl

monday_one : entry_blackout 0 13 0 ≡ none
unfolding entry_blackout
monday_one = refl

tuesday_evening : entry_blackout 1 20 0 ≡ some tuesday
unfolding entry_blackout
tuesday_evening = refl
