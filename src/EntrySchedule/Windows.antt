-- ===== src/EntrySchedule/Windows.antt =====
-- The windows as a table of local times.
use project.Common.{ℕ, ◌+◌, ◌*◌, ◌≤◌, ◌<◌, ◌≡◌, ◌⊎◌, ◌↔◌, some, inl, inr, Option-cases, arith}
use project.EntrySchedule.{Label, entry_blackout}

-- The local time lies from h:m up to, and not including, h':m'.
abbrev pub Between : ℕ → ℕ → ℕ → ℕ → ℕ → ℕ → Type 0
Between h m h' m' hour minute =
    (h * 60 + m ≤ hour * 60 + minute) × (hour * 60 + minute < h' * 60 + m')

-- Entries are blacked out exactly from 11:45 to 13:00 on weekdays, from 11:15 to 12:30 on
-- weekends, from 20:00 to 21:15 on Tuesdays and from 19:45 to 21:00 on Thursdays, the starts
-- included and the ends not.
pub entry_blackout_iff :
    (weekday hour minute : ℕ)
    → (((label : Label) × (entry_blackout weekday hour minute ≡ some label)) ↔ (
        (((weekday < 5) × Between 11 45 13 0 hour minute)
          ⊎ ((5 ≤ weekday) × Between 11 15 12 30 hour minute))
        ⊎ (((weekday ≡ 1) × Between 20 0 21 15 hour minute)
            ⊎ ((weekday ≡ 3) × Between 19 45 21 0 hour minute))))
unfolding entry_blackout
entry_blackout_iff weekday hour minute = (
  λ h. ground arith,
  λ h. elim (Option-cases (entry_blackout weekday hour minute)) [
    | inl open_time ↦ absurd (ground arith)
    | inr found ↦ found
  ],
)
