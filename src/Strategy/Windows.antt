-- ===== src/Strategy/Windows.antt =====
-- What the checks of the configuration guarantee to the code that uses it.
use project.Common.{ℕ, ◌≤◌, ◌<◌, ◌≡◌, Bool, true, Option, arith}
use project.Fees.{micro}
use project.Strategy.{
  has_valid_window, has_valid_lead, has_valid_fractions, Strategy, is_valid, entry_cutoff,
  probability_floor, confirmation_count,
}

-- The guarantees of an accepted configuration at one moment of an entry.
pub record Guarantees (c : Strategy) (late : Bool) (remaining : Option ℕ) : Type 0 where
  pub cutoff_pos : 0 < entry_cutoff c
  pub window_open : entry_cutoff c < c.entry_window_start
  pub window_small : c.entry_window_start ≤ 900
  pub floor_unit : probability_floor c late remaining ≤ micro
  pub samples_pos : 1 ≤ confirmation_count c late
  pub samples_small : confirmation_count c late ≤ 60

module _ (c : Strategy) where
  window :
      has_valid_window c ≡ true
      → (0 < entry_cutoff c)
        × (entry_cutoff c < c.entry_window_start)
        × (c.entry_window_start ≤ 900)
  unfolding has_valid_window entry_cutoff
  window h = ground arith

  samples :
      (late : Bool)
      → has_valid_lead c ≡ true
      → (1 ≤ confirmation_count c late) × (confirmation_count c late ≤ 60)
  unfolding has_valid_lead confirmation_count
  samples late h = ground arith

  floor :
      (late : Bool) (remaining : Option ℕ)
      → has_valid_lead c ≡ true
      → has_valid_fractions c ≡ true
      → probability_floor c late remaining ≤ micro
  unfolding has_valid_lead has_valid_fractions probability_floor
  floor late remaining h k = ground arith

-- In an accepted configuration the entry window is not empty and lies within the fifteen
-- minutes, the probability floor is a probability at any time and on either path, and the
-- confirmation count is from 1 to 60.
pub is_valid-Guarantees :
    (c : Strategy) (late : Bool) (remaining : Option ℕ)
    → is_valid c ≡ true
    → Guarantees c late remaining
unfolding is_valid
is_valid-Guarantees c late remaining h =
    ground (arith, window c, samples c late, floor c late remaining)
