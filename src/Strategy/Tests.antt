-- ===== src/Strategy/Tests.antt =====
-- The checks of a configuration on the defaults and on broken ones.
use project.Common.{◌≡◌, refl, true, false, some}
use project.Strategy.{
  is_valid, has_valid_execution, has_valid_window, has_valid_lead, has_valid_model,
  has_valid_fractions, has_valid_limits, probability_floor, stop_price,
}
use project.Strategy.Samples.{sample}

sample_valid : is_valid sample ≡ true
unfolding is_valid has_valid_execution has_valid_window has_valid_lead has_valid_model
    has_valid_fractions has_valid_limits
sample_valid = refl

-- A full entry cannot be a passive one.
passive_full : is_valid (record sample { passive = true }) ≡ false
unfolding is_valid has_valid_execution has_valid_window has_valid_lead has_valid_model
    has_valid_fractions has_valid_limits
passive_full = refl

early_floor : probability_floor sample false (some 450000) ≡ 950000
unfolding probability_floor
early_floor = refl

stop_price_half_cent : stop_price sample 900000 ≡ 675000000000
unfolding stop_price
stop_price_half_cent = refl
