-- ===== src/Entry/Tests.antt =====
-- A signal for a market that closes in five minutes, at 89 to 90 cents.
use project.Common.{
  ◌≡◌, refl, true, false, none, some, [], ◌∷◌, pos, arith, ◌+ℤ◌, ◌-ℤ◌, ceil_div, ℕ, ◌*◌, ◌≤◌, ◌<◌,
  ◌-◌,
}
use project.Fees.{fee_bound}
use project.Strategy.{probability_floor, entry_cutoff}
use project.Strategy.Samples.{sample}
use project.Market.{Market, active, tradable}
use project.Book.{Side, yes_side}
use project.Settlement.{favored, at_least, unrounded}
use project.Entry.{
  is_affordable, bisect, search_ticks, band_ceiling, ceiling_of, effective_entry_ceiling,
}
use project.Entry.Ceiling.{Best, effective_entry_ceiling-Best}
use project.Entry.Checks.{evaluate-Candidate}
use project.Entry.Signal

abbrev market : Market
market = record {
  ticker = 42;
  open_time = 400000;
  close_time = 1300000;
  status = active;
  price_ranges = record { start = 10000; end = 990000; step = 10000 } ∷ [];
}

abbrev signal : Signal.Signal
signal = record {
  spec = record { strike = 100000; quantum = 10; operator = at_least; rounding = unrounded };
  tick = 100100;
  premium = some 80000000000;
  probability = λ side. some 970000000000;
  lead = some (record {
    side = some yes_side;
    sigma = pos 1500000;
    confirmed_late = false;
    confirmed_normal = true;
  });
  quality_reasons = [];
  quality_score = 90;
  is_extreme = false;
  extra_reasons = [];
  bollinger = none;
}

abbrev tops : Side → Signal.Top
tops side = record { bid = some 890000; ask = some 900000; liquidity = 6000000 }

abbrev decision : Signal.Decision
decision = Signal.evaluate market tops signal 1000000 sample none

-- Worth entering, up to 93 cents.
is_candidate : decision.candidate ≡ true
unfolding Signal.evaluate Signal.rows Signal.lead_rows Signal.value_rows Signal.bollinger_rows
    Signal.capped_confidence favored tradable entry_cutoff probability_floor fee_bound ceil_div ◌+ℤ◌
    ◌-ℤ◌
is_candidate = refl

ceiling_93 : decision.ceiling ≡ some 930000
unfolding Signal.evaluate Signal.capped_confidence favored effective_entry_ceiling ceiling_of
    band_ceiling search_ticks bisect is_affordable probability_floor fee_bound ceil_div ◌+ℤ◌ ◌-ℤ◌
ceiling_93 = refl

-- The sides swap, and so do the lead's.
abbrev behind : Signal.Decision
behind = Signal.evaluate market tops (record signal { tick = 99900 }) 1000000 sample none

behind_reasons : behind.reasons ≡ Signal.lead_model ∷ []
unfolding Signal.evaluate Signal.rows Signal.lead_rows Signal.value_rows Signal.bollinger_rows
    Signal.capped_confidence favored tradable entry_cutoff probability_floor fee_bound ceil_div ◌+ℤ◌
    ◌-ℤ◌
behind_reasons = refl

effective_entry_ceiling-Best_example :
    Best sample 970000000000 market.price_ranges
      (effective_entry_ceiling market 970000000000 sample false (some 300000))
unfolding probability_floor
effective_entry_ceiling-Best_example =
    effective_entry_ceiling-Best market 970000000000 sample false (some 300000)
      ((omega arith, omega arith), tt) (omega arith)

evaluate-Candidate_example :
    (sample.enabled ≡ true)
    × (tradable market 1000000 ≡ true)
    × (entry_cutoff sample * 1000 < 1300000 - 1000000)
    × (1300000 - 1000000 ≤ sample.entry_window_start * 1000)
    × (sample.min_entry_price ≤ 900000)
    × (900000 ≤ sample.max_entry_price)
    × ((p : ℕ) × (decision.ceiling ≡ some p)
        × (is_affordable sample decision.conservative p ≡ true)
        × (900000 ≤ p))
unfolding Signal.evaluate favored
evaluate-Candidate_example =
    evaluate-Candidate market tops signal 1000000 sample 900000 ((omega arith, omega arith), tt)
      refl refl is_candidate
