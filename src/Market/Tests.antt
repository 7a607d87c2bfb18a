-- ===== src/Market/Tests.antt =====
-- A grid with finer ticks near the ends.
use project.Common.{◌≡◌, ceil_div, refl, true, false, some, List, [], ◌∷◌}
use project.Market.{Band, snap, snap_band}

abbrev bands : List Band
bands =
    record { start = 0; end = 100000; step = 1000 }
    ∷ record { start = 100000; end = 900000; step = 10000 }
    ∷ record { start = 900000; end = 1000000; step = 1000 }
    ∷ []

snap_down : snap bands 456789 false ≡ some 450000
unfolding snap snap_band
snap_down = refl

snap_up : snap bands 900001 true ≡ some 901000
unfolding snap snap_band ceil_div
snap_up = refl
