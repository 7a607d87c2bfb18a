-- ===== src/LossGuard/Tests.antt =====
-- A guard with two permissions.
use project.Common.{◌≡◌, refl, true, false, none, some, List, [], ◌∷◌, ◌++◌, pos, negsuc, arith}
use project.LossGuard.{
  LatchBody, Control, Guard, apply, disable, check, latched, unavailable, calculated, raised, round,
  run,
}
use project.LossGuard.Latch.{Latched, run-loss}

abbrev permissions : List Control
permissions =
    record { enabled = true; revision = 3; loss_guard = none }
    ∷ record { enabled = false; revision = 1; loss_guard = none }
    ∷ []

abbrev guard : Guard
guard = record {
  latch = none;
  pnl = some (pos 120000);
  updated_at = some 1000;
  failed = false;
  controls = permissions;
}

open_guard : check guard 2000 ≡ none
unfolding check
open_guard = refl

-- A calculation that is too old closes the guard until the next one.
stale : check guard 1000000 ≡ some unavailable
unfolding check
stale = refl

-- A profit later on does not open the guard again.
stays_shut :
    check (run guard (calculated (negsuc 599999) 2000 ∷ calculated (pos 900000) 3000 ∷ [])) 3001
    ≡ some latched
unfolding run round apply check disable
stays_shut = refl

run-loss_example :
    ((l : LatchBody) × Latched
        (run guard ((raised ∷ []) ++ calculated (negsuc 599999) 2000 ∷ (raised ∷ [])))
        l)
    × (check (run guard ((raised ∷ []) ++ calculated (negsuc 599999) 2000 ∷ (raised ∷ []))) 9000
        ≡ some latched)
run-loss_example =
    run-loss guard (raised ∷ []) (raised ∷ []) (negsuc 599999) 2000 9000 (omega arith)
