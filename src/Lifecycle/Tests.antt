-- ===== src/Lifecycle/Tests.antt =====
-- A market that is traded once, and one that is halted.
use project.Common.{◌≡◌, ◌≢◌, refl, true, none, some, List, [], ◌∷◌, arith}
use mathlib.Core.List.{Memᴰ}
use project.Lifecycle.{
  MarketState, discover_market, validate_market, warmup, entry_window, evaluating, trade_candidate,
  order_pending, position_open, halted, MetadataProof, no_recovery, metadata_recovery, transition,
  transitions, targets, recovers,
}
use project.Lifecycle.Trace.{run, run-position_open}

abbrev traded : List MarketState
traded =
    discover_market ∷ validate_market ∷ warmup ∷ entry_window ∷ evaluating ∷ trade_candidate
    ∷ order_pending ∷ position_open ∷ []

abbrev proof : MetadataProof
proof = record { target = evaluating; reason_is_invalid_metadata = true; hashes_agree = true }

run-traded : run none traded ≡ some (some position_open)
unfolding run transition transitions targets recovers
run-traded = refl

no_shortcut : transition (some evaluating) position_open no_recovery ≡ none
unfolding transition transitions targets recovers
no_shortcut = refl

recovered : transition (some halted) evaluating (metadata_recovery proof) ≢ none
unfolding transition transitions targets recovers
recovered = ground arith

run-position_open_example : Memᴰ order_pending traded
run-position_open_example = run-position_open traded run-traded
