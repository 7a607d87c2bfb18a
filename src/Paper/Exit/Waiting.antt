-- ===== src/Paper/Exit/Waiting.antt =====
-- The shortcut of `_apply_monitor` for an exit that waits.
use project.Common.{ℕ, ◌≡◌, refl, true, Option, some, arith}
use project.Strategy.{Strategy}
use project.Paper.{ok}
use project.Paper.Exit

waits-still :
    (c : Strategy) (r : Exit.Reason) (target : Option ℕ) (e : Exit.Event) (h : Exit.Holding)
    → Exit.waits (some r) e h.exits ≡ true
    → Exit.commit_monitor c (some r) target e h ≡ ok h
unfolding Exit.commit_monitor Exit.dropped
waits-still c r target e h w = ground arith

-- An exit that `_apply_monitor` leaves alone because it waits on the same intent is one on which
-- `_commit_monitor` changes nothing: the shortcut and the full way agree.
pub apply_monitor-commit_monitor :
    (c : Strategy) (r : Exit.Reason) (target : Option ℕ) (e : Exit.Event) (h : Exit.Holding)
    → Exit.waits (some r) e h.exits ≡ true
    → Exit.apply_monitor c (some r) target e h ≡ Exit.commit_monitor c (some r) target e h
unfolding Exit.apply_monitor
apply_monitor-commit_monitor c r target e h w = simp (w, waits-still c r target e h w) refl
