-- ===== src/LossGuard.antt =====
-- src/btc15/global_loss_guard.py: the latched cutoff of all live buys.
--
-- P&L is a whole number of ten-thousandths of a dollar, to which the code rounds; times are
-- milliseconds. The two tables of permissions, `live_assets` and `live_controls`, are one list of
-- rows here; a row's other fields are not touched by this code. The SQL transaction commits the
-- latch and all rows together, so `apply` is one step.
pub mod Latch
mod Tests
use project.Common.{
  ℕ, ◌+◌, ◌-◌, ◌*◌, Bool, true, false, ◌&&◌, ◌||◌, not, if◌then◌else◌, leb, ltb, ◌==◌, Option, none,
  some, List, [], ◌∷◌, map, ℤ, pos, negsuc, leb_ℤ, eqb_ℤ,
}

-- -$50, in ten-thousandths.
abbrev pub limit : ℤ
limit = negsuc 499999

-- `interval + 30` seconds
abbrev pub max_age : ℕ
max_age = 930000

pub record LatchBody : Type 0 where
  pub pnl : ℤ
  pub triggered_at : ℕ

-- One row of a permission table.
pub record Control : Type 0 where
  pub enabled : Bool
  pub revision : ℕ
  pub loss_guard : Option LatchBody

pub record Guard : Type 0 where
  pub latch : Option LatchBody
  pub pnl : Option ℤ
  pub updated_at : Option ℕ
  pub failed : Bool
  pub controls : List Control

abbrev pub same_latch : LatchBody → Option LatchBody → Bool
same_latch l none = false
same_latch l (some m) = eqb_ℤ l.pnl m.pnl && l.triggered_at == m.triggered_at

-- The loop over the rows: one that is enabled, or does not hold this latch, is rewritten.
unfoldable pub disable : LatchBody → Control → Control
disable l c =
    if c.enabled || not (same_latch l c.loss_guard)
    then record { enabled = false; revision = c.revision + 1; loss_guard = some l }
    else c

abbrev pub latch_or : Option LatchBody → LatchBody → LatchBody
latch_or none l = l
latch_or (some l) _ = l

abbrev pub is_some : Option LatchBody → Bool
is_some none = false
is_some (some _) = true

-- `GlobalLossGuard.apply`, of a finite P&L
unfoldable pub apply : Guard → ℤ → ℕ → Guard
apply self pnl now =
    let seen = record self { pnl = some pnl; updated_at = some now; failed = false } in
    let l = latch_or self.latch (record { pnl = pnl; triggered_at = now }) in
    if is_some self.latch || leb_ℤ pnl limit
    then record seen { latch = some l; controls = map (disable l) self.controls }
    else seen

pub data Refusal : Type 0 where
  latched unavailable : Refusal

abbrev pub is_fresh : Option ℕ → ℕ → Bool
is_fresh none now = false
is_fresh (some t) now = leb t now && leb (now - t) max_age

-- `GlobalLossGuard.check`: the refusal, or none where a new buy may go on
unfoldable pub check : Guard → ℕ → Option Refusal
check self now =
    if is_some self.latch
    then some latched
    else if self.failed || not (is_fresh self.updated_at now)
    then some unavailable
    else none

-- One turn of `run`: a calculation that came back with a P&L, or one that raised.
pub data Round : Type 0 where
  calculated : ℤ → ℕ → Round
  raised : Round

unfoldable pub round : Guard → Round → Guard
round self (calculated pnl now) = apply self pnl now
round self raised = record self { failed = true }

unfoldable pub run : Guard → List Round → Guard
run self [] = self
run self (r ∷ rs) = run (round self r) rs
