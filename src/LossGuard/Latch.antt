-- ===== src/LossGuard/Latch.antt =====
-- Once the fleet has lost its limit, no buy is allowed again.
use project.Common.{
  ℕ, ◌+◌, ◌≤◌, ◌≡◌, refl, ◌⊎◌, inl, inr, true, false, none, some, List, [], ◌∷◌, map, ℤ, ◌≤ℤ◌,
  arith, All, eqb_ℤ→eq, Option-cases, ◌++◌,
}
use project.LossGuard.{
  LatchBody, Control, Guard, limit, max_age, disable, apply, check, latch_or, is_some, latched,
  Round, calculated, raised, round, run,
}

-- Every permission is off and carries the latch.
pub record Latched (self : Guard) (l : LatchBody) : Type 0 where
  pub held : self.latch ≡ some l
  pub off : All (λ c. (c.enabled ≡ false) × (c.loss_guard ≡ some l)) self.controls

disable_one :
    (l : LatchBody) (c : Control)
    → ((disable l c).enabled ≡ false) × ((disable l c).loss_guard ≡ some l)
unfolding disable
disable_one l c = elim (Option-cases c.loss_guard) [
  | inl e ↦ rw e (ground arith)
  | inr (m, e) ↦ ground (arith, eqb_ℤ→eq l.pnl m.pnl)
]

disable-off :
    (l : LatchBody) (cs : List Control)
    → All (λ c. (c.enabled ≡ false) × (c.loss_guard ≡ some l)) (map (disable l) cs)
disable-off l [] = tt
disable-off l (c ∷ cs) = (disable_one l c, disable-off l cs)

-- A calculation at or below the limit, or on a guard that is latched, latches and turns every
-- permission off.
apply-Latched :
    (self : Guard) (pnl : ℤ) (now : ℕ)
    → (pnl ≤ℤ limit) ⊎ (is_some self.latch ≡ true)
    → Latched (apply self pnl now) (latch_or self.latch (record { pnl = pnl; triggered_at = now }))
unfolding apply
apply-Latched self pnl now h = ground (
  arith,
  disable-off (latch_or self.latch (record { pnl = pnl; triggered_at = now })) self.controls,
)

round-Latched :
    (self : Guard) (r : Round) {l : LatchBody} → Latched self l → Latched (round self r) l
unfolding round
round-Latched self (calculated pnl now) {l} h =
    let e : latch_or self.latch (record { pnl = pnl; triggered_at = now }) ≡ l = rw (h.held) in
    rw e at (apply-Latched self pnl now (inr (rw (h.held))))
round-Latched self raised h = record { held = h.held; off = h.off }

-- A latch is kept, with every permission off, through any later rounds.
pub run-Latched :
    (self : Guard) (rs : List Round) {l : LatchBody} → Latched self l → Latched (run self rs) l
unfolding run
run-Latched self [] h = h
run-Latched self (r ∷ rs) h = run-Latched (round self r) rs (round-Latched self r h)

run-append : (self : Guard) (rs ts : List Round) → run self (rs ++ ts) ≡ run (run self rs) ts
unfolding run
run-append self [] ts = refl
run-append self (r ∷ rs) ts = run-append (round self r) rs ts

check_latched :
    (self : Guard) (now : ℕ) {l : LatchBody} → Latched self l → check self now ≡ some latched
unfolding check
check_latched self now h = rw (h.held)

run-loss_first :
    (self : Guard) (after : List Round) (pnl : ℤ) (at : ℕ)
    → pnl ≤ℤ limit
    → Latched
        (run self (calculated pnl at ∷ after))
        (latch_or self.latch (record { pnl = pnl; triggered_at = at }))
unfolding run round
run-loss_first self after pnl at h =
    run-Latched (apply self pnl at) after (apply-Latched self pnl at (inl h))

-- Once some round has calculated a P&L at or below minus fifty dollars, then after any further
-- rounds there is a latch, every permission is off and holds it, and every check of a new buy is
-- refused.
pub run-loss :
    (self : Guard) (before after : List Round) (pnl : ℤ) (at now : ℕ)
    → pnl ≤ℤ limit
    → let g = run self (before ++ calculated pnl at ∷ after) in
      ((l : LatchBody) × Latched g l) × (check g now ≡ some latched)
run-loss self before after pnl at now h =
    let l = run-loss_first (run self before) after pnl at h in
    rw (run-append self before (calculated pnl at ∷ after))
      ((_, l), check_latched (run (run self before) (calculated pnl at ∷ after)) now l)

-- A buy passes the check only with no latch, after a last round that did not raise, and at most
-- fifteen and a half minutes after its calculation.
pub check_passes :
    (self : Guard) (now : ℕ)
    → check self now ≡ none
    → (self.latch ≡ none)
      × (self.failed ≡ false)
      × ((t : ℕ) × (self.updated_at ≡ some t) × (t ≤ now) × (now ≤ t + max_age))
unfolding check
check_passes self now h = elim (Option-cases self.updated_at) [
  | inl e ↦ absurd (ground arith)
  | inr (t, e) ↦ (ground arith, ground arith, (t, e, ground arith, ground arith))
]
