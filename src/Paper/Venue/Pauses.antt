-- ===== src/Paper/Venue/Pauses.antt =====
-- Histories of pauses, and what a revalidation leaves.
use project.Common.{
  ℕ, ◌+◌, ◌*◌, ◌<◌, ◌≡◌, refl, sym, Bool, true, false, ◌&&◌, taken_branch, not_taken, Option, none,
  some, List, [], ◌∷◌, arith, Bool-cases, inl, inr,
}
use project.Strategy.{Strategy, entry_cutoff}
use project.Market.{Market, tradable}
use project.Paper.{
  PaperOrder, Desk, Result, ok, ◌>>=◌, cancel, cancel_active, cancel_order, enter, is_active,
}
use project.Paper.Venue

-- A message of the venue, or an observation that asks to resume.
pub data Notice : Type 0 where
  pauses : ℕ → ℕ → Venue.PauseEvent → Notice
  resumes : Market → ℕ → Venue.Observation → Notice

abbrev pub take : Notice → Venue.Venue → Result Venue.Venue
take (pauses hash now event) v = Venue.pause_market hash now event v
take (resumes m now o) v = ok (Venue.resume_market m now o v).venue

unfoldable pub run : List Notice → Venue.Venue → Result Venue.Venue
run [] v = ok v
run (n ∷ ns) v = take n v >>= run ns

abbrev pub is_ended : Option Venue.Pause → Bool
is_ended none = false
is_ended (some p) = Venue.is_terminal p.event

-- A pause whose event is terminal, at a desk that shows it.
abbrev pub Ended : Venue.Venue → Type 0
Ended v = (is_ended v.pause ≡ true) × (v.desk.paused ≡ true)

keeps-terminal :
    (p : Option Venue.Pause) (now : ℕ) → is_ended p ≡ true → Venue.keeps_pause p now ≡ true
keeps-terminal none now h = absurd (ground arith)
keeps-terminal (some p) now h = ground arith

terminal-not_resumable :
    (e : Venue.PauseEvent) → Venue.is_terminal e ≡ true → Venue.is_resumable e ≡ false
terminal-not_resumable e h = ground arith

resume_from-kept :
    (m : Market) (now : ℕ) (o : Venue.Observation) (p : Option Venue.Pause) (v : Venue.Venue)
    → is_ended p ≡ true
    → (Venue.resume_from m now o p v).venue ≡ v
unfolding Venue.may_resume
resume_from-kept m now o none v h = refl
resume_from-kept m now o (some p) v h = simp (terminal-not_resumable p.event h) refl

take-kept : (n : Notice) (v : Venue.Venue) → Ended v → take n v ≡ ok v
unfolding Venue.pause_market Venue.resume_market
take-kept (pauses hash now event) v (ended, shown) = simp (keeps-terminal v.pause now ended) refl
take-kept (resumes m now o) v (ended, shown) = simp (resume_from-kept m now o v.pause v ended) refl

-- Once a market is paused for a terminal event (closed, determined, disputed, amended or
-- finalized), no sequence of notices and observations changes anything at it any more.
pub run-kept : (ns : List Notice) (v : Venue.Venue) → Ended v → run ns v ≡ ok v
unfolding run
run-kept [] v h = refl
run-kept (n ∷ ns) v h = simp (take-kept n v h) (run-kept ns v h)

cancel_order-inactive :
    (o : Option PaperOrder) (now : ℕ) (d : Desk) {d' : Desk}
    → d.order ≡ o
    → cancel_order o now d ≡ ok d'
    → is_active d'.order ≡ false
unfolding cancel_active enter
cancel_order-inactive none now d e h = ground arith
cancel_order-inactive (some o) now d e h = ground arith

cancel-inactive :
    (now : ℕ) (d : Desk) {d' : Desk} → cancel now d ≡ ok d' → is_active d'.order ≡ false
unfolding cancel
cancel-inactive now d h = cancel_order-inactive d.order now d refl h

-- An order that is still active after `revalidate` was neither timed out nor at the cutoff, its
-- market is tradable and not paused, the caller is healthy, and the desk is as it was.
pub revalidate-active :
    (c : Strategy) (m : Market) (r : Venue.Recheck) (now : ℕ) (d : Desk) (o : PaperOrder)
    {d' : Desk}
    → d.order ≡ some o
    → Venue.revalidate c m r now d ≡ ok d'
    → is_active d'.order ≡ true
    → (d' ≡ d)
      × (now < o.created + c.max_wait)
      × (now + entry_cutoff c * 1000 < m.close_time)
      × (tradable m now ≡ true)
      × (d.paused ≡ false)
      × (r.healthy ≡ true)
unfolding Venue.revalidate Venue.is_invalid
revalidate-active c m r now d o {d'} e h active =
    elim (Bool-cases (o.active && Venue.is_invalid c m r o d now)) [
      | inl cancels ↦
          let off = cancel-inactive now d (taken_branch _ _ _ cancels (simp e at h)) in
          absurd (ground arith)
      | inr keeps ↦
          let kept = not_taken _ _ _ keeps (simp e at h) in
          let same : d ≡ d' = ground arith in
          let works : o.active ≡ true = simp (sym same, e) at active in
          (sym same, ground arith, ground arith, ground arith, ground arith, ground arith)
    ]
