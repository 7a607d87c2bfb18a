-- ===== src/Paper/Ways.antt =====
-- The ways through `aggressive`.
use project.Common.{
  ℕ, ◌≤◌, ◌≡◌, refl, inl, inr, true, false, ◌&&◌, ◌||◌, not, ltb, ap, sym, ◌∙◌, some, arith,
  Bool-cases,
}
use project.Strategy.{Strategy}
use project.Market.{Market}
use project.Paper.{PaperOrder, Desk, Result, ok, raised, interrupted, cancel}
use project.Paper.Aggressive.{
  Matched, match_offers, has_bad_tick, available, Quotes, may_execute, cancel_remainder, execute,
  aggressive_order, rolled_back, aggressive_from, aggressive,
}
use project.Paper.Accounts.{Booked}
use project.Paper.Matching.{Working, bind-ok}

-- How `aggressive` of the desk's order has returned: it waited, it cancelled, or it matched the
-- asks, after the full-size check where that applies.
pub data Way (c : Strategy) (m : Market) (b : Quotes) (o : PaperOrder) (now : ℕ) (d d' : Desk)
    : Type 0 where
  waited : d' ≡ d → Way c m b o now d d'
  given_up : cancel now d ≡ ok d' → Way c m b o now d d'
  matched :
      (r : Matched)
      → (Booked o d.position → Working o o.limit now d)
      → (c.full_position_execution ≡ true
          → (has_bad_tick m.price_ranges o.limit b.asks ≡ false)
            × (o.remaining ≤ available m.price_ranges o.limit b.asks))
      → match_offers c m.price_ranges o.limit now b.asks d ≡ ok r
      → cancel_remainder now r ≡ ok d'
      → Way c m b o now d d'

execute-Way :
    (c : Strategy) (m : Market) (b : Quotes) (o : PaperOrder) (now : ℕ) (d d' : Desk)
    → (Booked o d.position → Working o o.limit now d)
    → execute c m b o now d ≡ ok d'
    → Way c m b o now d d'
unfolding execute
execute-Way c m b o now d d' w h =
    elim (Bool-cases (c.full_position_execution && has_bad_tick m.price_ranges o.limit b.asks)) [
      | inl bad ↦ given_up (ground arith)
      | inr clean ↦
          elim (Bool-cases (
            c.full_position_execution
            && ltb (available m.price_ranges o.limit b.asks) o.remaining)) [
              | inl short ↦ given_up (ground arith)
              | inr enough ↦
                  let (r, e, k) =
                    bind-ok (match_offers c m.price_ranges o.limit now b.asks d)
                      (cancel_remainder now) {b = d'} (ground arith) in
                  matched r w (λ full. (ground arith, ground arith)) e k
            ]
    ]

aggressive_order-Way :
    (c : Strategy) (m : Market) (b : Quotes) (o : PaperOrder) (now : ℕ) (d d' : Desk)
    → d.order ≡ some o
    → aggressive_order c m b o now d ≡ ok d'
    → Way c m b o now d d'
unfolding aggressive_order may_execute
aggressive_order-Way c m b o now d d' is_order h =
    elim (Bool-cases
      (c.passive || not o.active || ltb now o.eligible || d.paused || d.pending_reference)) [
        | inl waits ↦ waited (ground arith)
        | inr goes ↦ elim (Bool-cases (may_execute c m b now d)) [
          | inr blocked ↦ given_up (ground arith)
          | inl may ↦
              execute-Way c m b o now d d'
                (λ booked. record {
                  is_order = is_order;
                  is_active = ground arith;
                  is_eligible = ground arith;
                  is_limit = refl;
                  booked = booked;
                  unblocked = ground arith;
                  running = ground arith;
                })
                (ground arith)
        ]
      ]

-- A full entry that was interrupted is rolled back and cancelled.
rolled_back-Way :
    (c : Strategy) (m : Market) (b : Quotes) (o : PaperOrder) (now : ℕ) (d d' : Desk)
    (x : Result Desk)
    → (x ≡ ok d' → Way c m b o now d d')
    → rolled_back now d x ≡ ok d'
    → Way c m b o now d d'
rolled_back-Way c m b o now d d' (ok x) done h = done h
rolled_back-Way c m b o now d d' raised done h = absurd (ground arith)
rolled_back-Way c m b o now d d' interrupted done h = given_up h

pub aggressive-Way :
    (c : Strategy) (m : Market) (b : Quotes) (o : PaperOrder) (now : ℕ) (d d' : Desk)
    → d.order ≡ some o
    → aggressive c m b now d ≡ ok d'
    → Way c m b o now d d'
unfolding aggressive
aggressive-Way c m b o now d d' is_order h =
    rolled_back-Way c m b o now d d' (aggressive_order c m b o now d)
      (aggressive_order-Way c m b o now d d' is_order)
      (sym (ap (λ x. aggressive_from c m b x now d) is_order) ∙ h)
