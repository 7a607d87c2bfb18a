-- ===== src/Paper/Returns.antt =====
-- `aggressive` comes back: in the states in which an order is active, no transition is refused
-- and no fill is invalid.
use project.Common.{
  ℕ, ◌-◌, ◌*◌, ◌≤◌, ◌<◌, ◌≡◌, ◌≢◌, ◌⊎◌, refl, inl, inr, Bool, true, false, ◌&&◌, ◌||◌, not,
  if◌then◌else◌, ltb, any, ap, ◌∙◌, ◌==◌, Option, some, List, [], ◌∷◌, min, arith, Bool-cases,
}
use project.Strategy.{Strategy}
use project.Market.{Band, Market, valid_tick}
use project.Fees.{micro, charge, buy}
use project.Lifecycle.{
  MarketState, order_pending, order_partially_filled, order_cancelled, position_open, no_recovery,
  same_state, targets, recovers, transition, transitions,
}
use project.Paper.{
  PaperOrder, Desk, Result, ok, raised, interrupted, ◌>>=◌, enter, cancel, cancel_active, Filled,
  refuse_after, book_fill, Verdict, refuse, refuse_cancelling, invalid, ignore, purchase, verdict,
  carry_out, fill_order, is_active, lot, fill_at,
}
use project.Paper.Aggressive.{
  Offer, Matched, match_offers, has_bad_tick, available, Quotes, may_execute, cancel_remainder,
  execute, aggressive_order, rolled_back, aggressive_from, aggressive,
}

-- The states of a market whose order is active.
abbrev pub AtWork : Option MarketState → Type 0
AtWork s = (s ≡ some order_pending) ⊎ (s ≡ some order_partially_filled)

-- An order at the desk, and the stored state of one that is active.
pub record Ready (o : PaperOrder) (d : Desk) : Type 0 where
  pub is_order : d.order ≡ some o
  pub at_work : o.active ≡ true → AtWork d.state

abbrev has_returned {ℓ} : {A : Type ℓ} → Result A → Bool
has_returned (ok a) = true
has_returned raised = false
has_returned interrupted = false

returned : {A : Type 0} (x : Result A) → has_returned x ≡ true → (a : A) × (x ≡ ok a)
returned (ok a) h = (a, refl)
returned raised h = absurd (ground arith)
returned interrupted h = absurd (ground arith)

pending :
    (target : MarketState)
    → any (λ t. same_state target t) (order_partially_filled ∷ position_open ∷ order_cancelled ∷ [])
      ≡ true
    → transition (some order_pending) target no_recovery ≡ some target
unfolding transition transitions recovers targets
pending target h = ground arith

partial :
    (target : MarketState)
    → any (λ t. same_state target t) (order_partially_filled ∷ position_open ∷ order_cancelled ∷ [])
      ≡ true
    → transition (some order_partially_filled) target no_recovery ≡ some target
unfolding transition transitions recovers targets
partial target h = ground arith

from_work :
    (s : Option MarketState) (target : MarketState)
    → AtWork s
    → any (λ t. same_state target t) (order_partially_filled ∷ position_open ∷ order_cancelled ∷ [])
      ≡ true
    → transition s target no_recovery ≡ some target
unfolding transition transitions recovers targets
from_work s target (inl e) h = ap (λ x. transition x target no_recovery) e ∙ pending target h
from_work s target (inr e) h = ap (λ x. transition x target no_recovery) e ∙ partial target h

after_cancel : transition (some order_cancelled) position_open no_recovery ≡ some position_open
unfolding transition transitions recovers targets
after_cancel = refl

cancel-returns :
    (o : PaperOrder) (now : ℕ) (d : Desk) → Ready o d → has_returned (cancel now d) ≡ true
unfolding cancel cancel_active enter
cancel-returns o now d r = elim (Bool-cases o.active) [
  | inl on ↦
      let e = from_work d.state order_cancelled (r.at_work on) refl in
      let k : transition (some order_cancelled) position_open no_recovery ≡ some position_open =
        after_cancel in
      ground arith
  | inr off ↦ ground arith
]

book_fill-returns :
    (o : PaperOrder) (q price rate now : ℕ) (d : Desk)
    → AtWork d.state
    → has_returned (book_fill o q price rate now d) ≡ true
unfolding book_fill enter
book_fill-returns o q price rate now d s =
    let a = from_work d.state position_open s refl in
    let b = from_work d.state order_partially_filled s refl in ground arith

-- A purchase leaves an active order ready for more.
book_fill-Ready :
    (o : PaperOrder) (q price rate now : ℕ) (d d' : Desk)
    → book_fill o q price rate now d ≡ ok d'
    → (o' : PaperOrder) × Ready o' d' × (o'.limit ≡ o.limit)
unfolding book_fill enter transition transitions
book_fill-Ready o q price rate now d d' h = (
  record o {
    fees = (charge o.fees price (q * lot) rate buy).accumulator;
    remaining = o.remaining - q;
    active = not (o.remaining - q == 0);
  },
  record { is_order = ground arith; at_work = λ on. ground arith },
  refl,
)

-- An order of this limit, ready.
abbrev pub ReadyFor : ℕ → Desk → Type 0
ReadyFor limit d = (o : PaperOrder) × Ready o d × (o.limit ≡ limit)

abbrev Fills : ℕ → Result Filled → Type 0
Fills limit x = (f : Filled) × (x ≡ ok f) × (f.refused ≡ false → ReadyFor limit f.desk)

verdict-valid :
    (c : Strategy) (o : PaperOrder) (quantity price now : ℕ) (d : Desk)
    → (0 < price) × (price < micro) × (price ≤ o.limit) × (quantity ≢ 0)
    → (verdict c o quantity price now d ≢ invalid)
      × (verdict c o quantity price now d ≡ purchase → o.active ≡ true)
unfolding verdict
verdict-valid c o quantity price now d h = (λ e. ground arith, λ e. ground arith)

carry_out-returns :
    (v : Verdict) (o : PaperOrder) (quantity price rate now : ℕ) (d : Desk)
    → v ≢ invalid
    → (v ≡ purchase → o.active ≡ true)
    → Ready o d
    → Fills o.limit (carry_out v o quantity price rate now d)
carry_out-returns refuse o quantity price rate now d ok_ on r =
    (record { desk = d; refused = true }, refl, λ e. absurd (ground arith))
carry_out-returns refuse_cancelling o quantity price rate now d ok_ on r =
    let (d', e) = returned (cancel now d) (cancel-returns o now d r) in
    (record { desk = d'; refused = true }, ap refuse_after e, λ e. absurd (ground arith))
carry_out-returns invalid o quantity price rate now d ok_ on r = absurd (ok_ refl)
carry_out-returns ignore o quantity price rate now d ok_ on r =
    (record { desk = d; refused = false }, refl, λ e. (o, r, refl))
carry_out-returns purchase o quantity price rate now d ok_ on r =
    let q = min quantity o.remaining in
    let (d', e) =
      returned (book_fill o q price rate now d)
        (book_fill-returns o q price rate now d (r.at_work (on refl))) in
    (
      record { desk = d'; refused = false },
      ap (λ x. x >>= λ y. ok (record { desk = y; refused = false })) e,
      λ _. book_fill-Ready o q price rate now d d' e,
    )

fill_at-returns :
    (c : Strategy) (o : PaperOrder) (quantity price rate now : ℕ) (d : Desk)
    → (0 < price) × (price < micro) × (price ≤ o.limit) × (quantity ≢ 0)
    → Ready o d
    → Fills o.limit (fill_at c d.order quantity price rate now d)
unfolding fill_order
fill_at-returns c o quantity price rate now d h r =
    let (valid, on) = verdict-valid c o quantity price now d h in
    let (f, e, k) =
      carry_out-returns (verdict c o quantity price now d) o quantity price rate now d valid on r in
    (f, ap (λ x. fill_at c x quantity price rate now d) r.is_order ∙ e, k)

-- What the loop gives: not an error.
pub data LoopEnd (limit : ℕ) (x : Result Matched) : Type 0 where
  ends : (r : Matched) → x ≡ ok r → (r.returned ≡ false → ReadyFor limit r.desk) → LoopEnd limit x
  rolls_back : x ≡ interrupted → LoopEnd limit x

after_fill-LoopEnd :
    (c : Strategy) (limit : ℕ) (go_on : Desk → Result Matched) (f : Filled)
    → (f.refused ≡ false → ReadyFor limit f.desk)
    → (ReadyFor limit f.desk → LoopEnd limit (go_on f.desk))
    → LoopEnd limit (
        if f.refused
        then (if c.full_position_execution
            then interrupted
            else ok (record { desk = f.desk; returned = true }))
        else if not (is_active f.desk.order)
        then ok (record { desk = f.desk; returned = false })
        else go_on f.desk)
after_fill-LoopEnd c limit go_on f r next = elim (Bool-cases f.refused) [
  | inl e ↦ elim (Bool-cases c.full_position_execution) [
    | inl full ↦ rolls_back (ground arith)
    | inr full ↦
        ends (record { desk = f.desk; returned = true }) (ground arith) (λ k. absurd (ground arith))
  ]
  | inr e ↦ elim (Bool-cases (is_active f.desk.order)) [
    | inl on ↦ simp (e, on) (next (r e))
    | inr off ↦ ends (record { desk = f.desk; returned = false }) (ground arith) (λ k. r e)
  ]
]

valid_tick-price :
    (bands : List Band) (price : ℕ) → valid_tick bands price ≡ true → (0 < price) × (price < micro)
unfolding valid_tick
valid_tick-price bands price h = ground arith

relimit : {limit limit' : ℕ} {d : Desk} → limit ≡ limit' → ReadyFor limit d → ReadyFor limit' d
relimit e (o, r, same) = (o, r, same ∙ e)

match_offers-LoopEnd :
    (c : Strategy) (bands : List Band) (limit now : ℕ) (offers : List Offer) (d : Desk)
    → ReadyFor limit d
    → LoopEnd limit (match_offers c bands limit now offers d)
unfolding match_offers
match_offers-LoopEnd c bands limit now [] d r =
    ends (record { desk = d; returned = false }) refl (λ e. r)
match_offers-LoopEnd c bands limit now (a ∷ rest) d (o, r, same) =
    elim (Bool-cases (ltb limit a.price)) [
      | inl over ↦ simp over (ends (record { desk = d; returned = false }) refl (λ e. (o, r, same)))
      | inr within ↦ elim (Bool-cases (valid_tick bands a.price)) [
        | inr bad ↦
            let (d', e) = returned (cancel now d) (cancel-returns o now d r) in
            ends (record { desk = d'; returned = true }) (simp (within, bad, e))
              (λ k. absurd (ground arith))
        | inl good ↦ elim (Bool-cases (a.quantity == 0)) [
          | inl empty ↦
              simp (within, good, empty)
                (match_offers-LoopEnd c bands limit now rest d (o, r, same))
          | inr full ↦
              let (f, e, k) =
                fill_at-returns c o a.quantity a.price c.taker_fee_rate now d
                  (let (low, high) = valid_tick-price bands a.price good in
                    (low, high, ground arith, ground arith))
                  r in
              simp (within, good, full, e)
                (after_fill-LoopEnd c limit (λ d'. match_offers c bands limit now rest d') f
                  (λ x. relimit same (k x)) (match_offers-LoopEnd c bands limit now rest f.desk))
        ]
      ]
    ]

remainder-returns :
    (limit now : ℕ) (r : Matched)
    → (r.returned ≡ false → ReadyFor limit r.desk)
    → has_returned (cancel_remainder now r) ≡ true
remainder-returns limit now r k = elim (Bool-cases (r.returned || not (is_active r.desk.order))) [
  | inl stays ↦ ground arith
  | inr goes ↦
      let (o, ready, same) = k (ground arith) in
      let e = cancel-returns o now r.desk ready in ground arith
]

execute-returns :
    (c : Strategy) (m : Market) (b : Quotes) (o : PaperOrder) (now : ℕ) (d : Desk)
    → Ready o d
    → has_returned (rolled_back now d (execute c m b o now d)) ≡ true
unfolding execute
execute-returns c m b o now d r =
    let stops = returned (cancel now d) (cancel-returns o now d r) in
    elim (Bool-cases (
      c.full_position_execution && has_bad_tick m.price_ranges o.limit b.asks
      || c.full_position_execution && ltb (available m.price_ranges o.limit b.asks) o.remaining)) [
        | inl bad ↦ ground arith
        | inr good ↦
            elim (match_offers-LoopEnd c m.price_ranges o.limit now b.asks d (o, r, refl)) [
              | ends x e k ↦
                  let (d', e') =
                    returned (cancel_remainder now x) (remainder-returns o.limit now x k) in
                  ground arith
              | rolls_back e ↦ ground arith
            ]
      ]

aggressive_order-returns :
    (c : Strategy) (m : Market) (b : Quotes) (o : PaperOrder) (now : ℕ) (d : Desk)
    → Ready o d
    → has_returned (rolled_back now d (aggressive_order c m b o now d)) ≡ true
unfolding aggressive_order
aggressive_order-returns c m b o now d r =
    let stops = returned (cancel now d) (cancel-returns o now d r) in
    let goes = execute-returns c m b o now d r in
    elim (Bool-cases
      (c.passive || not o.active || ltb now o.eligible || d.paused || d.pending_reference)) [
        | inl waits ↦ ground arith
        | inr on ↦ elim (Bool-cases (may_execute c m b now d)) [
          | inl may ↦ simp (on, may) goes
          | inr not_ ↦ ground arith
        ]
      ]

-- When an active order's market is in order_pending or order_partially_filled, `aggressive`
-- returns a desk: it neither raises nor lets an interruption through.
pub aggressive-returns :
    (c : Strategy) (m : Market) (b : Quotes) (o : PaperOrder) (now : ℕ) (d : Desk)
    → d.order ≡ some o
    → (o.active ≡ true → AtWork d.state)
    → (d' : Desk) × (aggressive c m b now d ≡ ok d')
unfolding aggressive
aggressive-returns c m b o now d is_order s =
    let (d', e) =
      returned (rolled_back now d (aggressive_order c m b o now d))
        (aggressive_order-returns c m b o now d (record { is_order = is_order; at_work = s })) in
    (d', ap (λ x. aggressive_from c m b x now d) is_order ∙ e)
