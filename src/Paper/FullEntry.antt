-- ===== src/Paper/FullEntry.antt =====
-- `_aggressive` of an order that must be filled in full: it is, or keeps what remained.
use project.Common.{
  ℕ, ◌+◌, ◌≤◌, ◌<◌, ◌≡◌, refl, inl, inr, true, false, ◌≢◌, ap, some, List, [], ◌∷◌, min, arith, All,
  Bool-cases,
}
use project.Strategy.{Strategy}
use project.Market.{Band, Market}
use project.Paper.{PaperOrder, Desk, Result, ok, cancel, Filled}
use project.Paper.Aggressive.{
  Offer, Matched, match_offers, has_bad_tick, available, Quotes, cancel_remainder, aggressive,
}
use project.Paper.Accounts.{
  Booked, cancelled, cancel_active-Cancels, FillEnd, bought, refused_at_once, refused_cancelled,
  ignored,
}
use project.Paper.Ways.{waited, given_up, matched, aggressive-Way}
use project.Paper.Matching.{
  Working, Round, stopped, filled, continued, beyond, off_grid, vacant, turned, match_offers-Ask,
  fill_at-end, Buys-Working, same-Working, ignored_done,
}

-- The asks from the best price up.
abbrev pub Ascending : List Offer → Type 0
Ascending [] = Unit
Ascending (a ∷ rest) = All (λ b. a.price ≤ b.price) rest × Ascending rest

available-above :
    (bands : List Band) (limit price : ℕ) (offers : List Offer)
    → limit < price
    → All (λ b. price ≤ b.price) offers
    → available bands limit offers ≡ 0
unfolding available
available-above bands limit price [] above h = refl
available-above bands limit price (a ∷ rest) above (h, hs) =
    let e = available-above bands limit price rest above hs in ground arith

-- Nothing remains of the order at the desk.
abbrev pub FilledUp : Desk → Type 0
FilledUp d = (o : PaperOrder) × (d.order ≡ some o) × (o.remaining ≡ 0)

-- A round of an order that must be filled in full, given what the rest of the loop does.
full_round :
    (c : Strategy) (go_on : Desk → Result Matched) (quantity rest limit now : ℕ) (o : PaperOrder)
    (d : Desk) (f : Filled) {r : Matched}
    → c.full_position_execution ≡ true
    → quantity ≢ 0
    → o.remaining ≤ quantity + rest
    → ((o' : PaperOrder) (d' : Desk)
        → Working o' limit now d'
        → o'.remaining ≤ rest
        → go_on d' ≡ ok r
        → (r.returned ≡ false) × FilledUp r.desk)
    → Working o limit now d
    → Round c go_on f r
    → FillEnd o quantity now d f
    → (r.returned ≡ false) × FilledUp r.desk
full_round c go_on quantity rest limit now o d f full some_left enough next w turn (bought b ok_) =
    elim turn [
      | stopped s part x ↦ absurd (ground arith)
      | filled s off e ↦ (ground arith, (b.order, ground arith, ground arith))
      | continued s on k ↦
          next b.order f.desk (Buys-Working o (min quantity o.remaining) limit now d f.desk b w on)
            (ground arith) k
    ]
full_round c go_on quantity rest limit now o d f full some_left enough next w turn
      (refused_at_once e s) =
    elim turn [
      | stopped y part x ↦ absurd (ground arith)
      | filled y off k ↦ absurd (ground arith)
      | continued y on k ↦ absurd (ground arith)
    ]
full_round c go_on quantity rest limit now o d f full some_left enough next w turn
      (refused_cancelled e s) =
    elim turn [
      | stopped y part x ↦ absurd (ground arith)
      | filled y off k ↦ absurd (ground arith)
      | continued y on k ↦ absurd (ground arith)
    ]
full_round c go_on quantity rest limit now o d f full some_left enough next w turn (ignored e why) =
    let idle = ignored_done o quantity limit now d w why in
    elim turn [
      | stopped s part x ↦ absurd (ground arith)
      | filled s off k ↦ absurd (ground arith)
      | continued s on k ↦
          next o f.desk (same-Working o limit now d f.desk (ap (λ x. x.desk) e) w) (omega arith) k
    ]

-- The loop of an order that must be filled in full, over a book that offers enough: when it ends
-- without raising, nothing remains.
match_offers-full :
    (c : Strategy) (bands : List Band) (limit now : ℕ) (offers : List Offer) (o : PaperOrder)
    (d : Desk) {r : Matched}
    → c.full_position_execution ≡ true
    → Ascending offers
    → has_bad_tick bands limit offers ≡ false
    → o.remaining ≤ available bands limit offers
    → Working o limit now d
    → match_offers c bands limit now offers d ≡ ok r
    → (r.returned ≡ false) × FilledUp r.desk
unfolding match_offers has_bad_tick available
match_offers-full c bands limit now [] o d full up clean enough w h =
    (ground arith, (o, ground arith, omega arith))
match_offers-full c bands limit now (a ∷ rest) o d full (above, up) clean enough w h =
    elim (match_offers-Ask c bands limit now a rest d h) [
      | beyond over e ↦
          let nothing = available-above bands limit a.price (a ∷ rest) over (omega arith, above) in
          (ground arith, (o, ground arith, ground arith))
      | off_grid within bad e ↦ absurd (ground arith)
      | vacant within none_left e ↦
          match_offers-full c bands limit now rest o d full up (ground arith) (ground arith) w e
      | turned f within some_left e turn ↦
          full_round c (λ d'. match_offers c bands limit now rest d') a.quantity
            (available bands limit rest) limit now o d f full some_left (ground arith)
            (λ o' d' w' enough' k.
              match_offers-full c bands limit now rest o' d' full up (ground arith) enough' w' k)
            w turn (fill_at-end c o limit a.quantity a.price c.taker_fee_rate now d w e)
    ]

-- What an order that must be filled in full ends as.
pub data FullOrKept (o : PaperOrder) (d d' : Desk) : Type 0 where
  full : FilledUp d' → FullOrKept o d d'
  kept :
      (o' : PaperOrder)
      → d'.order ≡ some o'
      → o'.remaining ≡ o.remaining
      → d'.position ≡ d.position
      → FullOrKept o d d'

cancel-kept :
    (o : PaperOrder) (now : ℕ) (d : Desk) {d' : Desk}
    → d.order ≡ some o
    → cancel now d ≡ ok d'
    → FullOrKept o d d'
unfolding cancel
cancel-kept o now d {d'} e h = elim (Bool-cases o.active) [
  | inl on ↦
      let k = cancel_active-Cancels o now d {d' = d'} (ground arith) in
      kept (cancelled now o) k.order_off refl k.position_kept
  | inr off ↦ kept o (ground arith) refl (ground arith)
]

remainder-full :
    (now : ℕ) (r : Matched) {d' : Desk}
    → (r.returned ≡ false) × FilledUp r.desk
    → cancel_remainder now r ≡ ok d'
    → FilledUp d'
unfolding cancel
remainder-full now r {d'} (e, (o, is_order, nothing)) h = elim (Bool-cases o.active) [
  | inl on ↦
      let k = cancel_active-Cancels o now r.desk {d' = d'} (ground arith) in
      (cancelled now o, k.order_off, nothing)
  | inr off ↦ (o, ground arith, nothing)
]

-- With full_position_execution, the asks ascending and the desk's order booked, when `aggressive`
-- returns, either nothing remains of the order, or as much remains as before and the position
-- is the one before.
pub aggressive-full :
    (c : Strategy) (m : Market) (b : Quotes) (o : PaperOrder) (now : ℕ) (d d' : Desk)
    → c.full_position_execution ≡ true
    → Ascending b.asks
    → d.order ≡ some o
    → Booked o d.position
    → aggressive c m b now d ≡ ok d'
    → FullOrKept o d d'
aggressive-full c m b o now d d' full_ up is_order booked h =
    elim (aggressive-Way c m b o now d d' is_order h) [
      | waited e ↦ kept o (ground arith) refl (ground arith)
      | given_up e ↦ cancel-kept o now d is_order e
      | matched r w check e k ↦
          let (clean, enough) = check full_ in
          full (
            remainder-full now r
              (match_offers-full c m.price_ranges o.limit now b.asks o d full_ up clean enough
                (w booked) e)
              k)
    ]
