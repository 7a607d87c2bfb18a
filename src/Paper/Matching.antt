-- ===== src/Paper/Matching.antt =====
-- The loop of `_aggressive` over the asks: what it does at each of them.
use project.Common.{
  ℕ, ◌≤◌, ◌<◌, ◌≡◌, refl, inl, inr, true, false, not, if◌then◌else◌, ltb, ◌≢◌, ap, sym, ◌∙◌, ◌==◌,
  some, List, ◌∷◌, arith, Bool-cases,
}
use project.Strategy.{Strategy}
use project.Market.{Band, valid_tick}
use project.Paper.{
  PaperOrder, Desk, Result, ok, raised, interrupted, ◌>>=◌, cancel, Filled, is_active, fill_at,
}
use project.Paper.Aggressive.{Offer, Matched, return_after, match_offers}
use project.Paper.Accounts.{Booked, Buys, Ignores, FillEnd, fill_order-end}

-- An order at work in the loop.
pub record Working (o : PaperOrder) (limit now : ℕ) (d : Desk) : Type 0 where
  pub is_order : d.order ≡ some o
  pub is_active : o.active ≡ true
  pub is_eligible : o.eligible ≤ now
  pub is_limit : o.limit ≡ limit
  pub booked : Booked o d.position
  pub unblocked : d.quarantined ≡ false
  pub running : d.paused ≡ false

-- One ask within the limit, on the grid and not empty.
pub data Round (c : Strategy) (go_on : Desk → Result Matched) (f : Filled) (r : Matched)
    : Type 0 where
  stopped :
      f.refused ≡ true
      → c.full_position_execution ≡ false
      → r ≡ record { desk = f.desk; returned = true }
      → Round c go_on f r
  filled :
      f.refused ≡ false
      → is_active f.desk.order ≡ false
      → r ≡ record { desk = f.desk; returned = false }
      → Round c go_on f r
  continued :
      f.refused ≡ false → is_active f.desk.order ≡ true → go_on f.desk ≡ ok r → Round c go_on f r

pub bind-ok :
    {A B : Type 0} (x : Result A) (f : A → Result B) {b : B}
    → x >>= f ≡ ok b
    → (a : A) × (x ≡ ok a) × (f a ≡ ok b)
bind-ok (ok a) f h = (a, refl, h)
bind-ok raised f h = absurd (ground arith)
bind-ok interrupted f h = absurd (ground arith)

after_fill :
    (c : Strategy) (go_on : Desk → Result Matched) (f : Filled) {r : Matched}
    → (if f.refused
        then (if c.full_position_execution
            then interrupted
            else ok (record { desk = f.desk; returned = true }))
        else if not (is_active f.desk.order)
        then ok (record { desk = f.desk; returned = false })
        else go_on f.desk)
      ≡ ok r
    → Round c go_on f r
after_fill c go_on f {r} h = elim (Bool-cases f.refused) [
  | inl e ↦ elim (Bool-cases c.full_position_execution) [
    | inl full ↦ absurd (ground arith)
    | inr full ↦ stopped e full (ground arith)
  ]
  | inr e ↦ elim (Bool-cases (is_active f.desk.order)) [
    | inl on ↦ continued e on (ground arith)
    | inr off ↦ filled e off (ground arith)
  ]
]

-- What the loop does at an ask, by its guards.
pub data Ask (c : Strategy) (bands : List Band) (limit now : ℕ) (a : Offer) (rest : List Offer)
    (d : Desk) (r : Matched) : Type 0 where
  beyond :
      limit < a.price → r ≡ record { desk = d; returned = false } → Ask c bands limit now a rest d r
  off_grid :
      a.price ≤ limit
      → valid_tick bands a.price ≡ false
      → return_after (cancel now d) ≡ ok r
      → Ask c bands limit now a rest d r
  vacant :
      a.price ≤ limit
      → a.quantity ≡ 0
      → match_offers c bands limit now rest d ≡ ok r
      → Ask c bands limit now a rest d r
  turned :
      (f : Filled)
      → a.price ≤ limit
      → a.quantity ≢ 0
      → fill_at c d.order a.quantity a.price c.taker_fee_rate now d ≡ ok f
      → Round c (λ d'. match_offers c bands limit now rest d') f r
      → Ask c bands limit now a rest d r

pub match_offers-Ask :
    (c : Strategy) (bands : List Band) (limit now : ℕ) (a : Offer) (rest : List Offer) (d : Desk)
    {r : Matched}
    → match_offers c bands limit now (a ∷ rest) d ≡ ok r
    → Ask c bands limit now a rest d r
unfolding match_offers
match_offers-Ask c bands limit now a rest d h = elim (Bool-cases (ltb limit a.price)) [
  | inl over ↦ beyond (ground arith) (ground arith)
  | inr within ↦ elim (Bool-cases (valid_tick bands a.price)) [
    | inr bad ↦ off_grid (ground arith) bad (ground arith)
    | inl good ↦ elim (Bool-cases (a.quantity == 0)) [
      | inl none_left ↦ vacant (ground arith) (ground arith) (ground arith)
      | inr some_left ↦
          let (f, e, k) =
            bind-ok (fill_at c d.order a.quantity a.price c.taker_fee_rate now d)
              (λ f.
                if f.refused
                then (if c.full_position_execution
                    then interrupted
                    else ok (record { desk = f.desk; returned = true }))
                else if not (is_active f.desk.order)
                then ok (record { desk = f.desk; returned = false })
                else match_offers c bands limit now rest f.desk)
              (ground arith) in
          turned f (ground arith) (ground arith) e
            (after_fill c (λ d'. match_offers c bands limit now rest d') f k)
    ]
  ]
]

-- A fill of an order at work.
pub fill_at-end :
    (c : Strategy) (o : PaperOrder) (limit quantity price rate now : ℕ) (d : Desk) {f : Filled}
    → Working o limit now d
    → fill_at c d.order quantity price rate now d ≡ ok f
    → FillEnd o quantity now d f
fill_at-end c o limit quantity price rate now d w h =
    fill_order-end c o quantity price rate now d w.booked
      (ap (λ x. fill_at c x quantity price rate now d) (sym w.is_order) ∙ h)

-- A purchase leaves the order at work, while anything remains.
pub Buys-Working :
    (o : PaperOrder) (q limit now : ℕ) (d d' : Desk) (b : Buys o q d d')
    → Working o limit now d
    → is_active d'.order ≡ true
    → Working b.order limit now d'
Buys-Working o q limit now d d' b w on = record {
  is_order = b.is_order;
  is_active = ground arith;
  is_eligible = ground arith;
  is_limit = ground arith;
  booked = simp b.is_position b.booked;
  unblocked = ground arith;
  running = ground arith;
}

pub same-Working :
    (o : PaperOrder) (limit now : ℕ) (d d' : Desk)
    → d' ≡ d
    → Working o limit now d
    → Working o limit now d'
same-Working o limit now d d' e w = record {
  is_order = ground arith;
  is_active = ground arith;
  is_eligible = ground arith;
  is_limit = ground arith;
  booked = simp e w.booked;
  unblocked = ground arith;
  running = ground arith;
}

pub ignored_done :
    (o : PaperOrder) (quantity limit now : ℕ) (d : Desk)
    → Working o limit now d
    → Ignores o quantity now d
    → o.remaining ≡ 0
ignored_done o quantity limit now d w why = ground arith
