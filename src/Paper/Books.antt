-- ===== src/Paper/Books.antt =====
-- `_aggressive` of any order: the books of its market stay right.
use project.Common.{
  ℕ, ◌≤◌, ◌≡◌, refl, inl, inr, true, ◌&&◌, not, ap, ◌∙◌, Option, none, some, List, [], ◌∷◌, min,
  arith, Bool-cases,
}
use project.Strategy.{Strategy}
use project.Market.{Band, Market}
use project.Paper.{PaperOrder, Position, Desk, Result, ok, cancel, Filled, is_active}
use project.Paper.Aggressive.{Offer, Matched, match_offers, Quotes, cancel_remainder, aggressive}
use project.Paper.Accounts.{
  Booked, cancelled, cancel_active-Cancels, Buys, FillEnd, bought, refused_at_once,
  refused_cancelled, ignored,
}
use project.Paper.Ways.{waited, given_up, matched, aggressive-Way}
use project.Paper.Matching.{
  Working, Round, stopped, filled, continued, bind-ok, beyond, off_grid, vacant, turned,
  match_offers-Ask, fill_at-end, Buys-Working, same-Working,
}

-- The order of this limit and quantity is at the desk, at most `most` of it remains, and its
-- books are right.
pub record Held (limit quantity most : ℕ) (d : Desk) : Type 0 where
  pub order : PaperOrder
  pub is_order : d.order ≡ some order
  pub same_limit : order.limit ≡ limit
  pub same_quantity : order.quantity ≡ quantity
  pub no_more : order.remaining ≤ most
  pub booked : Booked order d.position

pub start-Held :
    (o : PaperOrder) (d : Desk)
    → d.order ≡ some o
    → Booked o d.position
    → Held o.limit o.quantity o.remaining d
start-Held o d e b = record {
  order = o;
  is_order = e;
  same_limit = refl;
  same_quantity = refl;
  no_more = omega arith;
  booked = b;
}

Working-Held :
    (o : PaperOrder) (limit now : ℕ) (d : Desk)
    → Working o limit now d
    → Held o.limit o.quantity o.remaining d
Working-Held o limit now d w = start-Held o d w.is_order w.booked

cancelled-Booked :
    (o : PaperOrder) (now : ℕ) (p : Option Position) → Booked o p → Booked (cancelled now o) p
cancelled-Booked o now none b = λ e. absurd (ground arith)
cancelled-Booked o now (some p) b = b

cancel-Held :
    (limit quantity most now : ℕ) (d d' : Desk)
    → Held limit quantity most d
    → cancel now d ≡ ok d'
    → Held limit quantity most d'
unfolding cancel
cancel-Held limit quantity most now d d' w h = elim (Bool-cases w.order.active) [
  | inl on ↦
      let at = w.is_order in
      let k = cancel_active-Cancels w.order now d {d' = d'} (ground arith) in
      record {
        order = cancelled now w.order;
        is_order = k.order_off;
        same_limit = w.same_limit;
        same_quantity = w.same_quantity;
        no_more = w.no_more;
        booked = simp k.position_kept (cancelled-Booked w.order now d.position w.booked);
      }
  | inr off ↦ let at = w.is_order in let same : d' ≡ d = ground arith in simp same w
]

-- A purchase of an order at work.
Buys-Held :
    (o : PaperOrder) (q limit now : ℕ) (d d' : Desk)
    → Buys o q d d'
    → Held o.limit o.quantity o.remaining d'
Buys-Held o q limit now d d' b = record {
  order = b.order;
  is_order = b.is_order;
  same_limit = b.same_limit;
  same_quantity = b.same_quantity;
  no_more = ground arith;
  booked = simp b.is_position b.booked;
}

Held-trans :
    {limit quantity most : ℕ} (o : PaperOrder) (d : Desk)
    → o.limit ≡ limit
    → o.quantity ≡ quantity
    → o.remaining ≤ most
    → Held o.limit o.quantity o.remaining d
    → Held limit quantity most d
Held-trans o d l q m w = record {
  order = w.order;
  is_order = w.is_order;
  same_limit = w.same_limit ∙ l;
  same_quantity = w.same_quantity ∙ q;
  no_more = ground arith;
  booked = w.booked;
}

pub end-Held :
    (o : PaperOrder) (quantity now : ℕ) (d : Desk) (f : Filled)
    → d.order ≡ some o
    → Booked o d.position
    → FillEnd o quantity now d f
    → Held o.limit o.quantity o.remaining f.desk
end-Held o quantity now d f at b (bought bs e) =
    Buys-Held o (min quantity o.remaining) now now d f.desk bs
end-Held o quantity now d f at b (refused_at_once e t) = simp e (start-Held o d at b)
end-Held o quantity now d f at b (refused_cancelled e t) =
    cancel-Held o.limit o.quantity o.remaining now d f.desk (start-Held o d at b) e
end-Held o quantity now d f at b (ignored e why) =
    let same = ap (λ x. x.desk) e in simp same (start-Held o d at b)

-- One round, given what the rest of the loop does.
round-Held :
    (c : Strategy) (go_on : Desk → Result Matched) (quantity limit now : ℕ) (o : PaperOrder)
    (d : Desk) (f : Filled) {r : Matched}
    → ((o' : PaperOrder) (d' : Desk)
        → Working o' limit now d'
        → go_on d' ≡ ok r
        → Held o'.limit o'.quantity o'.remaining r.desk)
    → Working o limit now d
    → Round c go_on f r
    → FillEnd o quantity now d f
    → Held o.limit o.quantity o.remaining r.desk
round-Held c go_on quantity limit now o d f {r} next w (continued s on k) (bought b ok_) =
    Held-trans b.order r.desk b.same_limit b.same_quantity (ground arith)
      (next b.order f.desk (Buys-Working o (min quantity o.remaining) limit now d f.desk b w on) k)
round-Held c go_on quantity limit now o d f {r} next w (continued s on k) (ignored e why) =
    next o f.desk (same-Working o limit now d f.desk (ap (λ x. x.desk) e) w) k
round-Held c go_on quantity limit now o d f {r} next w (continued s on k) (refused_at_once e t) =
    absurd (ground arith)
round-Held c go_on quantity limit now o d f {r} next w (continued s on k) (refused_cancelled e t) =
    absurd (ground arith)
round-Held c go_on quantity limit now o d f {r} next w (stopped s part e) end =
    simp e (end-Held o quantity now d f w.is_order w.booked end)
round-Held c go_on quantity limit now o d f {r} next w (filled s off e) end =
    simp e (end-Held o quantity now d f w.is_order w.booked end)

-- The loop, of an order at work.
match_offers-Held :
    (c : Strategy) (bands : List Band) (limit now : ℕ) (offers : List Offer) (o : PaperOrder)
    (d : Desk) {r : Matched}
    → Working o limit now d
    → match_offers c bands limit now offers d ≡ ok r
    → Held o.limit o.quantity o.remaining r.desk
unfolding match_offers
match_offers-Held c bands limit now [] o d {r} w h =
    let e : r.desk ≡ d = ground arith in simp e (Working-Held o limit now d w)
match_offers-Held c bands limit now (a ∷ rest) o d {r} w h =
    elim (match_offers-Ask c bands limit now a rest d h) [
      | beyond over e ↦ simp e (Working-Held o limit now d w)
      | off_grid within bad e ↦
          let (d', k, l) =
            bind-ok (cancel now d) (λ x. ok (record { desk = x; returned = true })) {b = r} e in
          let same : r.desk ≡ d' = ground arith in
          simp same
            (cancel-Held o.limit o.quantity o.remaining now d d' (Working-Held o limit now d w) k)
      | vacant within none_left e ↦ match_offers-Held c bands limit now rest o d w e
      | turned f within some_left e turn ↦
          round-Held c (λ d'. match_offers c bands limit now rest d') a.quantity limit now o d f
            (λ o' d' w' k. match_offers-Held c bands limit now rest o' d' w' k) w turn
            (fill_at-end c o limit a.quantity a.price c.taker_fee_rate now d w e)
    ]

remainder-Held :
    (limit quantity most now : ℕ) (r : Matched) {d' : Desk}
    → Held limit quantity most r.desk
    → cancel_remainder now r ≡ ok d'
    → Held limit quantity most d'
remainder-Held limit quantity most now r {d'} w h =
    elim (Bool-cases (not r.returned && is_active r.desk.order)) [
      | inl goes ↦ cancel-Held limit quantity most now r.desk d' w (ground arith)
      | inr stays ↦ let same : d' ≡ r.desk = ground arith in simp same w
    ]

-- With the desk's order booked, when `aggressive` returns, the desk has the order of the same
-- limit and quantity, no more of it remains than before, and it is booked: with a position, what was bought
-- and what remains make up the quantity, and what was bought cost at most the limit; with none, an active order has
-- all of its quantity remaining.
pub aggressive-Held :
    (c : Strategy) (m : Market) (b : Quotes) (o : PaperOrder) (now : ℕ) (d d' : Desk)
    → d.order ≡ some o
    → Booked o d.position
    → aggressive c m b now d ≡ ok d'
    → Held o.limit o.quantity o.remaining d'
aggressive-Held c m b o now d d' is_order booked h =
    elim (aggressive-Way c m b o now d d' is_order h) [
      | waited e ↦ simp e (start-Held o d is_order booked)
      | given_up e ↦
          cancel-Held o.limit o.quantity o.remaining now d d' (start-Held o d is_order booked) e
      | matched r w check e k ↦
          remainder-Held o.limit o.quantity o.remaining now r
            (match_offers-Held c m.price_ranges o.limit now b.asks o d (w booked) e) k
    ]
