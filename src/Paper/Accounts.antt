-- ===== src/Paper/Accounts.antt =====
-- The books of one market: what an order has bought, and what a fill or a cancellation changes.
use project.Common.{
  ℕ, ◌+◌, ◌-◌, ◌*◌, ◌≤◌, ◌<◌, ◌≡◌, ◌≢◌, refl, ◌⊎◌, true, false, Option, none, some, arith, min,
  erase, not, ◌==◌, ◌+ℤ◌,
}
use native.Mathlib.Nat.{mul-le-mul_left}
use project.Fees.{charge, buy}
use project.Strategy.{Strategy}
use project.Lifecycle.{MarketState}
use project.Paper.{
  PaperOrder, Position, Desk, ok, enter, cancel, cancel_active, book_fill, fill_order, Filled, lot,
  position_or_new, Verdict, refuse, refuse_cancelling, invalid, ignore, purchase, verdict,
  carry_out,
}

-- An order and a position of one cycle: what was bought and what remains make up the order, and
-- nothing was bought above the limit.
abbrev pub Booked : PaperOrder → Option Position → Type 0
Booked o none = o.active ≡ true → o.remaining ≡ o.quantity
Booked o (some p) = (p.bought + o.remaining ≡ o.quantity) × (p.cost ≤ p.bought * lot * o.limit)

-- Nothing but the stored state changes.
abbrev EnterKeeps : Desk → Desk → Type 0
EnterKeeps d d' = d' ≡ record d { state = d'.state }

pub enter-keeps : (s : MarketState) (d : Desk) {d' : Desk} → enter s d ≡ ok d' → EnterKeeps d d'
unfolding enter
enter-keeps s d h = ground arith

-- The order of a desk after a cancellation.
abbrev pub cancelled : ℕ → PaperOrder → PaperOrder
cancelled now o = record o { active = false; cancelled_at = some now }

-- What a cancellation of an active order does: it is inactive, and the rest of the order and
-- the position are as they were. With no position its reservation is released.
pub record Cancels (o : PaperOrder) (now : ℕ) (d d' : Desk) : Type 0 where
  pub order_off : d'.order ≡ some (cancelled now o)
  pub position_kept : d'.position ≡ d.position
  pub released : d.position ≡ none → d'.risk.reserved ≡ erase d.ticker d.risk.reserved

pub cancel_active-Cancels :
    (o : PaperOrder) (now : ℕ) (d : Desk) {d' : Desk}
    → cancel_active o now d ≡ ok d'
    → Cancels o now d d'
unfolding cancel_active
cancel_active-Cancels o now d h = ground arith

-- The flags that stop a fill.
abbrev pub SameFlags : Desk → Desk → Type 0
SameFlags d d' =
    (d'.quarantined ≡ d.quarantined)
    × (d'.paused ≡ d.paused)
    × (d'.collector_paused ≡ d.collector_paused)
    × (d'.pending_reference ≡ d.pending_reference)

-- A purchase of q hundredths for the order o.
pub record Buys (o : PaperOrder) (q : ℕ) (d d' : Desk) : Type 0 where
  pub order : PaperOrder
  pub position : Position
  pub is_order : d'.order ≡ some order
  pub is_position : d'.position ≡ some position
  pub left : order.remaining ≡ o.remaining - q
  pub same_quantity : order.quantity ≡ o.quantity
  pub same_limit : order.limit ≡ o.limit
  pub same_eligible : order.eligible ≡ o.eligible
  pub rests : order.active ≡ not (order.remaining == 0)
  pub booked : Booked order (some position)
  pub same_flags : SameFlags d d'

bought_order : PaperOrder → ℕ → ℕ → ℕ → PaperOrder
bought_order o q price rate = record o {
  fees = (charge o.fees price (q * lot) rate buy).accumulator;
  remaining = o.remaining - q;
  active = not (o.remaining - q == 0);
}

bought_position : Option Position → PaperOrder → ℕ → ℕ → ℕ → ℕ → Position
bought_position p o q price rate now =
    let p' = position_or_new p o now in
    record p' {
      quantity = p'.quantity + q;
      bought = p'.bought + q;
      cost = p'.cost + q * lot * price;
      fees = p'.fees +ℤ (charge o.fees price (q * lot) rate buy).fee;
    }

bought-Booked :
    (p : Option Position) (o : PaperOrder) (q price rate now : ℕ)
    → o.active ≡ true
    → q ≤ o.remaining
    → price ≤ o.limit
    → Booked o p
    → Booked (bought_order o q price rate) (some (bought_position p o q price rate now))
unfolding bought_order bought_position
bought-Booked none o q price rate now a small cheap b =
    let e = b a in (omega arith, omega (arith, mul-le-mul_left (q * lot) cheap))
bought-Booked (some p) o q price rate now a small cheap (b, paid) =
    (omega arith, omega (arith, mul-le-mul_left (q * lot) cheap))

book_fill-Buys :
    (o : PaperOrder) (q price rate now : ℕ) (d : Desk) {d' : Desk}
    → o.active ≡ true
    → q ≤ o.remaining
    → price ≤ o.limit
    → Booked o d.position
    → book_fill o q price rate now d ≡ ok d'
    → Buys o q d d'
unfolding book_fill bought_order bought_position
book_fill-Buys o q price rate now d {d'} a small cheap b h = record {
  order = bought_order o q price rate;
  position = bought_position d.position o q price rate now;
  is_order = ground arith;
  is_position = ground arith;
  left = refl;
  same_quantity = refl;
  same_limit = refl;
  same_eligible = refl;
  rests = refl;
  booked = bought-Booked d.position o q price rate now a small cheap b;
  same_flags = ground arith;
}

-- Why a fill does nothing.
abbrev pub Ignores : PaperOrder → ℕ → ℕ → Desk → Type 0
Ignores o quantity now d =
    (o.active ≡ false)
    ⊎ ((now < o.eligible)
        ⊎ ((d.quarantined ≡ true) ⊎ ((d.paused ≡ true) ⊎ ((quantity ≢ 0) × (o.remaining ≡ 0)))))

-- How a fill that did not raise has ended.
pub data FillEnd (o : PaperOrder) (quantity : ℕ) (now : ℕ) (d : Desk) (f : Filled) : Type 0 where
  bought :
      Buys o (min quantity o.remaining) d f.desk → f.refused ≡ false → FillEnd o quantity now d f
  refused_at_once : f.desk ≡ d → f.refused ≡ true → FillEnd o quantity now d f
  refused_cancelled : cancel now d ≡ ok f.desk → f.refused ≡ true → FillEnd o quantity now d f
  ignored :
      f ≡ record { desk = d; refused = false }
      → Ignores o quantity now d
      → FillEnd o quantity now d f

-- A purchase has passed every guard.
purchase-checks :
    (c : Strategy) (o : PaperOrder) (quantity price now : ℕ) (d : Desk)
    → verdict c o quantity price now d ≡ purchase
    → (o.active ≡ true) × (price ≤ o.limit)
unfolding verdict
purchase-checks c o quantity price now d h = ground arith

ignore-checks :
    (c : Strategy) (o : PaperOrder) (quantity price now : ℕ) (d : Desk)
    → verdict c o quantity price now d ≡ ignore
    → Ignores o quantity now d
unfolding verdict
ignore-checks c o quantity price now d h = ground arith

carry_out-end :
    (v : Verdict) (o : PaperOrder) (quantity price rate now : ℕ) (d : Desk) {f : Filled}
    → (v ≡ purchase → (o.active ≡ true) × (price ≤ o.limit))
    → (v ≡ ignore → Ignores o quantity now d)
    → Booked o d.position
    → carry_out v o quantity price rate now d ≡ ok f
    → FillEnd o quantity now d f
carry_out-end refuse o quantity price rate now d pass skip b h =
    refused_at_once (ground arith) (ground arith)
carry_out-end refuse_cancelling o quantity price rate now d pass skip b h =
    refused_cancelled (ground arith) (ground arith)
carry_out-end invalid o quantity price rate now d pass skip b h = absurd (ground arith)
carry_out-end ignore o quantity price rate now d pass skip b h = ignored (ground arith) (skip refl)
carry_out-end purchase o quantity price rate now d pass skip b h =
    let (a, cheap) = pass refl in
    bought
      (book_fill-Buys o (min quantity o.remaining) price rate now d a (omega arith) cheap b
        (ground arith))
      (ground arith)

pub fill_order-end :
    (c : Strategy) (o : PaperOrder) (quantity price rate now : ℕ) (d : Desk) {f : Filled}
    → Booked o d.position
    → fill_order c o quantity price rate now d ≡ ok f
    → FillEnd o quantity now d f
unfolding fill_order
fill_order-end c o quantity price rate now d b h =
    carry_out-end (verdict c o quantity price now d) o quantity price rate now d
      (purchase-checks c o quantity price now d) (ignore-checks c o quantity price now d) b h
