-- ===== src/Paper.antt =====
-- src/btc15/execution.py: PaperExecutor, its orders, fills and positions, at one market.
--
-- A Desk is what the executor holds at one ticker: the entries of its dicts there, the market's
-- stored state, the risk budget of the portfolio, and what other threads may have set (a pending
-- reference, the collector's pause). Quantities are hundredths of a contract, the unit to which
-- the code rounds, but the queue ahead of an order is in millionths of one; prices are millionths
-- of a dollar, money 10^-12 dollars, times milliseconds.
-- `@atomic` restores the snapshot when a method raises: a raised result has no desk, and the
-- caller goes on with the one it had. Audit records are not modelled, but for the fills.
pub mod Accounts
pub mod Aggressive
pub mod Matching
pub mod Ways
pub mod FullEntry
pub mod Books
pub mod Returns
pub mod Tape
pub mod Queue
pub mod Submit
pub mod Settle
pub mod Venue
pub mod Exit
mod Tests
use project.Common.{
  ℕ, ◌+◌, ◌-◌, ◌*◌, min, max, Bool, true, false, ◌&&◌, ◌||◌, not, if◌then◌else◌, ltb, leb, ◌==◌,
  Option, none, some, List, [], ◌∷◌, ℤ, pos, ◌+ℤ◌, ◌-ℤ◌, erase, contains,
}
use project.Fees.{micro, FeeAccumulator, charge, buy}
use project.Strategy.{Strategy, entry_cutoff}
use project.Risk
use project.Risk.{Risk}
use project.Market.{Band, Market, tradable, valid_tick}
use project.Book.{Side, yes_side}
use project.Lifecycle.{
  MarketState, transition, no_recovery, order_cancelled, position_open, order_partially_filled,
  closed,
}

pub record PaperOrder : Type 0 where
  pub opportunity : ℕ
  pub side : Side
  pub limit : ℕ
  pub quantity : ℕ
  pub created : ℕ
  pub eligible : ℕ
  pub queue : ℕ
  pub remaining : ℕ
  pub attempt : ℕ
  pub cycle : ℕ
  pub completed_at : Option ℕ
  pub cancelled_at : Option ℕ
  pub active : Bool
  pub fees : FeeAccumulator

pub record Position : Type 0 where
  pub opportunity : ℕ
  pub side : Side
  pub quantity : ℕ
  pub bought : ℕ
  pub cost : ℕ
  pub fees : ℤ
  pub proceeds : ℕ
  pub opened : ℕ

-- The record "fill" of a purchase.
pub record FillRecord : Type 0 where
  pub quantity : ℕ
  pub price : ℕ
  pub fee : ℤ

pub record Desk : Type 0 where
  pub ticker : ℕ
  pub order : Option PaperOrder
  pub position : Option Position
  pub quarantined : Bool
  pub paused : Bool
  pub state : Option MarketState
  pub risk : Risk
  pub closed_at : Option ℕ
  pub pending_reference : Bool
  pub collector_paused : Bool
  pub fills : List FillRecord

-- The way out of a method: `interrupted` is FullEntryInterrupted.
pub data Result {ℓ} (A : Type ℓ) : Type ℓ where
  ok : A → Result A
  raised : Result A
  interrupted : Result A

infixl 5 ◌>>=◌
abbrev pub ◌>>=◌ {ℓ κ} : {A : Type ℓ} {B : Type κ} → Result A → (A → Result B) → Result B
ok a >>= f = f a
raised >>= f = raised
interrupted >>= f = interrupted

abbrev pub is_some {ℓ} : {A : Type ℓ} → Option A → Bool
is_some none = false
is_some (some a) = true

abbrev pub entered : Desk → Option MarketState → Result Desk
entered d none = raised
entered d (some s) = ok (record d { state = some s })

-- `self.state(market, target, …)`
unfoldable pub enter : MarketState → Desk → Result Desk
enter target d = entered d (transition d.state target no_recovery)

-- The end of `_cancel_active`: back to the position, or the reservation is released.
abbrev pub release : Option Position → Desk → Result Desk
release (some p) d = enter position_open d
release none d =
    ok (record d { risk = record (d.risk) { reserved = erase d.ticker d.risk.reserved } })

-- `_cancel_active`
unfoldable pub cancel_active : PaperOrder → ℕ → Desk → Result Desk
unfolding enter
cancel_active o now d =
    enter order_cancelled
      (record d { order = some (record o { active = false; cancelled_at = some now }) })
    >>= λ d'. release d'.position d'

abbrev pub cancel_order : Option PaperOrder → ℕ → Desk → Result Desk
cancel_order none now d = ok d
cancel_order (some o) now d = if o.active then cancel_active o now d else ok d

-- `cancel`
unfoldable pub cancel : ℕ → Desk → Result Desk
unfolding cancel_active
cancel now d = cancel_order d.order now d

abbrev pub cooled : Option ℕ → ℕ → ℕ → Bool
cooled none cooldown now = true
cooled (some t) cooldown now = leb (t + cooldown) now

-- `post_close_ready`
unfoldable pub post_close_ready : Strategy → Desk → ℕ → Bool
post_close_ready c d now =
    c.post_close_cooldown == 0 || cooled d.closed_at c.post_close_cooldown now

abbrev pub was_used : Option PaperOrder → Bool
was_used none = false
was_used (some o) = ltb o.remaining o.quantity || is_some o.completed_at || ltb 1 o.cycle

-- `market_trade_limit_reached`
unfoldable pub market_trade_limit_reached : Strategy → Desk → Bool
market_trade_limit_reached c d = c.one_trade_per_market && (is_some d.position || was_used d.order)

abbrev pub since : Option ℕ → ℕ → ℕ → Bool
since none wait now = false
since (some t) wait now = leb (t + wait) now

abbrev pub is_idle : Desk → Bool
is_idle d = not (is_some d.position) && not d.quarantined && not d.paused && not d.risk.halted

abbrev pub completed_order : Strategy → Option PaperOrder → ℕ → Bool
completed_order c none now = false
completed_order c (some o) now = not o.active && since o.completed_at c.entry_retry_cooldown now

-- `reentry_ready`
unfoldable pub reentry_ready : Strategy → Desk → ℕ → Bool
reentry_ready c d now =
    not c.one_trade_per_market
    && completed_order c d.order now
    && post_close_ready c d now
    && is_idle d

abbrev pub cancelled_order : Strategy → Option PaperOrder → ℕ → Bool
cancelled_order c none now = false
cancelled_order c (some o) now =
    not o.active
    && o.remaining == o.quantity
    && leb o.attempt c.max_entry_retries
    && since o.cancelled_at c.entry_retry_cooldown now

abbrev pub is_cancelled_state : Option MarketState → Bool
is_cancelled_state (some order_cancelled) = true
is_cancelled_state _ = false

-- `retry_ready`
unfoldable pub retry_ready : Strategy → Desk → ℕ → Bool
retry_ready c d now =
    not (market_trade_limit_reached c d)
    && cancelled_order c d.order now
    && is_idle d
    && post_close_ready c d now
    && is_cancelled_state d.state

-- What `fill` returns: the desk, and whether it answered False.
pub record Filled : Type 0 where
  pub desk : Desk
  pub refused : Bool

abbrev pub refuse_after : Result Desk → Result Filled
refuse_after r = r >>= λ d. ok (record { desk = d; refused = true })

-- `self.positions.setdefault(…)`
abbrev pub position_or_new : Option Position → PaperOrder → ℕ → Position
position_or_new (some p) o now = p
position_or_new none o now = record {
  opportunity = o.opportunity;
  side = o.side;
  quantity = 0;
  bought = 0;
  cost = 0;
  fees = pos 0;
  proceeds = 0;
  opened = now;
}

-- One hundredth of a contract in millionths.
abbrev pub lot : ℕ
lot = 10000

-- The part of `fill` that books a purchase of q hundredths.
unfoldable pub book_fill : PaperOrder → ℕ → ℕ → ℕ → ℕ → Desk → Result Desk
unfolding enter
book_fill o q price rate now d =
    let paid = charge o.fees price (q * lot) rate buy in
    let left = o.remaining - q in
    let p = position_or_new d.position o now in
    let d' = record d {
      order =
          some (record o { fees = paid.accumulator; remaining = left; active = not (left == 0) });
      position = some (record p {
        quantity = p.quantity + q;
        bought = p.bought + q;
        cost = p.cost + q * lot * price;
        fees = p.fees +ℤ paid.fee;
      });
      fills = record { quantity = q; price = price; fee = paid.fee } ∷ d.fills;
    } in
    enter (if left == 0 then position_open else order_partially_filled) d'

-- The ways through the guards of `fill`, in their order.
pub data Verdict : Type 0 where
  refuse refuse_cancelling invalid ignore purchase : Verdict

unfoldable pub verdict : Strategy → PaperOrder → ℕ → ℕ → ℕ → Desk → Verdict
verdict c o quantity price now d =
    if d.collector_paused
    then refuse
    else if not (is_some d.position) && not (post_close_ready c d now)
    then refuse_cancelling
    else if d.pending_reference
    then refuse
    else if c.one_trade_per_market && ltb 1 o.cycle && not (is_some d.position)
    then refuse_cancelling
    else if not (ltb 0 price && ltb price micro && leb price o.limit)
    then invalid
    else if not o.active || ltb now o.eligible || d.quarantined || d.paused
    then ignore
    else if quantity == 0
    then invalid
    else if min quantity o.remaining == 0
    then ignore
    else purchase

abbrev pub carry_out : Verdict → PaperOrder → ℕ → ℕ → ℕ → ℕ → Desk → Result Filled
carry_out refuse o quantity price rate now d = ok (record { desk = d; refused = true })
carry_out refuse_cancelling o quantity price rate now d = refuse_after (cancel now d)
carry_out invalid o quantity price rate now d = raised
carry_out ignore o quantity price rate now d = ok (record { desk = d; refused = false })
carry_out purchase o quantity price rate now d =
    book_fill o (min quantity o.remaining) price rate now d >>= λ d'.
    ok (record { desk = d'; refused = false })

-- `fill` of an order at the desk
unfoldable pub fill_order : Strategy → PaperOrder → ℕ → ℕ → ℕ → ℕ → Desk → Result Filled
fill_order c o quantity price rate now d =
    carry_out (verdict c o quantity price now d) o quantity price rate now d

abbrev pub fill_at : Strategy → Option PaperOrder → ℕ → ℕ → ℕ → ℕ → Desk → Result Filled
fill_at c none quantity price rate now d = ok (record { desk = d; refused = false })
fill_at c (some o) quantity price rate now d = fill_order c o quantity price rate now d

abbrev pub is_active : Option PaperOrder → Bool
is_active none = false
is_active (some o) = o.active
