-- ===== src/Paper/Exit.antt =====
-- src/btc15/execution.py: the exits of a position, from `monitor` and its reason to the sale against
-- the displayed bids, and the accounting of depth that is used up.
--
-- The two signals that search for a sell limit in floats (the cashout and the profit value) enter
-- as the limits that they found. What is consumed of a bid is in millionths of a contract, as the
-- sizes of the book. The saved extremes of the mark enter only as whether the mark is a new one;
-- the stress figures and the audit records are not modelled.
pub mod Sale
pub mod Executed
pub mod Liquidity
pub mod Waiting
mod Tests
use project.Common.{
  ℕ, ◌+◌, ◌-◌, ◌*◌, ◌/◌, min, Bool, true, false, ◌&&◌, ◌||◌, not, if◌then◌else◌, ltb, leb, ◌==◌,
  any, Option, none, some, List, [], ◌∷◌, Dict, lookup, insert, ℤ, pos, pos_part, ◌+ℤ◌, ◌-ℤ◌, leb_ℤ,
  ltb_ℤ, is_empty, map,
}
use project.Fees.{micro, FeeAccumulator, charge, sell, fee_bound}
use project.Strategy.{Strategy}
use project.Market.{Market, Band, snap, valid_tick, tradable}
use project.Book.{Book, Level, Side, before, levels_of}
use project.Lifecycle.{exiting, position_open}
use project.Entry.Signal
use project.Paper.{Position, Desk, Result, ok, raised, ◌>>=◌, enter, cancel, is_active, lot}
use project.Paper.Settle.{Account, finish, with_desk}

pub data Reason : Type 0 where
  hard_stop take_profit standard_cashout invalidation profit_value : Reason

abbrev pub index : Reason → ℕ
index hard_stop = 0
index take_profit = 1
index standard_cashout = 2
index invalidation = 3
index profit_value = 4

abbrev pub same_reason : Option Reason → Option Reason → Bool
same_reason none none = true
same_reason (some a) (some b) = index a == index b
same_reason _ _ = false

-- What the executor holds on the exit of a position; `consumed` maps a price to the depth used.
pub record Exits : Type 0 where
  pub reason : Option Reason
  pub value_limit : Option ℕ
  pub value_count : ℕ
  pub eligible : Option ℕ
  pub last_event : Option ℕ
  pub consumed : Dict ℕ

pub record Holding : Type 0 where
  pub account : Account
  pub exits : Exits

abbrev pub with_account : Holding → Result Account → Result Holding
with_account h r = r >>= λ a. ok (record h { account = a })

abbrev pub on_desk : Holding → (Desk → Result Desk) → Result Holding
on_desk h f = with_account h (with_desk h.account (f h.account.desk))

-- The sizes of a side with their prices, the highest first.
abbrev pub insert_down : Level → List Level → List Level
insert_down a [] = a ∷ []
insert_down a (b ∷ bs) = if before b a then a ∷ b ∷ bs else b ∷ insert_down a bs

abbrev pub sorted_down : List Level → List Level
sorted_down [] = []
sorted_down (l ∷ ls) = insert_down l (sorted_down ls)

-- A bid of the book.
pub record Bid : Type 0 where
  pub price : ℕ
  pub size : ℕ

abbrev pub bid_of : Level → Bid
bid_of l = record { price = pos_part l.price; size = pos_part l.size }

unfoldable pub bids_of : Book → Side → List Bid
bids_of b side = map bid_of (sorted_down (levels_of b side))

abbrev pub or_zero : Option ℕ → ℕ
or_zero none = 0
or_zero (some n) = n

-- What of a bid is still there, and how much of it a position takes, in hundredths.
abbrev pub left_at : Dict ℕ → Bid → ℕ
left_at consumed b = b.size - or_zero (lookup b.price consumed)

abbrev pub sellable : Dict ℕ → ℕ → Bid → ℕ
sellable consumed quantity b = min (quantity * lot) (left_at consumed b) / lot

-- A record "fill" of a sale.
pub record SaleFill : Type 0 where
  pub quantity : ℕ
  pub price : ℕ
  pub fee : ℤ

pub record Selling : Type 0 where
  pub position : Position
  pub fees : FeeAccumulator
  pub consumed : Dict ℕ
  pub sales : List SaleFill

abbrev pub has_limit : Reason → Bool
has_limit take_profit = true
has_limit profit_value = true
has_limit standard_cashout = true
has_limit _ = false

abbrev pub is_cashout : Reason → Bool
is_cashout standard_cashout = true
is_cashout _ = false

abbrev pub below_target : Option ℕ → ℕ → Bool
below_target none price = false
below_target (some target) price = ltb price target

-- "0.10 * pos.bought - 1e-10": ten cents a contract, in 10^-12 dollars
abbrev pub least_cashout : Position → ℤ
least_cashout p = pos (p.bought * lot * 100000) -ℤ pos 100

abbrev pub profit_after : Position → ℕ → ℕ → ℤ → ℤ
profit_after p q price fee = pos (p.proceeds + q * lot * price) -ℤ fee -ℤ pos p.cost -ℤ p.fees

-- A last sale of a cashout that would leave less than the cashout's profit.
unfoldable pub spoils_cashout : Strategy → Reason → Selling → ℕ → ℕ → Bool
spoils_cashout c reason s q price =
    is_cashout reason
    && q == s.position.quantity
    && ltb_ℤ
        (profit_after s.position q price (charge s.fees price (q * lot) c.taker_fee_rate sell).fee)
        (least_cashout s.position)

-- A bid that the loop passes over.
unfoldable pub is_skipped : Strategy → List Band → Reason → Option ℕ → Selling → Bid → Bool
is_skipped c bands reason target s b =
    let q = sellable s.consumed s.position.quantity b in
    q == 0
    || not (valid_tick bands b.price)
    || (not c.full_position_execution
        && ((has_limit reason && below_target target b.price)
            || spoils_cashout c reason s q b.price))

-- The sale of q hundredths at a bid.
unfoldable pub sell_at : Strategy → ℕ → Bid → Selling → Selling
sell_at c q b s =
    let paid = charge s.fees b.price (q * lot) c.taker_fee_rate sell in
    let p = s.position in
    record {
      position = record p {
        quantity = p.quantity - q;
        proceeds = p.proceeds + q * lot * b.price;
        fees = p.fees +ℤ paid.fee;
      };
      fees = paid.accumulator;
      consumed = insert b.price (or_zero (lookup b.price s.consumed) + q * lot) s.consumed;
      sales = record { quantity = q; price = b.price; fee = paid.fee } ∷ s.sales;
    }

-- The loop over the bids, which ends where nothing is left.
unfoldable pub sell_bids : Strategy → List Band → Reason → Option ℕ → List Bid → Selling → Selling
sell_bids c bands reason target [] s = s
sell_bids c bands reason target (b ∷ bids) s =
    let sold = sell_at c (sellable s.consumed s.position.quantity b) b s in
    let go_on = sell_bids c bands reason target bids sold in
    let passed_over = sell_bids c bands reason target bids s in
    if is_skipped c bands reason target s b
    then passed_over
    else if sold.position.quantity == 0
    then sold
    else go_on

abbrev pub start_of : Strategy → Position → Dict ℕ → Selling
start_of c p consumed = record {
  position = p;
  fees = record { precision = c.fee_balance_precision; carry = pos 0 };
  consumed = consumed;
  sales = [];
}

-- `_expire_value_exit`
unfoldable pub expire_value_exit : Exits → Exits
expire_value_exit x = record x {
  reason = none;
  value_limit = none;
  value_count = 0;
  eligible = none;
}

abbrev pub expires : Strategy → Reason → Bool
expires c profit_value = not c.full_position_execution
expires c standard_cashout = not c.full_position_execution
expires c _ = false

-- The reason and its limit go with the position.
abbrev pub forgotten : Exits → Exits
forgotten x = record x { reason = none; value_limit = none; value_count = 0 }

-- What follows the loop: the position is finished, or stays open.
unfoldable pub after_sales : Strategy → Reason → ℕ → Selling → Holding → Result Holding
after_sales c reason now s h =
    let x = record (h.exits) { consumed = s.consumed } in
    let a = record (h.account) { desk = record (h.account.desk) { position = some s.position } } in
    if s.position.quantity == 0
    then with_account (record h { exits = forgotten x }) (finish s.position now none a)
    else with_account (record h { exits = if expires c reason then expire_value_exit x else x })
        (with_desk a (enter position_open a.desk))

-- The event at which an exit is looked at, and how the caller came to it.
pub record Event : Type 0 where
  pub id : ℕ
  pub now : ℕ
  pub received : ℕ
  pub bids : List Bid
  pub bands : List Band
  pub extremum : Bool
  pub warning : Bool
  pub clear_pending : Bool

abbrev pub is_some_reason : Option Reason → Bool
is_some_reason none = false
is_some_reason (some r) = true

-- A new trigger, or one that has cleared, ends the exit that was pending.
abbrev pub drops : Exits → Option Reason → Bool → Bool
drops x reason clear_pending =
    is_some_reason x.reason
    && not (same_reason reason x.reason)
    && (is_some_reason reason || clear_pending)

unfoldable pub dropped : Exits → Option Reason → Bool → Exits
dropped x reason clear_pending =
    if drops x reason clear_pending then record x { reason = none; eligible = none } else x

abbrev pub is_event : Option ℕ → ℕ → Bool
is_event none id = false
is_event (some last) id = last == id

abbrev pub is_hard_stop : Reason → Bool
is_hard_stop hard_stop = true
is_hard_stop _ = false

abbrev pub stops_buying : Strategy → Reason → Bool
stops_buying c hard_stop = true
stops_buying c profit_value = true
stops_buying c standard_cashout = true
stops_buying c _ = c.full_position_execution

abbrev pub intended : Strategy → Reason → Option ℕ → Event → Exits → Exits
intended c r target e x = record x {
  reason = some r;
  value_limit =
      if stops_buying c r then (if is_hard_stop r then none else target) else x.value_limit;
  last_event = some e.id;
  eligible = some (e.now + c.latency);
}

-- A first trigger: the intent is recorded, to be executed after the latency.
unfoldable pub intend : Strategy → Reason → Option ℕ → Event → Holding → Result Holding
intend c r target e h = (if stops_buying c r then on_desk h (cancel e.now) else ok h) >>= λ h'.
    ok (record h' { exits = intended c r target e h.exits })

-- The sale of an exit that is due, of the position at the desk.
abbrev pub sell_position :
    Strategy → Reason → Option ℕ → Event → Option Position → Holding → Result Holding
sell_position c r target e none h = raised
sell_position c r target e (some p) h =
    after_sales c r e.now (sell_bids c e.bands r target e.bids (start_of c p h.exits.consumed)) h

unfoldable pub execute_exit : Strategy → Reason → Option ℕ → Event → Holding → Result Holding
execute_exit c r target e h =
    on_desk (record h { exits = record (h.exits) { last_event = some e.id } })
      (λ d. cancel e.now d >>= enter exiting)
    >>= λ h'. sell_position c r target e h'.account.desk.position h'

abbrev pub is_due : Option ℕ → Event → Bool
is_due none e = false
is_due (some t) e = leb t e.now && leb t e.received

abbrev pub follow : Strategy → Reason → Option ℕ → Event → Holding → Result Holding
follow c r target e h =
    if is_some_reason h.exits.reason && is_event h.exits.last_event e.id
    then ok h
    else if not (is_some_reason h.exits.reason)
    then intend c r target e h
    else if is_due h.exits.eligible e
    then execute_exit c r target e h
    else ok h

abbrev pub act_on : Strategy → Option Reason → Option ℕ → Event → Holding → Result Holding
act_on c none target e h = ok h
act_on c (some r) target e h = follow c r target e h

-- `_commit_monitor`; a pending exit always has its time, which `_exit_eligible` holds.
unfoldable pub commit_monitor :
    Strategy → Option Reason → Option ℕ → Event → Holding → Result Holding
commit_monitor c reason target e h =
    act_on c reason target e (record h { exits = dropped h.exits reason e.clear_pending })

abbrev pub is_early : Option ℕ → Event → Bool
is_early none e = false
is_early (some t) e = ltb e.now t || ltb e.received t

-- Waiting on the same intent.
abbrev pub waits : Option Reason → Event → Exits → Bool
waits reason e x =
    not e.warning
    && is_some_reason reason
    && same_reason reason x.reason
    && not e.extremum
    && (is_event x.last_event e.id || is_early x.eligible e)

-- A later part of a persistent exit for which the book shows nothing to sell.
abbrev pub is_persistent : Option Reason → Bool
is_persistent (some hard_stop) = true
is_persistent (some take_profit) = true
is_persistent (some invalidation) = true
is_persistent _ = false

abbrev pub is_take_profit : Option Reason → Bool
is_take_profit (some take_profit) = true
is_take_profit _ = false

abbrev pub can_sell : Strategy → Option Reason → Option ℕ → Event → Dict ℕ → ℕ → Bid → Bool
can_sell c reason target e consumed quantity b =
    leb lot (min (quantity * lot) (left_at consumed b))
    && valid_tick e.bands b.price
    && (c.full_position_execution
        || not (is_take_profit reason)
        || not (below_target target b.price))

unfoldable pub idles :
    Strategy → Option Reason → Option ℕ → Event → Option Position → Holding → Bool
idles c reason target e none h = false
idles c reason target e (some p) h =
    not e.warning
    && (c.full_position_execution || is_persistent reason)
    && same_reason reason h.exits.reason
    && ltb p.quantity p.bought
    && not e.extremum
    && not (is_active h.account.desk.order)
    && not (any (can_sell c reason target e h.exits.consumed p.quantity) e.bids)

-- `_apply_monitor`
unfoldable pub apply_monitor :
    Strategy → Option Reason → Option ℕ → Event → Holding → Result Holding
apply_monitor c reason target e h =
    if waits reason e h.exits || idles c reason target e h.account.desk.position h
    then ok h
    else commit_monitor c reason target e h

-- `observe_exit_liquidity`: depth that has left the book is no longer consumed.
abbrev pub size_at : ℕ → List Bid → ℕ
size_at price [] = 0
size_at price (b ∷ bids) = if b.price == price then b.size else size_at price bids

unfoldable pub capped_consumption : List Bid → Dict ℕ → Dict ℕ
capped_consumption bids [] = []
capped_consumption bids ((price, used) ∷ rest) =
    (price, min used (size_at price bids)) ∷ capped_consumption bids rest

abbrev pub is_observable : Strategy → Desk → Book → ℕ → Option ℕ → Bool
is_observable c d b now none = false
is_observable c d b now (some source) =
    not d.quarantined
    && not d.paused
    && b.valid
    && (leb b.received now && leb now (b.received + c.book_max_age))
    && (leb source (now + c.max_clock_skew) && leb now (source + c.book_max_age))

abbrev pub observed : Strategy → Book → ℕ → Option ℕ → Option Position → Holding → Holding
observed c b now source none h = h
observed c b now source (some p) h =
    if is_observable c h.account.desk b now source
    then record h {
      exits = record (h.exits) {
        consumed = capped_consumption (bids_of b p.side) h.exits.consumed;
      };
    }
    else h

-- A `source_time` of none is one that is no finite number.
unfoldable pub observe_exit_liquidity : Strategy → Book → ℕ → Bool → Option ℕ → Holding → Holding
observe_exit_liquidity c b now continuous source h =
    if continuous then observed c b now source h.account.desk.position h else h
