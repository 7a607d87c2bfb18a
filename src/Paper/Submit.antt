-- ===== src/Paper/Submit.antt =====
-- src/btc15/execution.py: `submit`, from the gates to the order at the desk.
--
-- Beside the desk, a submission reads what the executor holds at the other strikes of the same
-- hourly event, and the entry claims that the store keeps for the run. What the caller hands over
-- (the decision, its authorization) is the Ticket.
pub mod Prices
pub mod Terms
pub mod Accepted
mod Tests
use project.Common.{
  ℕ, ◌+◌, ◌-◌, ◌*◌, ◌/◌, min, max, Bool, true, false, ◌&&◌, ◌||◌, not, if◌then◌else◌, ltb, leb,
  ◌==◌, any, Option, none, some, List, [], ◌∷◌, map, ℤ, pos, pos_part, ceil_div, is_empty, floor_to,
  leb_ℤ,
}
use project.Fees.{micro}
use project.Strategy.{Strategy, entry_cutoff, probability_floor}
use project.Risk
use project.Market.{Market, Band, snap, tradable, valid_tick}
use project.Book.{Book, Level, Side, asks, levels_of}
use project.Lifecycle.{evaluating, trade_candidate, order_pending}
use project.Entry.{required_edge, passive_price}
use project.Entry.Signal
use project.Paper.{
  PaperOrder, Position, Desk, Result, ok, raised, ◌>>=◌, is_some, enter, post_close_ready,
  market_trade_limit_reached, retry_ready, reentry_ready, was_used,
}
use project.Paper.Aggressive.{Offer, Quotes, aggressive}

-- A first recheck reason of the caller stands under execution_gate_blocked.
pub data Rejection : Type 0 where
  collector_recovering reference_update_pending strategy_disabled market_trade_limit : Rejection
  event_trade_limit post_close_cooldown metadata_quarantined venue_paused : Rejection
  signal_not_candidate execution_gate_blocked market_not_tradable outside_window : Rejection
  lead_recheck invalid_side book_invalid book_receive_age no_ask entry_price_recheck : Rejection
  no_bid invalid_probability min_probability_recheck net_edge_recheck : Rejection
  unsupported_entry_tick ioc_limit_edge existing_position order_already_attempted : Rejection
  unfunded full_size_required entry_already_claimed : Rejection

-- What `submit` is called with: the decision, and whether the caller's checks allow execution.
pub record Ticket : Type 0 where
  pub opportunity : ℕ
  pub is_candidate : Bool
  pub late_path : Option Bool
  pub lead : Signal.Lead
  pub side : Option Side
  pub conservative : Option ℕ
  pub premium : Option ℕ
  pub freshness_ok : Bool

-- The order and the position at another strike of the same hourly event.
pub record Sibling : Type 0 where
  pub order : Option PaperOrder
  pub has_position : Bool

-- The parts of the text that claims an entry: the ticker, the cycle from 2 on, the retry.
pub record Claim : Type 0 where
  pub ticker : ℕ
  pub cycle : ℕ
  pub retry : Option ℕ

pub record Ledger : Type 0 where
  pub desk : Desk
  pub claims : List Claim
  pub contract : Option Market

-- What a stage leaves: a value, the first rejection, or an IndexError.
pub data Step {ℓ} (A : Type ℓ) : Type ℓ where
  passed : A → Step A
  rejected : Rejection → Step A
  crashed : Step A

infixl 5 ◌&>◌
abbrev pub ◌&>◌ {ℓ κ} : {A : Type ℓ} {B : Type κ} → Step A → (A → Step B) → Step B
passed a &> f = f a
rejected r &> f = rejected r
crashed &> f = crashed

-- Gates in turn, of which the first that is not okay rejects.
abbrev pub gates {ℓ} : {A : Type ℓ} → List (Rejection × Bool) → A → Step A
gates [] a = passed a
gates ((r, okay) ∷ rest) a = if okay then gates rest a else rejected r

-- An hourly market is occupied by an order at work or used, or by a position.
abbrev pub is_occupied : Option PaperOrder → Bool → Bool
is_occupied none has_position = has_position
is_occupied (some o) has_position = o.active || was_used (some o) || has_position

abbrev pub occupied_count : List Sibling → ℕ
occupied_count [] = 0
occupied_count (s ∷ rest) =
    (if is_occupied s.order s.has_position then 1 else 0) + occupied_count rest

-- MAX_POSITIONS_PER_HOURLY_EVENT
abbrev pub max_positions_per_hourly_event : ℕ
max_positions_per_hourly_event = 2

unfoldable pub event_has_room : Strategy → Desk → List Sibling → Bool
event_has_room c d siblings =
    not c.hourly
    || is_occupied d.order (is_some d.position)
    || ltb (occupied_count siblings) max_positions_per_hourly_event

abbrev pub same_path : Option Bool → Bool → Bool
same_path none late = false
same_path (some true) late = late
same_path (some false) late = not late

-- The recheck of the lead.
unfoldable pub lead_holds : Strategy → Ticket → ℕ → Bool
lead_holds c t remaining =
    let late = Signal.is_late c remaining in
    let threshold = Signal.lead_threshold c late in
    not c.sustained_lead_enabled
    || (same_path t.late_path late
        && Signal.same_side t.lead.side t.side
        && (threshold == 0 || leb_ℤ (pos threshold) t.lead.sigma)
        && (if late then t.lead.confirmed_late else t.lead.confirmed_normal))

-- The gates before the side is looked at.
unfoldable pub entry_gates :
    Strategy → Market → Desk → List Sibling → Ticket → ℕ → List (Rejection × Bool)
entry_gates c m d siblings t now =
    (collector_recovering, not d.collector_paused)
    ∷ (reference_update_pending, not d.pending_reference)
    ∷ (strategy_disabled, c.enabled)
    ∷ (market_trade_limit, not (market_trade_limit_reached c d))
    ∷ (event_trade_limit, event_has_room c d siblings)
    ∷ (post_close_cooldown, post_close_ready c d now)
    ∷ (metadata_quarantined, not d.quarantined)
    ∷ (venue_paused, not d.paused)
    ∷ (signal_not_candidate, t.is_candidate)
    ∷ (execution_gate_blocked, t.freshness_ok)
    ∷ (market_not_tradable, tradable m now)
    ∷ (
      outside_window,
      ltb (now + entry_cutoff c * 1000) m.close_time
          && leb m.close_time (now + c.entry_window_start * 1000),
    )
    ∷ (lead_recheck, lead_holds c t (m.close_time - now))
    ∷ []

-- What the price checks settle.
pub record Priced : Type 0 where
  pub side : Side
  pub ask : ℕ
  pub conservative : ℕ
  pub limit : ℕ

abbrev pub book_gates : Strategy → Book → ℕ → List (Rejection × Bool)
book_gates c b now =
    (book_invalid, b.valid)
    ∷ (book_receive_age, leb b.received now && leb now (b.received + c.book_max_age))
    ∷ []

abbrev pub ask_gates : Strategy → ℕ → List (Rejection × Bool)
ask_gates c ask = (entry_price_recheck, leb c.min_entry_price ask && leb ask c.max_entry_price) ∷ []

abbrev pub need {ℓ} : {A : Type ℓ} → Rejection → Option A → Step A
need r none = rejected r
need r (some a) = passed a

-- The net value at a price less the slippage given is at least what is required.
abbrev pub leaves_edge : Strategy → ℕ → ℕ → ℕ → Bool
leaves_edge c conservative slippage price =
    not c.entry_value_filters_enabled
    || Signal.at_least_ev (Signal.ev_at c conservative slippage (some price)) (required_edge c)

abbrev pub probability_gates : Strategy → ℕ → ℕ → ℕ → List (Rejection × Bool)
probability_gates c remaining ask p =
    (
      min_probability_recheck,
      leb (probability_floor c (Signal.is_late c remaining) (some remaining) * micro) p,
    )
    ∷ (net_edge_recheck, leaves_edge c p c.slippage ask)
    ∷ []

abbrev pub checked : Strategy → ℕ → ℕ → ℕ → Step ℕ
checked c remaining ask p = gates (probability_gates c remaining ask p) p

abbrev pub capped : Strategy → Ticket → ℕ → ℕ → ℕ → ℕ → Step ℕ
capped c t remaining bid ask q =
    need min_probability_recheck (Signal.capped_confidence t.premium (some q) (some bid) (some ask))
    &> checked c remaining ask

-- The probability after the cap, at least the floor and worth the ask.
unfoldable pub confidence : Strategy → Ticket → ℕ → ℕ → ℕ → Step ℕ
confidence c t remaining bid ask =
    need invalid_probability (Signal.valid_or_none t.conservative) &> capped c t remaining bid ask

abbrev pub entry_price : Strategy → Market → ℕ → ℕ → ℕ → Option ℕ
entry_price c m bid ask p =
    if c.passive
    then passive_price m.price_ranges (some bid) (some ask) p c
    else snap m.price_ranges (min (ask + c.slippage) c.max_entry_price) false

abbrev pub limit_gates : Strategy → Market → ℕ → ℕ → ℕ → List (Rejection × Bool)
limit_gates c m ask p limit =
    (unsupported_entry_tick, valid_tick m.price_ranges limit)
    ∷ (ioc_limit_edge, c.passive || (leb ask limit && leaves_edge c p 0 limit))
    ∷ []

-- From the limit back to the side: each stage takes what the one before it settled.
abbrev pub at_limit : Strategy → Market → Side → ℕ → ℕ → ℕ → Step Priced
at_limit c m side ask p limit =
    gates (limit_gates c m ask p limit)
      (record { side = side; ask = ask; conservative = p; limit = limit })

abbrev pub at_probability : Strategy → Market → Side → ℕ → ℕ → ℕ → Step Priced
at_probability c m side ask bid p =
    need unsupported_entry_tick (entry_price c m bid ask p) &> at_limit c m side ask p

unfoldable pub at_bid : Strategy → Market → Ticket → ℕ → Side → ℕ → ℕ → Step Priced
at_bid c m t now side ask bid =
    confidence c t (m.close_time - now) bid ask &> at_probability c m side ask bid

abbrev pub at_quotes : Strategy → Market → Ticket → ℕ → Side → Option ℕ → ℕ → Step Priced
at_quotes c m t now side bid ask =
    gates (ask_gates c ask) bid &> need no_bid &> at_bid c m t now side ask

abbrev pub at_top : Strategy → Market → Ticket → ℕ → Side → Signal.Top → Step Priced
at_top c m t now side top = need no_ask top.ask &> at_quotes c m t now side top.bid

abbrev pub at_side : Strategy → Market → Book → Ticket → ℕ → Side → Step Priced
at_side c m b t now side =
    gates (book_gates c b now) (Signal.top_of b side) &> at_top c m t now side

unfoldable pub price_entry : Strategy → Market → Book → Ticket → ℕ → Step Priced
price_entry c m b t now = need invalid_side t.side &> at_side c m b t now

-- An order that is there must be ready for another attempt.
abbrev pub attempt_gates : Strategy → Desk → ℕ → List (Rejection × Bool)
attempt_gates c d now =
    (existing_position, not (is_some d.position))
    ∷ (
      order_already_attempted,
      not (is_some d.order) || retry_ready c d now || reentry_ready c d now,
    )
    ∷ []

-- `sizing["reasons"][0]` of a size of zero
abbrev pub funded : Risk.SizeDetails → Step ℕ
funded s =
    if s.quantity == 0
    then (if is_empty s.reasons then crashed else rejected unfunded)
    else passed s.quantity

abbrev pub full_size : Strategy → ℕ → Step ℕ
full_size c quantity =
    gates
      ((full_size_required, not c.full_position_execution || quantity == c.fixed_contracts) ∷ [])
      quantity

-- The number of contracts, at the higher of the limit and the ask.
unfoldable pub size_entry : Strategy → Desk → Priced → ℕ → Step ℕ
size_entry c d p now = funded (Risk.size_details c d.risk (max p.limit p.ask) now) &> full_size c

abbrev pub attempt_of : Bool → Option PaperOrder → ℕ
attempt_of true (some o) = o.attempt + 1
attempt_of _ _ = 1

abbrev pub cycle_of : Bool → Bool → Option PaperOrder → ℕ
cycle_of retry true (some o) = o.cycle + 1
cycle_of true false (some o) = o.cycle
cycle_of _ _ _ = 1

abbrev pub claim_of : ℕ → Bool → ℕ → ℕ → Claim
claim_of ticker retry attempt cycle = record {
  ticker = ticker;
  cycle = if ltb 1 cycle then cycle else 0;
  retry = if retry then some attempt else none;
}

abbrev pub same_retry : Option ℕ → Option ℕ → Bool
same_retry none none = true
same_retry (some a) (some b) = a == b
same_retry _ _ = false

abbrev pub same_claim : Claim → Claim → Bool
same_claim a b = a.ticker == b.ticker && a.cycle == b.cycle && same_retry a.retry b.retry

-- The size at the limit or better, a multiple of it for caution, up to a hundredth of a contract.
abbrev pub size_ahead : List Level → ℕ → ℕ
size_ahead [] limit = 0
size_ahead (l ∷ ls) limit =
    (if leb limit (pos_part l.price) then pos_part l.size else 0) + size_ahead ls limit

unfoldable pub queue_ahead : Strategy → Book → Side → ℕ → ℕ
queue_ahead c b side limit =
    ceil_div (size_ahead (levels_of b side) limit * c.queue_multiplier) 10000000000 * 10000

-- The order that is placed; a contract is a hundred of its hundredths.
unfoldable pub new_order : Strategy → Book → Ticket → Priced → ℕ → ℕ → ℕ → ℕ → PaperOrder
new_order c b t p quantity attempt cycle now = record {
  opportunity = t.opportunity;
  side = p.side;
  limit = p.limit;
  quantity = quantity * 100;
  created = now;
  eligible = now + c.latency;
  queue = queue_ahead c b p.side p.limit;
  remaining = quantity * 100;
  attempt = attempt;
  cycle = cycle;
  completed_at = none;
  cancelled_at = none;
  active = true;
  fees = record { precision = c.fee_balance_precision; carry = pos 0 };
}

-- The asks of the book as `_aggressive` takes them, and the book's state.
abbrev pub offer_of : Level → Offer
offer_of l = record { price = pos_part l.price; quantity = pos_part l.size / 10000 }

unfoldable pub quotes_of : Book → Side → Quotes
quotes_of b side = record {
  valid = b.valid;
  received = b.received;
  source_time = b.source_time;
  asks = map offer_of (asks b side);
}

-- The states on the way to order_pending.
abbrev pub announce : Bool → Desk → Result Desk
announce true d = enter evaluating d >>= enter trade_candidate >>= enter order_pending
announce false d = enter order_pending d

-- `_aggressive` inside `submit`. Interrupted, it restores the desk here, and does not in the code, which
-- is inside the transaction of `submit` already; only a flag that another thread sets during the
-- call would tell the two apart, and such flags are held fixed.
abbrev pub match_now : Strategy → Market → Book → Side → ℕ → Desk → Result Desk
match_now c m b side now d =
    if not c.passive && c.latency == 0 then aggressive c m (quotes_of b side) now d else ok d

-- The ledger after `submit`, and why it refused, where it did.
pub record Submission : Type 0 where
  pub ledger : Ledger
  pub rejection : Option Rejection

abbrev pub refuse : Ledger → Rejection → Result Submission
refuse l r = ok (record { ledger = l; rejection = some r })

abbrev pub pinned : Option Market → Market → Option Market
pinned none m = some m
pinned (some known) m = some known

-- After the claim: the reservation, the order, the states and, without latency, the matching.
abbrev pub with_risk : Option Risk.Risk → (Risk.Risk → Result Desk) → Result Desk
with_risk none f = raised
with_risk (some r) f = f r

unfoldable pub place : Strategy → Market → Book → PaperOrder → Bool → ℕ → ℕ → ℕ → Desk → Result Desk
place c m b o retry price quantity now d =
    with_risk (Risk.reserve c d.risk d.ticker price quantity now)
      (λ r. announce retry (record d { risk = r; order = some o }))
    >>= match_now c m b o.side now

unfoldable pub claim_and_place :
    Strategy → Market → Book → Ticket → Priced → ℕ → ℕ → Ledger → Result Submission
claim_and_place c m b t p quantity now l =
    let d = l.desk in
    let retry = retry_ready c d now in
    let attempt = attempt_of retry d.order in
    let cycle = cycle_of retry (reentry_ready c d now) d.order in
    let claim = claim_of d.ticker retry attempt cycle in
    if any (same_claim claim) l.claims
    then refuse l entry_already_claimed
    else place c m b (new_order c b t p quantity attempt cycle now) retry (max p.limit p.ask)
        quantity now d
      >>= λ d'. ok (record {
        ledger = record { desk = d'; claims = claim ∷ l.claims; contract = pinned l.contract m };
        rejection = none;
      })

abbrev pub Terms : Type 0
Terms = Priced × ℕ

-- The terms of an entry, from the gates, the prices and the sizing.
abbrev pub at_size : Priced → ℕ → Step Terms
at_size p quantity = passed (p, quantity)

unfoldable pub at_attempt : Strategy → ℕ → Priced → Desk → Step Terms
at_attempt c now p d = size_entry c d p now &> at_size p

unfoldable pub at_price : Strategy → ℕ → Desk → Priced → Step Terms
at_price c now d p = gates (attempt_gates c d now) d &> at_attempt c now p

unfoldable pub at_entry : Strategy → Market → Book → Ticket → ℕ → Desk → Step Terms
at_entry c m b t now d = price_entry c m b t now &> at_price c now d

unfoldable pub terms : Strategy → Market → Book → List Sibling → Ticket → ℕ → Desk → Step Terms
terms c m b siblings t now d = gates (entry_gates c m d siblings t now) d &> at_entry c m b t now

abbrev pub proceed : Strategy → Market → Book → Ticket → ℕ → Ledger → Step Terms → Result Submission
proceed c m b t now l (rejected r) = refuse l r
proceed c m b t now l crashed = raised
proceed c m b t now l (passed (p, quantity)) = claim_and_place c m b t p quantity now l

-- `submit`
unfoldable pub submit :
    Strategy → Market → Book → List Sibling → Ticket → ℕ → Ledger → Result Submission
submit c m b siblings t now l = proceed c m b t now l (terms c m b siblings t now l.desk)
