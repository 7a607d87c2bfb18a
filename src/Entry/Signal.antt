-- ===== src/Entry/Signal.antt =====
-- src/btc15/strategies/settlement_edge/rules.py: `evaluate`, the decision on a signal, and
-- `capped_confidence` of bleep.py beside it.
--
-- The time left is in milliseconds, 0 at and after the close, where no check tells more apart.
use project.Common.{
  ℕ, ◌+◌, ◌-◌, ◌*◌, min, max, Bool, true, false, ◌&&◌, ◌||◌, not, if◌then◌else◌, ltb, leb, ◌==◌,
  is_empty, map, Option, none, some, List, [], ◌∷◌, ◌++◌, ℤ, pos, pos_part, ◌-ℤ◌, leb_ℤ,
}
use project.Fees.{micro, pico, fee_bound}
use project.Strategy.{Strategy, entry_cutoff, probability_floor}
use project.Market.{Market, tradable}
use project.Book.{Book, Side, yes_side, no_side, bid, ask_level}
use project.Settlement.{Specification, favored}
use project.Entry.{effective_entry_ceiling}

-- The best prices of one side, and what stands at the ask.
pub record Top : Type 0 where
  pub bid : Option ℕ
  pub ask : Option ℕ
  pub liquidity : ℕ

abbrev pub price_of : Option ℤ → Option ℕ
price_of none = none
price_of (some p) = some (pos_part p)

-- The top of a book, whose valid prices are positive.
abbrev pub top_of : Book → Side → Top
top_of b side =
    let a = ask_level b side in
    record { bid = price_of (bid b side); ask = price_of a.price; liquidity = pos_part a.size }

abbrev pub no_top : Top
no_top = record { bid = none; ask = none; liquidity = 0 }

-- The middle of the quotes and a premium, held between 2 and 98 cents, in 10^-12.
abbrev pub confidence_cap : ℕ → ℕ → ℕ → ℕ
confidence_cap premium bid ask = min (98 * 10000000000) (
    max (2 * 10000000000)
      (min (99 * 10000000000) (max 10000000000 ((bid + ask) * 500000)) + premium))

abbrev pub capped_at : ℕ → ℕ → Option ℕ → Option ℕ → Option ℕ
capped_at premium probability (some bid) (some ask) =
    if leb bid micro && leb ask micro && leb bid ask
    then some (min probability (confidence_cap premium bid ask))
    else none
capped_at premium probability _ _ = none

-- `capped_confidence`; `premium` is none for an asset that has no cap.
unfoldable pub capped_confidence : Option ℕ → Option ℕ → Option ℕ → Option ℕ → Option ℕ
capped_confidence premium none bid ask = none
capped_confidence none (some probability) bid ask = some probability
capped_confidence (some premium) (some probability) bid ask = capped_at premium probability bid ask

-- What the sustained-lead model says.
pub record Lead : Type 0 where
  pub side : Option Side
  pub sigma : ℤ
  pub confirmed_late : Bool
  pub confirmed_normal : Bool

-- Fresh bands and the reference, where all of them are there.
pub record Extension : Type 0 where
  pub lower : ℕ
  pub upper : ℕ
  pub reference : ℕ

pub record Signal : Type 0 where
  pub spec : Specification
  pub tick : ℕ
  pub premium : Option ℕ
  pub probability : Side → Option ℕ
  pub lead : Option Lead
  pub quality_reasons : List ℕ
  pub quality_score : ℕ
  pub is_extreme : Bool
  pub extra_reasons : List ℕ
  pub bollinger : Option Extension

pub data Code : Type 0 where
  strategy_disabled market_open entry_window favored_side : Code
  lead_model settlement_lead lead_confirmation : Code
  model_quality min_price max_price min_probability min_edge min_ev liquidity regime : Code
  bollinger_extension : Code
  quality_reason extra_reason : ℕ → Code

abbrev pub Row : Type 0
Row = Code × Bool

-- `check` of each row in turn: the codes of those that are not okay
abbrev pub failed : List Row → List Code
failed [] = []
failed ((code, okay) ∷ rows) = if okay then failed rows else code ∷ failed rows

pub record Decision : Type 0 where
  pub candidate : Bool
  pub side : Option Side
  pub late : Bool
  pub reasons : List Code
  pub conservative : ℕ
  pub price : Option ℕ
  pub net_ev : Option ℤ
  pub ceiling : Option ℕ

abbrev pub is_late : Strategy → ℕ → Bool
is_late c remaining = c.late_entry_enabled && leb remaining (c.no_new_entry * 1000)

abbrev pub lead_side : Option Lead → Option Side
lead_side none = none
lead_side (some l) = l.side

abbrev pub side_of_path : Bool → Signal → Option Side
side_of_path late s = if late then lead_side s.lead else favored s.spec s.tick

abbrev pub top_at : (Side → Top) → Option Side → Top
top_at tops none = no_top
top_at tops (some side) = tops side

abbrev pub probability_at : Signal → Option Side → Option ℕ
probability_at s none = none
probability_at s (some side) = s.probability side

abbrev pub or_zero : Option ℕ → ℕ
or_zero none = 0
or_zero (some p) = p

abbrev pub or_ask : Option ℕ → Option ℕ → Option ℕ
or_ask none ask = ask
or_ask (some price) ask = some price

-- An IOC limit carries its slippage already.
abbrev pub slippage_of : Strategy → Option ℕ → ℕ
slippage_of c none = c.slippage
slippage_of c (some price) = if c.passive then c.slippage else 0

abbrev pub ev_at : Strategy → ℕ → ℕ → Option ℕ → Option ℤ
ev_at c conservative slippage none = none
ev_at c conservative slippage (some price) = some (
    pos conservative
    -ℤ pos (price * micro)
    -ℤ fee_bound price c.taker_fee_rate c.fee_balance_precision
    -ℤ pos (slippage * micro))

abbrev pub has_side : Option Side → Bool
has_side none = false
has_side (some side) = true

abbrev pub same_side : Option Side → Option Side → Bool
same_side none none = true
same_side (some yes_side) (some yes_side) = true
same_side (some no_side) (some no_side) = true
same_side _ _ = false

abbrev pub lead_agrees : Option Lead → Option Side → Bool
lead_agrees none side = false
lead_agrees (some l) side = same_side l.side side

abbrev pub lead_sigma : Option Lead → ℤ
lead_sigma none = pos 0
lead_sigma (some l) = l.sigma

abbrev pub is_confirmed : Bool → Option Lead → Bool
is_confirmed late none = false
is_confirmed late (some l) = if late then l.confirmed_late else l.confirmed_normal

abbrev pub lead_threshold : Strategy → Bool → ℕ
lead_threshold c late = if late then c.late_min_lead_sigma else c.min_lead_sigma

-- The rows under `if config.sustained_lead_enabled`.
unfoldable pub lead_rows : Strategy → Bool → Option Side → Option Lead → List Row
lead_rows c late side lead =
    if not c.sustained_lead_enabled
    then []
    else (lead_model, lead_agrees lead side)
      ∷ (
        settlement_lead,
        lead_threshold c late == 0 || leb_ℤ (pos (lead_threshold c late)) (lead_sigma lead),
      )
      ∷ (lead_confirmation, is_confirmed late lead)
      ∷ []

abbrev pub at_least_price : Option ℕ → ℕ → Bool
at_least_price none bound = false
at_least_price (some p) bound = leb bound p

abbrev pub at_most_price : Option ℕ → ℕ → Bool
at_most_price none bound = false
at_most_price (some p) bound = leb p bound

abbrev pub at_least_ev : Option ℤ → ℕ → Bool
at_least_ev none bound = false
at_least_ev (some ev) bound = leb_ℤ (pos (bound * micro)) ev

-- The rows under `if config.entry_value_filters_enabled`.
unfoldable pub value_rows : Strategy → Option ℤ → List Row
value_rows c ev =
    if not c.entry_value_filters_enabled
    then []
    else (min_edge, at_least_ev ev c.min_edge) ∷ (min_ev, at_least_ev ev c.min_ev) ∷ []

abbrev pub is_rejected : Option Extension → Option Side → Bool
is_rejected none side = false
is_rejected (some e) none = false
is_rejected (some e) (some yes_side) = ltb e.upper e.reference
is_rejected (some e) (some no_side) = ltb e.reference e.lower

unfoldable pub bollinger_rows : Strategy → Option Extension → Option Side → List Row
bollinger_rows c e side =
    if c.bollinger_entry_filter_enabled
    then (bollinger_extension, not (is_rejected e side)) ∷ []
    else []

-- A probability is valid from 0 to 1.
abbrev pub valid_or_none : Option ℕ → Option ℕ
valid_or_none none = none
valid_or_none (some p) = if leb p pico then some p else none

abbrev pub is_at_least : Option ℕ → ℕ → Bool
is_at_least none bound = false
is_at_least (some p) bound = leb bound p

abbrev pub ceiling_if : Option ℕ → Market → Strategy → Bool → ℕ → Option ℕ
ceiling_if none m c late remaining = none
ceiling_if (some p) m c late remaining = effective_entry_ceiling m p c late (some remaining)

-- The rows of `evaluate`, in the order of its checks.
unfoldable pub rows :
    Market
    → Signal
    → ℕ
    → Strategy
    → Bool
    → Option Side
    → Top
    → Option ℕ
    → Option ℕ
    → Option ℤ
    → List Row
rows m s now c late side top confidence price ev =
    let remaining = m.close_time - now in
    (strategy_disabled, c.enabled)
      ∷ (market_open, tradable m now)
      ∷ (
        entry_window,
        ltb (entry_cutoff c * 1000) remaining && leb remaining (c.entry_window_start * 1000),
      )
      ∷ (favored_side, has_side side)
      ∷ lead_rows c late side s.lead
    ++ (map (λ r. (quality_reason r, false)) s.quality_reasons
        ++ ((model_quality, leb c.min_quality s.quality_score)
              ∷ (min_price, at_least_price price c.min_entry_price)
              ∷ (max_price, at_most_price price c.max_entry_price)
              ∷ (
                min_probability,
                is_at_least confidence (probability_floor c late (some remaining) * micro),
              )
              ∷ value_rows c ev
            ++ ((liquidity, leb c.min_liquidity top.liquidity)
                  ∷ (regime, not s.is_extreme)
                  ∷ map (λ r. (extra_reason r, false)) s.extra_reasons
                ++ bollinger_rows c s.bollinger side)))

-- `evaluate`; `entry_price` is the price of a resting order, or none for the ask.
unfoldable pub evaluate : Market → (Side → Top) → Signal → ℕ → Strategy → Option ℕ → Decision
evaluate m tops s now c entry_price =
    let remaining = m.close_time - now in
    let late = is_late c remaining in
    let side = side_of_path late s in
    let top = top_at tops side in
    let confidence =
      valid_or_none (capped_confidence s.premium (probability_at s side) top.bid top.ask) in
    let price = or_ask entry_price top.ask in
    let ev = ev_at c (or_zero confidence) (slippage_of c entry_price) price in
    let reasons = failed (rows m s now c late side top confidence price ev) in
    record {
      candidate = is_empty reasons;
      side = side;
      late = late;
      reasons = reasons;
      conservative = or_zero confidence;
      price = price;
      net_ev = ev;
      ceiling = ceiling_if confidence m c late remaining;
    }
