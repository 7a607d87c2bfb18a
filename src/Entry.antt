-- ===== src/Entry.antt =====
-- src/btc15/strategies/settlement_edge/rules.py: the largest price worth paying, the checks of a
-- signal and the price of a passive order.
--
-- Prices are millionths of a dollar; probabilities, and the differences of a probability and a
-- price, are 10^-12. What the models compute (probabilities, quality, the lead, the bands) is an
-- input. A probability that is missing, no number or outside [0, 1] is `none`.
pub mod Signal
pub mod Bisect
pub mod Cost
pub mod Tick
pub mod Ceiling
pub mod Checks
mod Tests
use project.Common.{
  ℕ, zero, suc, ◌+◌, ◌-◌, ◌*◌, ◌/◌, min, max, Bool, true, false, ◌&&◌, ◌||◌, not, if◌then◌else◌,
  ltb, leb, Option, none, some, List, [], ◌∷◌, ℤ, pos, ◌+ℤ◌, leb_ℤ, ceil_div,
}
use project.Fees.{micro, fee_bound}
use project.Strategy.{Strategy, probability_floor}
use project.Market.{Band, Market, snap}

-- `max(config.min_edge, config.min_ev)`
abbrev pub required_edge : Strategy → ℕ
required_edge c = max c.min_edge c.min_ev

-- `affordable` of a price
unfoldable pub is_affordable : Strategy → ℕ → ℕ → Bool
is_affordable c conservative price =
    not c.entry_value_filters_enabled
    || leb_ℤ
        (pos (required_edge c * micro + price * micro + c.slippage * micro)
          +ℤ fee_bound price c.taker_fee_rate c.fee_balance_precision)
        (pos conservative)

-- The loop `while low < high`, on fuel.
unfoldable pub bisect : (ℕ → Bool) → ℕ → ℕ → ℕ → ℕ
bisect ok zero low high = low
bisect ok (suc fuel) low high =
    let mid = (low + high + 1) / 2 in
    let rest = bisect ok fuel (if ok mid then mid else low) (if ok mid then high else mid - 1) in
    if ltb low high then rest else low

-- The search among the ticks from low to high of a band.
unfoldable pub search_ticks : (ℕ → Bool) → ℕ → ℕ → Option ℕ
search_ticks ok low high =
    if ltb high low
    then none
    else if ok high
    then some high
    else if not (ok low)
    then none
    else some (bisect ok (high - low) low high)

abbrev pub tick_price : Band → ℕ → ℕ
tick_price b n = b.start + n * b.step

abbrev pub tick_of : Band → Option ℕ → Option ℕ
tick_of b none = none
tick_of b (some n) = some (tick_price b n)

-- The candidate of one band.
unfoldable pub band_ceiling : Strategy → ℕ → Band → Option ℕ
band_ceiling c conservative b =
    let top = min b.end c.max_entry_price in
    if ltb top b.start
    then none
    else tick_of b (
        search_ticks (λ n. is_affordable c conservative (tick_price b n))
          (ceil_div (c.min_entry_price - b.start) b.step) ((top - b.start) / b.step))

-- `max(candidates)`, where there is one
abbrev pub larger : Option ℕ → Option ℕ → Option ℕ
larger none best = best
larger (some p) none = some p
larger (some p) (some q) = some (max p q)

unfoldable pub ceiling_of : Strategy → ℕ → List Band → Option ℕ
ceiling_of c conservative [] = none
ceiling_of c conservative (b ∷ bands) =
    larger (band_ceiling c conservative b) (ceiling_of c conservative bands)

-- `effective_entry_ceiling`
unfoldable pub effective_entry_ceiling : Market → ℕ → Strategy → Bool → Option ℕ → Option ℕ
effective_entry_ceiling m conservative c late remaining =
    if ltb conservative (probability_floor c late remaining * micro)
    then none
    else ceiling_of c conservative m.price_ranges

-- The discount of a passive order, in 10^-12.
abbrev pub passive_cut : Strategy → ℕ → ℕ → ℕ → ℕ
passive_cut c bid ask conservative = min (min (c.passive_discount * micro) ((ask - bid) * 500000)) (
    if c.entry_value_filters_enabled
    then conservative - (ask * micro + c.min_edge * micro)
    else c.passive_discount * micro)

-- `market.snap(ask - .0001)` where the first price is no better than the ask
abbrev pub below_ask : List Band → ℕ → Option ℕ → Option ℕ
below_ask bands ask none = none
below_ask bands ask (some price) =
    if leb ask price
    then (if ltb ask 100 then none else snap bands (ask - 100) false)
    else some price

abbrev pub at_least_bid : ℕ → Option ℕ → Option ℕ
at_least_bid bid none = none
at_least_bid bid (some price) = some (max bid price)

-- `passive_price`; `none` is the ValueError. A value between two millionths snaps down as the
-- lower of them does.
unfoldable pub passive_price : List Band → Option ℕ → Option ℕ → ℕ → Strategy → Option ℕ
passive_price bands none ask conservative c = none
passive_price bands (some bid) none conservative c = none
passive_price bands (some bid) (some ask) conservative c = at_least_bid bid (
    below_ask bands ask
      (snap bands ((ask * micro - passive_cut c bid ask conservative) / micro) false))
