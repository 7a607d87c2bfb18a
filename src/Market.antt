-- ===== src/Market.antt =====
-- src/btc15/domain.py: the price grid of a Market, `snap`, `valid_tick` and `tradable`.
--
-- Prices are whole numbers of millionths of a dollar; times are whole numbers of ticks of a clock.
pub mod Grid
mod Tests
use project.Common.{
  ℕ, ◌+◌, ◌-◌, ◌*◌, ◌/◌, ◌%◌, min, max, Bool, true, false, ◌&&◌, if◌then◌else◌, ltb, leb, ◌==◌, any,
  Option, none, some, List, [], ◌∷◌, ceil_div,
}
use project.Fees.{micro}

-- One entry of `price_ranges`.
pub record Band : Type 0 where
  pub start : ℕ
  pub end : ℕ
  pub step : ℕ

-- The status strings of the exchange that the code tells apart.
pub data Status : Type 0 where
  active other_status : Status

abbrev pub is_active : Status → Bool
is_active active = true
is_active other_status = false

pub record Market : Type 0 where
  pub ticker : ℕ
  pub open_time : ℕ
  pub close_time : ℕ
  pub status : Status
  pub price_ranges : List Band

-- `Market.tradable`
unfoldable pub tradable : Market → ℕ → Bool
tradable m now = is_active m.status && leb m.open_time now && ltb now m.close_time

-- The body of the loop of `snap`: the tick of one band that is nearest on the asked side.
unfoldable pub snap_band : ℕ → Bool → Band → Option ℕ
snap_band value up b =
    let bounded = min b.end (max b.start value) in
    let n = if up then ceil_div (bounded - b.start) b.step else (bounded - b.start) / b.step in
    let p = b.start + n * b.step in
    if ltb 0 p
      && ltb p micro
      && leb b.start p
      && leb p b.end
      && (if up then leb value p else leb p value)
    then some p
    else none

-- `min(candidates) if up else max(candidates)`, of the candidates so far and one more.
abbrev pub better : Bool → ℕ → Option ℕ → ℕ
better up p none = p
better true p (some q) = min p q
better false p (some q) = max p q

abbrev pub add_candidate : Bool → Option ℕ → Option ℕ → Option ℕ
add_candidate up none best = best
add_candidate up (some p) best = some (better up p best)

-- `Market.snap`; `none` is the ValueError.
unfoldable pub snap : List Band → ℕ → Bool → Option ℕ
snap [] value up = none
snap (b ∷ bands) value up = add_candidate up (snap_band value up b) (snap bands value up)

abbrev pub on_grid : ℕ → Band → Bool
on_grid price b = leb b.start price && leb price b.end && (price - b.start) % b.step == 0

-- `Market.valid_tick`
unfoldable pub valid_tick : List Band → ℕ → Bool
valid_tick bands price = any (on_grid price) bands && (ltb 0 price && ltb price micro)
