-- ===== src/Entry/Checks.antt =====
-- What a signal that is a candidate has passed, and how its price stands to the ceiling.
use project.Common.{
  ℕ, ◌+◌, ◌-◌, ◌*◌, ◌≤◌, ◌<◌, ◌≡◌, max, Bool, true, false, Option, none, some, inl, inr, List, [],
  ◌∷◌, ◌++◌, if◌then◌else◌, not, ℤ, pos, negsuc, leb, ◌+ℤ◌, ◌-ℤ◌, leb_ℤ, arith, any, map,
  Bool-cases, refl, is_empty,
}
use project.Fees.{micro, fee_bound}
use project.Strategy.{Strategy, entry_cutoff, probability_floor}
use project.Market.{Market, tradable, on_grid}
use project.Book.{Side}
use project.Entry.{is_affordable}
use project.Entry.Ceiling.{Bands, effective_entry_ceiling-Best}
use project.Entry.Signal

-- Rows that are all okay.
abbrev pub Passed : List Signal.Row → Type 0
Passed [] = Unit
Passed ((code, okay) ∷ rows) = (okay ≡ true) × Passed rows

failed-Passed : (rows : List Signal.Row) → is_empty (Signal.failed rows) ≡ true → Passed rows
failed-Passed [] h = tt
failed-Passed ((code, true) ∷ rows) h = (refl, failed-Passed rows h)
failed-Passed ((code, false) ∷ rows) h = absurd (ground arith)

Passed-append : (xs ys : List Signal.Row) → Passed (xs ++ ys) → Passed xs × Passed ys
Passed-append [] ys h = (tt, h)
Passed-append ((code, okay) ∷ xs) ys (first, h) =
    let (front, back) = Passed-append xs ys h in ((first, front), back)

-- What the rows say of the time, the price, the probability and the value.
pub record Cleared (m : Market) (now : ℕ) (c : Strategy) (late : Bool) (confidence price : Option ℕ)
    (ev : Option ℤ) : Type 0 where
  pub enabled : c.enabled ≡ true
  pub open_now : tradable m now ≡ true
  pub before_cutoff : entry_cutoff c * 1000 < m.close_time - now
  pub inside_window : m.close_time - now ≤ c.entry_window_start * 1000
  pub not_cheap : Signal.at_least_price price c.min_entry_price ≡ true
  pub not_dear : Signal.at_most_price price c.max_entry_price ≡ true
  pub confident :
      Signal.is_at_least confidence (probability_floor c late (some (m.close_time - now)) * micro)
      ≡ true
  pub valuable : Passed (Signal.value_rows c ev)

rows-Cleared :
    (m : Market) (s : Signal.Signal) (now : ℕ) (c : Strategy) (late : Bool) (side : Option Side)
    (top : Signal.Top) (confidence price : Option ℕ) (ev : Option ℤ)
    → Passed (Signal.rows m s now c late side top confidence price ev)
    → Cleared m now c late confidence price ev
unfolding Signal.rows
rows-Cleared m s now c late side top confidence price ev (on, (opened, (window, (sided, h)))) =
    let (lead, h1) = Passed-append (Signal.lead_rows c late side s.lead) _ h in
    let (quality, (score, (cheap, (dear, (confident, h2))))) =
      Passed-append (map (λ r. (Signal.quality_reason r, false)) s.quality_reasons) _ h1 in
    let (value, h3) = Passed-append (Signal.value_rows c ev) _ h2 in
    record {
      enabled = on;
      open_now = opened;
      before_cutoff = ground arith;
      inside_window = ground arith;
      not_cheap = cheap;
      not_dear = dear;
      confident = confident;
      valuable = value;
    }

max_right : (x y : ℕ) → leb x y ≡ true → max x y ≡ y
max_right x y h = ground arith

max_left : (x y : ℕ) → leb x y ≡ false → max x y ≡ x
max_left x y h = ground arith

pos_value :
    (e p q s : ℕ) (f : ℤ)
    → leb_ℤ (pos e) (pos q -ℤ pos p -ℤ f -ℤ pos s) ≡ true
    → leb_ℤ (pos (e + p + s) +ℤ f) (pos q) ≡ true
unfolding ◌+ℤ◌ ◌-ℤ◌
pos_value e p q s (pos f) h = ground arith
pos_value e p q s (negsuc f) h = ground arith

max_value :
    (x y p q s : ℕ) (f : ℤ)
    → leb_ℤ (pos (x * micro)) (pos q -ℤ pos p -ℤ f -ℤ pos s) ≡ true
    → leb_ℤ (pos (y * micro)) (pos q -ℤ pos p -ℤ f -ℤ pos s) ≡ true
    → leb_ℤ (pos (max x y * micro + p + s) +ℤ f) (pos q) ≡ true
max_value x y p q s f hx hy = elim (Bool-cases (leb x y)) [
  | inl le ↦ simp (max_right x y le) (pos_value (y * micro) p q s f hy)
  | inr gt ↦ simp (max_left x y gt) (pos_value (x * micro) p q s f hx)
]

Passed-unless :
    (b : Bool) (rows : List Signal.Row)
    → b ≡ true
    → Passed (if not b then [] else rows)
    → Passed rows
Passed-unless true rows e h = h
Passed-unless false rows e h = absurd (ground arith)

-- A price whose net value passes both filters is affordable.
valuable-affordable :
    (c : Strategy) (conservative price : ℕ)
    → Passed (Signal.value_rows c (Signal.ev_at c conservative c.slippage (some price)))
    → is_affordable c conservative price ≡ true
unfolding is_affordable Signal.value_rows
valuable-affordable c conservative price h = elim (Bool-cases c.entry_value_filters_enabled) [
  | inl on ↦
      let (edge, (ev, last)) = Passed-unless c.entry_value_filters_enabled _ on h in
      let done =
        max_value c.min_edge c.min_ev (price * micro) conservative (c.slippage * micro)
          (fee_bound price c.taker_fee_rate c.fee_balance_precision) edge ev in
      simp (on, done)
  | inr off ↦ simp off
]

Cleared-at :
    (m : Market) (now : ℕ) (c : Strategy) (late : Bool) (confidence price : Option ℕ) (ask : ℕ)
    → price ≡ some ask
    → Cleared m now c late confidence price
        (Signal.ev_at c (Signal.or_zero confidence) c.slippage price)
    → Cleared m now c late confidence
        (some ask)
        (Signal.ev_at c (Signal.or_zero confidence) c.slippage (some ask))
Cleared-at m now c late confidence price ask e h = simp e at h

Cleared-ceiling :
    (m : Market) (now : ℕ) (c : Strategy) (late : Bool) (confidence : Option ℕ) (ask : ℕ)
    → Bands m.price_ranges
    → any (on_grid ask) m.price_ranges ≡ true
    → Cleared m now c late confidence
        (some ask)
        (Signal.ev_at c (Signal.or_zero confidence) c.slippage (some ask))
    → (p : ℕ) × (Signal.ceiling_if confidence m c late (m.close_time - now) ≡ some p)
      × (is_affordable c (Signal.or_zero confidence) p ≡ true)
      × (ask ≤ p)
Cleared-ceiling m now c late none ask bands on_tick h =
    let bad = h.confident in absurd (ground arith)
Cleared-ceiling m now c late (some q) ask bands on_tick h =
    let enough = h.confident in
    let cheap = h.not_cheap in
    let dear = h.not_dear in
    let best =
      effective_entry_ceiling-Best m q c late (some (m.close_time - now)) bands (ground arith) in
    let (p, found, more) =
      best.greatest ask (on_tick, ground arith, ground arith)
        (valuable-affordable c q ask h.valuable) in
    let (inside, good) = best.sound p found in (p, found, good, more)

-- Where a signal is a candidate at the ask, on bands of positive steps up to a dollar, and the ask
-- is a tick of a band: the strategy is enabled, the market is tradable, the time left is after the
-- cutoff and inside the window, the ask is between the configured prices, and the decision has a
-- ceiling, which is affordable for its probability and at least the ask.
pub evaluate-Candidate :
    (m : Market) (tops : Side → Signal.Top) (s : Signal.Signal) (now : ℕ) (c : Strategy) (ask : ℕ)
    → Bands m.price_ranges
    → any (on_grid ask) m.price_ranges ≡ true
    → (Signal.evaluate m tops s now c none).price ≡ some ask
    → (Signal.evaluate m tops s now c none).candidate ≡ true
    → (c.enabled ≡ true)
      × (tradable m now ≡ true)
      × (entry_cutoff c * 1000 < m.close_time - now)
      × (m.close_time - now ≤ c.entry_window_start * 1000)
      × (c.min_entry_price ≤ ask)
      × (ask ≤ c.max_entry_price)
      × ((p : ℕ) × ((Signal.evaluate m tops s now c none).ceiling ≡ some p)
          × (is_affordable c (Signal.evaluate m tops s now c none).conservative p ≡ true)
          × (ask ≤ p))
unfolding Signal.evaluate
evaluate-Candidate m tops s now c ask bands on_tick priced good =
    let late = Signal.is_late c (m.close_time - now) in
    let side = Signal.side_of_path late s in
    let top = Signal.top_at tops side in
    let confidence =
      Signal.valid_or_none
        (Signal.capped_confidence s.premium (Signal.probability_at s side) top.bid top.ask) in
    let h = rows-Cleared m s now c late side top confidence top.ask _ (failed-Passed _ good) in
    let at_ask : Cleared m now c late confidence (some ask)
        (Signal.ev_at c (Signal.or_zero confidence) c.slippage (some ask)) =
      Cleared-at m now c late confidence top.ask ask priced h in
    (
      h.enabled,
      h.open_now,
      h.before_cutoff,
      h.inside_window,
      ground arith,
      ground arith,
      Cleared-ceiling m now c late confidence ask bands on_tick at_ask,
    )
