-- ===== src/Paper/Aggressive.antt =====
-- src/btc15/execution.py: `_aggressive` and `aggressive`, an order against the asks of a book.
use project.Common.{
  ℕ, ◌+◌, ◌*◌, Bool, true, false, ◌&&◌, ◌||◌, not, if◌then◌else◌, ltb, leb, ◌==◌, Option, none,
  some, List, [], ◌∷◌,
}
use project.Strategy.{Strategy, entry_cutoff}
use project.Market.{Band, Market, tradable, valid_tick}
use project.Paper.{
  PaperOrder, Desk, Result, ok, raised, interrupted, ◌>>=◌, cancel, fill_at, is_active,
}

-- An ask of the book, its size cut down to hundredths.
pub record Offer : Type 0 where
  pub price : ℕ
  pub quantity : ℕ

-- What the loop of `_aggressive` ends with: the desk, and whether the method has returned.
pub record Matched : Type 0 where
  pub desk : Desk
  pub returned : Bool

abbrev pub return_after : Result Desk → Result Matched
return_after r = r >>= λ d. ok (record { desk = d; returned = true })

-- The loop over the asks, of an order with the given limit.
unfoldable pub match_offers : Strategy → List Band → ℕ → ℕ → List Offer → Desk → Result Matched
match_offers c bands limit now [] d = ok (record { desk = d; returned = false })
match_offers c bands limit now (a ∷ rest) d =
    let go_on = λ (d' : Desk). match_offers c bands limit now rest d' in
    if ltb limit a.price
    then ok (record { desk = d; returned = false })
    else if not (valid_tick bands a.price)
    then return_after (cancel now d)
    else if a.quantity == 0
    then go_on d
    else fill_at c d.order a.quantity a.price c.taker_fee_rate now d >>= λ f.
        if f.refused
        then (if c.full_position_execution
            then interrupted
            else ok (record { desk = f.desk; returned = true }))
        else if not (is_active f.desk.order)
        then ok (record { desk = f.desk; returned = false })
        else go_on f.desk

-- The full-size check: a tick off the grid within the limit, and the size within the limit.
unfoldable pub has_bad_tick : List Band → ℕ → List Offer → Bool
has_bad_tick bands limit [] = false
has_bad_tick bands limit (a ∷ rest) =
    not (ltb limit a.price) && (not (valid_tick bands a.price) || has_bad_tick bands limit rest)

unfoldable pub available : List Band → ℕ → List Offer → ℕ
available bands limit [] = 0
available bands limit (a ∷ rest) =
    (if leb a.price limit && valid_tick bands a.price then a.quantity else 0)
    + available bands limit rest

-- The state of the book that `_aggressive` looks at.
pub record Quotes : Type 0 where
  pub valid : Bool
  pub received : ℕ
  pub source_time : ℕ
  pub asks : List Offer

-- The seven checks, all of which must pass.
unfoldable pub may_execute : Strategy → Market → Quotes → ℕ → Desk → Bool
may_execute c m b now d =
    b.valid
    && (leb b.received now && leb now (b.received + c.book_max_age))
    && (leb b.source_time (now + c.max_clock_skew) && leb now (b.source_time + c.book_max_age))
    && tradable m now
    && ltb (now + entry_cutoff c * 1000) m.close_time
    && not d.risk.halted
    && not d.quarantined

abbrev pub cancel_remainder : ℕ → Matched → Result Desk
cancel_remainder now r =
    if r.returned
    then ok r.desk
    else if is_active r.desk.order
    then cancel now r.desk
    else ok r.desk

-- The matching of an order that passed the checks.
unfoldable pub execute : Strategy → Market → Quotes → PaperOrder → ℕ → Desk → Result Desk
execute c m b o now d =
    if c.full_position_execution && has_bad_tick m.price_ranges o.limit b.asks
    then cancel now d
    else if c.full_position_execution && ltb (available m.price_ranges o.limit b.asks) o.remaining
    then cancel now d
    else match_offers c m.price_ranges o.limit now b.asks d >>= cancel_remainder now

-- `_aggressive` of the order at the desk
unfoldable pub aggressive_order : Strategy → Market → Quotes → PaperOrder → ℕ → Desk → Result Desk
aggressive_order c m b o now d =
    if c.passive || not o.active || ltb now o.eligible || d.paused || d.pending_reference
    then ok d
    else if not (may_execute c m b now d)
    then cancel now d
    else execute c m b o now d

-- `aggressive`: an interrupted full entry is rolled back, then cancelled.
abbrev pub rolled_back : ℕ → Desk → Result Desk → Result Desk
rolled_back now d (ok d') = ok d'
rolled_back now d raised = raised
rolled_back now d interrupted = cancel now d

abbrev pub aggressive_from : Strategy → Market → Quotes → Option PaperOrder → ℕ → Desk → Result Desk
aggressive_from c m b none now d = ok d
aggressive_from c m b (some o) now d = rolled_back now d (aggressive_order c m b o now d)

unfoldable pub aggressive : Strategy → Market → Quotes → ℕ → Desk → Result Desk
aggressive c m b now d = aggressive_from c m b d.order now d
