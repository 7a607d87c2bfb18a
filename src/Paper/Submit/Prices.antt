-- ===== src/Paper/Submit/Prices.antt =====
-- What the gates and the prices of `submit` have made sure of.
use project.Common.{
  ℕ, ◌+◌, ◌-◌, ◌*◌, ◌≤◌, ◌≡◌, refl, ap, ◌∙◌, ◌||◌, ◌&&◌, Bool, true, false, leb, Option, none, some,
  List, [], ◌∷◌, arith,
}
use project.Fees.{micro}
use project.Strategy.{Strategy, probability_floor}
use project.Market.{Market, valid_tick}
use project.Book.{Book, Side}
use project.Entry.Signal
use project.Paper.Submit

-- Gates that are all okay.
abbrev pub Okay : List (Submit.Rejection × Bool) → Type 0
Okay [] = Unit
Okay ((r, okay) ∷ rest) = (okay ≡ true) × Okay rest

pub gates-Okay :
    {A : Type 0} (xs : List (Submit.Rejection × Bool)) (a : A) {b : A}
    → Submit.gates xs a ≡ Submit.passed b
    → Okay xs × (a ≡ b)
gates-Okay [] a h = (tt, ground arith)
gates-Okay ((r, true) ∷ xs) a h = let (rest, e) = gates-Okay xs a h in ((refl, rest), e)
gates-Okay ((r, false) ∷ xs) a h = absurd (ground arith)

pub need-some :
    {A : Type 0} (r : Submit.Rejection) (o : Option A) {a : A}
    → Submit.need r o ≡ Submit.passed a
    → o ≡ some a
need-some r none h = absurd (ground arith)
need-some r (some x) h = ground arith

pub step-passed :
    {A B : Type 0} (x : Submit.Step A) (f : A → Submit.Step B) {b : B}
    → Submit.◌&>◌ x f ≡ Submit.passed b
    → (a : A) × (x ≡ Submit.passed a) × (f a ≡ Submit.passed b)
step-passed (Submit.passed a) f h = (a, refl, h)
step-passed (Submit.rejected r) f h = absurd (ground arith)
step-passed Submit.crashed f h = absurd (ground arith)

-- The prices on which an entry goes ahead: the side is the candidate's, the ask and the bid are the
-- best of a valid book that was received in time, the probability is the candidate's after its cap,
-- and the limit is the price that the entry asks for.
pub record PricedWell (c : Strategy) (m : Market) (b : Book) (t : Submit.Ticket) (now : ℕ)
    (p : Submit.Priced) : Type 0 where
  pub book_valid : b.valid ≡ true
  pub book_in_time : (b.received ≤ now) × (now ≤ b.received + c.book_max_age)
  pub of_side : t.side ≡ some p.side
  pub best_ask : (Signal.top_of b p.side).ask ≡ some p.ask
  pub bid : ℕ
  pub best_bid : (Signal.top_of b p.side).bid ≡ some bid
  pub of_candidate :
      Signal.capped_confidence t.premium
        (Signal.valid_or_none t.conservative)
        (some bid)
        (some p.ask)
      ≡ some p.conservative
  pub of_limit : Submit.entry_price c m bid p.ask p.conservative ≡ some p.limit
  pub ask_least : c.min_entry_price ≤ p.ask
  pub ask_most : p.ask ≤ c.max_entry_price
  pub confident :
      probability_floor c (Signal.is_late c (m.close_time - now)) (some (m.close_time - now))
        * micro
      ≤ p.conservative
  pub worth_ask : Submit.leaves_edge c p.conservative c.slippage p.ask ≡ true
  pub on_tick : valid_tick m.price_ranges p.limit ≡ true
  pub worth_limit :
      (c.passive || (leb p.ask p.limit && Submit.leaves_edge c p.conservative 0 p.limit)) ≡ true

record Confident (c : Strategy) (t : Submit.Ticket) (remaining bid ask p : ℕ) : Type 0 where
  pub floor : probability_floor c (Signal.is_late c remaining) (some remaining) * micro ≤ p
  pub worth : Submit.leaves_edge c p c.slippage ask ≡ true
  pub after_cap :
      Signal.capped_confidence t.premium (Signal.valid_or_none t.conservative) (some bid) (some ask)
      ≡ some p

confidence-Confident :
    (c : Strategy) (t : Submit.Ticket) (remaining bid ask : ℕ) {p : ℕ}
    → Submit.confidence c t remaining bid ask ≡ Submit.passed p
    → Confident c t remaining bid ask p
unfolding Submit.confidence
confidence-Confident c t remaining bid ask {p} h =
    let (q, g0, h1) =
      step-passed (Submit.need Submit.invalid_probability (Signal.valid_or_none t.conservative))
        (Submit.capped c t remaining bid ask) h in
    let valid = need-some Submit.invalid_probability (Signal.valid_or_none t.conservative) g0 in
    let (x, g1, h2) =
      step-passed
        (Submit.need Submit.min_probability_recheck
          (Signal.capped_confidence t.premium (some q) (some bid) (some ask)))
        (Submit.checked c remaining ask) h1 in
    let cap =
      need-some Submit.min_probability_recheck
        (Signal.capped_confidence t.premium (some q) (some bid) (some ask)) g1 in
    let ((floor, (worth, last)), e) =
      gates-Okay (Submit.probability_gates c remaining ask x) x h2 in
    let made : Confident c t remaining bid ask x = record {
      floor = ground arith;
      worth = worth;
      after_cap = ap (λ o. Signal.capped_confidence t.premium o (some bid) (some ask)) valid ∙ cap;
    } in
    simp e at made

-- What the book gave before the probability is looked at.
record Quoted (c : Strategy) (b : Book) (t : Submit.Ticket) (now : ℕ) (side : Side) (ask bid : ℕ)
    : Type 0 where
  pub valid : b.valid ≡ true
  pub in_time : (b.received ≤ now) × (now ≤ b.received + c.book_max_age)
  pub sided : t.side ≡ some side
  pub asked : (Signal.top_of b side).ask ≡ some ask
  pub offered : (Signal.top_of b side).bid ≡ some bid
  pub between : (leb c.min_entry_price ask && leb ask c.max_entry_price) ≡ true

at_bid-PricedWell :
    (c : Strategy) (m : Market) (b : Book) (t : Submit.Ticket) (now : ℕ) (side : Side) (ask bid : ℕ)
    {p : Submit.Priced}
    → Quoted c b t now side ask bid
    → Submit.at_bid c m t now side ask bid ≡ Submit.passed p
    → PricedWell c m b t now p
unfolding Submit.at_bid
at_bid-PricedWell c m b t now side ask bid {p} quoted h =
    let (q, g, h1) =
      step-passed (Submit.confidence c t (m.close_time - now) bid ask)
        (Submit.at_probability c m side ask bid) h in
    let sure = confidence-Confident c t (m.close_time - now) bid ask g in
    let (limit, g1, h2) =
      step-passed (Submit.need Submit.unsupported_entry_tick (Submit.entry_price c m bid ask q))
        (Submit.at_limit c m side ask q) h1 in
    let ((tick, (edge, _)), e) = gates-Okay (Submit.limit_gates c m ask q limit) _ h2 in
    let between = quoted.between in
    let made : PricedWell c m b t now
        (record { side = side; ask = ask; conservative = q; limit = limit }) =
      record {
        book_valid = quoted.valid;
        book_in_time = quoted.in_time;
        of_side = quoted.sided;
        best_ask = quoted.asked;
        bid = bid;
        best_bid = quoted.offered;
        of_candidate = sure.after_cap;
        of_limit = need-some Submit.unsupported_entry_tick (Submit.entry_price c m bid ask q) g1;
        ask_least = ground arith;
        ask_most = ground arith;
        confident = sure.floor;
        worth_ask = sure.worth;
        on_tick = tick;
        worth_limit = edge;
      } in
    simp e at made

pub price_entry-PricedWell :
    (c : Strategy) (m : Market) (b : Book) (t : Submit.Ticket) (now : ℕ) {p : Submit.Priced}
    → Submit.price_entry c m b t now ≡ Submit.passed p
    → PricedWell c m b t now p
unfolding Submit.price_entry
price_entry-PricedWell c m b t now {p} h =
    let (side, g0, h1) =
      step-passed (Submit.need Submit.invalid_side t.side) (Submit.at_side c m b t now) h in
    let (top, g1, h2) =
      step-passed (Submit.gates (Submit.book_gates c b now) (Signal.top_of b side))
        (Submit.at_top c m t now side) h1 in
    let ((valid, (timely, _)), same) = gates-Okay (Submit.book_gates c b now) _ g1 in
    let (ask, g2, h3) =
      step-passed (Submit.need Submit.no_ask top.ask) (Submit.at_quotes c m t now side top.bid)
        h2 in
    let (bid, g3, h4) =
      step-passed
        (Submit.◌&>◌ (Submit.gates (Submit.ask_gates c ask) top.bid) (Submit.need Submit.no_bid))
        (Submit.at_bid c m t now side ask) h3 in
    let (bid', g4, h5) =
      step-passed (Submit.gates (Submit.ask_gates c ask) top.bid) (Submit.need Submit.no_bid) g3 in
    let ((between, _), here) = gates-Okay (Submit.ask_gates c ask) _ g4 in
    at_bid-PricedWell c m b t now side ask bid
      (record {
        valid = valid;
        in_time = (ground (arith, timely), ground (arith, timely));
        sided = need-some Submit.invalid_side t.side g0;
        asked = ap (λ x. x.ask) same ∙ need-some Submit.no_ask top.ask g2;
        offered = ap (λ x. x.bid) same ∙ here ∙ need-some Submit.no_bid bid' h5;
        between = between;
      })
      h4
