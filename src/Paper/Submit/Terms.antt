-- ===== src/Paper/Submit/Terms.antt =====
-- The terms of an entry: what the gates and the sizing of `submit` have made sure of.
use mathlib.Core.Path.{subst}
use project.Common.{
  ℕ, ◌+◌, ◌-◌, ◌*◌, ◌≤◌, ◌<◌, ◌≡◌, ◌||◌, not, max, true, false, ◌==◌, List, [], ◌∷◌, arith, sym,
}
use project.Strategy.{Strategy, entry_cutoff}
use project.Risk
use project.Market.{Market, tradable}
use project.Book.{Book}
use project.Paper.{
  Desk, is_some, post_close_ready, market_trade_limit_reached, retry_ready, reentry_ready,
}
use project.Paper.Submit
use project.Paper.Submit.Prices.{Okay, gates-Okay, step-passed, PricedWell, price_entry-PricedWell}

-- What stands before the price is looked at, and that the desk may make another attempt.
pub record Clear (c : Strategy) (m : Market) (t : Submit.Ticket) (siblings : List Submit.Sibling)
    (now : ℕ) (d : Desk) : Type 0 where
  pub collecting : d.collector_paused ≡ false
  pub up_to_date : d.pending_reference ≡ false
  pub enabled : c.enabled ≡ true
  pub may_trade : market_trade_limit_reached c d ≡ false
  pub room : Submit.event_has_room c d siblings ≡ true
  pub cooled : post_close_ready c d now ≡ true
  pub not_quarantined : d.quarantined ≡ false
  pub not_paused : d.paused ≡ false
  pub candidate : t.is_candidate ≡ true
  pub authorized : t.freshness_ok ≡ true
  pub tradable_now : tradable m now ≡ true
  pub before_cutoff : now + entry_cutoff c * 1000 < m.close_time
  pub inside_window : m.close_time ≤ now + c.entry_window_start * 1000
  pub led : Submit.lead_holds c t (m.close_time - now) ≡ true
  pub no_position : is_some d.position ≡ false
  pub may_attempt : (not (is_some d.order) || retry_ready c d now || reentry_ready c d now) ≡ true

pub record Agreed (c : Strategy) (m : Market) (b : Book) (siblings : List Submit.Sibling)
    (t : Submit.Ticket) (now : ℕ) (d : Desk) (p : Submit.Priced) (quantity : ℕ) : Type 0 where
  pub clear : Clear c m t siblings now d
  pub priced : PricedWell c m b t now p
  pub whole : (not c.full_position_execution || quantity == c.fixed_contracts) ≡ true
  pub some_contracts : 1 ≤ quantity
  pub granted : (Risk.size_details c d.risk (max p.limit p.ask) now).quantity ≡ quantity

entry_gates-Clear :
    (c : Strategy) (m : Market) (t : Submit.Ticket) (siblings : List Submit.Sibling) (now : ℕ)
    (d : Desk)
    → Okay (Submit.entry_gates c m d siblings t now)
    → is_some d.position ≡ false
    → (not (is_some d.order) || retry_ready c d now || reentry_ready c d now) ≡ true
    → Clear c m t siblings now d
unfolding Submit.entry_gates
entry_gates-Clear c m t siblings now d
      (a1, (a2, (a3, (a4, (a5, (a6, (a7, (a8, (a9, (a10, (a11, (a12, (a13, last)))))))))))))
      none_held ready =
    record {
      collecting = ground arith;
      up_to_date = ground arith;
      enabled = a3;
      may_trade = ground arith;
      room = a5;
      cooled = a6;
      not_quarantined = ground arith;
      not_paused = ground arith;
      candidate = a9;
      authorized = a10;
      tradable_now = a11;
      before_cutoff = ground arith;
      inside_window = ground arith;
      led = a13;
      no_position = none_held;
      may_attempt = ready;
    }

-- A size that was accepted.
record Sized (c : Strategy) (d : Desk) (p : Submit.Priced) (now q : ℕ) : Type 0 where
  pub full : (not c.full_position_execution || q == c.fixed_contracts) ≡ true
  pub least : 1 ≤ q
  pub same : (Risk.size_details c d.risk (max p.limit p.ask) now).quantity ≡ q

funded-quantity :
    (s : Risk.SizeDetails) {q : ℕ} → Submit.funded s ≡ Submit.passed q → (1 ≤ q) × (s.quantity ≡ q)
funded-quantity s {q} h = (ground (arith, h), ground (arith, h))

size_entry-Sized :
    (c : Strategy) (d : Desk) (p : Submit.Priced) (now : ℕ) {q : ℕ}
    → Submit.size_entry c d p now ≡ Submit.passed q
    → Sized c d p now q
unfolding Submit.size_entry
size_entry-Sized c d p now {q} h =
    let s = Risk.size_details c d.risk (max p.limit p.ask) now in
    let (n, g, h1) = step-passed (Submit.funded s) (Submit.full_size c) h in
    let (least, same) = funded-quantity s g in
    let ((whole, last), e) =
      gates-Okay
        ((Submit.full_size_required, not c.full_position_execution || n == c.fixed_contracts) ∷ [])
        n h1 in
    let made : Sized c d p now n = record { full = whole; least = least; same = same } in
    simp e at made

at_size-same :
    (p0 p : Submit.Priced) (n q : ℕ)
    → Submit.at_size p0 n ≡ Submit.passed (p, q)
    → (p0 ≡ p) × (n ≡ q)
at_size-same p0 p n q h = (ground arith, ground arith)

at_price-Sized :
    (c : Strategy) (now : ℕ) (d : Desk) (p0 : Submit.Priced) {p : Submit.Priced} {q : ℕ}
    → Submit.at_price c now d p0 ≡ Submit.passed (p, q)
    → (p0 ≡ p)
      × (is_some d.position ≡ false)
      × ((not (is_some d.order) || retry_ready c d now || reentry_ready c d now) ≡ true)
      × Sized c d p0 now q
unfolding Submit.at_price Submit.at_attempt
at_price-Sized c now d p0 {p} {q} h =
    let (d', g, h1) =
      step-passed (Submit.gates (Submit.attempt_gates c d now) d) (Submit.at_attempt c now p0) h in
    let ((held, (ready, _)), same) = gates-Okay (Submit.attempt_gates c d now) d g in
    let (n, g2, h2) = step-passed (Submit.size_entry c d' p0 now) (Submit.at_size p0) h1 in
    let sized = size_entry-Sized c d' p0 now g2 in
    let (e, f) = at_size-same p0 p n q h2 in
    (e, ground (arith, held), ready, subst (λ x. Sized c x p0 now q) (sym same) (simp f at sized))

pub terms-Agreed :
    (c : Strategy) (m : Market) (b : Book) (siblings : List Submit.Sibling) (t : Submit.Ticket)
    (now : ℕ) (d : Desk) {p : Submit.Priced} {q : ℕ}
    → Submit.terms c m b siblings t now d ≡ Submit.passed (p, q)
    → Agreed c m b siblings t now d p q
unfolding Submit.terms Submit.at_entry
terms-Agreed c m b siblings t now d {p} {q} h =
    let (d', g, h1) =
      step-passed (Submit.gates (Submit.entry_gates c m d siblings t now) d)
        (Submit.at_entry c m b t now) h in
    let (okay, same) = gates-Okay (Submit.entry_gates c m d siblings t now) d g in
    let (p0, g2, h2) = step-passed (Submit.price_entry c m b t now) (Submit.at_price c now d') h1 in
    let (e, held, ready, sized) =
      at_price-Sized c now d p0 {p = p} {q = q}
        (subst (λ x. Submit.at_price c now x p0 ≡ Submit.passed (p, q)) (sym same) h2) in
    let size : Sized c d p now q = simp e at sized in
    record {
      clear = entry_gates-Clear c m t siblings now d okay held ready;
      priced = simp e at (price_entry-PricedWell c m b t now g2);
      whole = size.full;
      some_contracts = size.least;
      granted = size.same;
    }
