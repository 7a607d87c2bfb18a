-- ===== src/Paper/Submit/Accepted.antt =====
-- How `submit` ends: refused, with nothing changed, or with an order placed and reserved.
use project.Common.{
  ℕ, ◌+◌, ◌*◌, ◌≤◌, ◌≡◌, refl, any, max, Bool, true, false, Option, none, some, List, ◌∷◌, arith,
  Bool-cases, inl, inr, not_taken, scale,
}
use project.Fees.{micro}
use project.Strategy.{Strategy}
use project.Risk
use project.Risk.Exposure.{Reserved, reserve-Reserved}
use project.Market.{Market, valid_tick}
use project.Book.{Book}
use project.Lifecycle.{MarketState, evaluating, trade_candidate, order_pending, transition}
use project.Paper.{PaperOrder, Desk, Result, ok, ◌>>=◌, enter, retry_ready, reentry_ready}
use project.Paper.Matching.{bind-ok}
use project.Paper.Submit
use project.Paper.Submit.Prices.{PricedWell}
use project.Paper.Submit.Terms.{Agreed, terms-Agreed}

enter-state :
    (s : MarketState) (d : Desk) {d' : Desk} → enter s d ≡ ok d' → d' ≡ record d { state = some s }
unfolding enter transition
enter-state s d {d'} h = ground arith

announce-pending :
    (retry : Bool) (d : Desk) {d' : Desk}
    → Submit.announce retry d ≡ ok d'
    → d' ≡ record d { state = some order_pending }
announce-pending false d {d'} h = enter-state order_pending d h
announce-pending true d {d'} h =
    let (d2, g, h1) =
      bind-ok (enter evaluating d >>= enter trade_candidate) (enter order_pending) h in
    let (d1, g1, h2) = bind-ok (enter evaluating d) (enter trade_candidate) g in
    let e1 = enter-state evaluating d g1 in
    let e2 = enter-state trade_candidate d1 h2 in
    let e3 = enter-state order_pending d2 h1 in simp (e1, e2) at e3

-- What is at the desk once the order is placed, before any matching.
abbrev pub placed : Risk.Risk → PaperOrder → Desk → Desk
placed r o d = record d { risk = r; order = some o; state = some order_pending }

with_risk-some :
    (o : Option Risk.Risk) (f : Risk.Risk → Result Desk) {d : Desk}
    → Submit.with_risk o f ≡ ok d
    → (r : Risk.Risk) × (o ≡ some r) × (f r ≡ ok d)
with_risk-some none f h = absurd (ground arith)
with_risk-some (some r) f h = (r, refl, h)

place-placed :
    (c : Strategy) (m : Market) (b : Book) (o : PaperOrder) (retry : Bool) (price quantity now : ℕ)
    (d : Desk) {d' : Desk}
    → Submit.place c m b o retry price quantity now d ≡ ok d'
    → (r : Risk.Risk) × (Risk.reserve c d.risk d.ticker price quantity now ≡ some r)
      × (Submit.match_now c m b o.side now (placed r o d) ≡ ok d')
unfolding Submit.place
place-placed c m b o retry price quantity now d {d'} h =
    let (d1, g, h1) =
      bind-ok
        (Submit.with_risk (Risk.reserve c d.risk d.ticker price quantity now)
          (λ r. Submit.announce retry (record d { risk = r; order = some o })))
        (Submit.match_now c m b o.side now) h in
    let (r, e, g1) =
      with_risk-some (Risk.reserve c d.risk d.ticker price quantity now)
        (λ r. Submit.announce retry (record d { risk = r; order = some o })) g in
    (r, e, simp (announce-pending retry (record d { risk = r; order = some o }) g1) at h1)

-- An accepted submission: the terms it was accepted on, the claim and the reservation, and the
-- matching of the placed order.
pub record Accepted (c : Strategy) (m : Market) (b : Book) (siblings : List Submit.Sibling)
    (t : Submit.Ticket) (now : ℕ) (l : Submit.Ledger) (l' : Submit.Ledger) : Type 0 where
  pub price : Submit.Priced
  pub quantity : ℕ
  pub order : PaperOrder
  pub risk : Risk.Risk
  pub claim : Submit.Claim
  pub agreed : Agreed c m b siblings t now l.desk price quantity
  pub order_terms :
      (order.side ≡ price.side)
      × (order.limit ≡ price.limit)
      × (order.quantity ≡ quantity * 100)
      × (order.remaining ≡ quantity * 100)
      × (order.eligible ≡ now + c.latency)
  pub reserved :
      Reserved c l.desk.risk risk l.desk.ticker quantity
        (scale quantity (Risk.cost_per_contract c (max price.limit price.ask)))
        now
  pub claim_ticker : claim.ticker ≡ l.desk.ticker
  pub fresh_claim : any (Submit.same_claim claim) l.claims ≡ false
  pub claims_after : l'.claims ≡ claim ∷ l.claims
  pub matched : Submit.match_now c m b order.side now (placed risk order l.desk) ≡ ok l'.desk

-- How `submit` ends: refused, with the ledger as it was, or accepted.
pub data Ending (c : Strategy) (m : Market) (b : Book) (siblings : List Submit.Sibling)
    (t : Submit.Ticket) (now : ℕ) (l : Submit.Ledger) (r : Submit.Submission) : Type 0 where
  refused :
      (why : Submit.Rejection)
      → r ≡ record { ledger = l; rejection = some why }
      → Ending c m b siblings t now l r
  accepted :
      r.rejection ≡ none
      → Accepted c m b siblings t now l r.ledger
      → Ending c m b siblings t now l r

max-small :
    (c : Strategy) (m : Market) (b : Book) (t : Submit.Ticket) (now : ℕ) (p : Submit.Priced)
    → c.max_entry_price ≤ micro
    → PricedWell c m b t now p
    → max p.limit p.ask ≤ micro
unfolding valid_tick
max-small c m b t now p small h = let tick = h.on_tick in let most = h.ask_most in ground arith

ended :
    (c : Strategy) (m : Market) (b : Book) (siblings : List Submit.Sibling) (t : Submit.Ticket)
    (now : ℕ) (l : Submit.Ledger) {l' : Submit.Ledger} {r : Submit.Submission}
    → Accepted c m b siblings t now l l'
    → ok (record { ledger = l'; rejection = none }) ≡ ok r
    → Ending c m b siblings t now l r
ended c m b siblings t now l {l'} {r} h e =
    let same : record { ledger = l'; rejection = none } ≡ r = ground arith in
    let made : Ending c m b siblings t now l (record { ledger = l'; rejection = none }) =
      accepted refl h in
    simp same at made

claim_and_place-Ending :
    (c : Strategy) (m : Market) (b : Book) (siblings : List Submit.Sibling) (t : Submit.Ticket)
    (p : Submit.Priced) (q now : ℕ) (l : Submit.Ledger) {r : Submit.Submission}
    → c.max_entry_price ≤ micro
    → Agreed c m b siblings t now l.desk p q
    → Submit.claim_and_place c m b t p q now l ≡ ok r
    → Ending c m b siblings t now l r
unfolding Submit.claim_and_place Submit.new_order
claim_and_place-Ending c m b siblings t p q now l {r} small agreed h =
    let d = l.desk in
    let retry = retry_ready c d now in
    let attempt = Submit.attempt_of retry d.order in
    let cycle = Submit.cycle_of retry (reentry_ready c d now) d.order in
    let claim = Submit.claim_of d.ticker retry attempt cycle in
    let o = Submit.new_order c b t p q attempt cycle now in
    elim (Bool-cases (any (Submit.same_claim claim) l.claims)) [
      | inl taken ↦ refused Submit.entry_already_claimed (ground arith)
      | inr free ↦
          let (d', g, e) =
            bind-ok (Submit.place c m b o retry (max p.limit p.ask) q now d)
              (λ d1. ok (record {
                ledger = record {
                  desk = d1;
                  claims = claim ∷ l.claims;
                  contract = Submit.pinned l.contract m;
                };
                rejection = none;
              }))
              (not_taken (any (Submit.same_claim claim) l.claims) _ _ free h) in
          let (risk, e1, matched) = place-placed c m b o retry (max p.limit p.ask) q now d g in
          let limit_small = max-small c m b t now p small agreed.priced in
          let made : Accepted c m b siblings t now l (record {
            desk = d';
            claims = claim ∷ l.claims;
            contract = Submit.pinned l.contract m;
          }) =
            record {
              price = p;
              quantity = q;
              order = o;
              risk = risk;
              claim = claim;
              agreed = agreed;
              order_terms = (refl, refl, refl, refl, refl);
              reserved =
                  reserve-Reserved c d.risk d.ticker (max p.limit p.ask) q now limit_small e1;
              claim_ticker = refl;
              fresh_claim = free;
              claims_after = refl;
              matched = matched;
            } in
          ended c m b siblings t now l made e
    ]

submit_from-Ending :
    (c : Strategy) (m : Market) (b : Book) (siblings : List Submit.Sibling) (t : Submit.Ticket)
    (now : ℕ) (l : Submit.Ledger) (s : Submit.Step Submit.Terms) {r : Submit.Submission}
    → c.max_entry_price ≤ micro
    → Submit.terms c m b siblings t now l.desk ≡ s
    → Submit.proceed c m b t now l s ≡ ok r
    → Ending c m b siblings t now l r
submit_from-Ending c m b siblings t now l (Submit.rejected why) small e h =
    refused why (ground arith)
submit_from-Ending c m b siblings t now l Submit.crashed small e h = absurd (ground arith)
submit_from-Ending c m b siblings t now l (Submit.passed (p, q)) small e h =
    claim_and_place-Ending c m b siblings t p q now l small
      (terms-Agreed c m b siblings t now l.desk e) h

-- Where max_entry_price is at most a dollar and `submit` returns: either it refused, and the desk,
-- the claims and the contract are as they were; or every check had succeeded. The collector, the
-- venue and the reference block nothing, the strategy is enabled, the limits of trades are not
-- reached, the market is tradable in the entry window, the lead holds, and the ticket is an
-- authorized candidate; there is no position, and no order but one that may be retried or followed.
-- The ask and the bid are the best of a valid book received in time on the candidate's side; the
-- ask is between the configured prices; the candidate's probability after its cap is at least its
-- floor and leaves the required edge at the ask; the limit is the price asked for, a valid tick,
-- and, unless passive, at least the ask, with that edge left at it. The size is the positive one
-- that the portfolio grants, the full one where that is required. The claim is new and recorded;
-- the reservation of the whole order at the higher of limit and ask is within the limits of the
-- portfolio; and the desk is that with the order placed, its state order_pending, after the
-- matching, which only an order without latency has at once.
pub submit-Ending :
    (c : Strategy) (m : Market) (b : Book) (siblings : List Submit.Sibling) (t : Submit.Ticket)
    (now : ℕ) (l : Submit.Ledger) {r : Submit.Submission}
    → c.max_entry_price ≤ micro
    → Submit.submit c m b siblings t now l ≡ ok r
    → Ending c m b siblings t now l r
unfolding Submit.submit
submit-Ending c m b siblings t now l {r} small h =
    submit_from-Ending c m b siblings t now l (Submit.terms c m b siblings t now l.desk) small refl
      h
