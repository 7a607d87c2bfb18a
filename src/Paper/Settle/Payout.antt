-- ===== src/Paper/Settle/Payout.antt =====
-- What a settlement pays, and what it leaves.
use project.Common.{
  ℕ, ◌≡◌, refl, Bool, true, false, if◌then◌else◌, not_taken, Option, none, some, List, ◌∷◌, arith,
  Bool-cases, inl, inr, ◌∙◌, ap, sym, ℤ, pos, ◌+ℤ◌, ◌-ℤ◌, ◌+◌, ◌*◌,
}
use project.Fees.{micro}
use project.Risk
use project.Book.{Side}
use project.Lifecycle.{settlement_pending, closed}
use project.Paper.{Position, Desk, ok, ◌>>=◌, enter, cancel, lot}
use project.Paper.Matching.{bind-ok}
use project.Paper.Settle
use project.Paper.Settle.Same.{
  Kept, Kept-trans, Same, Same-at, Same-trans, cancel-Kept, enter-Kept, with_desk-ok,
}

-- What a settlement leaves: it is recorded and claimed, no position is there, and nothing is
-- quarantined or paused. A position was paid and booked, and without one no profit was.
abbrev pub winnings : Position → Side → ℕ
winnings p result = if Settle.same_result p.side result then p.quantity * lot * micro else 0

abbrev pub outcome : Position → Side → ℤ
outcome p result = pos (p.proceeds + winnings p result) -ℤ pos p.cost -ℤ p.fees

abbrev pub Realized :
    Option Position → Side → ℤ → ℤ → List Settle.TradeResult → List Settle.TradeResult → Type 0
Realized none result before after old new = (after ≡ before) × (new ≡ old)
Realized (some p) result before after old new =
    (after ≡ before +ℤ outcome p result)
    × (new
        ≡ record { opportunity = p.opportunity; pnl = outcome p result; settlement = some result }
          ∷ old)

pub record Settled (result : Side) (a a' : Settle.Account) : Type 0 where
  pub recorded : a'.settlement ≡ some result
  pub claimed : a'.claimed ≡ true
  pub no_position : a'.desk.position ≡ none
  pub free : (a'.desk.quarantined ≡ false) × (a'.desk.paused ≡ false)
  pub realized :
      Realized a.desk.position result a.desk.risk.realized a'.desk.risk.realized a.results
        a'.results

pub finish-realizes :
    (p : Position) (now : ℕ) (result : Option Side) (a : Settle.Account) {a' : Settle.Account}
    → Settle.finish p now result a ≡ ok a'
    → (a'.desk.position ≡ none)
      × (a'.settlement ≡ a.settlement)
      × (a'.claimed ≡ a.claimed)
      × (a'.desk.risk.realized ≡ a.desk.risk.realized +ℤ Settle.net_pnl p)
      × (a'.results
          ≡ record { opportunity = p.opportunity; pnl = Settle.net_pnl p; settlement = result }
            ∷ a.results)
unfolding Settle.finish enter Risk.close
finish-realizes p now result a {a'} h =
    (ground arith, ground arith, ground arith, ground arith, ground arith)

close-Kept :
    (d : Desk) {d' : Desk} → enter settlement_pending d >>= enter closed ≡ ok d' → Kept d d'
close-Kept d {d'} h =
    let (d1, g, h1) = bind-ok (enter settlement_pending d) (enter closed) h in
    Kept-trans {d1 = d} {d2 = d1} {d3 = d'} (enter-Kept settlement_pending d g)
      (enter-Kept closed d1 h1)

close_out-realizes :
    (p : Option Position) (result : Side) (now : ℕ) (a : Settle.Account) {a' : Settle.Account}
    → a.desk.position ≡ p
    → Settle.close_out p result now a ≡ ok a'
    → (a'.desk.position ≡ none)
      × (a'.settlement ≡ a.settlement)
      × (a'.claimed ≡ a.claimed)
      × Realized p result a.desk.risk.realized a'.desk.risk.realized a.results a'.results
close_out-realizes none result now a {a'} held h =
    elim (Bool-cases (Settle.is_ended a.desk.state)) [
      | inl over ↦
          let same : Same a a' = Same-at (ground arith) in
          (
            same.desk.position ∙ held,
            same.settlement,
            same.claimed,
            (same.desk.realized, same.results),
          )
      | inr open_ ↦
          let (d1, g, e) =
            with_desk-ok a (enter settlement_pending a.desk >>= enter closed)
              (not_taken _ _ _ open_ h) in
          let kept = close-Kept a.desk g in
          let same : Same a a' =
            Same-trans {a = a} {b = record a { desk = d1 }} {c = a'}
              (record { desk = kept; settlement = refl; claimed = refl; results = refl })
              (Same-at (sym e)) in
          (
            same.desk.position ∙ held,
            same.settlement,
            same.claimed,
            (same.desk.realized, same.results),
          )
    ]
close_out-realizes (some p) result now a {a'} held h =
    let (a1, g, h1) =
      bind-ok (Settle.with_desk a (enter settlement_pending a.desk))
        (Settle.finish (Settle.paid p result) now (some result)) h in
    let (d1, g1, e) = with_desk-ok a (enter settlement_pending a.desk) g in
    let same : Same a a1 =
      Same-trans {a = a} {b = record a { desk = d1 }} {c = a1}
        (record {
          desk = enter-Kept settlement_pending a.desk g1;
          settlement = refl;
          claimed = refl;
          results = refl;
        })
        (Same-at (sym e)) in
    let (gone, s, c, r, rows) = finish-realizes (Settle.paid p result) now (some result) a1 h1 in
    (
      gone,
      s ∙ same.settlement,
      c ∙ same.claimed,
      (
        r ∙ ap (λ x. x +ℤ Settle.net_pnl (Settle.paid p result)) same.desk.realized,
        rows
            ∙ ap
                (λ x.
                  record {
                    opportunity = p.opportunity;
                    pnl = Settle.net_pnl (Settle.paid p result);
                    settlement = some result;
                  }
                  ∷ x)
                same.results,
      ),
    )

escape-Kept :
    (recovering : Bool) (d : Desk) {d' : Desk} → Settle.escape recovering d ≡ ok d' → Kept d d'
escape-Kept false d h = record { position = ground arith; realized = ground arith }
escape-Kept true d h = record { position = ground arith; realized = ground arith }

pub Realized-at :
    (p : Option Position) (result : Side) (x y after : ℤ) (old old' new : List Settle.TradeResult)
    → y ≡ x
    → old' ≡ old
    → Realized p result y after old' new
    → Realized p result x after old new
Realized-at none result x y after old old' new e f (r, rows) = (r ∙ e, rows ∙ f)
Realized-at (some p) result x y after old old' new e f (r, rows) = (
  r ∙ ap (λ z. z +ℤ Settle.net_pnl (Settle.paid p result)) e,
  rows
      ∙ ap
          (λ z.
            record {
              opportunity = p.opportunity;
              pnl = Settle.net_pnl (Settle.paid p result);
              settlement = some result;
            }
            ∷ z)
          f,
)

pub ok-same : {A : Type 0} (x y : A) → ok x ≡ ok y → x ≡ y
ok-same x y h = ground arith

pub book_settlement-Settled :
    (result : Side) (now : ℕ) (recovering : Bool) (a : Settle.Account) {a' : Settle.Account}
    → Settle.book_settlement result now recovering a ≡ ok a'
    → Settled result a a'
unfolding Settle.book_settlement
book_settlement-Settled result now recovering a {a'} h =
    let start = record a { claimed = true; settlement = some result } in
    let work = λ (x : Settle.Account). Settle.close_out x.desk.position result now x in
    let (a2, g, e) =
      bind-ok (Settle.with_desk start (cancel now a.desk >>= Settle.escape recovering) >>= work)
        (λ (x : Settle.Account). ok (Settle.reopened x)) h in
    let (a1, g1, h1) =
      bind-ok (Settle.with_desk start (cancel now a.desk >>= Settle.escape recovering)) work g in
    let (d2, g2, e2) = with_desk-ok start (cancel now a.desk >>= Settle.escape recovering) g1 in
    let (d1, g3, g4) = bind-ok (cancel now a.desk) (Settle.escape recovering) g2 in
    let kept =
      Kept-trans {d1 = a.desk} {d2 = d1} {d3 = d2} (cancel-Kept now a.desk g3)
        (escape-Kept recovering d1 g4) in
    let same : Same start a1 =
      Same-trans {a = start} {b = record start { desk = d2 }} {c = a1}
        (record { desk = kept; settlement = refl; claimed = refl; results = refl })
        (Same-at (sym e2)) in
    let (gone, s, c, paid) =
      close_out-realizes a.desk.position result now a1 same.desk.position
        (simp same.desk.position at h1) in
    let made : Settled result a (Settle.reopened a2) = record {
      recorded = s ∙ same.settlement;
      claimed = c ∙ same.claimed;
      no_position = gone;
      free = (refl, refl);
      realized =
          Realized-at a.desk.position result a.desk.risk.realized a1.desk.risk.realized
            a2.desk.risk.realized a.results a1.results a2.results same.desk.realized same.results
            paid;
    } in
    simp (ok-same (Settle.reopened a2) a' e) at made
