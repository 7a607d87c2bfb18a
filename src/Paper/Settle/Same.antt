-- ===== src/Paper/Settle/Same.antt =====
-- What a settlement leaves as it was: the inventory and the books through cancellations and
-- quarantines.
use project.Common.{
  ℕ, ◌≡◌, refl, Bool, true, false, not, ◌||◌, ◌&&◌, ◌==◌, if◌then◌else◌, not_taken, Option, none,
  some, arith, Bool-cases, inl, inr, ◌∙◌, ap, sym,
}
use project.Book.{Side}
use project.Lifecycle.{MarketState, halted, error}
use project.Paper.{
  Position, PaperOrder, Desk, Result, ok, raised, interrupted, ◌>>=◌, enter, cancel, cancel_active,
  cancel_order, release,
}
use project.Paper.Matching.{bind-ok}
use project.Paper.Settle

-- A desk whose inventory and realized profit are those of another.
pub record Kept (d d' : Desk) : Type 0 where
  pub position : d'.position ≡ d.position
  pub realized : d'.risk.realized ≡ d.risk.realized

pub enter-Kept : (s : MarketState) (d : Desk) {d' : Desk} → enter s d ≡ ok d' → Kept d d'
unfolding enter
enter-Kept s d h = record { position = ground arith; realized = ground arith }

pub Kept-trans : {d1 d2 d3 : Desk} → Kept d1 d2 → Kept d2 d3 → Kept d1 d3
Kept-trans h g = record { position = g.position ∙ h.position; realized = g.realized ∙ h.realized }

release-Kept : (p : Option Position) (d : Desk) {d' : Desk} → release p d ≡ ok d' → Kept d d'
unfolding enter
release-Kept none d h = record { position = ground arith; realized = ground arith }
release-Kept (some p) d h = record { position = ground arith; realized = ground arith }

cancel_order-Kept :
    (o : Option PaperOrder) (now : ℕ) (d : Desk) {d' : Desk}
    → cancel_order o now d ≡ ok d'
    → Kept d d'
unfolding cancel_active enter
cancel_order-Kept none now d h = record { position = ground arith; realized = ground arith }
cancel_order-Kept (some o) now d h = record { position = ground arith; realized = ground arith }

pub cancel-Kept : (now : ℕ) (d : Desk) {d' : Desk} → cancel now d ≡ ok d' → Kept d d'
unfolding cancel
cancel-Kept now d h = cancel_order-Kept d.order now d h

-- An account that settles, or is quarantined, with the same inventory and books.
pub record Same (a a' : Settle.Account) : Type 0 where
  pub desk : Kept a.desk a'.desk
  pub settlement : a'.settlement ≡ a.settlement
  pub claimed : a'.claimed ≡ a.claimed
  pub results : a'.results ≡ a.results

Same-refl : (a : Settle.Account) → Same a a
Same-refl a = record {
  desk = record { position = refl; realized = refl };
  settlement = refl;
  claimed = refl;
  results = refl;
}

pub Same-at : {a a' : Settle.Account} → a ≡ a' → Same a a'
Same-at {a} {a'} e = record {
  desk = record {
    position = ap (λ (x : Settle.Account). x.desk.position) (sym e);
    realized = ap (λ (x : Settle.Account). x.desk.risk.realized) (sym e);
  };
  settlement = ap (λ (x : Settle.Account). x.settlement) (sym e);
  claimed = ap (λ (x : Settle.Account). x.claimed) (sym e);
  results = ap (λ (x : Settle.Account). x.results) (sym e);
}

pub Same-trans : {a b c : Settle.Account} → Same a b → Same b c → Same a c
Same-trans {a} {b} {c} h g = record {
  desk = Kept-trans {d1 = a.desk} {d2 = b.desk} {d3 = c.desk} h.desk g.desk;
  settlement = g.settlement ∙ h.settlement;
  claimed = g.claimed ∙ h.claimed;
  results = g.results ∙ h.results;
}

pub with_desk-ok :
    (a : Settle.Account) (r : Result Desk) {a' : Settle.Account}
    → Settle.with_desk a r ≡ ok a'
    → (d : Desk) × (r ≡ ok d) × (a' ≡ record a { desk = d })
with_desk-ok a (ok d) h = (d, refl, ground arith)
with_desk-ok a raised h = absurd (ground arith)
with_desk-ok a interrupted h = absurd (ground arith)

quarantined-Kept :
    (now : ℕ) (d : Desk) {d' : Desk}
    → cancel now d >>= (λ d1. enter halted (record d1 { quarantined = true })) ≡ ok d'
    → Kept d d'
quarantined-Kept now d h =
    let (d1, g, h1) =
      bind-ok (cancel now d) (λ d2. enter halted (record d2 { quarantined = true })) h in
    let first = cancel-Kept now d g in
    let second = enter-Kept halted (record d1 { quarantined = true }) h1 in
    record {
      position = second.position ∙ first.position;
      realized = second.realized ∙ first.realized;
    }

quarantine-Same :
    (m : Settle.Contract) (now : ℕ) (legacy : Bool) (a : Settle.Account) {a' : Settle.Account}
    → Settle.quarantine m now legacy a ≡ ok a'
    → Same a a'
unfolding Settle.quarantine
quarantine-Same m now legacy a {a'} h =
    let d = a.desk in
    elim (Bool-cases (
      Settle.is_in error d.state
      || (Settle.is_in halted d.state && not d.quarantined && not legacy))) [
        | inl skip ↦ Same-at (ground arith)
        | inr go ↦ elim (Bool-cases d.quarantined) [
          | inl already ↦
              Same-trans {a = a} {b = record a { contract = some (Settle.known_or a.contract m) }}
                {c = a'}
                (record {
                  desk = record { position = refl; realized = refl };
                  settlement = refl;
                  claimed = refl;
                  results = refl;
                })
                (Same-at (ground arith))
          | inr fresh ↦
              let (d', g, e) =
                with_desk-ok (record a { contract = some (Settle.known_or a.contract m) })
                  (cancel now d >>= λ d1. enter halted (record d1 { quarantined = true }))
                  (not_taken _ _ _ fresh (not_taken _ _ _ go h)) in
              let kept = quarantined-Kept now d g in
              Same-trans {a = a}
                {b = record a { contract = some (Settle.known_or a.contract m); desk = d' }}
                {c = a'} (record { desk = kept; settlement = refl; claimed = refl; results = refl })
                (Same-at (sym e))
        ]
      ]

final-Same :
    (hash : ℕ) (m : Settle.Contract) (now : ℕ) (a : Settle.Account) {a' : Settle.Account}
    → (if hash == m.hash then ok a else Settle.quarantine m now false a) ≡ ok a'
    → Same a a'
final-Same hash m now a {a'} h = elim (Bool-cases (hash == m.hash)) [
  | inl same ↦ Same-at (ground arith)
  | inr other ↦ quarantine-Same m now false a (not_taken _ _ _ other h)
]

weigh_final-Same :
    (m : Settle.Contract) (id digest now : ℕ) (final : Option ℕ) (a : Settle.Account)
    {w : Settle.Weighed}
    → Settle.weigh_final m id digest now final a ≡ ok w
    → Same a w.account
weigh_final-Same m id digest now none a {w} h =
    let (a1, g, e) =
      bind-ok (Settle.quarantine m now false a)
        (λ a2. ok (record { account = a2; final = none; is_blocked = true })) h in
    Same-trans {a = a} {b = a1} {c = w.account} (quarantine-Same m now false a g)
      (Same-at (ground arith))
weigh_final-Same m id digest now (some hash) a {w} h =
    let (a1, g, e) =
      bind-ok (if hash == m.hash then ok a else Settle.quarantine m now false a)
        (λ a2. ok (record {
          account = a2;
          final = some (record { id = id; digest = digest; hash = hash });
          is_blocked = false;
        }))
        h in
    Same-trans {a = a} {b = a1} {c = w.account} (final-Same hash m now a g) (Same-at (ground arith))

pub weigh-Same :
    (m : Settle.Contract) (result : Side) (now : ℕ) (e : Option Settle.Evidence)
    (a : Settle.Account) {w : Settle.Weighed}
    → Settle.weigh m result now e a ≡ ok w
    → Same a w.account
unfolding Settle.weigh Settle.record_evidence
weigh-Same m result now none a h = Same-at (ground arith)
weigh-Same m result now (some e) a {w} h =
    let a1 = Settle.record_evidence e result a in
    let first : Same a a1 = record {
      desk = record { position = refl; realized = refl };
      settlement = refl;
      claimed = refl;
      results = refl;
    } in
    Same-trans {a = a} {b = a1} {c = w.account} first
      (weigh_final-Same m _ e.digest now e.final a1 h)
