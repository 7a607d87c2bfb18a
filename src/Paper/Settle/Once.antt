-- ===== src/Paper/Settle/Once.antt =====
-- `settle` on every branch, and that it pays once.
use project.Common.{
  ℕ, ◌≡◌, refl, Bool, true, false, not, ◌||◌, ◌&&◌, ltb, taken_branch, not_taken, Option, none,
  some, arith, Bool-cases, inl, inr, ◌∙◌, ap, sym,
}
use project.Book.{Side}
use project.Lifecycle.{error, halted}
use project.Paper.{ok, raised}
use project.Paper.Matching.{bind-ok}
use project.Paper.Settle
use project.Paper.Settle.Same.{Same, Same-at, Same-trans, weigh-Same}
use project.Paper.Settle.Payout.{Settled, Realized-at, ok-same, book_settlement-Settled}

abbrev pub is_settled : Settle.Answer → Bool
is_settled Settle.settled = true
is_settled _ = false

-- How a settlement that returns ends: nothing was paid, or the first and only payout was booked.
pub data Settlement (result : Side) (a : Settle.Account) (r : Settle.Settling) : Type 0 where
  unpaid : is_settled r.answer ≡ false → Same a r.account → Settlement result a r
  paid_out :
      is_settled r.answer ≡ true
      → a.settlement ≡ none
      → a.claimed ≡ false
      → Settled result a r.account
      → Settlement result a r

raised-ok : {A : Type 0} {x : A} → raised ≡ ok x → ⊥
raised-ok h = ground arith

answered :
    (s : Settle.Answer) (result : Side) (a : Settle.Account) {r : Settle.Settling}
    → is_settled s ≡ false
    → Settle.answer s a ≡ ok r
    → Settlement result a r
answered s result a {r} negative h =
    let same = ok-same (record { account = a; answer = s }) r h in
    unpaid (ap (λ (x : Settle.Settling). is_settled x.answer) (sym same) ∙ negative)
      (Same-at (ap (λ (x : Settle.Settling). x.account) same))

answered-same :
    (s : Settle.Answer) (a : Settle.Account) {r : Settle.Settling}
    → is_settled s ≡ false
    → Settle.answer s a ≡ ok r
    → (r.account ≡ a) × (is_settled r.answer ≡ false)
answered-same s a {r} negative h =
    let same = ok-same (record { account = a; answer = s }) r h in
    (
      ap (λ (x : Settle.Settling). x.account) (sym same),
      ap (λ (x : Settle.Settling). is_settled x.answer) (sym same) ∙ negative,
    )

claim_settlement-Settlement :
    (result : Side) (now : ℕ) (recovering : Bool) (a : Settle.Account) {r : Settle.Settling}
    → a.settlement ≡ none
    → Settle.claim_settlement result now recovering a ≡ ok r
    → Settlement result a r
claim_settlement-Settlement result now recovering a {r} fresh h = elim (Bool-cases a.claimed) [
  | inl taken ↦ answered Settle.already_settled result a refl (ground arith)
  | inr free ↦
      let (a1, g, e) =
        bind-ok (Settle.book_settlement result now recovering a) (Settle.answer Settle.settled)
          (not_taken _ _ _ free h) in
      let same = ok-same (record { account = a1; answer = Settle.settled }) r e in
      let done = book_settlement-Settled result now recovering a g in
      let made : Settlement result a (record { account = a1; answer = Settle.settled }) =
        paid_out refl fresh free done in
      simp same at made
]

recover-Settlement :
    (result : Side) (now : ℕ) (a : Settle.Account) (allowed : Option Bool) {r : Settle.Settling}
    → a.settlement ≡ none
    → Settle.recover result now a allowed ≡ ok r
    → Settlement result a r
recover-Settlement result now a none fresh h = absurd (ground arith)
recover-Settlement result now a (some false) fresh h = answered Settle.blocked result a refl h
recover-Settlement result now a (some true) fresh h =
    claim_settlement-Settlement result now true a fresh h

settle_weighed-Settlement :
    (m : Settle.Contract) (result : Side) (now : ℕ) (review : Option Settle.Review)
    (w : Settle.Weighed) {r : Settle.Settling}
    → w.account.settlement ≡ none
    → Settle.settle_weighed m result now review w ≡ ok r
    → Settlement result w.account r
unfolding Settle.settle_weighed
settle_weighed-Settlement m result now review w fresh h =
    let a = w.account in
    elim (Bool-cases w.is_blocked) [
      | inl stop ↦ answered Settle.blocked result a refl (taken_branch _ _ _ stop h)
      | inr go ↦ elim (Bool-cases a.desk.quarantined) [
        | inl held ↦
            recover-Settlement result now a
              (Settle.recovery_allows m result w.final review a.evidence) fresh
              (taken_branch _ _ _ held (not_taken _ _ _ go h))
        | inr free ↦ elim (Bool-cases (Settle.is_present review)) [
          | inl odd ↦
              absurd
                (raised-ok (taken_branch _ _ _ odd (not_taken _ _ _ free (not_taken _ _ _ go h))))
          | inr plain ↦
              claim_settlement-Settlement result now false a fresh
                (not_taken _ _ _ plain (not_taken _ _ _ free (not_taken _ _ _ go h)))
        ]
      ]
    ]

-- What was settled from an account with the same books was settled from this one.
Settlement-from :
    (result : Side) (a b : Settle.Account) {r : Settle.Settling}
    → Same a b
    → Settlement result b r
    → Settlement result a r
Settlement-from result a b {r} h (unpaid denied same) =
    unpaid denied (Same-trans {a = a} {b = b} {c = r.account} h same)
Settlement-from result a b {r} h (paid_out granted fresh free done) =
    paid_out granted (sym h.settlement ∙ fresh) (sym h.claimed ∙ free) (record {
      recorded = done.recorded;
      claimed = done.claimed;
      no_position = done.no_position;
      free = done.free;
      realized =
          Realized-at a.desk.position result a.desk.risk.realized b.desk.risk.realized
            r.account.desk.risk.realized a.results b.results r.account.results h.desk.realized
            h.results (simp h.desk.position at done.realized);
    })

settle_known-Settlement :
    (m : Settle.Contract) (result : Side) (now : ℕ) (e : Option Settle.Evidence)
    (review : Option Settle.Review) (a : Settle.Account) (prior : Option Side) {r : Settle.Settling}
    → a.settlement ≡ prior
    → Settle.settle_known m result now e review a prior ≡ ok r
    → Settlement result a r
settle_known-Settlement m result now e review a (some prior) known h =
    elim (Bool-cases (Settle.same_result prior result)) [
      | inl same ↦ answered Settle.already_settled result a refl (simp same at h)
      | inr other ↦ answered Settle.blocked result a refl (simp other at h)
    ]
settle_known-Settlement m result now e review a none known h =
    elim (Bool-cases (
      Settle.is_in error a.desk.state
      || (Settle.is_in halted a.desk.state && not a.desk.quarantined))) [
        | inl stop ↦ answered Settle.blocked result a refl (taken_branch _ _ _ stop h)
        | inr go ↦
            let (w, g, h1) =
              bind-ok (Settle.weigh m result now e a) (Settle.settle_weighed m result now review)
                (not_taken _ _ _ go h) in
            let same = weigh-Same m result now e a g in
            Settlement-from result a w.account same
              (settle_weighed-Settlement m result now review w (same.settlement ∙ known) h1)
      ]

-- Whenever `settle` returns for a result, either it paid nothing, and the position, the realized
-- profit, the results, the settlement and its claim are as they were; or no settlement had been
-- recorded or claimed before, the settlement is recorded and claimed, no position is left, nothing
-- is quarantined or paused, and the realized profit has grown by what the position brings: its
-- proceeds, with a dollar for each contract on the winning side, less its cost and its fees.
pub settle-Settlement :
    (m : Settle.Contract) (result : Side) (now : ℕ) (e : Option Settle.Evidence)
    (review : Option Settle.Review) (a : Settle.Account) {r : Settle.Settling}
    → Settle.settle m (some result) now e review a ≡ ok r
    → Settlement result a r
unfolding Settle.settle
settle-Settlement m result now e review a h =
    let k = Settle.known_or a.contract m in
    elim (Bool-cases (ltb now k.close_time)) [
      | inl early ↦ absurd (raised-ok (taken_branch _ _ _ early h))
      | inr due ↦
          settle_known-Settlement k result now e review a a.settlement refl (not_taken _ _ _ due h)
    ]

known_again :
    (m : Settle.Contract) (result : Side) (now : ℕ) (e : Option Settle.Evidence)
    (review : Option Settle.Review) (a : Settle.Account) (prior : Side) {r : Settle.Settling}
    → Settle.settle_known m result now e review a (some prior) ≡ ok r
    → (r.account ≡ a) × (is_settled r.answer ≡ false)
known_again m result now e review a prior {r} h =
    elim (Bool-cases (Settle.same_result prior result)) [
      | inl agrees ↦ answered-same Settle.already_settled a refl (simp agrees at h)
      | inr differs ↦ answered-same Settle.blocked a refl (simp differs at h)
    ]

settled-again :
    (m : Settle.Contract) (result : Option Side) (now : ℕ) (e : Option Settle.Evidence)
    (review : Option Settle.Review) (a : Settle.Account) (prior : Side) {r : Settle.Settling}
    → a.settlement ≡ some prior
    → Settle.settle m result now e review a ≡ ok r
    → (r.account ≡ a) × (is_settled r.answer ≡ false)
unfolding Settle.settle
settled-again m none now e review a prior known h = absurd (raised-ok h)
settled-again m (some result) now e review a prior {r} known h =
    let k = Settle.known_or a.contract m in
    elim (Bool-cases (ltb now k.close_time)) [
      | inl early ↦ absurd (raised-ok (taken_branch _ _ _ early h))
      | inr due ↦ known_again k result now e review a prior (simp known at (not_taken _ _ _ due h))
    ]

-- After a settlement that paid, any later call of `settle` that returns, for whichever result,
-- time, evidence and review, leaves the account as it is and does not answer SETTLED.
pub settle-once :
    (m m' : Settle.Contract) (result : Side) (result' : Option Side) (now now' : ℕ)
    (e e' : Option Settle.Evidence) (review review' : Option Settle.Review) (a : Settle.Account)
    {r r' : Settle.Settling}
    → Settle.settle m (some result) now e review a ≡ ok r
    → is_settled r.answer ≡ true
    → Settle.settle m' result' now' e' review' r.account ≡ ok r'
    → (r'.account ≡ r.account) × (is_settled r'.answer ≡ false)
settle-once m m' result result' now now' e e' review review' a {r} {r'} h granted g =
    elim (settle-Settlement m result now e review a h) [
      | unpaid denied same ↦ absurd (ground arith)
      | paid_out y fresh free done ↦
          settled-again m' result' now' e' review' r.account result done.recorded g
    ]
