-- ===== src/Paper/Exit/Executed.antt =====
-- How an exit that is due ends: the position is finished, or what is left of it stays open.
use project.Common.{
  ℕ, ◌<◌, ◌≡◌, refl, Bool, true, false, ◌==◌, if◌then◌else◌, taken_branch, not_taken, Option, none,
  some, ◌∷◌, arith, Bool-cases, inl, inr, ◌+ℤ◌, ◌∙◌, ap, sym,
}
use project.Strategy.{Strategy}
use project.Lifecycle.{position_open}
use project.Paper.{Position, Result, ok, raised, interrupted, enter}
use project.Paper.Settle.{Account, finish, net_pnl, with_desk}
use project.Paper.Settle.Same.{with_desk-ok, enter-Kept}
use project.Paper.Settle.Payout.{finish-realizes}
use project.Paper.Exit
use project.Paper.Exit.Sale.{Sells, sell_bids-Sells}

-- The account before and after a sale.
pub data Ended (sold : Exit.Selling) (a a' : Account) : Type 0 where
  closed_out :
      sold.position.quantity ≡ 0
      → a'.desk.position ≡ none
      → a'.desk.risk.realized ≡ a.desk.risk.realized +ℤ net_pnl sold.position
      → a'.results
        ≡ record {
          opportunity = sold.position.opportunity;
          pnl = net_pnl sold.position;
          settlement = none;
        }
          ∷ a.results
      → Ended sold a a'
  kept_open :
      0 < sold.position.quantity
      → a'.desk.position ≡ some sold.position
      → a'.desk.risk.realized ≡ a.desk.risk.realized
      → a'.results ≡ a.results
      → Ended sold a a'

pub record Executed (c : Strategy) (r : Exit.Reason) (target : Option ℕ) (e : Exit.Event)
    (p : Position) (h h' : Exit.Holding) : Type 0 where
  pub sold : Exit.Selling
  pub sells : Sells c e.bands r target e.bids (Exit.start_of c p h.exits.consumed) sold
  pub consumption : h'.exits.consumed ≡ sold.consumed
  pub ended : Ended sold h.account h'.account

with_account-ok :
    (h : Exit.Holding) (r : Result Account) {h' : Exit.Holding}
    → Exit.with_account h r ≡ ok h'
    → (a : Account) × (r ≡ ok a) × (h'.account ≡ a) × (h'.exits ≡ h.exits)
with_account-ok h (ok a) g = (a, refl, ground arith, ground arith)
with_account-ok h raised g = absurd (ground arith)
with_account-ok h interrupted g = absurd (ground arith)

expire-consumed :
    (b : Bool) (x : Exit.Exits) → (if b then Exit.expire_value_exit x else x).consumed ≡ x.consumed
unfolding Exit.expire_value_exit
expire-consumed true x = refl
expire-consumed false x = refl

after_sales-Ended :
    (c : Strategy) (r : Exit.Reason) (now : ℕ) (s : Exit.Selling) (h : Exit.Holding)
    {h' : Exit.Holding}
    → Exit.after_sales c r now s h ≡ ok h'
    → (h'.exits.consumed ≡ s.consumed) × Ended s h.account h'.account
unfolding Exit.after_sales Exit.expire_value_exit
after_sales-Ended c r now s h {h'} g =
    let x = record (h.exits) { consumed = s.consumed } in
    let a = record (h.account) { desk = record (h.account.desk) { position = some s.position } } in
    elim (Bool-cases (s.position.quantity == 0)) [
      | inl empty ↦
          let (a1, done, same, exits) =
            with_account-ok (record h { exits = Exit.forgotten x }) (finish s.position now none a)
              (taken_branch _ _ _ empty g) in
          let (gone, s1, c1, profit, rows) = finish-realizes s.position now none a done in
          let made : Ended s h.account a1 = closed_out (ground arith) gone profit rows in
          (ap (λ (y : Exit.Exits). y.consumed) exits, simp (sym same) at made)
      | inr rest ↦
          let (a1, done, same, exits) =
            with_account-ok
              (record h { exits = if Exit.expires c r then Exit.expire_value_exit x else x })
              (with_desk a (enter position_open a.desk)) (not_taken _ _ _ rest g) in
          let (d, entered, at_desk) = with_desk-ok a (enter position_open a.desk) done in
          let kept = enter-Kept position_open a.desk entered in
          let made : Ended s h.account (record a { desk = d }) =
            kept_open (ground arith) kept.position kept.realized refl in
          (
            ap (λ (y : Exit.Exits). y.consumed) exits ∙ expire-consumed (Exit.expires c r) x,
            simp (sym at_desk, sym same) at made,
          )
    ]

-- Where the sale of a position that is due returns: what was sold and what is left make up the
-- position's quantity, the proceeds have grown by what the sales took, every sale is of some
-- quantity on the grid and, where the reason has a limit and the execution is not of the full
-- position, at the target or better; at no price has the consumed depth grown beyond the displayed
-- size; and if nothing is left the position is gone with its net profit booked, and otherwise it
-- stays, with no profit booked.
pub sell_position-Executed :
    (c : Strategy) (r : Exit.Reason) (target : Option ℕ) (e : Exit.Event) (p : Position)
    (h : Exit.Holding) {h' : Exit.Holding}
    → Exit.sell_position c r target e (some p) h ≡ ok h'
    → Executed c r target e p h h'
sell_position-Executed c r target e p h g =
    let start = Exit.start_of c p h.exits.consumed in
    let sold = Exit.sell_bids c e.bands r target e.bids start in
    let (same, ended) = after_sales-Ended c r e.now sold h g in
    record {
      sold = sold;
      sells = sell_bids-Sells c e.bands r target e.bids start tt;
      consumption = same;
      ended = ended;
    }
