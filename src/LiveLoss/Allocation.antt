-- ===== src/LiveLoss/Allocation.antt =====
-- The entry's cost is allocated exactly: what the sales and the settlement of one day book makes up
-- the whole result of the position.
use mathlib.Core.Path.{subst}
use mathlib.Core.Option.{some-injective}
use native.Mathlib.Nat.{mul_comm}
use project.Common.{
  ℕ, ◌+◌, ◌-◌, ◌*◌, ◌≤◌, ◌<◌, ◌≡◌, refl, sym, ap, ◌∙◌, Bool, true, false, ◌||◌, not, if◌then◌else◌,
  ltb, ◌==◌, all, Option, none, some, List, [], ◌∷◌, ◌++◌, ℤ, pos, ◌+ℤ◌, ◌-ℤ◌, sub_ℕ, scale,
  int_laws, scale_parts, +ℤ_parts, -ℤ_parts, eq_of_parts, arith, Bool-cases, inl, inr, then_branch,
  else_branch, scale-pos, ==_iff, parts_of_eq, &&-true,
}
use project.LiveLoss.{
  Row, Economics, Sale, Sums, Settlement, allocate, allocate_row, allocate_all, sales_pnl,
  settled_pnl, pnl_of, within, no_sums, same_side, order_time, settle, over,
}
use project.Book.{Side}

abbrev quantity_of : List Sale → ℕ
quantity_of [] = 0
quantity_of (s ∷ rest) = s.quantity + quantity_of rest

abbrev pub proceeds_of : List Sale → ℤ
proceeds_of [] = pos 0
proceeds_of (s ∷ rest) = s.proceeds +ℤ proceeds_of rest

scale-add : (k : ℕ) (a b : ℤ) → scale k (a +ℤ b) ≡ scale k a +ℤ scale k b
scale-add k a b =
    let e = ap (λ x. k * x) (+ℤ_parts a b) in
    grind (int_laws, scale_parts k (a +ℤ b), scale_parts k a, scale_parts k b, +ℤ_parts a b)

scale-sub : (k : ℕ) (a b : ℤ) → scale k (a -ℤ b) ≡ scale k a -ℤ scale k b
scale-sub k a b =
    let e = ap (λ x. k * x) (-ℤ_parts a b) in
    grind (int_laws, scale_parts k (a -ℤ b), scale_parts k a, scale_parts k b, -ℤ_parts a b)

regroup :
    (k b : ℕ) (p q : ℤ) (m n : ℕ)
    → (scale k p -ℤ pos (b * m)) +ℤ (scale k q -ℤ pos (b * n))
      ≡ scale k (p +ℤ q) -ℤ pos (b * (m + n))
regroup k b p q m n =
    let x = scale k p -ℤ pos (b * m) in
    let y = scale k q -ℤ pos (b * n) in
    let z = scale k (p +ℤ q) -ℤ pos (b * (m + n)) in
    let d : b * (m + n) ≡ b * m + b * n = grind arith in
    let e : scale k (p +ℤ q) ≡ scale k p +ℤ scale k q = scale-add k p q in
    eq_of_parts (x +ℤ y) z (
      omega (
        arith,
        +ℤ_parts x y,
        -ℤ_parts (scale k p) (pos (b * m)),
        -ℤ_parts (scale k q) (pos (b * n)),
        -ℤ_parts (scale k (p +ℤ q)) (pos (b * (m + n))),
        +ℤ_parts (scale k p) (scale k q),
        parts_of_eq e,
        d,
      ))

no_value : (k b : ℕ) → pos 0 ≡ scale k (pos 0) -ℤ pos (b * 0)
no_value k b =
    eq_of_parts (pos 0) (scale k (pos 0) -ℤ pos (b * 0))
      (grind (int_laws, scale_parts k (pos 0), -ℤ_parts (scale k (pos 0)) (pos (b * 0))))

-- Every sale of a day is booked, with its part of the basis.
sales_pnl-all :
    (start now bought basis : ℕ) (sales : List Sale)
    → all (λ s. within start now s.at) sales ≡ true
    → sales_pnl start now bought basis sales
      ≡ scale bought (proceeds_of sales) -ℤ pos (basis * quantity_of sales)
unfolding sales_pnl
sales_pnl-all start now bought basis [] h = no_value bought basis
sales_pnl-all start now bought basis (s ∷ rest) h =
    let (now_in, others) =
      &&-true (within start now s.at) (all (λ s. within start now s.at) rest) h in
    let ih = sales_pnl-all start now bought basis rest others in
    let one = scale bought s.proceeds -ℤ pos (basis * s.quantity) in
    let sum : one +ℤ (scale bought (proceeds_of rest) -ℤ pos (basis * quantity_of rest))
        ≡ scale bought (s.proceeds +ℤ proceeds_of rest)
          -ℤ pos (basis * (s.quantity + quantity_of rest)) =
      regroup bought basis s.proceeds (proceeds_of rest) s.quantity (quantity_of rest) in
    then_branch (within start now s.at) _ now_in (ap (λ x. one +ℤ x) ih ∙ sum)

-- What the sales of the loop add up to.
quantity_of-append :
    (sales : List Sale) (s : Sale) → quantity_of (sales ++ s ∷ []) ≡ quantity_of sales + s.quantity
quantity_of-append [] s = omega arith
quantity_of-append (x ∷ sales) s = omega (arith, quantity_of-append sales s)

allocate_row-sold :
    (side : Side) (start : ℕ) (s : Sums) (r : Row) (e : Option Economics) (s' : Sums)
    → quantity_of s.sales ≡ s.sold
    → allocate_row side start s r e ≡ some s'
    → quantity_of s'.sales ≡ s'.sold
unfolding allocate_row allocate order_time
allocate_row-sold side start s r none s' q h = ground (arith, q, h)
allocate_row-sold side start s r (some e) s' q h =
    let sale : Sale = record {
      quantity = e.fill_count;
      proceeds = sub_ℕ e.fill_count (e.paid + e.fees);
      at = order_time r;
    } in
    ground (arith, q, h, quantity_of-append s.sales sale)

allocate_all-sold :
    (side : Side) (start : ℕ) (s : Option Sums) (orders : List Row) (s' : Sums)
    → ((x : Sums) → s ≡ some x → quantity_of x.sales ≡ x.sold)
    → allocate_all side start s orders ≡ some s'
    → quantity_of s'.sales ≡ s'.sold
unfolding allocate_all
allocate_all-sold side start s [] s' q h = q s' h
allocate_all-sold side start none (r ∷ rest) s' q h = absurd (ground (arith, h))
allocate_all-sold side start (some s) (r ∷ rest) s' q h =
    allocate_all-sold side start (allocate_row side start s r r.exchange_order) rest s'
      (λ x e. allocate_row-sold side start s r r.exchange_order x (q s refl) e) h

-- $1 for each contract of the winning side
abbrev pub payout : Side → Side → ℕ → ℕ
payout side result remaining = if same_side result side then remaining else 0

no_payout : (side result : Side) → payout side result 0 ≡ 0
no_payout side result = ground arith

paid_out :
    (b : Bool) (remaining bought : ℕ)
    → pos (if b then remaining * bought else 0) ≡ scale bought (pos (if b then remaining else 0))
paid_out true remaining bought = ap pos (grind arith) ∙ sym (scale-pos bought remaining)
paid_out false remaining bought = ap pos (grind arith) ∙ sym (scale-pos bought 0)

settled_pnl-result :
    (start now : ℕ) (side result : Side) (bought basis remaining : ℕ) (z : Settlement)
    → within start now z.timestamp ≡ true
    → z.result ≡ some result
    → settled_pnl start now side bought basis remaining (some z)
      ≡ some (scale bought (pos (payout side result remaining)) -ℤ pos (basis * remaining))
unfolding settled_pnl
settled_pnl-result start now side result bought basis remaining z at won =
    let value = scale bought (pos (payout side result remaining)) -ℤ pos (basis * remaining) in
    elim (Bool-cases (remaining == 0)) [
      | inl e ↦
          let none_left : remaining ≡ 0 = (==_iff remaining 0).0 e in
          then_branch (remaining == 0 || not (within start now z.timestamp))
            (settle side bought basis remaining z.result) (ground (arith, e))
            (ap some (
              no_value bought basis
              ∙ ap (λ n. scale bought (pos n) -ℤ pos (basis * 0)) (sym (no_payout side result))
              ∙ ap (λ n. scale bought (pos (payout side result n)) -ℤ pos (basis * n))
                  (sym none_left)))
      | inr e ↦
          else_branch (remaining == 0 || not (within start now z.timestamp)) (some (pos 0))
            (ground (arith, e, at))
            (ap (settle side bought basis remaining) won
              ∙ ap (λ n. some (n -ℤ pos (basis * remaining)))
                  (paid_out (same_side result side) remaining bought))
    ]

-- Where the loop over a ticker's orders succeeds, sells no more than was bought, has all its sales
-- on the day, and the official result comes on the day too: the day's profit and loss is, exactly,
-- the proceeds of the sales and $1 for each remaining contract of the winning side, less all that
-- the purchases cost.
pub pnl_of-whole :
    (start now : ℕ) (side result : Side) (orders : List Row) (s : Sums) (z : Settlement)
    → allocate_all side start (some no_sums) orders ≡ some s
    → s.sold ≤ s.bought
    → 0 < s.bought
    → all (λ x. within start now x.at) s.sales ≡ true
    → within start now z.timestamp ≡ true
    → z.result ≡ some result
    → let gained = proceeds_of s.sales +ℤ pos (payout side result (s.bought - s.sold)) in
      pnl_of start now side (some z) (allocate_all side start (some no_sums) orders)
      ≡ some (scale s.bought (gained -ℤ pos s.basis), s.bought)
unfolding pnl_of
pnl_of-whole start now side result orders s z done less some_bought sold_in settled_in won =
    let remaining = s.bought - s.sold in
    let sold = sales_pnl start now s.bought s.basis s.sales in
    let paid = payout side result remaining in
    let total : quantity_of s.sales ≡ s.sold =
      allocate_all-sold side start (some no_sums) orders s
        (λ x e. subst (λ y. quantity_of y.sales ≡ y.sold) (some-injective _ _ e) refl) done in
    let count : quantity_of s.sales + remaining ≡ s.bought = omega (arith, total, less) in
    let cost : s.basis * (quantity_of s.sales + remaining) ≡ s.bought * s.basis =
      ap (λ n. s.basis * n) count ∙ mul_comm s.basis s.bought in
    let gained = proceeds_of s.sales +ℤ pos paid in
    let value : sold +ℤ (scale s.bought (pos paid) -ℤ pos (s.basis * remaining))
        ≡ scale s.bought (gained -ℤ pos s.basis) =
      ap (λ x. x +ℤ (scale s.bought (pos paid) -ℤ pos (s.basis * remaining)))
        (sales_pnl-all start now s.bought s.basis s.sales sold_in)
      ∙ regroup s.bought s.basis (proceeds_of s.sales) (pos paid) (quantity_of s.sales) remaining
      ∙ ap (λ n. scale s.bought gained -ℤ pos n) cost
      ∙ ap (λ x. scale s.bought gained -ℤ x) (sym (scale-pos s.bought s.basis))
      ∙ sym (scale-sub s.bought gained (pos s.basis)) in
    ap (pnl_of start now side (some z)) done
    ∙ else_branch (ltb s.bought s.sold || s.bought == 0) none (ground (arith, less, some_bought)) (
        ap (over s.bought sold)
          (settled_pnl-result start now side result s.bought s.basis remaining z settled_in won)
        ∙ ap (λ n. some (n, s.bought)) value)
