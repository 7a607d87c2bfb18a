-- ===== src/Risk/Sizing.antt =====
-- A size of nothing always comes with a reason.
use project.Common.{
  ℕ, ◌*◌, ◌≤◌, ◌<◌, ◌≡◌, ◌≢◌, refl, inl, inr, false, List, [], ◌∷◌, ℤ, pos, negsuc, ◌≤ℤ◌, ◌<ℤ◌,
  min_ℤ, scale-pos, int_laws, arith, Bool-cases, ltb_ℤ, le-min_ℤ, is_empty, div-greatest, le→leb,
}
use project.Fees.{micro, fee_bound}
use project.Strategy.{Strategy}
use project.Risk.{
  Risk, Day, Limit, Reason, fine, min_limit, smallest, limits, size_details, cost_per_contract,
  affordable, day, vetoes, unfunded, sized,
}

min_limit-ge :
    (m cost : ℤ) (ls : List Limit)
    → fine cost ≤ℤ m
    → unfunded cost ls ≡ []
    → fine cost ≤ℤ min_limit m ls
min_limit-ge m cost [] h e = h
min_limit-ge m cost ((r, v) ∷ ls) h e = elim (Bool-cases (ltb_ℤ v (fine cost))) [
  | inl short ↦ absurd (ground arith)
  | inr funded ↦
      min_limit-ge (min_ℤ m v) cost ls (le-min_ℤ m v (fine cost) h (ground arith)) (rw funded at e)
]

-- If every limit funds one contract, so does the smallest.
smallest-ge :
    (cost : ℤ) (ls : List Limit)
    → is_empty ls ≡ false
    → unfunded cost ls ≡ []
    → fine cost ≤ℤ smallest ls
smallest-ge cost [] n e = cc
smallest-ge cost ((r, v) ∷ ls) n e = elim (Bool-cases (ltb_ℤ v (fine cost))) [
  | inl short ↦ absurd (ground arith)
  | inr funded ↦ min_limit-ge v cost ls (ground arith) (rw funded at e)
]

limits_nonempty :
    (c : Strategy) (self : Risk) (d : Day) (cost : ℤ) → is_empty (limits c self d cost) ≡ false
unfolding limits
limits_nonempty c self d cost = refl

-- A limit that holds the cost of one contract gives at least one.
affordable_positive :
    (m : ℕ) (cost budget : ℤ)
    → 0 < m
    → pos 0 <ℤ cost
    → fine cost ≤ℤ budget
    → affordable m budget cost ≢ 0
affordable_positive m (pos n) (pos b) hm hc h =
    let fits : 1 * (micro * n) ≤ b = omega (arith, rw scale-pos at h) in
    rw scale-pos (omega (arith, div-greatest b (micro * n) 1 (omega arith) fits))
affordable_positive m (pos n) (negsuc b) hm hc h = absurd (omega (arith, rw scale-pos at h))
affordable_positive m (negsuc n) budget hm hc h = absurd (omega arith)

-- A size of nothing without a reason was not vetoed, and every limit was found large enough.
sized_zero :
    (stops : List Reason) (n : ℕ) (unable : List Reason) (budget : ℤ)
    → (sized stops n unable budget).quantity ≡ 0
    → (sized stops n unable budget).reasons ≡ []
    → (n ≡ 0) × (unable ≡ [])
sized_zero stops n unable budget q e = ground arith

cost_positive :
    (c : Strategy) (price : ℕ)
    → price ≤ micro
    → 0 < c.fee_balance_precision
    → pos 0 <ℤ cost_per_contract c price
unfolding cost_per_contract fee_bound
cost_positive c price small p = rw (le→leb price micro small) (omega int_laws)

-- With a contract limit and a precision above zero and a price of at most one dollar, a size of
-- nothing always names a reason.
pub size_details-reasons :
    (c : Strategy) (self : Risk) (price now : ℕ)
    → price ≤ micro
    → 0 < c.fee_balance_precision
    → 0 < c.max_contracts
    → (size_details c self price now).quantity ≡ 0
    → (size_details c self price now).reasons ≢ []
unfolding size_details
size_details-reasons c self price now small p m q e =
    let cost = cost_per_contract c price in
    let ls = limits c self (day self now) cost in
    let budget = smallest ls in
    let (nothing, funded) =
      sized_zero (vetoes c self (day self now)) (affordable c.max_contracts budget cost)
        (unfunded cost ls) budget q e in
    affordable_positive c.max_contracts cost budget m (cost_positive c price small p)
      (smallest-ge cost ls (limits_nonempty c self (day self now) cost) funded) nothing
