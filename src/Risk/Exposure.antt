-- ===== src/Risk/Exposure.antt =====
-- No reservation takes the portfolio over a limit.
use project.Common.{
  ℕ, ◌+◌, ◌*◌, ◌/◌, ◌≤◌, ◌<◌, ◌≡◌, refl, inl, inr, min, true, false, none, some, List, [], ◌∷◌,
  Dict, lookup, ℤ, pos, pos_part, ◌+ℤ◌, ◌-ℤ◌, ◌≤ℤ◌, ◌<ℤ◌, min_ℤ, scale, scale_parts, scale-pos,
  negsuc, int_laws, arith, Bool-cases, div-mul-le, min_ℤ-le_left, min_ℤ-le_right, ≤ℤ_trans, insert,
  eq_self, lookup-insert, ◌∙◌, ◌==◌, le→leb,
}
use native.Mathlib.Nat.{mul-le-mul_right, le_trans, min-le_right, zero-div}
use project.Fees.{micro, fee_bound}
use project.Strategy.{Strategy}
use project.Risk.{
  Risk, Day, Limit, fine, min_limit, smallest, limits, size_details, reserve, cost_per_contract,
  sum_values, bankroll_of, affordable, day, day_of, vetoes, daily_limit, book_amount,
}

min_limit-le : (m : ℤ) (ls : List Limit) → min_limit m ls ≤ℤ m
min_limit-le m [] = omega arith
min_limit-le m ((r, v) ∷ ls) =
    ≤ℤ_trans (min_limit (min_ℤ m v) ls) (min_ℤ m v) m (min_limit-le (min_ℤ m v) ls)
      (min_ℤ-le_left m v)

-- The budget is at most each of the limits.
abbrev AtMostEach : ℤ → List Limit → Type 0
AtMostEach m [] = Unit
AtMostEach m ((r, v) ∷ ls) = (m ≤ℤ v) × AtMostEach m ls

AtMostEach-mono : (a b : ℤ) (ls : List Limit) → a ≤ℤ b → AtMostEach b ls → AtMostEach a ls
AtMostEach-mono a b [] h g = tt
AtMostEach-mono a b ((r, v) ∷ ls) h (g, gs) = (≤ℤ_trans a b v h g, AtMostEach-mono a b ls h gs)

min_limit-AtMostEach : (m : ℤ) (ls : List Limit) → AtMostEach (min_limit m ls) ls
min_limit-AtMostEach m [] = tt
min_limit-AtMostEach m ((r, v) ∷ ls) = (
  ≤ℤ_trans (min_limit (min_ℤ m v) ls) (min_ℤ m v) v (min_limit-le (min_ℤ m v) ls)
      (min_ℤ-le_right m v),
  min_limit-AtMostEach (min_ℤ m v) ls,
)

smallest-AtMostEach : (ls : List Limit) → AtMostEach (smallest ls) ls
smallest-AtMostEach [] = tt
smallest-AtMostEach ((r, v) ∷ ls) = (min_limit-le v ls, min_limit-AtMostEach v ls)

affordable-pos :
    (m q f : ℕ) (budget : ℤ) → 0 < q → q ≤ min m (pos_part budget / f) → pos (q * f) ≤ℤ budget
affordable-pos m q f (pos b) q0 h =
    omega (arith, div-mul-le b f, mul-le-mul_right f (le_trans h (min-le_right m (b / f))))
affordable-pos m q f (negsuc b) q0 h = absurd (omega (arith, zero-div f))

nonneg-pos : (a : ℤ) → pos 0 ≤ℤ a → a ≡ pos (pos_part a)
nonneg-pos (pos n) h = refl
nonneg-pos (negsuc n) h = absurd (omega arith)

-- What the contracts cost is within the budget.
affordable-le :
    (m q : ℕ) (budget cost : ℤ)
    → 0 < q
    → pos 0 ≤ℤ cost
    → q ≤ affordable m budget cost
    → fine (scale q cost) ≤ℤ budget
affordable-le m q budget cost q0 c0 h =
    let n = pos_part cost in
    let e : cost ≡ pos n = nonneg-pos cost c0 in
    let fits : pos (q * (micro * n)) ≤ℤ budget =
      affordable-pos m q (micro * n) budget q0 (rw (e, scale-pos) at h) in
    rw (e, scale-pos, scale-pos) (omega arith)

module _ (c : Strategy) (self : Risk) (price now : ℕ) where
  -- A size above zero means that nothing vetoed the entry, and that it was cut from the limits.
  size_details_positive :
      (q : ℕ)
      → 0 < q
      → q ≤ (size_details c self price now).quantity
      → (vetoes c self (day self now) ≡ [])
        × (q
            ≤ affordable c.max_contracts
                (smallest (limits c self (day self now) (cost_per_contract c price)))
                (cost_per_contract c price))
  unfolding size_details
  size_details_positive q q0 h = ground arith

  -- What `reserve` has checked, and what it has written.
  reserve-checks :
      (key q : ℕ) {self' : Risk}
      → reserve c self key price q now ≡ some self'
      → (lookup key self.reserved ≡ none)
        × (0 < q)
        × (q ≤ (size_details c self price now).quantity)
        × (book_amount self key (scale q (cost_per_contract c price)) now ≡ self')
  unfolding reserve
  reserve-checks key q h = ground arith

cost_nonneg : (c : Strategy) (price : ℕ) → price ≤ micro → pos 0 ≤ℤ cost_per_contract c price
unfolding cost_per_contract fee_bound
cost_nonneg c price small = rw (le→leb price micro small) (omega int_laws)

-- The tests that stop an entry all passed.
vetoes-passed :
    (c : Strategy) (self : Risk) (d : Day)
    → vetoes c self d ≡ []
    → (self.halted ≡ false)
      × (pos 0 <ℤ d.pnl +ℤ pos (c.max_daily_loss * micro))
      × (c.daily_entry_limits_enabled ≡ true → d.trades < c.max_daily_trades)
unfolding vetoes
vetoes-passed c self d h = ground arith

-- The limits in 10^-18 dollars say the same of the amounts in 10^-12 dollars.
fine-le : (a m s : ℤ) → fine a ≤ℤ fine (m -ℤ s) → s +ℤ a ≤ℤ m
fine-le a m s h = omega (int_laws, scale_parts micro a, scale_parts micro (m -ℤ s))

daily_limit-AtMostEach :
    (c : Strategy) (d : Day) (rest : List Limit) (a : ℤ)
    → AtMostEach a (daily_limit c d rest)
    → AtMostEach a rest
      × (c.daily_entry_limits_enabled ≡ true
          → a ≤ℤ fine (pos (c.max_daily_exposure * micro) -ℤ d.exposure))
daily_limit-AtMostEach c d rest a h = ground arith

-- An amount that fits every limit fits the open exposure, the bankroll and the day.
limits-fit :
    (c : Strategy) (self : Risk) (d : Day) (cost a : ℤ)
    → AtMostEach (fine a) (limits c self d cost)
    → (sum_values self.reserved +ℤ a ≤ℤ pos (c.max_open_exposure * micro))
      × (sum_values self.reserved +ℤ a ≤ℤ bankroll_of c self)
      × (c.daily_entry_limits_enabled ≡ true
          → d.exposure +ℤ a ≤ℤ pos (c.max_daily_exposure * micro))
unfolding limits
limits-fit c self d cost a h =
    let (rest, day_fits) = daily_limit-AtMostEach c d _ (fine a) h.1.1.1.1 in
    (
      fine-le a (pos (c.max_open_exposure * micro)) (sum_values self.reserved) h.1.1.1.0,
      fine-le a (bankroll_of c self) (sum_values self.reserved) rest.0,
      λ on. fine-le a (pos (c.max_daily_exposure * micro)) d.exposure (day_fits on),
    )

lookup-sum_values :
    (k : ℕ) (v : ℤ) (d : Dict ℤ) → lookup k d ≡ none → sum_values (insert k v d) ≡ sum_values d +ℤ v
lookup-sum_values k v [] h = omega int_laws
lookup-sum_values k v ((j, w) ∷ d) h = elim (Bool-cases (j == k)) [
  | inl e ↦ absurd (ground arith)
  | inr e ↦ rw e (rw (lookup-sum_values k v d (rw e at h)) (omega int_laws))
]

-- What holds of the portfolio after a reservation.
pub record Reserved (c : Strategy) (self self' : Risk) (key quantity : ℕ) (amount : ℤ) (now : ℕ)
    : Type 0 where
  pub running : self.halted ≡ false
  pub loss_open : pos 0 <ℤ (day self now).pnl +ℤ pos (c.max_daily_loss * micro)
  pub small : quantity ≤ c.max_contracts
  pub recorded : lookup key self'.reserved ≡ some amount
  pub added : sum_values self'.reserved ≡ sum_values self.reserved +ℤ amount
  pub open_exposure : sum_values self'.reserved ≤ℤ pos (c.max_open_exposure * micro)
  pub bankroll : sum_values self'.reserved ≤ℤ bankroll_of c self
  pub daily_exposure :
      c.daily_entry_limits_enabled ≡ true
      → (day self' now).exposure ≤ℤ pos (c.max_daily_exposure * micro)
  pub daily_trades :
      c.daily_entry_limits_enabled ≡ true → (day self' now).trades ≤ c.max_daily_trades

module _ (self : Risk) (key : ℕ) (amount : ℤ) (now : ℕ) where
  booked_day : day (book_amount self key amount now) now ≡ record (day self now) {
    exposure = (day self now).exposure +ℤ amount;
    trades = (day self now).trades + 1;
  }
  unfolding day book_amount
  booked_day = rw lookup-insert (rw (eq_self (day_of now)))

  booked_lookup : lookup key (book_amount self key amount now).reserved ≡ some amount
  unfolding book_amount
  booked_lookup = lookup-insert key key amount self.reserved ∙ rw (eq_self key)

  booked_sum :
      lookup key self.reserved ≡ none
      → sum_values (book_amount self key amount now).reserved ≡ sum_values self.reserved +ℤ amount
  unfolding book_amount
  booked_sum fresh = lookup-sum_values key amount self.reserved fresh

-- A reservation that is granted, at a price of at most one dollar, was asked of a portfolio that
-- was not halted and had not lost its daily limit. It is at most the contract limit, and is
-- recorded with the cost of its contracts, fees and slippage included. Afterwards the open
-- exposure, the bankroll and, where the daily limits are on, the day's exposure and number of
-- trades are within their limits.
pub reserve-Reserved :
    (c : Strategy) (self : Risk) (key price quantity now : ℕ) {self' : Risk}
    → price ≤ micro
    → reserve c self key price quantity now ≡ some self'
    → Reserved c self self' key quantity (scale quantity (cost_per_contract c price)) now
reserve-Reserved c self key price q now {self'} small h =
    let (fresh, q0, enough, e) = reserve-checks c self price now key q h in
    let (clear, fits) = size_details_positive c self price now q q0 enough in
    let cost = cost_per_contract c price in
    let d = day self now in
    let (running, loss, trades) = vetoes-passed c self d clear in
    let budget = smallest (limits c self d cost) in
    let (o, b, t) = limits-fit c self d cost (scale q cost) (
      AtMostEach-mono (fine (scale q cost)) budget (limits c self d cost)
        (affordable-le c.max_contracts q budget cost q0 (cost_nonneg c price small) fits)
        (smallest-AtMostEach (limits c self d cost))) in
    let sums = booked_sum self key (scale q cost) now fresh in
    let today = booked_day self key (scale q cost) now in
    rw (← e) (record {
      running = running;
      loss_open = loss;
      small = omega (arith, fits);
      recorded = booked_lookup self key (scale q cost) now;
      added = sums;
      open_exposure = rw sums o;
      bankroll = rw sums b;
      daily_exposure = λ on. rw today (t on);
      daily_trades = λ on. rw today (omega (arith, trades on));
    })
