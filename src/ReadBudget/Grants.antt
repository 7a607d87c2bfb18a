-- ===== src/ReadBudget/Grants.antt =====
-- The bucket never hands out more than it earned, keeps the reserve for stops, and lets a caller
-- through that has waited as long as it was told.
use project.Common.{ℕ, ◌+◌, ◌-◌, ◌*◌, ◌≤◌, ◌<◌, ◌≡◌, Bool, true, false, List, [], ◌∷◌, arith}
use project.ReadBudget.{
  read_rate, read_capacity, stop_reserve, Budget, request, is_supported, penalize, Turn, ask,
  backoff, time_of, turn, turns,
}

-- A turn at a later time keeps the capacity, and pays what it hands out from what it had and
-- what it earned since.
turn_accounts :
    (s : Budget) (t : Turn)
    → s.at ≤ time_of t
    → s.tokens ≤ read_capacity
    → let r = turn s t in
      (r.budget.at ≡ time_of t)
      × (r.budget.tokens ≤ read_capacity)
      × (r.spent + r.budget.tokens ≤ s.tokens + read_rate * (time_of t - s.at))
unfolding request penalize
turn_accounts s (ask now cost stop) h k = ground arith
turn_accounts s (backoff now pause) h k = ground arith

-- Turns in the order of the clock.
abbrev pub InOrder : ℕ → List Turn → Type 0
InOrder from [] = Unit
InOrder from (t ∷ ts) = (from ≤ time_of t) × InOrder (time_of t) ts

abbrev pub last_time : ℕ → List Turn → ℕ
last_time from [] = from
last_time from (t ∷ ts) = last_time (time_of t) ts

last_time-ge : (from : ℕ) (ts : List Turn) → InOrder from ts → from ≤ last_time from ts
last_time-ge from [] h = omega arith
last_time-ge from (t ∷ ts) (h, hs) = omega (arith, last_time-ge (time_of t) ts hs)

-- From a bucket within its capacity, over any turns of any number of processes, in the order of the clock, the tokens handed out
-- and those left are at most the tokens at the start and those earned in the time between.
-- The bucket never holds more than its capacity.
pub turns_account :
    (s : Budget) (ts : List Turn)
    → s.tokens ≤ read_capacity
    → InOrder s.at ts
    → let r = turns s ts in
      (r.budget.tokens ≤ read_capacity)
      × (r.spent + r.budget.tokens ≤ s.tokens + read_rate * (last_time s.at ts - s.at))
unfolding turns
turns_account s [] k h = (k, omega arith)
turns_account s (t ∷ ts) k (h, hs) =
    let (at, full, paid) = turn_accounts s t h k in
    let (full', paid') = turns_account (turn s t).budget ts full (rw at hs) in
    (full', omega (arith, rw at at paid', last_time-ge (time_of t) ts hs))

-- With a bucket within its capacity, a caller with a supported cost that is told to wait, and comes back after at least that time
-- while nobody else has used the bucket, is let through.
pub request-request :
    (s : Budget) (now later cost : ℕ) (stop : Bool)
    → is_supported cost ≡ true
    → s.tokens ≤ read_capacity
    → now ≤ later
    → 0 < (request s now cost stop).delay
    → (request s now cost stop).delay ≤ (later - now) * read_rate
    → (request (request s now cost stop).budget later cost stop).delay ≡ 0
unfolding request is_supported
request-request s now later cost stop ok k order told waited = ground arith

-- With a bucket within its capacity, an ordinary request that is granted leaves the reserve: a stop that needs no more than the
-- reserve, at the same moment or later, is granted at once.
pub request-stop :
    (s : Budget) (now later cost stop_cost : ℕ)
    → s.tokens ≤ read_capacity
    → (request s now cost false).delay ≡ 0
    → now ≤ later
    → stop_cost ≤ stop_reserve
    → (request (request s now cost false).budget later stop_cost true).delay ≡ 0
unfolding request
request-stop s now later cost stop_cost k granted_now order small = ground arith

-- After a penalty nothing is granted before the backoff has passed, whatever is asked.
pub penalize-request :
    (s : Budget) (now pause later cost : ℕ) (stop : Bool)
    → later < now + pause
    → 0 < (request (penalize s now pause) later cost stop).delay
unfolding request penalize
penalize-request s now pause later cost stop early = ground arith
