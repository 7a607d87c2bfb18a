-- ===== src/ReadBudget.antt =====
-- src/btc15/read_budget.py: the token bucket that all credentialed readers share.
--
-- Tokens are thousandths of a token, and times are milliseconds. At 200 tokens a second a
-- millisecond earns 200 thousandths. A delay is counted in 1/200 milliseconds, in which the
-- time that a missing thousandth takes is 1. The file lock is the argument `held`: while another
-- process has it, a call answers without touching the state.
pub mod Grants
mod Tests
use project.Common.{
  ℕ, zero, suc, ◌+◌, ◌-◌, ◌*◌, min, max, Bool, true, false, ◌&&◌, if◌then◌else◌, ltb, leb, ◌==◌,
  Option, none, some, List, [], ◌∷◌,
}

abbrev pub read_rate : ℕ
read_rate = 200

abbrev pub read_capacity : ℕ
read_capacity = 600000

abbrev pub stop_reserve : ℕ
stop_reserve = 30000

-- The shared record; `boot` is checked where the file is read.
pub record Budget : Type 0 where
  pub at : ℕ
  pub tokens : ℕ
  pub blocked_until : ℕ

-- `ReadBudget.empty`
unfoldable pub empty : ℕ → Budget
empty now = record { at = now; tokens = 0; blocked_until = 0 }

-- The checks on a record read from the file, under another boot identity or not.
unfoldable pub is_current : Bool → Budget → ℕ → Bool
is_current same_boot s now = same_boot && leb s.at now && leb s.tokens read_capacity

-- `locked_state`: what a call works on. `none` stands for a file that holds no record.
unfoldable pub load : Bool → Option Budget → ℕ → Budget
load same_boot none now = empty now
load same_boot (some s) now = if is_current same_boot s now then s else empty now

pub record Answer : Type 0 where
  pub budget : Budget
  pub delay : ℕ

abbrev pub refill : Budget → ℕ → Budget
refill s now = record s {
  tokens = min read_capacity (s.tokens + (now - s.at) * read_rate);
  at = now;
}

abbrev pub required : ℕ → Bool → ℕ
required cost stop = cost + (if stop then 0 else stop_reserve)

-- `ReadBudget.delay` under the lock
unfoldable pub request : Budget → ℕ → ℕ → Bool → Answer
request s now cost stop =
    let r = refill s now in
    let wait = max ((r.blocked_until - now) * read_rate) (required cost stop - r.tokens) in
    if wait == 0
    then record { budget = record r { tokens = r.tokens - cost }; delay = 0 }
    else record { budget = r; delay = wait }

-- `ReadBudget.delay`: five milliseconds where the lock is held.
unfoldable pub delay : Bool → Budget → ℕ → ℕ → Bool → Answer
delay held s now cost stop =
    if held then record { budget = s; delay = 5 * read_rate } else request s now cost stop

-- The guard of `acquire`
unfoldable pub is_supported : ℕ → Bool
is_supported cost = ltb 0 cost && leb cost (read_capacity - stop_reserve)

-- `ReadBudget.penalize` under the lock: `pause` milliseconds of backoff.
unfoldable pub penalize : Budget → ℕ → ℕ → Budget
penalize s now pause = record {
  tokens = 0;
  at = now;
  blocked_until = max s.blocked_until (now + pause);
}

-- `read_cost` of a path's parts, by its first part and the number of parts.
unfoldable pub read_cost : Bool → Bool → ℕ
read_cost is_cfbenchmarks is_single_order =
    if is_cfbenchmarks then 50000 else if is_single_order then 2000 else 10000

-- The turns of `acquire` and `penalize` as all processes take them, one after the other.
pub data Turn : Type 0 where
  ask : ℕ → ℕ → Bool → Turn
  backoff : ℕ → ℕ → Turn

abbrev pub time_of : Turn → ℕ
time_of (ask now cost stop) = now
time_of (backoff now pause) = now

abbrev pub granted : ℕ → ℕ → ℕ
granted zero cost = cost
granted (suc d) cost = 0

-- The budget after some turns, and the tokens handed out in them.
pub record Tally : Type 0 where
  pub budget : Budget
  pub spent : ℕ

abbrev pub turn : Budget → Turn → Tally
turn s (ask now cost stop) =
    let a = request s now cost stop in record { budget = a.budget; spent = granted a.delay cost }
turn s (backoff now pause) = record { budget = penalize s now pause; spent = 0 }

unfoldable pub turns : Budget → List Turn → Tally
turns s [] = record { budget = s; spent = 0 }
turns s (t ∷ ts) =
    let first = turn s t in
    let rest = turns first.budget ts in record rest { spent = first.spent + rest.spent }
