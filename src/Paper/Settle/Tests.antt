-- ===== src/Paper/Settle/Tests.antt =====
-- Five contracts of YES that were bought at 90 cents, one of them sold since.
use project.Common.{◌≡◌, refl, true, false, none, some, [], ◌∷◌, pos, ◌+ℤ◌, ◌-ℤ◌}
use project.Risk
use project.Book.{yes_side, no_side}
use project.Lifecycle.{position_open, halted, transition, transitions, targets, recovers}
use project.Paper.{Desk, Result, ok, cancel, enter}
use project.Paper.Settle
use project.Paper.Settle.Once.{Settlement, is_settled, settle-Settlement, settle-once}

abbrev desk : Desk
desk = record {
  ticker = 42;
  order = none;
  position = some (record {
    opportunity = 1;
    side = yes_side;
    quantity = 400;
    bought = 500;
    cost = 4500000000000;
    fees = pos 34000000000;
    proceeds = 950000000000;
    opened = 1000000;
  });
  quarantined = false;
  paused = false;
  state = some position_open;
  risk = record {
    reserved = (42, pos 4600000000000) ∷ [];
    realized = pos 0;
    daily = [];
    halted = false;
  };
  closed_at = none;
  pending_reference = false;
  collector_paused = false;
  fills = [];
}

abbrev account : Settle.Account
account = record {
  desk = desk;
  contract = none;
  settlement = none;
  claimed = false;
  evidence = [];
  results = [];
}

abbrev contract : Settle.Contract
contract = record { close_time = 1300000; hash = 7 }

abbrev settling_of : Result Settle.Settling → Settle.Settling
settling_of (ok s) = s
settling_of _ = record { account = account; answer = Settle.blocked }

abbrev settling : Settle.Settling
settling = settling_of (Settle.settle contract (some yes_side) 1300500 none none account)

is_settling : Settle.settle contract (some yes_side) 1300500 none none account ≡ ok settling
unfolding Settle.settle Settle.settle_weighed Settle.weigh Settle.record_evidence
    Settle.recovery_allows Settle.book_settlement Settle.finish cancel enter Risk.close Risk.day
    transition transitions targets recovers ◌+ℤ◌ ◌-ℤ◌
is_settling = refl

-- 4.95 dollars less 4.50 and the fees.
profit : settling.account.desk.risk.realized ≡ pos 416000000000
unfolding Settle.settle Settle.settle_weighed Settle.weigh Settle.record_evidence
    Settle.recovery_allows Settle.book_settlement Settle.finish cancel enter Risk.close Risk.day
    transition transitions targets recovers ◌+ℤ◌ ◌-ℤ◌
profit = refl

-- The other result, later.
abbrev again : Settle.Settling
again = settling_of (Settle.settle contract (some no_side) 1400000 none none settling.account)

is_again : Settle.settle contract (some no_side) 1400000 none none settling.account ≡ ok again
unfolding Settle.settle Settle.settle_weighed Settle.weigh Settle.record_evidence
    Settle.recovery_allows Settle.book_settlement Settle.finish cancel enter Risk.close Risk.day
    transition transitions targets recovers ◌+ℤ◌ ◌-ℤ◌
is_again = refl

is_blocked : again.answer ≡ Settle.blocked
unfolding Settle.settle Settle.settle_weighed Settle.weigh Settle.record_evidence
    Settle.recovery_allows Settle.book_settlement Settle.finish cancel enter Risk.close Risk.day
    transition transitions targets recovers ◌+ℤ◌ ◌-ℤ◌
is_blocked = refl

-- A quarantined market settles on final evidence that agrees with its contract.
abbrev quarantined : Settle.Account
quarantined = record account { desk = record desk { quarantined = true; state = some halted } }

abbrev evidence : Settle.Evidence
evidence = record { digest = 99; final = some 7; new_id = 5 }

abbrev recovered : Settle.Settling
recovered =
    settling_of (Settle.settle contract (some yes_side) 1300500 (some evidence) none quarantined)

recovers_profit : recovered.account.desk.risk.realized ≡ pos 416000000000
unfolding Settle.settle Settle.settle_weighed Settle.weigh Settle.record_evidence
    Settle.recovery_allows Settle.book_settlement Settle.finish cancel enter Risk.close Risk.day
    transition transitions targets recovers ◌+ℤ◌ ◌-ℤ◌
recovers_profit = refl

settle-Settlement_example : Settlement yes_side account settling
settle-Settlement_example =
    settle-Settlement contract yes_side 1300500 none none account is_settling

settle-once_example : (again.account ≡ settling.account) × (is_settled again.answer ≡ false)
unfolding Settle.settle Settle.settle_weighed Settle.weigh Settle.record_evidence
    Settle.recovery_allows Settle.book_settlement Settle.finish cancel enter Risk.close Risk.day
    transition transitions targets recovers ◌+ℤ◌ ◌-ℤ◌
settle-once_example =
    settle-once contract contract yes_side (some no_side) 1300500 1400000 none none none none
      account is_settling refl is_again
