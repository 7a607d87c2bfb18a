-- ===== src/ReadBudget/Tests.antt =====
-- The bucket at concrete times.
use project.Common.{◌≡◌, ◌≤◌, ◌<◌, ◌+◌, ◌-◌, ◌*◌, refl, true, false, some, List, [], ◌∷◌, arith}
use project.ReadBudget.{
  read_rate, read_capacity, Budget, empty, request, Turn, ask, backoff, turns, is_supported, load,
  is_current,
}
use project.ReadBudget.Grants.{turns_account, request-request}

-- Forty tokens are left at one second.
abbrev bucket : Budget
bucket = record { at = 1000; tokens = 40000; blocked_until = 0 }

abbrev busy : List Turn
busy = ask 1010 10000 false ∷ ask 1010 10000 false ∷ backoff 1200 50 ∷ ask 1240 2000 true ∷ []

-- An ordinary request of ten tokens is granted, the next one waits ten tokens' worth.
granted_ten : (request bucket 1000 10000 false).delay ≡ 0
unfolding request
granted_ten = refl

told_to_wait : (request (request bucket 1000 10000 false).budget 1000 10000 false).delay ≡ 10000
unfolding request
told_to_wait = refl

poor : (request bucket 1000 50000 false).delay ≡ 40000
unfolding request
poor = refl

supported : is_supported 50000 ≡ true
unfolding is_supported
supported = refl

told : 0 < (request bucket 1000 50000 false).delay
told = omega (arith, poor)

waited : (request bucket 1000 50000 false).delay ≤ (1200 - 1000) * read_rate
waited = omega (arith, poor)

-- A file written under another boot is thrown away.
rebooted : load false (some bucket) 2000 ≡ empty 2000
unfolding load is_current empty
rebooted = refl

turns_account_example :
    ((turns bucket busy).budget.tokens ≤ read_capacity)
    × ((turns bucket busy).spent + (turns bucket busy).budget.tokens
        ≤ 40000 + read_rate * (1240 - 1000))
turns_account_example = turns_account bucket busy (omega arith) (ground arith)

request-request_example :
    (request (request bucket 1000 50000 false).budget 1200 50000 false).delay ≡ 0
request-request_example =
    request-request bucket 1000 1200 50000 false supported (omega arith) (omega arith) told waited
