-- ===== src/Lease/Tests.antt =====
-- A running writer, a second process of its machine, and a process after a reboot.
use project.Common.{ℕ, ◌≡◌, refl, Bool, true, none, some, List, [], ◌∷◌}
use project.Lease.{
  Process, Reading, began, not_found, Leases, acquire, holder, hold, saved_of, may_replace,
  owner_is_dead,
}
use project.Lease.Mutex.{
  Step, acquires, releases, blind, sighted, foreign, Sees, Holds, run, run-Holds,
}

abbrev writer : Process
writer = record { host = 1; machine = 2; boot = 3; namespace = 4; pid = 50; start = 777 }

abbrev second : Process
second = record writer { pid = 51; start = 888 }

abbrev rebooted : Process
rebooted = record writer { boot = 9; pid = 12; start = 15 }

abbrev free : Leases
free = record { owners = []; displays = [] }

abbrev held : Leases
held = hold 6 100 (some writer) free

abbrev all_digits : ℕ → Bool
all_digits text = true

-- The process ids of the first boot, and those after a reboot, where 50 is not in use.
abbrev running : ℕ → Reading
running pid = began 777

abbrev gone : ℕ → Reading
gone pid = not_found

owned : holder 6 held ≡ some 100
unfolding holder hold
owned = refl

-- After the reboot the lease is taken over.
taken_over :
    acquire all_digits gone (some rebooted) 6 300 held ≡ some (hold 6 300 (some rebooted) held)
unfolding acquire may_replace owner_is_dead hold saved_of
taken_over = refl

abbrev calls : List Step
calls =
    acquires running (some second) 6 200
    ∷ acquires gone none 6 300
    ∷ releases 6 200
    ∷ acquires running (some second) 7 200
    ∷ []

held-Holds : Holds 6 100 writer held
unfolding hold saved_of
held-Holds = record { is_owner = refl; published = refl }

second-Sees : Sees running writer second
second-Sees = record { same_boot = λ h m. refl; same_start = λ h m n. refl }

run-Holds_example : Holds 6 100 writer (run all_digits held calls)
run-Holds_example =
    run-Holds all_digits 6 100 writer held calls held-Holds
      (sighted second-Sees, (blind, (foreign refl, (sighted second-Sees, _))))
