-- ===== src/Lease/Mutex.antt =====
-- The lease is a mutex: a running owner keeps it until it releases it.
use mathlib.Core.Path.{subst}
use project.Common.{
  ℕ, ◌≡◌, refl, sym, ap, ◌∙◌, Bool, false, ◌&&◌, not, ◌==◌, Option, none, some, List, [], ◌∷◌,
  lookup, lookup-insert, arith, Bool-cases, inl, inr, ==_iff, &&-true, All, tested_branches,
  then_branch, else_branch, lookup-erase, both_branches,
}
use project.Lease.{
  Process, Reading, began, Leases, owner_is_dead, saved_of, hold, may_replace, acquire, release,
  equals, held_by, owner_or,
}

-- What a process with the identity `current` reads of a running process p: on the same machine
-- the boot is the same, and in the same namespace its process id has its start time.
pub record Sees (process_start : ℕ → Reading) (p current : Process) : Type 0 where
  pub same_boot : p.host ≡ current.host → p.machine ≡ current.machine → p.boot ≡ current.boot
  pub same_start :
      p.host ≡ current.host
      → p.machine ≡ current.machine
      → p.namespace ≡ current.namespace
      → process_start p.pid ≡ began p.start

-- The calls of `acquire` and `release`, each with what its process reads.
pub data Step : Type 0 where
  acquires : (ℕ → Reading) → Option Process → ℕ → ℕ → Step
  releases : ℕ → ℕ → Step

-- A call that is none of the owner's releases, and whose process sees the owner's as it is.
pub data Truthful (p : Process) (owner : ℕ) : Step → Type 0 where
  blind :
      {process_start : ℕ → Reading} {key other : ℕ}
      → Truthful p owner (acquires process_start none key other)
  sighted :
      {process_start : ℕ → Reading} {current : Process} {key other : ℕ}
      → Sees process_start p current
      → Truthful p owner (acquires process_start (some current) key other)
  foreign : {key other : ℕ} → (owner == other) ≡ false → Truthful p owner (releases key other)

abbrev or_same : Leases → Option Leases → Leases
or_same s none = s
or_same s (some after) = after

unfoldable pub happen : (ℕ → Bool) → Leases → Step → Leases
happen is_digit s (acquires process_start identity key other) =
    or_same s (acquire is_digit process_start identity key other s)
happen is_digit s (releases key other) = release key other s

unfoldable pub run : (ℕ → Bool) → Leases → List Step → Leases
run is_digit s [] = s
run is_digit s (x ∷ xs) = run is_digit (happen is_digit s x) xs

-- The owner has the lease, published with its process.
pub record Holds (key owner : ℕ) (p : Process) (s : Leases) : Type 0 where
  pub is_owner : lookup key s.owners ≡ some owner
  pub published : lookup key s.displays ≡ some (saved_of owner (some p))

running_is_not_dead :
    (is_digit : ℕ → Bool) (process_start : ℕ → Reading) (owner : ℕ) (p current : Process)
    → Sees process_start p current
    → owner_is_dead is_digit process_start (saved_of owner (some p)) (some current) ≡ false
unfolding owner_is_dead saved_of
running_is_not_dead is_digit process_start owner p current sees =
    elim (Bool-cases (p.host == current.host && p.machine == current.machine)) [
      | inl e ↦
          let (h, m) = &&-true (p.host == current.host) (p.machine == current.machine) e in
          let host : p.host ≡ current.host = (==_iff p.host current.host).0 h in
          let machine : p.machine ≡ current.machine = (==_iff p.machine current.machine).0 m in
          let boot : p.boot ≡ current.boot = sees.same_boot host machine in
          elim (Bool-cases (p.namespace == current.namespace)) [
            | inl n ↦
                let started : process_start p.pid ≡ began p.start =
                  sees.same_start host machine ((==_iff p.namespace current.namespace).0 n) in
                ground (arith, e, n, boot, started)
            | inr n ↦ ground (arith, e, n, boot)
          ]
      | inr e ↦ ground (arith, e)
    ]

module _ (is_digit : ℕ → Bool) (key owner : ℕ) (p : Process) where
  not_replaced :
      (process_start : ℕ → Reading) (identity : Option Process) (other : ℕ)
      → Truthful p owner (acquires process_start identity key other)
      → may_replace is_digit process_start identity owner (some (saved_of owner (some p))) ≡ false
  unfolding may_replace owner_is_dead
  not_replaced process_start none other blind = ground arith
  not_replaced process_start (some current) other (sighted sees) =
      ground (arith, running_is_not_dead is_digit process_start owner p current sees)

  acquire-refused :
      (process_start : ℕ → Reading) (identity : Option Process) (other : ℕ) (s : Leases)
      → Truthful p owner (acquires process_start identity key other)
      → Holds key owner p s
      → acquire is_digit process_start identity key other s ≡ none
  unfolding acquire
  acquire-refused process_start identity other s truth h =
      let known : may_replace is_digit process_start identity (owner_or (lookup key s.owners))
            (lookup key s.displays)
          ≡ false =
        ap (λ o. may_replace is_digit process_start identity (owner_or o) (lookup key s.displays))
          h.is_owner
        ∙ ap (may_replace is_digit process_start identity owner) h.published
        ∙ not_replaced process_start identity other truth in
      then_branch
        (held_by (lookup key s.owners)
          && not (
              may_replace is_digit process_start identity (owner_or (lookup key s.owners))
                (lookup key s.displays)))
        (some (hold key other identity s)) (ground (arith, known, h.is_owner)) refl

  acquire-Holds :
      (process_start : ℕ → Reading) (identity : Option Process) (at other : ℕ) (s : Leases)
      → Truthful p owner (acquires process_start identity at other)
      → Holds key owner p s
      → Holds key owner p (or_same s (acquire is_digit process_start identity at other s))
  unfolding acquire hold
  acquire-Holds process_start identity at other s truth h = elim (Bool-cases (at == key)) [
    | inl e ↦
        let same : key ≡ at = sym ((==_iff at key).0 e) in
        let refused : acquire is_digit process_start identity at other s ≡ none =
          subst
            (λ k.
              Truthful p owner (acquires process_start identity k other)
              → acquire is_digit process_start identity k other s ≡ none)
            same (λ t. acquire-refused process_start identity other s t h) truth in
        subst (λ o. Holds key owner p (or_same s o)) (sym refused) h
    | inr e ↦
        both_branches (λ (o : Option Leases). Holds key owner p (or_same s o))
          (held_by (lookup at s.owners)
            && not (
                may_replace is_digit process_start identity (owner_or (lookup at s.owners))
                  (lookup at s.displays)))
          {x = none} {y = some (hold at other identity s)} h
          (record {
            is_owner =
                lookup-insert at key other s.owners
                ∙ else_branch (at == key) (some other) e h.is_owner;
            published =
                lookup-insert at key (saved_of other identity) s.displays
                ∙ else_branch (at == key) (some (saved_of other identity)) e h.published;
          })
  ]

  release-Holds :
      (at other : ℕ) (s : Leases)
      → (owner == other) ≡ false
      → Holds key owner p s
      → Holds key owner p (release at other s)
  unfolding release
  release-Holds at other s apart h =
      tested_branches (Holds key owner p) (equals (lookup at s.owners) other)
        (λ e. elim (Bool-cases (at == key)) [
          | inl same ↦
              let k : lookup at s.owners ≡ some owner =
                ap (λ i. lookup i s.owners) ((==_iff at key).0 same) ∙ h.is_owner in
              absurd (ground (arith, e, k, apart))
          | inr other_key ↦ record {
            is_owner = lookup-erase at key s.owners other_key ∙ h.is_owner;
            published = lookup-erase at key s.displays other_key ∙ h.published;
          }
        ])
        (λ _. h)

  -- Where the owner holds the lease with its running process p, and every acquiring process sees
  -- p as it runs (the boot of its machine, and the start time of its process id in its
  -- namespace): over any calls but the owner's own releases, the owner keeps the lease.
  pub run-Holds :
      (s : Leases) (xs : List Step)
      → Holds key owner p s
      → All (Truthful p owner) xs
      → Holds key owner p (run is_digit s xs)
  unfolding run happen
  run-Holds s [] h t = h
  run-Holds s (acquires process_start identity at other ∷ xs) h (truth, rest) =
      run-Holds (or_same s (acquire is_digit process_start identity at other s)) xs
        (acquire-Holds process_start identity at other s truth h) rest
  run-Holds s (releases at other ∷ xs) h (foreign apart, rest) =
      run-Holds (release at other s) xs (release-Holds at other s apart h) rest
