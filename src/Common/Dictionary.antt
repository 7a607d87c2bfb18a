-- ===== src/Common/Dictionary.antt =====
-- A Python dict keyed by numbers, in insertion order. Tickers and days are such keys.
use Prim.Native.Nat.{ℕ}
use mathlib.Core.Path.{◌≡◌, refl}
use mathlib.Core.Bool.{Bool, true, false}
use mathlib.Core.Option.{Option, none, some}
use mathlib.Core.List.{List, [], ◌∷◌}
use native.Mathlib.Omega.{arith}
use project.Common.Tests.{◌==◌, if◌then◌else◌}

-- The pairs of a dict, each key at most once where the dict was built by `insert`.
abbrev pub Dict {ℓ} : Type ℓ → Type ℓ
Dict Value = List (ℕ × Value)

abbrev pub is_present {ℓ} : {Value : Type ℓ} → Option Value → Bool
is_present (some value) = true
is_present none = false

module _ {ℓ} {Value : Type ℓ} where
  -- `d.pop(key, None)`
  abbrev pub erase : ℕ → Dict Value → Dict Value
  erase key ((at, value) ∷ rest) = if at == key then rest else (at, value) ∷ erase key rest
  erase key [] = []

  -- `d.get(key)`
  abbrev pub lookup : ℕ → Dict Value → Option Value
  lookup key ((at, value) ∷ rest) = if at == key then some value else lookup key rest
  lookup key [] = none

  -- `key in d`
  abbrev pub contains : ℕ → Dict Value → Bool
  contains key d = is_present (lookup key d)

  -- `d[key] = new`
  abbrev pub insert : ℕ → Value → Dict Value → Dict Value
  insert key new ((at, value) ∷ rest) =
      if at == key then (key, new) ∷ rest else (at, value) ∷ insert key new rest
  insert key new [] = (key, new) ∷ []

  pub lookup-insert :
      (key at : ℕ) (new : Value) (d : Dict Value)
      → lookup at (insert key new d) ≡ (if key == at then some new else lookup at d)
  lookup-insert key at new [] = refl
  lookup-insert key at new ((i, value) ∷ rest) = ground (arith, lookup-insert key at new rest)

  pub lookup-erase :
      (key at : ℕ) (d : Dict Value) → (key == at) ≡ false → lookup at (erase key d) ≡ lookup at d
  lookup-erase key at [] h = refl
  lookup-erase key at ((i, value) ∷ rest) h = ground (arith, h, lookup-erase key at rest h)
