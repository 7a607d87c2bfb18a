-- ===== src/Common/Branches.antt =====
-- What an `if` comes to once its test is known.
use mathlib.Core.Path.{◌≡◌, refl}
use mathlib.Core.Bool.{Bool, true, false}
use native.Mathlib.Omega.{arith}
use project.Common.Tests.{if◌then◌else◌}

pub taken_branch {ℓ} :
    {A : Type ℓ} (b : Bool) (x y : A) {z : A} → b ≡ true → (if b then x else y) ≡ z → x ≡ z
taken_branch true x y e h = h
taken_branch false x y e h = absurd (ground arith)

pub not_taken {ℓ} :
    {A : Type ℓ} (b : Bool) (x y : A) {z : A} → b ≡ false → (if b then x else y) ≡ z → y ≡ z
not_taken true x y e h = absurd (ground arith)
not_taken false x y e h = h

-- What holds of both branches holds of the `if`.
pub both_branches {ℓ κ} :
    {A : Type ℓ} (P : A → Type κ) (b : Bool) {x y : A} → P x → P y → P (if b then x else y)
both_branches P true p q = p
both_branches P false p q = q

pub tested_branches {ℓ κ} :
    {A : Type ℓ} (P : A → Type κ) (b : Bool) {x y : A}
    → (b ≡ true → P x)
    → (b ≡ false → P y)
    → P (if b then x else y)
tested_branches P true p q = p refl
tested_branches P false p q = q refl

pub else_branch {ℓ} :
    {A : Type ℓ} (b : Bool) (x : A) {y z : A} → b ≡ false → y ≡ z → (if b then x else y) ≡ z
else_branch true x e h = absurd (ground (arith, e))
else_branch false x e h = h

pub then_branch {ℓ} :
    {A : Type ℓ} (b : Bool) {x : A} (y : A) {z : A} → b ≡ true → x ≡ z → (if b then x else y) ≡ z
then_branch true y e h = h
then_branch false y e h = absurd (ground (arith, e))
