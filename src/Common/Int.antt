-- ===== src/Common/Int.antt =====
-- Signed integers over the native numbers: Python's unbounded ints, and decimals in a fixed unit.
use Prim.Native.Nat.{ℕ, zero, suc, ◌+◌, ◌-◌, ◌*◌, ◌/◌, ◌%◌, ◌≤◌, ◌<◌}
use mathlib.Core.Path.{◌≡◌}
use mathlib.Core.Bool.{Bool, true}
use native.Mathlib.Omega.{arith}
use native.Mathlib.Nat.{
  div-add-mod', mod-lt, mod-eq_of_lt, mul-mod_left, mul-add-mod_self_right, mul-sub,
}
use project.Common.Tests.{ltb, leb, ◌==◌, if◌then◌else◌}

-- `negsuc n` is -(n + 1).
pub data ℤ : Type 0 where
  pos : ℕ → ℤ
  negsuc : ℕ → ℤ

abbrev pub pos_part : ℤ → ℕ
pos_part (pos n) = n
pos_part (negsuc n) = 0

abbrev pub neg_part : ℤ → ℕ
neg_part (pos n) = 0
neg_part (negsuc n) = suc n

-- a - b, as an integer.
abbrev pub sub_ℕ : ℕ → ℕ → ℤ
sub_ℕ a b = if leb b a then pos (a - b) else negsuc (b - a - 1)

infixl 65 ◌+ℤ◌ ◌-ℤ◌
infix 50 ◌≤ℤ◌ ◌<ℤ◌
unfoldable pub ◌+ℤ◌ : ℤ → ℤ → ℤ
a +ℤ b = sub_ℕ (pos_part a + pos_part b) (neg_part a + neg_part b)

unfoldable pub ◌-ℤ◌ : ℤ → ℤ → ℤ
a -ℤ b = sub_ℕ (pos_part a + neg_part b) (neg_part a + pos_part b)

abbrev pub ◌≤ℤ◌ : ℤ → ℤ → Type 0
a ≤ℤ b = pos_part a + neg_part b ≤ pos_part b + neg_part a

abbrev pub ◌<ℤ◌ : ℤ → ℤ → Type 0
a <ℤ b = pos_part a + neg_part b < pos_part b + neg_part a

abbrev pub ltb_ℤ : ℤ → ℤ → Bool
ltb_ℤ a b = ltb (pos_part a + neg_part b) (pos_part b + neg_part a)

abbrev pub leb_ℤ : ℤ → ℤ → Bool
leb_ℤ a b = leb (pos_part a + neg_part b) (pos_part b + neg_part a)

abbrev pub eqb_ℤ : ℤ → ℤ → Bool
eqb_ℤ a b = pos_part a + neg_part b == pos_part b + neg_part a

abbrev pub min_ℤ : ℤ → ℤ → ℤ
min_ℤ a b = if leb_ℤ a b then a else b

abbrev pub max_ℤ : ℤ → ℤ → ℤ
max_ℤ a b = if leb_ℤ a b then b else a

-- The remainder of Python's `//`, which rounds towards minus infinity: 0 up to n - 1.
unfoldable pub floor_mod : ℤ → ℕ → ℕ
floor_mod (pos a) n = a % n
floor_mod (negsuc a) n = n - 1 - a % n

pub +ℤ_parts :
    (a b : ℤ)
    → pos_part (a +ℤ b) + neg_part a + neg_part b ≡ neg_part (a +ℤ b) + pos_part a + pos_part b
unfolding ◌+ℤ◌
+ℤ_parts a b = ground arith

pub -ℤ_parts :
    (a b : ℤ)
    → pos_part (a -ℤ b) + neg_part a + pos_part b ≡ neg_part (a -ℤ b) + pos_part a + neg_part b
unfolding ◌-ℤ◌
-ℤ_parts a b = ground arith

pub eq_of_parts : (a b : ℤ) → pos_part a + neg_part b ≡ pos_part b + neg_part a → a ≡ b
eq_of_parts a b h = ground arith

pub parts_of_eq : {a b : ℤ} → a ≡ b → pos_part a + neg_part b ≡ pos_part b + neg_part a
parts_of_eq {a} e = rw (← e)

pub min_ℤ-le_left : (a b : ℤ) → min_ℤ a b ≤ℤ a
min_ℤ-le_left a b = ground arith

pub min_ℤ-le_right : (a b : ℤ) → min_ℤ a b ≤ℤ b
min_ℤ-le_right a b = ground arith

pub le-min_ℤ : (a b c : ℤ) → c ≤ℤ a → c ≤ℤ b → c ≤ℤ min_ℤ a b
le-min_ℤ a b c h k = ground arith

pub ≤ℤ_trans : (a b c : ℤ) → a ≤ℤ b → b ≤ℤ c → a ≤ℤ c
≤ℤ_trans a b c h k = omega arith

pub ruleset int_laws = (arith, +ℤ_parts, -ℤ_parts, eq_of_parts)

pub eqb_ℤ→eq : (a b : ℤ) → eqb_ℤ a b ≡ true → a ≡ b
eqb_ℤ→eq a b h = ground arith

pub floor_mod-lt : (a : ℤ) (n : ℕ) → 0 < n → floor_mod a n < n
unfolding floor_mod
floor_mod-lt (pos a) n h = grind arith
floor_mod-lt (negsuc a) n h = omega arith

-- The largest multiple of n that is at most a: `(a / n).to_integral_value(ROUND_FLOOR) * n`.
unfoldable pub floor_to : ℤ → ℕ → ℤ
floor_to a n = a -ℤ pos (floor_mod a n)

-- x is a whole number of steps of n, counted as k upwards and l downwards.
abbrev IsMultiple : ℕ → ℤ → Type 0
IsMultiple n x = (k : ℕ) × (l : ℕ) × (pos_part x + l * n ≡ neg_part x + k * n)

floor_mod→IsMultiple : (n : ℕ) (x : ℤ) → 0 < n → floor_mod x n ≡ 0 → IsMultiple n x
unfolding floor_mod
floor_mod→IsMultiple n (pos a) h e = (a / n, 0, omega (arith, div-add-mod' a n))
floor_mod→IsMultiple n (negsuc a) h e = (0, a / n + 1, omega (arith, div-add-mod' a n, mod-lt a h))

multiple_of_sum : (a k l n : ℕ) → a + l * n ≡ k * n → a ≡ (k - l) * n
multiple_of_sum a k l n e = omega (arith, mul-sub n k l)

last_of_multiple : (a m n : ℕ) → 0 < n → suc a ≡ m * n → a % n ≡ n - 1
last_of_multiple a zero n h e = absurd (omega arith)
last_of_multiple a (suc m) n h e =
    let d : a ≡ m * n + (n - 1) = omega arith in
    rw (d, mul-add-mod_self_right m n (n - 1)) (mod-eq_of_lt (omega arith))

IsMultiple→floor_mod : (n : ℕ) (x : ℤ) → 0 < n → IsMultiple n x → floor_mod x n ≡ 0
unfolding floor_mod
IsMultiple→floor_mod n (pos a) h (k, l, e) =
    rw (multiple_of_sum a k l n (omega arith)) (mul-mod_left (k - l) n)
IsMultiple→floor_mod n (negsuc a) h (k, l, e) =
    let d : suc a ≡ (l - k) * n = multiple_of_sum (suc a) l k n (omega arith) in
    omega (arith, last_of_multiple a (l - k) n h d)

pub floor_mod-add :
    (a b : ℤ) (n : ℕ) → 0 < n → floor_mod a n ≡ 0 → floor_mod b n ≡ 0 → floor_mod (a +ℤ b) n ≡ 0
floor_mod-add a b n h p q =
    let (k, l, e) = floor_mod→IsMultiple n a h p in
    let (k', l', e') = floor_mod→IsMultiple n b h q in
    IsMultiple→floor_mod n (a +ℤ b) h (k + k', l + l', omega int_laws)

floor_to-IsMultiple : (a : ℤ) (n : ℕ) → 0 < n → IsMultiple n (floor_to a n)
unfolding floor_to floor_mod
floor_to-IsMultiple (pos a) n h =
    (a / n, 0, omega (int_laws, div-add-mod' a n, -ℤ_parts (pos a) (pos (a % n))))
floor_to-IsMultiple (negsuc a) n h = (
  0,
  a / n + 1,
  omega (int_laws, div-add-mod' a n, mod-lt a h, -ℤ_parts (negsuc a) (pos (n - 1 - a % n))),
)

pub floor_mod-floor_to : (a : ℤ) (n : ℕ) → 0 < n → floor_mod (floor_to a n) n ≡ 0
floor_mod-floor_to a n h = IsMultiple→floor_mod n (floor_to a n) h (floor_to-IsMultiple a n h)

pub floor_to-le : (a : ℤ) (n : ℕ) → floor_to a n ≤ℤ a
unfolding floor_to
floor_to-le a n = omega int_laws

pub floor_to-gt : (a : ℤ) (n : ℕ) → 0 < n → a <ℤ floor_to a n +ℤ pos n
unfolding floor_to
floor_to-gt a n h = omega (int_laws, floor_mod-lt a n h)

pub floor_to_nonneg : (a : ℤ) (n : ℕ) → 0 < n → pos 0 ≤ℤ a → pos 0 ≤ℤ floor_to a n
unfolding floor_to floor_mod ◌-ℤ◌
floor_to_nonneg a n h k = grind arith

-- A whole number of times an integer.
unfoldable pub scale : ℕ → ℤ → ℤ
scale k a = sub_ℕ (k * pos_part a) (k * neg_part a)

pub scale_parts :
    (k : ℕ) (a : ℤ) → pos_part (scale k a) + k * neg_part a ≡ neg_part (scale k a) + k * pos_part a
unfolding scale
scale_parts k a = ground arith

pub pos-add : (a b : ℕ) → pos a +ℤ pos b ≡ pos (a + b)
pos-add a b = omega int_laws

pub scale-pos : (k a : ℕ) → scale k (pos a) ≡ pos (k * a)
unfolding scale
scale-pos k a = ground arith

pub +ℤ_comm : (a b : ℤ) → a +ℤ b ≡ b +ℤ a
unfolding ◌+ℤ◌
+ℤ_comm a b = ground arith
