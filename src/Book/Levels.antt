-- ===== src/Book/Levels.antt =====
-- The ladder of one side as a finite map, and its largest price.
use project.Common.{
  ◌≡◌, refl, inl, inr, true, if◌then◌else◌, Option, none, some, List, [], ◌∷◌, ℤ, pos, ◌≤ℤ◌, ◌<ℤ◌,
  eqb_ℤ, eqb_ℤ→eq, max_ℤ, arith, Bool-cases, Option-cases,
}
use project.Book.{Level, one, get, put, pop, max_price}

pub record InRange (l : Level) : Type 0 where
  pub price_pos : pos 0 <ℤ l.price
  pub price_below : l.price <ℤ one
  pub size_pos : pos 0 <ℤ l.size

-- A ladder with sizes and prices in range, and no price twice.
abbrev pub Good : List Level → Type 0
Good [] = Unit
Good (l ∷ ls) = InRange l × (get l.price ls ≡ none) × Good ls

eqb_ℤ_comm : (a b : ℤ) → eqb_ℤ a b ≡ eqb_ℤ b a
eqb_ℤ_comm a b = ground arith

pub eqb_ℤ_refl : (a : ℤ) → eqb_ℤ a a ≡ true
eqb_ℤ_refl a = ground arith

-- A written price reads back, and no other changes.
pub get-put :
    (p k : ℤ) (q : ℤ) (ls : List Level)
    → get k (put p q ls) ≡ (if eqb_ℤ p k then some q else get k ls)
get-put p k q [] = refl
get-put p k q (l ∷ ls) = ground (arith, get-put p k q ls, eqb_ℤ→eq l.price p)

pub get-pop :
    (p k : ℤ) (ls : List Level)
    → Good ls
    → get k (pop p ls) ≡ (if eqb_ℤ p k then none else get k ls)
get-pop p k [] g = ground arith
get-pop p k (l ∷ ls) (r, fresh, g) =
    ground (arith, get-pop p k ls g, eqb_ℤ→eq l.price p, eqb_ℤ→eq p k)

pub put-Good :
    (p q : ℤ) (ls : List Level) → pos 0 <ℤ p → p <ℤ one → pos 0 <ℤ q → Good ls → Good (put p q ls)
put-Good p q [] a b c g = (record { price_pos = a; price_below = b; size_pos = c }, refl, tt)
put-Good p q (l ∷ ls) a b c (r, fresh, g) = ground (
  arith,
  put-Good p q ls a b c g,
  get-put p l.price q ls,
  eqb_ℤ→eq l.price p,
  eqb_ℤ_comm l.price p,
)

pub pop-Good : (p : ℤ) (ls : List Level) → Good ls → Good (pop p ls)
pop-Good p [] g = tt
pop-Good p (l ∷ ls) (r, fresh, g) = ground (arith, pop-Good p ls g, get-pop p l.price ls g)

-- What is found in a good ladder is in range.
pub get-InRange :
    (k : ℤ) (ls : List Level) {q : ℤ}
    → Good ls
    → get k ls ≡ some q
    → (pos 0 <ℤ k) × (k <ℤ one) × (pos 0 <ℤ q)
get-InRange k [] g h = cc
get-InRange k (l ∷ ls) {q} (r, fresh, g) h = ground (arith, get-InRange k ls {q = q} g)

abbrev pub larger : ℤ → Option ℤ → ℤ
larger p none = p
larger p (some m) = max_ℤ p m

pub max_price-cons :
    (l : Level) (ls : List Level) → max_price (l ∷ ls) ≡ some (larger l.price (max_price ls))
max_price-cons l ls = elim (Option-cases (max_price ls)) [ inl e ↦ rw e | inr (m, e) ↦ rw e ]

max_price-none : (k : ℤ) (ls : List Level) → max_price ls ≡ none → get k ls ≡ none
max_price-none k [] e = refl
max_price-none k (l ∷ ls) e = cc (max_price-cons l ls)

-- No price of the ladder lies above the largest.
pub max_price-ge :
    (k : ℤ) (ls : List Level) {q m : ℤ} → get k ls ≡ some q → max_price ls ≡ some m → k ≤ℤ m
max_price-ge k [] h e = cc
max_price-ge k (l ∷ ls) {q} {m} h e = elim (Option-cases (max_price ls)) [
  | inl n ↦ ground (arith, max_price-cons l ls, max_price-none k ls n)
  | inr (m', n) ↦ ground (arith, max_price-cons l ls, max_price-ge k ls {q = q} {m = m'})
]

-- The largest price is one of the ladder's.
pub get-max_price :
    (ls : List Level) {m : ℤ} → max_price ls ≡ some m → (q : ℤ) × (get m ls ≡ some q)
get-max_price [] e = cc
get-max_price (l ∷ ls) {m} e = elim (Bool-cases (eqb_ℤ l.price m)) [
  | inl same ↦ (l.size, rw same)
  | inr other ↦ elim (Option-cases (max_price ls)) [
    | inl n ↦ absurd (ground (arith, max_price-cons l ls, eqb_ℤ_refl m))
    | inr (m', n) ↦
        let e' : max_price ls ≡ some m = ground (arith, max_price-cons l ls, eqb_ℤ_refl m) in
        let (q, found) = get-max_price ls e' in (q, rw other found)
  ]
]
