-- ===== src/Book/Quotes.antt =====
-- Quotes of a consistent book: the spread, the best ask, and the depth after a delta.
use project.Common.{
  ◌≡◌, refl, inl, inr, false, if◌then◌else◌, Option, none, some, List, [], ◌∷◌, ℤ, pos, ◌≤ℤ◌, ◌+ℤ◌,
  ◌-ℤ◌, ◌<ℤ◌, ltb_ℤ, eqb_ℤ, eqb_ℤ→eq, arith, Bool-cases, Option-cases, int_laws, -ℤ_parts, +ℤ_comm,
  sym, ◌∙◌,
}
use project.Book.{
  Level, Side, yes_side, no_side, Book, one, get, max_price, size_or_zero, bid, ask, ask_level,
  asks, sorted_asks, insert_sorted, before, is_crossed, Quote,
}
use project.Book.Levels.{Good, get-max_price, get-InRange, eqb_ℤ_refl}
use project.Book.Validity.{Consistent}

sum-le-one : (y n : ℤ) → is_crossed (some y) (some n) ≡ false → y ≤ℤ one -ℤ n
sum-le-one y n h = let total : y +ℤ n ≤ℤ one = ground arith in omega int_laws

is_crossed_comm : (a b : Option ℤ) → is_crossed a b ≡ is_crossed b a
is_crossed_comm none none = refl
is_crossed_comm none (some n) = refl
is_crossed_comm (some y) none = refl
is_crossed_comm (some y) (some n) = rw (+ℤ_comm y n)

-- The spread of two good ladders that do not cross.
spread :
    (ls other : List Level) {x m : ℤ}
    → Good ls
    → Good other
    → is_crossed (max_price ls) (max_price other) ≡ false
    → max_price ls ≡ some x
    → max_price other ≡ some m
    → (pos 0 <ℤ x) × (x ≤ℤ one -ℤ m) × (one -ℤ m <ℤ one)
spread ls other {x} {m} g g' c h k =
    let (q, found) = get-max_price ls h in
    let (q', found') = get-max_price other k in
    let lo = (get-InRange x ls g found).0 in
    let lo' = (get-InRange m other g' found').0 in
    (lo, sum-le-one x m (rw (h, k) at c), omega int_laws)

-- The best ask, read off the other side's ladder.
abbrev best_quote : List Level → Quote
best_quote other = elim (max_price other) [
  | none ↦ record { price = none; size = pos 0 }
  | some p ↦ record { price = some (one -ℤ p); size = size_or_zero (get p other) }
]

quote-max_price :
    (other : List Level) {y : ℤ}
    → (best_quote other).price ≡ some y
    → (m : ℤ) × (max_price other ≡ some m) × (one -ℤ m ≡ y)
quote-max_price other {y} h = elim (Option-cases (max_price other)) [
  | inl n ↦ ground arith
  | inr (m, n) ↦ (m, n, ground arith)
]

-- In a consistent book with depth on both sides, the bid of a side is positive, and at most the
-- ask, which is less than a dollar.
pub bid-le-ask :
    (b : Book) (side : Side) {x y : ℤ}
    → Consistent b
    → bid b side ≡ some x
    → ask b side ≡ some y
    → (pos 0 <ℤ x) × (x ≤ℤ y) × (y <ℤ one)
unfolding bid ask
bid-le-ask b yes_side c h k =
    let (m, e, at) = quote-max_price b.no_levels k in
    rw (← at) (spread b.yes_levels b.no_levels c.yes_good c.no_good c.uncrossed h e)
bid-le-ask b no_side c h k =
    let (m, e, at) = quote-max_price b.yes_levels k in
    rw (← at) (
      spread b.no_levels b.yes_levels c.no_good c.yes_good
        (is_crossed_comm (max_price b.no_levels) (max_price b.yes_levels) ∙ c.uncrossed) h e)

-- The first row of a ladder, as `ask_level` returns it.
abbrev pub quote_of_head : List Level → Quote
quote_of_head [] = record { price = none; size = pos 0 }
quote_of_head (l ∷ ls) = record { price = some l.price; size = l.size }

-- The better of a new row and the best so far.
abbrev pick : Level → Quote → Quote
pick a q = elim q.price [
  | none ↦ record { price = some a.price; size = a.size }
  | some p ↦
      if before a (record { price = p; size = q.size })
      then record { price = some a.price; size = a.size }
      else record { price = some p; size = q.size }
]

insert_sorted-pick :
    (a : Level) (bs : List Level) → quote_of_head (insert_sorted a bs) ≡ pick a (quote_of_head bs)
insert_sorted-pick a [] = refl
insert_sorted-pick a (b ∷ bs) = elim (Bool-cases (before a b)) [ inl e ↦ rw e | inr e ↦ rw e ]

-- A new row of the ladder whose price does not stand there yet is before the best so far exactly
-- when its price is above the largest so far.
before-flip :
    (p q m s : ℤ)
    → eqb_ℤ p m ≡ false
    → before (record { price = one -ℤ p; size = q }) (record { price = one -ℤ m; size = s })
      ≡ ltb_ℤ m p
before-flip p q m s ne = ground (arith, -ℤ_parts one p, -ℤ_parts one m)

pick-best_quote :
    (l : Level) (ls : List Level)
    → get l.price ls ≡ none
    → pick (record { price = one -ℤ l.price; size = l.size }) (best_quote ls) ≡ best_quote (l ∷ ls)
pick-best_quote l ls fresh = elim (Option-cases (max_price ls)) [
  | inl n ↦ ground (arith, eqb_ℤ_refl l.price)
  | inr (m, n) ↦ elim (Bool-cases (eqb_ℤ l.price m)) [
    | inl same ↦
        let (q, found) = get-max_price ls n in absurd (ground (arith, eqb_ℤ→eq l.price m same))
    | inr ne ↦
        ground
          (arith, eqb_ℤ_refl l.price, before-flip l.price l.size m (size_or_zero (get m ls)) ne)
  ]
]

sorted_asks-best_quote :
    (ls : List Level) → Good ls → quote_of_head (sorted_asks ls) ≡ best_quote ls
sorted_asks-best_quote [] g = refl
sorted_asks-best_quote (l ∷ ls) (r, fresh, g) =
    insert_sorted-pick _ (sorted_asks ls)
    ∙ rw (sorted_asks-best_quote ls g) (pick-best_quote l ls fresh)

-- In a consistent book the best ask that `ask_level` reads off without sorting is the first row
-- of the sorted ladder of `asks`, its price and its size.
pub ask_level-asks :
    (b : Book) (side : Side) → Consistent b → ask_level b side ≡ quote_of_head (asks b side)
unfolding ask_level asks
ask_level-asks b yes_side c = sym (sorted_asks-best_quote b.no_levels c.no_good)
ask_level-asks b no_side c = sym (sorted_asks-best_quote b.yes_levels c.yes_good)
