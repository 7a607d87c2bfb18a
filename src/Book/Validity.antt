-- ===== src/Book/Validity.antt =====
-- The flag `valid` can be trusted: it is set only on a book that is consistent.
use project.Common.{
  ℕ, ◌≡◌, refl, true, false, Option, none, some, List, ℤ, pos, ◌≤ℤ◌, ◌+ℤ◌, ◌<ℤ◌, arith,
}
use project.Book.{
  Level, Side, yes_side, no_side, Decimal, finite, non_finite, Book, BookError, Delta, one, get,
  max_price, store_level, is_crossed, validate_spread, delta, update, update_side,
  delta_without_snapshot, apply_level, levels_of, size_or_zero, book_price,
}
use project.Book.Levels.{Good, put-Good, pop-Good}

-- Both ladders are good, and the best prices of the two sides do not cross.
pub record Consistent (b : Book) : Type 0 where
  pub yes_good : Good b.yes_levels
  pub no_good : Good b.no_levels
  pub uncrossed : is_crossed (max_price b.yes_levels) (max_price b.no_levels) ≡ false

-- What the flag promises.
abbrev pub Sound : Book → Type 0
Sound b = b.valid ≡ true → Consistent b

pub validate_spread-Sound :
    (b : Book) → Good b.yes_levels → Good b.no_levels → Sound (validate_spread b).book
unfolding validate_spread
validate_spread-Sound b y n = ground arith

store_level-Good :
    (p q : ℤ) (ls : List Level)
    → pos 0 <ℤ p
    → p <ℤ one
    → pos 0 ≤ℤ q
    → Good ls
    → Good (store_level p q ls)
store_level-Good p q ls a b c g = ground (arith, pop-Good p ls g, put-Good p q ls a b)

apply_level-Sound :
    (b : Book) (side : Side) (p q : ℤ) (ts : Option ℕ) (r : ℕ)
    → Consistent b
    → Sound (apply_level b side p q ts r).book
unfolding apply_level
apply_level-Sound b yes_side p q ts r c = ground (arith, store_level-Good p q b.yes_levels)
apply_level-Sound b no_side p q ts r c = ground (arith, store_level-Good p q b.no_levels)

update-Sound :
    (b : Book) (side : Side) (p d : Decimal) (ts : Option ℕ) (r : ℕ)
    → Consistent b
    → Sound (update b side p d ts r).book
unfolding update
update-Sound b side non_finite d ts r c = cc
update-Sound b side (finite p) non_finite ts r c = cc
update-Sound b side (finite p) (finite d) ts r c =
    let key = book_price side p in
    apply_level-Sound b side key (size_or_zero (get key (levels_of b side)) +ℤ d) ts r c

update_side-Sound :
    (b : Book) (side : Option Side) (msg : Delta) (r : ℕ)
    → Consistent b
    → Sound (update_side b side msg r).book
unfolding update_side
update_side-Sound b none msg r c = λ e. c
update_side-Sound b (some side) msg r c = update-Sound b side msg.price msg.change msg.ts_ms r c

-- A delta leaves a sound book sound: whatever the message holds, and on every error path, the
-- book afterwards is consistent or not marked valid.
pub delta-Sound :
    (b : Book) (msg : Delta) (received : ℕ) → Sound b → Sound (delta b msg received).book
unfolding delta
delta-Sound b msg r s = ground (arith, update_side-Sound b msg.side msg r)

update_error_invalid :
    (b : Book) (side : Side) (p d : Decimal) (ts : Option ℕ) (r : ℕ) {e : BookError}
    → (update b side p d ts r).error ≡ some e
    → (update b side p d ts r).book.valid ≡ false
unfolding update
update_error_invalid b side non_finite d ts r h = refl
update_error_invalid b side (finite p) non_finite ts r h = refl
update_error_invalid b side (finite p) (finite d) ts r h = ground arith

update_side_error_invalid :
    (b : Book) (o : Option Side) (msg : Delta) (r : ℕ) {side : Side} {e : BookError}
    → o ≡ some side
    → (update_side b o msg r).error ≡ some e
    → (update_side b o msg r).book.valid ≡ false
unfolding update_side
update_side_error_invalid b none msg r s h = cc
update_side_error_invalid b (some side) msg r s h =
    update_error_invalid b side msg.price msg.change msg.ts_ms r h

-- A delta of a known side that raises on a valid book leaves it invalid: every later delta is
-- refused for want of a and changes nothing.
pub delta-delta_error :
    (b : Book) (msg next : Delta) (received later : ℕ) {side : Side} {e : BookError}
    → b.valid ≡ true
    → msg.side ≡ some side
    → (delta b msg received).error ≡ some e
    → delta (delta b msg received).book next later
      ≡ record { book = (delta b msg received).book; error = some delta_without_snapshot }
unfolding delta
delta-delta_error b msg next r t {side} {e} v s h =
    let u : (update_side b msg.side msg r).book.valid ≡ false =
      update_side_error_invalid b msg.side msg r {e = e} s (ground arith) in
    ground arith
