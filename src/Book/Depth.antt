-- ===== src/Book/Depth.antt =====
-- What an accepted delta does to the depth of the book.
use project.Common.{
  ℕ, ◌≡◌, true, if◌then◌else◌, Option, none, some, List, ℤ, pos, ◌+ℤ◌, eqb_ℤ, arith,
}
use project.Book.{
  Level, Side, yes_side, no_side, finite, Book, Delta, get, store_level, delta, update, update_side,
  levels_of, size_or_zero, book_price, other_side,
}
use project.Book.Levels.{Good, get-put, get-pop}
use project.Book.Validity.{Consistent}

-- A size as the ladder shows it: no row for none.
abbrev pub shown : ℤ → Option ℤ
shown q = if eqb_ℤ q (pos 0) then none else some q

get-store_level :
    (p q k : ℤ) (ls : List Level)
    → Good ls
    → get k (store_level p q ls) ≡ (if eqb_ℤ p k then shown q else get k ls)
get-store_level p q k ls g = ground (arith, get-pop p k ls g, get-put p k q ls)

-- What an update that raised nothing has done at every price k.
abbrev pub Applied : Book → Side → ℤ → ℤ → Book → ℤ → Type 0
Applied b side key d b' k =
    (get k (levels_of b' side) ≡ (
      if eqb_ℤ key k
      then shown (size_or_zero (get key (levels_of b side)) +ℤ d)
      else get k (levels_of b side)))
    × (levels_of b' (other_side side) ≡ levels_of b (other_side side))

update-Applied :
    (b : Book) (side : Side) (p d k : ℤ) (ts : Option ℕ) (r : ℕ)
    → Consistent b
    → (update b side (finite p) (finite d) ts r).error ≡ none
    → Applied b side (book_price side p) d (update b side (finite p) (finite d) ts r).book k
unfolding update
update-Applied b yes_side p d k ts r c e =
    ground
      (arith, get-store_level p (size_or_zero (get p b.yes_levels) +ℤ d) k b.yes_levels c.yes_good)
update-Applied b no_side p d k ts r c e =
    let key = book_price no_side p in
    ground
      (arith, get-store_level key (size_or_zero (get key b.no_levels) +ℤ d) k b.no_levels c.no_good)

delta-eq-update :
    (b : Book) (msg : Delta) (r : ℕ) {side : Side} {p d : ℤ}
    → b.valid ≡ true
    → msg.side ≡ some side
    → msg.price ≡ finite p
    → msg.change ≡ finite d
    → delta b msg r ≡ update b side (finite p) (finite d) msg.ts_ms r
unfolding delta update_side
delta-eq-update b msg r v s mp md = simp (v, s, mp, md, if◌then◌else◌, update_side)

-- A delta that raises nothing on a consistent, valid book adds its change to the size at its
-- price, and drops the row when nothing is left there. Every other price of the side, and the
-- whole other side, stay as they were.
pub delta-Applied :
    (b : Book) (msg : Delta) (received : ℕ) {side : Side} {p d : ℤ} (k : ℤ)
    → Consistent b
    → b.valid ≡ true
    → msg.side ≡ some side
    → msg.price ≡ finite p
    → msg.change ≡ finite d
    → (delta b msg received).error ≡ none
    → Applied b side (book_price side p) d (delta b msg received).book k
delta-Applied b msg r {side} {p} {d} k c v s mp md e =
    let eq = delta-eq-update b msg r v s mp md in
    rw eq (update-Applied b side p d k msg.ts_ms r c (rw eq at e))
