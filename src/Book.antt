-- ===== src/Book.antt =====
-- src/btc15/domain.py: the order book of one market, `Book`.
--
-- A level maps a price to the size resting there, both whole numbers of millionths. The code
-- stores a NO level at the price 1 - p of the message, as here. Times are milliseconds. The rows of a
-- snapshot may hold other figures, for which see Book/Messages.
pub mod Levels
pub mod Messages
pub mod Validity
pub mod Rungs
pub mod Feed
pub mod Quotes
pub mod Depth
mod Tests
use project.Common.{
  ℕ, Bool, true, false, ◌&&◌, ◌||◌, not, if◌then◌else◌, Option, none, some, List, [], ◌∷◌, ℤ, pos,
  ◌+ℤ◌, ◌-ℤ◌, ltb_ℤ, leb_ℤ, eqb_ℤ, max_ℤ, any, is_empty,
}
use project.Fees.{micro}

pub data Side : Type 0 where
  yes_side no_side : Side

-- A decimal of a message: a number, or an infinity or NaN.
pub data Decimal : Type 0 where
  finite : ℤ → Decimal
  non_finite : Decimal

pub record Level : Type 0 where
  pub price : ℤ
  pub size : ℤ

pub record Book : Type 0 where
  pub yes_levels : List Level
  pub no_levels : List Level
  pub received : ℕ
  pub source_time : ℕ
  pub valid : Bool

pub data BookError : Type 0 where
  delta_without_snapshot unknown_side invalid_level negative_depth crossed_book : BookError
  invalid_operation : BookError

-- The book after a method, and what the method raised.
pub record Outcome : Type 0 where
  pub book : Book
  pub error : Option BookError

abbrev pub one : ℤ
one = pos micro

-- `levels.get(p)`
abbrev pub get : ℤ → List Level → Option ℤ
get p [] = none
get p (l ∷ ls) = if eqb_ℤ l.price p then some l.size else get p ls

-- `levels[p] = q`, which keeps the place of a key that is there
abbrev pub put : ℤ → ℤ → List Level → List Level
put p q [] = record { price = p; size = q } ∷ []
put p q (l ∷ ls) = if eqb_ℤ l.price p then record { price = p; size = q } ∷ ls else l ∷ put p q ls

-- `levels.pop(p, None)`
abbrev pub pop : ℤ → List Level → List Level
pop p [] = []
pop p (l ∷ ls) = if eqb_ℤ l.price p then ls else l ∷ pop p ls

-- `max(levels)`, of a dict that is not empty
abbrev pub max_price : List Level → Option ℤ
max_price [] = none
max_price (l ∷ ls) = elim (max_price ls) [ none ↦ some l.price | some m ↦ some (max_ℤ l.price m) ]

abbrev pub is_crossed : Option ℤ → Option ℤ → Bool
is_crossed (some y) (some n) = ltb_ℤ one (y +ℤ n)
is_crossed (some y) none = false
is_crossed none n = false

-- `Book.validate_spread`
unfoldable pub validate_spread : Book → Outcome
validate_spread self =
    if is_crossed (max_price self.yes_levels) (max_price self.no_levels)
    then record { book = record self { valid = false }; error = some crossed_book }
    else record { book = self; error = none }

pub record Delta : Type 0 where
  pub side : Option Side
  pub price : Decimal
  pub change : Decimal
  pub ts_ms : Option ℕ

abbrev pub levels_of : Book → Side → List Level
levels_of b yes_side = b.yes_levels
levels_of b no_side = b.no_levels

abbrev pub with_levels : Book → Side → List Level → Book
with_levels b yes_side ls = record b { yes_levels = ls }
with_levels b no_side ls = record b { no_levels = ls }

abbrev pub book_price : Side → ℤ → ℤ
book_price yes_side p = p
book_price no_side p = one -ℤ p

abbrev pub size_or_zero : Option ℤ → ℤ
size_or_zero none = pos 0
size_or_zero (some q) = q

-- `if q: book[p] = q else: book.pop(p, None)`
abbrev pub store_level : ℤ → ℤ → List Level → List Level
store_level p q ls = if eqb_ℤ q (pos 0) then pop p ls else put p q ls

abbrev pub invalidate : Book → BookError → Outcome
invalidate self e = record { book = record self { valid = false }; error = some e }

-- The rest of `delta` once its price and change are numbers: p in (0, 1), and q the new size.
unfoldable pub apply_level : Book → Side → ℤ → ℤ → Option ℕ → ℕ → Outcome
unfolding validate_spread
apply_level self side p q ts_ms received =
    if not (ltb_ℤ (pos 0) p && ltb_ℤ p one)
    then invalidate self invalid_level
    else if ltb_ℤ q (pos 0)
    then invalidate self negative_depth
    else validate_spread (record (with_levels self side (store_level p q (levels_of self side))) {
      received = received;
      source_time = elim ts_ms [ none ↦ received | some t ↦ t ];
    })

-- The guards on numbers that are none, then the update.
unfoldable pub update : Book → Side → Decimal → Decimal → Option ℕ → ℕ → Outcome
unfolding apply_level
update self side non_finite change ts_ms received = invalidate self invalid_level
update self side (finite p) non_finite ts_ms received = invalidate self invalid_level
update self side (finite p) (finite d) ts_ms received =
    let key = book_price side p in
    apply_level self side key (size_or_zero (get key (levels_of self side)) +ℤ d) ts_ms received

abbrev pub update_side : Book → Option Side → Delta → ℕ → Outcome
unfolding update
update_side self none msg received = record { book = self; error = some unknown_side }
update_side self (some side) msg received = update self side msg.price msg.change msg.ts_ms received

-- `Book.delta`; a `side` of none stands for a text that is neither "yes" nor "no".
unfoldable pub delta : Book → Delta → ℕ → Outcome
unfolding update
delta self msg received =
    if self.valid
    then update_side self msg.side msg received
    else record { book = self; error = some delta_without_snapshot }

abbrev pub other_side : Side → Side
other_side yes_side = no_side
other_side no_side = yes_side

-- `Book.bid`
unfoldable pub bid : Book → Side → Option ℤ
bid self side = max_price (levels_of self side)

pub record Quote : Type 0 where
  pub price : Option ℤ
  pub size : ℤ

-- `Book.ask_level`: the best ask, without sorting the ladder
unfoldable pub ask_level : Book → Side → Quote
ask_level self side =
    let other = levels_of self (other_side side) in
    elim (max_price other) [
      | none ↦ record { price = none; size = pos 0 }
      | some p ↦ record { price = some (one -ℤ p); size = size_or_zero (get p other) }
    ]

-- `Book.ask`
unfoldable pub ask : Book → Side → Option ℤ
unfolding ask_level
ask self side = (ask_level self side).price

-- Python's order of pairs, and `sorted`.
abbrev pub before : Level → Level → Bool
before a b = ltb_ℤ a.price b.price || (eqb_ℤ a.price b.price && leb_ℤ a.size b.size)

abbrev pub insert_sorted : Level → List Level → List Level
insert_sorted a [] = a ∷ []
insert_sorted a (b ∷ bs) = if before a b then a ∷ b ∷ bs else b ∷ insert_sorted a bs

abbrev pub sorted_asks : List Level → List Level
sorted_asks [] = []
sorted_asks (l ∷ ls) =
    insert_sorted (record { price = one -ℤ l.price; size = l.size }) (sorted_asks ls)

-- `Book.asks`
unfoldable pub asks : Book → Side → List Level
asks self side = sorted_asks (levels_of self (other_side side))
