-- ===== src/Book/Messages.antt =====
-- src/btc15/domain.py: `Book.snapshot` and `Book.validate`, on the figures that a message may hold.
--
-- A row is two texts, which the code reads as decimals: a number, an infinity, a NaN, or a text on
-- which reading, comparing or hashing raises. `Raw` is the book with such figures in its ladders,
-- in the order of its dicts; a number stands for a whole number of millionths.
use project.Common.{
  ℕ, Bool, true, false, ◌&&◌, not, if◌then◌else◌, Option, none, some, List, [], ◌∷◌, ℤ, pos, ◌-ℤ◌,
  ltb_ℤ, eqb_ℤ, map,
}
use project.Book.{
  Book, Level, BookError, invalid_level, invalid_operation, one, validate_spread, Delta, delta,
}

pub data Figure : Type 0 where
  number : ℤ → Figure
  infinite : Bool → Figure
  nan unreadable : Figure

pub record Rung : Type 0 where
  pub price : Figure
  pub size : Figure

-- `D(q) > 0`, where `none` raises
abbrev pub is_positive : Figure → Option Bool
is_positive (number q) = some (ltb_ℤ (pos 0) q)
is_positive (infinite positive) = some positive
is_positive nan = none
is_positive unreadable = none

-- `1 - D(p)`
abbrev pub complement : Figure → Figure
complement (number p) = number (one -ℤ p)
complement (infinite positive) = infinite (not positive)
complement nan = nan
complement unreadable = unreadable

-- Keys of a dict that are the same: no two NaN are.
abbrev pub same_figure : Figure → Figure → Bool
same_figure (number a) (number b) = eqb_ℤ a b
same_figure (infinite a) (infinite b) = if a then b else not b
same_figure _ _ = false

-- `levels[p] = q`
unfoldable pub put_rung : Figure → Figure → List Rung → List Rung
put_rung p q [] = record { price = p; size = q } ∷ []
put_rung p q (r ∷ rs) =
    let rest = put_rung p q rs in
    if same_figure p r.price then record r { size = q } ∷ rs else r ∷ rest

-- The key of a row, and the entry under it.
abbrev pub key_rung : Figure → Figure → List Rung → Option (List Rung)
key_rung unreadable q rs = none
key_rung p q rs = some (put_rung p q rs)

-- One row of the comprehension: the size is read first, and the price of a row that is kept.
abbrev pub keep_row : Option Bool → Figure → Figure → List Rung → Option (List Rung)
keep_row none p q rs = none
keep_row (some true) p q rs = key_rung p q rs
keep_row (some false) p q rs = some rs

-- `{f(p): q for p, q in rows if q > 0}`, where `none` raises
unfoldable pub read_rows :
    (Figure → Figure) → List (Figure × Figure) → List Rung → Option (List Rung)
read_rows f [] rs = some rs
read_rows f ((p, q) ∷ rows) rs = elim (keep_row (is_positive q) (f p) q rs) [
  | none ↦ none
  | some next ↦ read_rows f rows next
]

pub record Raw : Type 0 where
  pub yes_rungs : List Rung
  pub no_rungs : List Rung
  pub received : ℕ
  pub source_time : ℕ
  pub valid : Bool

-- What a test finds: a value, a level that is out of range, or a comparison that raises.
pub data Check (A : Type 0) : Type 0 where
  fine : A → Check A
  bad raises : Check A

-- `not 0 < p < 1 or not q.is_finite()` of one level; a NaN raises in the comparison.
abbrev pub check_rung : Figure → Figure → Check Level
check_rung (number p) (number q) =
    if ltb_ℤ (pos 0) p && ltb_ℤ p one then fine (record { price = p; size = q }) else bad
check_rung (number p) _ = bad
check_rung (infinite _) _ = bad
check_rung nan _ = raises
check_rung unreadable _ = raises

-- A level before the rest of its ladder.
abbrev pub cons_check : Check Level → Check (List Level) → Check (List Level)
cons_check bad rest = bad
cons_check raises rest = raises
cons_check (fine l) bad = bad
cons_check (fine l) raises = raises
cons_check (fine l) (fine ls) = fine (l ∷ ls)

-- `any` over a ladder, which the first level out of range ends; otherwise the levels are numbers.
unfoldable pub check_rungs : List Rung → Check (List Level)
check_rungs [] = fine []
check_rungs (r ∷ rs) = cons_check (check_rung r.price r.size) (check_rungs rs)

abbrev pub both_checks : Check (List Level) → Check (List Level) → Check (List Level × List Level)
both_checks bad other = bad
both_checks raises other = raises
both_checks (fine ys) bad = bad
both_checks (fine ys) raises = raises
both_checks (fine ys) (fine ns) = fine (ys, ns)

-- The YES ladder, then the NO ladder.
abbrev pub check_ladders : List Rung → List Rung → Check (List Level × List Level)
check_ladders ys ns = both_checks (check_rungs ys) (check_rungs ns)

abbrev pub book_with : Raw → List Level × List Level → Book
book_with self (ys, ns) = record {
  yes_levels = ys;
  no_levels = ns;
  received = self.received;
  source_time = self.source_time;
  valid = self.valid;
}

pub record RawOutcome : Type 0 where
  pub raw : Raw
  pub error : Option BookError

-- `Book.validate`: where a comparison raises, the flag stays as it is.
abbrev pub validated : Raw → Check (List Level × List Level) → RawOutcome
validated self bad = record { raw = record self { valid = false }; error = some invalid_level }
validated self raises = record { raw = self; error = some invalid_operation }
validated self (fine ladders) =
    let o = validate_spread (book_with self ladders) in
    record { raw = record self { valid = o.book.valid }; error = o.error }

unfoldable pub validate : Raw → RawOutcome
validate self = validated self (check_ladders self.yes_rungs self.no_rungs)

pub record Snapshot : Type 0 where
  pub yes_rows : List (Figure × Figure)
  pub no_rows : List (Figure × Figure)

-- `source_time or received`
abbrev pub time_or : Option ℕ → ℕ → ℕ
time_or none received = received
time_or (some ℕ.zero) received = received
time_or (some (ℕ.suc t)) received = ℕ.suc t

-- The ladders one after the other: one that raises leaves itself and what comes after unreplaced.
abbrev pub replace : Raw → ℕ → ℕ → Option (List Rung) → Option (List Rung) → RawOutcome
replace self received source_time none _ = record { raw = self; error = some invalid_operation }
replace self received source_time (some ys) none = record {
  raw = record self { yes_rungs = ys };
  error = some invalid_operation;
}
replace self received source_time (some ys) (some ns) = validate (record {
  yes_rungs = ys;
  no_rungs = ns;
  received = received;
  source_time = source_time;
  valid = true;
})

-- `Book.snapshot`
unfoldable pub snapshot : Raw → Snapshot → ℕ → Option ℕ → RawOutcome
unfolding read_rows
snapshot self msg received source_time =
    replace self received (time_or source_time received) (read_rows (λ p. p) msg.yes_rows [])
      (read_rows complement msg.no_rows [])

abbrev pub rung_of : Level → Rung
rung_of l = record { price = number l.price; size = number l.size }

abbrev pub raw_of : Book → Raw
raw_of b = record {
  yes_rungs = map rung_of b.yes_levels;
  no_rungs = map rung_of b.no_levels;
  received = b.received;
  source_time = b.source_time;
  valid = b.valid;
}

-- The messages of a market's feed, as the code hands them to the book one by one.
pub data Message : Type 0 where
  snapshot_message : Snapshot → ℕ → Option ℕ → Message
  delta_message : Delta → ℕ → Message

-- A delta at a book of figures: refused unless valid; `none` where a figure that is no number in
-- range stands in a valid book, where its effect is not modelled.
unfoldable pub receive_delta : Raw → Delta → ℕ → Option Raw
receive_delta self msg received =
    if self.valid
    then elim (check_ladders self.yes_rungs self.no_rungs) [
      | fine ladders ↦ some (raw_of (delta (book_with self ladders) msg received).book)
      | bad ↦ none
      | raises ↦ none
    ]
    else some self

abbrev pub receive : Raw → Message → Option Raw
receive self (snapshot_message msg received source_time) =
    some (snapshot self msg received source_time).raw
receive self (delta_message msg received) = receive_delta self msg received

unfoldable pub feed : Raw → List Message → Option Raw
feed self [] = some self
feed self (m ∷ ms) = elim (receive self m) [ none ↦ none | some next ↦ feed next ms ]
