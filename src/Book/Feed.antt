-- ===== src/Book/Feed.antt =====
-- The flag `valid` of a book that is fed with snapshots and deltas.
use mathlib.Core.Path.{subst}
use project.Common.{
  ◌∙◌, &&-true, ◌≡◌, refl, sym, ap, ℕ, Bool, true, false, ◌&&◌, all, Option, none, some, List, [],
  ◌∷◌, arith, map, Bool-cases, inl, inr,
}
use project.Book.{Level, Book, is_crossed, max_price, validate_spread, Delta, delta}
use project.Book.Validity.{Consistent, Sound, delta-Sound}
use project.Book.Messages.{
  complement, read_rows, Raw, Check, fine, bad, raises, check_rungs, both_checks, check_ladders,
  book_with, validated, validate, time_or, replace, Snapshot, snapshot, rung_of, raw_of, Message,
  snapshot_message, delta_message, receive_delta, receive, feed,
}
use project.Book.Rungs.{
  is_readable, Nice, read_rows-Nice, complement-is_decimal, check_rungs-raises, check_rungs-Good,
  check_rungs-map, both_checks-fine, both_checks-raises,
}

-- A message none of whose rows holds a NaN or a text that does not read.
abbrev pub is_clean : Message → Bool
is_clean (snapshot_message msg received source_time) =
    all is_readable msg.yes_rows && all is_readable msg.no_rows
is_clean (delta_message msg received) = true

-- What the flag promises of a book of figures: all are numbers in range, and the book of them is
-- consistent.
abbrev pub RawSound : Raw → Type 0
RawSound r =
    r.valid ≡ true
    → (ladders : List Level × List Level) × (check_ladders r.yes_rungs r.no_rungs ≡ fine ladders)
      × Consistent (book_with r ladders)

validate_spread_uncrossed :
    (b : Book)
    → (validate_spread b).book.valid ≡ true
    → is_crossed (max_price b.yes_levels) (max_price b.no_levels) ≡ false
unfolding validate_spread
validate_spread_uncrossed b h = ground (arith, h)

validated-RawSound :
    (r : Raw) (c : Check (List Level × List Level))
    → Nice r.yes_rungs
    → Nice r.no_rungs
    → check_ladders r.yes_rungs r.no_rungs ≡ c
    → RawSound (validated r c).raw
unfolding validate_spread
validated-RawSound r bad y n e = λ v. absurd (ground (arith, v))
validated-RawSound r raises y n e =
    elim (both_checks-raises (check_rungs r.yes_rungs) (check_rungs r.no_rungs) e) [
      | inl first ↦ absurd (check_rungs-raises r.yes_rungs y first)
      | inr second ↦ absurd (check_rungs-raises r.no_rungs n second)
    ]
validated-RawSound r (fine (ys, ns)) y n e = λ v.
    let (e1, e2) = both_checks-fine (check_rungs r.yes_rungs) (check_rungs r.no_rungs) e in
    (
      (ys, ns),
      e,
      record {
        yes_good = check_rungs-Good r.yes_rungs y e1;
        no_good = check_rungs-Good r.no_rungs n e2;
        uncrossed = validate_spread_uncrossed (book_with r (ys, ns)) v;
      },
    )

validate-RawSound : (r : Raw) → Nice r.yes_rungs → Nice r.no_rungs → RawSound (validate r).raw
unfolding validate
validate-RawSound r y n = validated-RawSound r (check_ladders r.yes_rungs r.no_rungs) y n refl

snapshot-RawSound :
    (r : Raw) (msg : Snapshot) (received : ℕ) (source_time : Option ℕ)
    → is_clean (snapshot_message msg received source_time) ≡ true
    → RawSound (snapshot r msg received source_time).raw
unfolding snapshot
snapshot-RawSound r msg received source_time h =
    let (clean_yes, clean_no) =
      &&-true (all is_readable msg.yes_rows) (all is_readable msg.no_rows) h in
    let (ys, e1, y) = read_rows-Nice (λ p. p) (λ p d. d) msg.yes_rows [] clean_yes tt in
    let (ns, e2, n) = read_rows-Nice complement complement-is_decimal msg.no_rows [] clean_no tt in
    let read : Raw = record {
      yes_rungs = ys;
      no_rungs = ns;
      received = received;
      source_time = time_or source_time received;
      valid = true;
    } in
    let whole : (snapshot r msg received source_time).raw ≡ (validate read).raw =
      let time = time_or source_time received in
      ap (λ o. (replace r received time o (read_rows complement msg.no_rows [])).raw) e1
      ∙ ap (λ o. (replace r received time (some ys) o).raw) e2 in
    subst RawSound (sym whole) (validate-RawSound read y n)

raw_of-RawSound : (b : Book) → Sound b → RawSound (raw_of b)
raw_of-RawSound b s v =
    let c = s v in
    let y = check_rungs-map b.yes_levels c.yes_good in
    let n = check_rungs-map b.no_levels c.no_good in
    (
      (b.yes_levels, b.no_levels),
      ap (λ x. both_checks x (check_rungs (map rung_of b.no_levels))) y
          ∙ ap (λ x. both_checks (fine b.yes_levels) x) n,
      record { yes_good = c.yes_good; no_good = c.no_good; uncrossed = c.uncrossed },
    )

receive_delta-RawSound :
    (r : Raw) (msg : Delta) (received : ℕ)
    → RawSound r
    → (next : Raw) × (receive_delta r msg received ≡ some next) × RawSound next
unfolding receive_delta
receive_delta-RawSound r msg received s = elim (Bool-cases r.valid) [
  | inl v ↦
      let (ladders, e, c) = s v in
      let b = book_with r ladders in
      (
        raw_of (delta b msg received).book,
        simp (v, e) refl,
        raw_of-RawSound (delta b msg received).book (delta-Sound b msg received (λ w. c)),
      )
  | inr v ↦ (r, simp v refl, s)
]

receive-RawSound :
    (r : Raw) (m : Message)
    → is_clean m ≡ true
    → RawSound r
    → (next : Raw) × (receive r m ≡ some next) × RawSound next
receive-RawSound r (snapshot_message msg received source_time) h s = (
  (snapshot r msg received source_time).raw,
  refl,
  snapshot-RawSound r msg received source_time h,
)
receive-RawSound r (delta_message msg received) h s = receive_delta-RawSound r msg received s

-- From a sound book, such as the empty one that is not yet valid, any run of deltas whose price and
-- change read as decimals, NaN included, and of snapshots whose rows hold numbers or infinities leaves a book of which the flag can
-- be trusted: where it is marked valid, all its prices and sizes are numbers in range, no price
-- stands twice, and the best prices of the two sides do not cross.
pub feed-RawSound :
    (r : Raw) (messages : List Message)
    → all is_clean messages ≡ true
    → RawSound r
    → (after : Raw) × (feed r messages ≡ some after) × RawSound after
unfolding feed
feed-RawSound r [] h s = (r, refl, s)
feed-RawSound r (m ∷ ms) h s =
    let (clean, others) = &&-true (is_clean m) (all is_clean ms) h in
    let (next, e, sound) = receive-RawSound r m clean s in
    let (after, e', last) = feed-RawSound next ms others sound in
    (after, ap (λ o. elim o [ none ↦ none | some x ↦ feed x ms ]) e ∙ e', last)
