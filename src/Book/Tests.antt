-- ===== src/Book/Tests.antt =====
-- A book that is loaded from a snapshot, and fed deltas.
use project.Common.{◌≡◌, refl, true, false, none, some, List, [], ◌∷◌, pos, ◌+ℤ◌, ◌-ℤ◌, arith}
use project.Book.{
  yes_side, no_side, finite, Book, Delta, validate_spread, apply_level, update, delta, bid,
  ask_level, ask, asks, crossed_book,
}
use project.Book.Validity.{Consistent}
use project.Book.Messages.{
  number, infinite, nan, unreadable, Raw, Snapshot, Message, snapshot_message, delta_message,
  snapshot, validate, read_rows, put_rung, check_rungs, feed, raw_of,
}
use project.Book.Feed.{RawSound, feed-RawSound}
use project.Book.Quotes.{quote_of_head, ask_level-asks}
use project.Book.Depth.{Applied, delta-Applied}

abbrev empty_book : Book
empty_book = record {
  yes_levels = [];
  no_levels = [];
  received = 0;
  source_time = 0;
  valid = false;
}

abbrev book : Book
book = record {
  yes_levels =
      record { price = pos 880000; size = pos 40 }
      ∷ record { price = pos 900000; size = pos 70 }
      ∷ [];
  no_levels = record { price = pos 80000; size = pos 20 } ∷ [];
  received = 5;
  source_time = 4;
  valid = true;
}

abbrev more : Delta
more = record {
  side = some yes_side;
  price = finite (pos 900000);
  change = finite (pos 5);
  ts_ms = some 7;
}

-- A NO offer at 20 cents is a level at 80, which crosses a YES bid at 90.
abbrev crossing : Delta
crossing = record {
  side = some no_side;
  price = finite (pos 800000);
  change = finite (pos 5);
  ts_ms = none;
}

-- Two levels of YES, of which the second is empty, and one of NO.
abbrev opening : Snapshot
opening = record {
  yes_rows = (number (pos 900000), number (pos 70)) ∷ (number (pos 880000), number (pos 0)) ∷ [];
  no_rows = (number (pos 920000), number (pos 20)) ∷ [];
}

abbrev endless : Snapshot
endless = record opening { no_rows = (number (pos 920000), infinite true) ∷ [] }

abbrev messages : List Message
messages =
    snapshot_message endless 4 none ∷ snapshot_message opening 5 none ∷ delta_message more 8 ∷ []

empty_book-RawSound : RawSound (raw_of empty_book)
empty_book-RawSound = λ e. absurd (ground arith)

opened : (snapshot (raw_of empty_book) opening 5 none).raw.valid ≡ true
unfolding snapshot read_rows put_rung validate check_rungs validate_spread ◌-ℤ◌ ◌+ℤ◌
opened = refl

-- An infinite size is found.
endless_invalid : (snapshot (raw_of empty_book) endless 5 none).raw.valid ≡ false
unfolding snapshot read_rows put_rung validate check_rungs validate_spread ◌-ℤ◌ ◌+ℤ◌
endless_invalid = refl

-- A NaN price raises in the comparison, with the flag set already.
nan_valid :
    (snapshot
      (raw_of empty_book)
      (record opening { no_rows = (nan, number (pos 20)) ∷ [] })
      5
      none).raw.valid
    ≡ true
unfolding snapshot read_rows put_rung validate check_rungs validate_spread ◌-ℤ◌ ◌+ℤ◌
nan_valid = refl

-- A NO row that does not read leaves the new YES ladder beside the old NO ladder, marked valid.
half_replaced :
    (snapshot
      (raw_of book)
      (record opening { no_rows = (unreadable, number (pos 20)) ∷ [] })
      9
      none).raw
    ≡ record (raw_of book) {
      yes_rungs = record { price = number (pos 900000); size = number (pos 70) } ∷ [];
    }
unfolding snapshot read_rows put_rung validate check_rungs validate_spread ◌-ℤ◌ ◌+ℤ◌
half_replaced = refl

book-Consistent : Consistent book
unfolding ◌+ℤ◌
book-Consistent = ground arith

crossing_raises : (delta book crossing 9).error ≡ some crossed_book
unfolding delta update apply_level validate_spread ◌-ℤ◌ ◌+ℤ◌
crossing_raises = refl

more_accepted : (delta book more 9).error ≡ none
unfolding delta update apply_level validate_spread ◌+ℤ◌
more_accepted = refl

best_bid : bid book yes_side ≡ some (pos 900000)
unfolding bid
best_bid = refl

best_ask : ask book yes_side ≡ some (pos 920000)
unfolding ask ask_level ◌-ℤ◌
best_ask = refl

feed-RawSound_example :
    (after : Raw) × (feed (raw_of empty_book) messages ≡ some after) × RawSound after
feed-RawSound_example = feed-RawSound (raw_of empty_book) messages refl empty_book-RawSound

delta-Applied_example :
    Applied book yes_side (pos 900000) (pos 5) (delta book more 9).book (pos 900000)
delta-Applied_example =
    delta-Applied book more 9 (pos 900000) book-Consistent refl refl refl refl more_accepted

ask_level-asks_example : ask_level book yes_side ≡ quote_of_head (asks book yes_side)
ask_level-asks_example = ask_level-asks book yes_side book-Consistent
