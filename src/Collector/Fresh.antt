-- ===== src/Collector/Fresh.antt =====
-- What the checks of the active markets have found in order.
use project.Common.{
  ℕ, ◌+◌, ◌≤◌, leb, min, All, ◌≡◌, refl, Bool, true, false, not, ◌||◌, ◌&&◌, ◌==◌, any, is_empty,
  Option, none, some, List, [], ◌∷◌, ◌++◌, arith, Bool-cases, inl, inr,
}
use project.Strategy.{Strategy}
use project.Book.{Book}
use project.Collector
use project.Collector.Survey

pub append-empty :
    {A : Type 0} (xs ys : List A)
    → is_empty (xs ++ ys) ≡ true
    → (is_empty xs ≡ true) × (is_empty ys ≡ true)
append-empty [] ys h = (refl, h)
append-empty (x ∷ xs) ys h = absurd (ground arith)

pub when-empty : {A : Type 0} (b : Bool) (a : A) → is_empty (Survey.when b a) ≡ true → b ≡ false
when-empty false a h = refl
when-empty true a h = absurd (ground arith)

pub not-false : (b : Bool) → not b ≡ false → b ≡ true
not-false true h = refl
not-false false h = absurd (ground arith)

-- A valid book with the reference read in time by its own clock and by that of its source, and, but
-- for an hourly ladder, read in time itself.
pub record FreshBook (c : Strategy) (tick : Option Collector.Tick) (now : ℕ) (b : Book)
    : Type 0 where
  pub book_valid : b.valid ≡ true
  pub reference : Collector.Tick
  pub has_reference : tick ≡ some reference
  pub reference_received :
      (reference.received ≤ now) × (now ≤ reference.received + c.reference_max_age)
  pub reference_sent :
      (reference.source ≤ now + c.max_clock_skew) × (now ≤ reference.source + c.reference_max_age)
  pub book_received :
      (c.hourly || (leb b.received now && leb now (b.received + c.book_max_age))) ≡ true
  pub book_sent :
      (c.hourly
        || (leb b.source_time (now + c.max_clock_skew) && leb now (b.source_time + c.book_max_age)))
      ≡ true

-- An active market is not blocked, its snapshot is noted, and its book is fresh.
pub record InOrder (c : Strategy) (tick : Option Collector.Tick) (now : ℕ) (snapshots : List ℕ)
    (w : Collector.Watched) : Type 0 where
  pub unblocked : w.blocked ≡ false
  pub has_snapshot : any (λ t. t == w.market.ticker) snapshots ≡ true
  pub book : Book
  pub has_book : w.book ≡ some book
  pub fresh : FreshBook c tick now book

-- A market that is not looked at, or is in order.
pub data Clear (c : Strategy) (e : Collector.Engine) (now : ℕ) (snapshots : List ℕ)
    (w : Collector.Watched) : Type 0 where
  apart : Survey.is_active e now w ≡ false → Clear c e now snapshots w
  in_order : InOrder c e.tick now snapshots w → Clear c e now snapshots w

serious-append :
    (c : Strategy) (ticker : ℕ) (xs ys : List Collector.Failure)
    → is_empty (Survey.serious_of c ticker (xs ++ ys)) ≡ true
    → (is_empty (Survey.serious_of c ticker xs) ≡ true)
      × (is_empty (Survey.serious_of c ticker ys) ≡ true)
serious-append c ticker [] ys h = (refl, h)
serious-append c ticker (x ∷ xs) ys h = ground (arith, serious-append c ticker xs ys)

-- A check whose failure is not set aside has succeeded, where no serious one failed.
serious-when :
    (c : Strategy) (ticker : ℕ) (okay : Bool) (f : Collector.Failure)
    → is_empty (Survey.serious_of c ticker (Survey.when (not okay) f)) ≡ true
    → (Survey.is_idle c f || okay) ≡ true
serious-when c ticker okay f h = ground (arith, h)

reference-in_time :
    (c : Strategy) (ticker : ℕ) (t : Collector.Tick) (now : ℕ)
    → is_empty (Survey.serious_of c ticker (Survey.reference_failures c (some t) now)) ≡ true
    → ((t.received ≤ now) × (now ≤ t.received + c.reference_max_age))
      × ((t.source ≤ now + c.max_clock_skew) × (now ≤ t.source + c.reference_max_age))
reference-in_time c ticker t now h =
    let received = Survey.within 0 c.reference_max_age t.received now in
    let sent = Survey.within c.max_clock_skew c.reference_max_age t.source now in
    let (h1, h2) =
      serious-append c ticker (Survey.when (not received) Collector.reference_receive_age) _ h in
    let g1 = serious-when c ticker received Collector.reference_receive_age h1 in
    let g2 = serious-when c ticker sent Collector.reference_source_age h2 in
    ((ground (arith, g1), ground (arith, g1)), (ground (arith, g2), ground (arith, g2)))

rechecks-FreshBook :
    (c : Strategy) (ticker : ℕ) (b : Book) (tick : Option Collector.Tick) (now : ℕ)
    → is_empty (Survey.serious_of c ticker (Survey.freshness_rechecks c b tick now now)) ≡ true
    → FreshBook c tick now b
unfolding Survey.freshness_rechecks
rechecks-FreshBook c ticker b none now h =
    let (_, h1) = serious-append c ticker (Survey.when (not b.valid) Collector.book_invalid) _ h in
    let (missing, _) =
      serious-append c ticker (Survey.when true Collector.missing_reference) _ h1 in
    absurd (ground (arith, missing))
rechecks-FreshBook c ticker b (some t) now h =
    let lag = Survey.within 0 (min c.reference_max_age c.book_max_age) now now in
    let received = Survey.within 0 c.book_max_age b.received now in
    let sent = Survey.within c.max_clock_skew c.book_max_age b.source_time now in
    let (valid, h1) =
      serious-append c ticker (Survey.when (not b.valid) Collector.book_invalid) _ h in
    let (_, h2) = serious-append c ticker (Survey.when false Collector.missing_reference) _ h1 in
    let (_, h3) = serious-append c ticker (Survey.when (not lag) Collector.processing_lag) _ h2 in
    let (read, h4) =
      serious-append c ticker (Survey.when (not received) Collector.book_receive_age) _ h3 in
    let (made, h5) =
      serious-append c ticker (Survey.when (not sent) Collector.book_source_age) _ h4 in
    let g1 = serious-when c ticker b.valid Collector.book_invalid valid in
    let g2 = serious-when c ticker received Collector.book_receive_age read in
    let g3 = serious-when c ticker sent Collector.book_source_age made in
    let (r1, r2) = reference-in_time c ticker t now h5 in
    record {
      book_valid = ground (arith, g1);
      reference = t;
      has_reference = refl;
      reference_received = r1;
      reference_sent = r2;
      book_received = ground (arith, g2);
      book_sent = ground (arith, g3);
    }

examine-InOrder :
    (c : Strategy) (tick : Option Collector.Tick) (now : ℕ) (snapshots : List ℕ)
    (w : Collector.Watched) (o : Option Book)
    → w.book ≡ o
    → any (λ t. t == w.market.ticker) snapshots ≡ true
    → is_empty (Survey.examine_book c tick now w o).reasons ≡ true
    → InOrder c tick now snapshots w
examine-InOrder c tick now snapshots w none e seen h =
    let (_, rest) =
      append-empty (Survey.when w.blocked (Collector.market_integrity w.market.ticker)) _ h in
    absurd (ground (arith, rest))
examine-InOrder c tick now snapshots w (some b) e seen h =
    let (first, rest) =
      append-empty (Survey.when w.blocked (Collector.market_integrity w.market.ticker)) _ h in
    record {
      unblocked = when-empty w.blocked (Collector.market_integrity w.market.ticker) first;
      has_snapshot = seen;
      book = b;
      has_book = e;
      fresh = rechecks-FreshBook c w.market.ticker b tick now rest;
    }

examine-clear :
    (c : Strategy) (tick : Option Collector.Tick) (now : ℕ) (snapshots : List ℕ)
    (w : Collector.Watched)
    → is_empty (Survey.examine c tick now snapshots w).reasons ≡ true
    → InOrder c tick now snapshots w
unfolding Survey.examine
examine-clear c tick now snapshots w h =
    elim (Bool-cases (any (λ t. t == w.market.ticker) snapshots)) [
      | inl seen ↦ examine-InOrder c tick now snapshots w w.book refl seen (simp seen at h)
      | inr missing ↦
          let (first, rest) =
            append-empty (Survey.when w.blocked (Collector.market_integrity w.market.ticker)) _
              (simp missing at h) in
          absurd (ground arith)
    ]

pub survey-Clear :
    (c : Strategy) (e : Collector.Engine) (now : ℕ) (snapshots : List ℕ)
    (ws : List Collector.Watched)
    → is_empty (Survey.survey c e now snapshots ws).reasons ≡ true
    → All (Clear c e now snapshots) ws
unfolding Survey.survey
survey-Clear c e now snapshots [] h = _
survey-Clear c e now snapshots (w ∷ ws) h = elim (Bool-cases (Survey.is_active e now w)) [
  | inl seen ↦
      let (one, rest) =
        append-empty (Survey.examine c e.tick now snapshots w).reasons
          (Survey.survey c e now snapshots ws).reasons (simp seen at h) in
      (
        in_order (examine-clear c e.tick now snapshots w one),
        survey-Clear c e now snapshots ws rest,
      )
  | inr idle ↦ (apart idle, survey-Clear c e now snapshots ws (simp idle at h))
]
