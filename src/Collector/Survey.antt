-- ===== src/Collector/Survey.antt =====
-- `freshness_rechecks` of engine.py, and what `check` finds out about the markets and the feeds.
use project.Common.{
  ℕ, ◌+◌, min, Bool, true, false, ◌&&◌, not, if◌then◌else◌, leb, ◌==◌, any, Option, none, some,
  List, [], ◌∷◌, ◌++◌, is_empty, map,
}
use project.Strategy.{Strategy}
use project.Market.{tradable}
use project.Book.{Book}
use project.Collector.{
  Cause, Collector, Engine, Failure, Stream, Tick, Watched, book_invalid, book_receive_age,
  book_source_age, book_stream, is_present, market_integrity, missing_reference, processing_lag,
  reference_receive_age, reference_source_age, stale, waiting_for_sequenced_snapshot,
}

abbrev pub within : ℕ → ℕ → ℕ → ℕ → Bool
within early late time now = leb time (now + early) && leb now (time + late)

abbrev pub when {ℓ} : {A : Type ℓ} → Bool → A → List A
when b a = if b then a ∷ [] else []

abbrev pub reference_failures : Strategy → Option Tick → ℕ → List Failure
reference_failures c none now = []
reference_failures c (some t) now =
    when (not (within 0 c.reference_max_age t.received now)) reference_receive_age
    ++ when (not (within c.max_clock_skew c.reference_max_age t.source now)) reference_source_age

-- `freshness_rechecks`
unfoldable pub freshness_rechecks : Strategy → Book → Option Tick → ℕ → ℕ → List Failure
freshness_rechecks c b tick received now =
    when (not b.valid) book_invalid
    ++ (when (not (is_present tick)) missing_reference
        ++ (when (not (within 0 (min c.reference_max_age c.book_max_age) received now))
              processing_lag
            ++ (when (not (within 0 c.book_max_age b.received now)) book_receive_age
                ++ (when (not (within c.max_clock_skew c.book_max_age b.source_time now))
                      book_source_age
                    ++ reference_failures c tick now))))

-- What the loop over the markets gathers.
pub record Findings : Type 0 where
  pub reasons : List Cause
  pub stalled : List Stream
  pub idle_reasons : List Cause
  pub idle_stalls : List Stream
  pub fresh_books : ℕ

abbrev pub no_findings : Findings
no_findings = record {
  reasons = [];
  stalled = [];
  idle_reasons = [];
  idle_stalls = [];
  fresh_books = 0;
}

abbrev pub is_book_age : Failure → Bool
is_book_age book_receive_age = true
is_book_age book_source_age = true
is_book_age _ = false

abbrev pub is_book_failure : Failure → Bool
is_book_failure book_invalid = true
is_book_failure f = is_book_age f

-- A quiet strike of an hourly ladder, which is set aside.
abbrev pub is_idle : Strategy → Failure → Bool
is_idle c f = c.hourly && is_book_age f

abbrev pub idle_of : Strategy → ℕ → List Failure → List Cause
idle_of c ticker [] = []
idle_of c ticker (f ∷ fs) =
    (if is_idle c f then stale f ticker ∷ idle_of c ticker fs else idle_of c ticker fs)

abbrev pub serious_of : Strategy → ℕ → List Failure → List Cause
serious_of c ticker [] = []
serious_of c ticker (f ∷ fs) =
    (if is_idle c f then serious_of c ticker fs else stale f ticker ∷ serious_of c ticker fs)

abbrev pub is_stale_book : Strategy → List Failure → Bool
is_stale_book c fs = any (λ f. not (is_idle c f) && is_book_failure f) fs

-- A market whose snapshot is there: its failures.
abbrev pub judge : Strategy → ℕ → Bool → List Failure → Findings
judge c ticker blocked fs = record {
  reasons = when blocked (market_integrity ticker) ++ serious_of c ticker fs;
  stalled = when (is_stale_book c fs && not blocked) (book_stream ticker);
  idle_reasons = idle_of c ticker fs;
  idle_stalls = map (λ r. book_stream ticker) (if blocked then [] else idle_of c ticker fs);
  fresh_books = if is_empty fs && not blocked then 1 else 0;
}

abbrev pub unseen : ℕ → Bool → Findings
unseen ticker blocked = record {
  reasons = when blocked (market_integrity ticker) ++ (waiting_for_sequenced_snapshot ticker ∷ []);
  stalled = when (not blocked) (book_stream ticker);
  idle_reasons = [];
  idle_stalls = [];
  fresh_books = 0;
}

-- A snapshot is only ever noted of a market that has a book.
abbrev pub examine_book : Strategy → Option Tick → ℕ → Watched → Option Book → Findings
examine_book c tick now w none = unseen w.market.ticker w.blocked
examine_book c tick now w (some b) =
    judge c w.market.ticker w.blocked (freshness_rechecks c b tick now now)

unfoldable pub examine : Strategy → Option Tick → ℕ → List ℕ → Watched → Findings
examine c tick now snapshots w =
    if any (λ t. t == w.market.ticker) snapshots
    then examine_book c tick now w w.book
    else unseen w.market.ticker w.blocked

abbrev pub join : Findings → Findings → Findings
join a b = record {
  reasons = a.reasons ++ b.reasons;
  stalled = a.stalled ++ b.stalled;
  idle_reasons = a.idle_reasons ++ b.idle_reasons;
  idle_stalls = a.idle_stalls ++ b.idle_stalls;
  fresh_books = a.fresh_books + b.fresh_books;
}

abbrev pub is_watched : Option (List ℕ) → ℕ → Bool
is_watched none ticker = true
is_watched (some list) ticker = any (λ t. t == ticker) list

abbrev pub is_active : Engine → ℕ → Watched → Bool
is_active e now w = tradable w.market now && is_watched e.watchlist w.market.ticker

unfoldable pub survey : Strategy → Engine → ℕ → List ℕ → List Watched → Findings
survey c e now snapshots [] = no_findings
survey c e now snapshots (w ∷ ws) =
    let rest = survey c e now snapshots ws in
    if is_active e now w then join (examine c e.tick now snapshots w) rest else rest

abbrev pub has_active : Engine → ℕ → List Watched → Bool
has_active e now ws = any (is_active e now) ws

abbrev pub tick_fresh : Strategy → Option Tick → ℕ → Bool
tick_fresh c none now = false
tick_fresh c (some t) now =
    within 0 c.reference_max_age t.received now
    && within c.max_clock_skew c.reference_max_age t.source now

abbrev pub metadata_fresh : Option ℕ → ℕ → Bool
metadata_fresh none now = false
metadata_fresh (some t) now = within 0 30000 t now

abbrev pub reference_fresh : Strategy → Engine → ℕ → Collector → Bool
reference_fresh c e now self = self.reference && e.healthy && tick_fresh c e.tick now
