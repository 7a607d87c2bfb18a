-- ===== src/Collector/Ladder.antt =====
-- The quiet strikes of an hourly ladder: set aside, but where every book is quiet.
use project.Common.{
  ℕ, ◌+◌, ◌≡◌, refl, Bool, true, false, not, ◌&&◌, ◌==◌, if◌then◌else◌, leb, min, any, is_empty,
  Option, none, some, List, [], ◌∷◌, ◌++◌, arith, Bool-cases, inl, inr,
}
use project.Strategy.{Strategy}
use project.Book.{Book}
use project.Collector
use project.Collector.Survey
use project.Collector.Fresh.{append-empty, when-empty, not-false}

-- Read in time, also by the clock of its source.
abbrev pub in_time : Strategy → ℕ → Book → Bool
in_time c now b =
    (leb b.received now && leb now (b.received + c.book_max_age))
    && (leb b.source_time (now + c.max_clock_skew) && leb now (b.source_time + c.book_max_age))

abbrev pub book_in_time : Strategy → ℕ → Option Book → Bool
book_in_time c now none = false
book_in_time c now (some b) = in_time c now b

-- An active market whose book was read in time.
abbrev pub is_live : Strategy → Collector.Engine → ℕ → Collector.Watched → Bool
is_live c e now w = Survey.is_active e now w && book_in_time c now w.book

rechecks-in_time :
    (c : Strategy) (b : Book) (tick : Option Collector.Tick) (now : ℕ)
    → is_empty (Survey.freshness_rechecks c b tick now now) ≡ true
    → in_time c now b ≡ true
unfolding Survey.freshness_rechecks
rechecks-in_time c b tick now h =
    let received = Survey.within 0 c.book_max_age b.received now in
    let sent = Survey.within c.max_clock_skew c.book_max_age b.source_time now in
    let (_, h1) = append-empty (Survey.when (not b.valid) Collector.book_invalid) _ h in
    let (_, h2) =
      append-empty (Survey.when (not (Collector.is_present tick)) Collector.missing_reference) _
        h1 in
    let (_, h3) =
      append-empty
        (Survey.when (not (Survey.within 0 (min c.reference_max_age c.book_max_age) now now))
          Collector.processing_lag)
        _ h2 in
    let (a4, h4) = append-empty (Survey.when (not received) Collector.book_receive_age) _ h3 in
    let (a5, h5) =
      append-empty (Survey.when (not sent) Collector.book_source_age)
        (Survey.reference_failures c tick now) h4 in
    let g4 = not-false received (when-empty (not received) Collector.book_receive_age a4) in
    let g5 = not-false sent (when-empty (not sent) Collector.book_source_age a5) in
    ground (arith, g4, g5)

-- Where no failure is serious, all are idle.
idle_of_all :
    (c : Strategy) (ticker : ℕ) (fs : List Collector.Failure)
    → is_empty (Survey.serious_of c ticker fs) ≡ true
    → is_empty (Survey.idle_of c ticker fs) ≡ is_empty fs
idle_of_all c ticker [] h = refl
idle_of_all c ticker (f ∷ fs) h = ground (arith, h)

-- A market with no reasons and no book in time has an idle reason, and is not counted as fresh.
examine_book_quiet :
    (c : Strategy) (tick : Option Collector.Tick) (now : ℕ) (w : Collector.Watched)
    (o : Option Book)
    → is_empty (Survey.examine_book c tick now w o).reasons ≡ true
    → book_in_time c now o ≡ false
    → (is_empty (Survey.examine_book c tick now w o).idle_reasons ≡ false)
      × ((Survey.examine_book c tick now w o).fresh_books ≡ 0)
examine_book_quiet c tick now w none h late =
    let (_, rest) =
      append-empty (Survey.when w.blocked (Collector.market_integrity w.market.ticker)) _ h in
    absurd (ground (arith, rest))
examine_book_quiet c tick now w (some b) h late =
    let fs = Survey.freshness_rechecks c b tick now now in
    let (_, rest) =
      append-empty (Survey.when w.blocked (Collector.market_integrity w.market.ticker)) _ h in
    let same = idle_of_all c w.market.ticker fs rest in
    elim (Bool-cases (is_empty fs)) [
      | inl empty ↦
          let timely = rechecks-in_time c b tick now empty in absurd (ground (arith, timely, late))
      | inr full ↦ (ground (arith, same, full), ground (arith, full))
    ]

empty-append : {A : Type 0} (xs ys : List A) → is_empty xs ≡ false → is_empty (xs ++ ys) ≡ false
empty-append [] ys h = absurd (ground (arith, h))
empty-append (x ∷ xs) ys h = refl

examine_quiet :
    (c : Strategy) (tick : Option Collector.Tick) (now : ℕ) (snapshots : List ℕ)
    (w : Collector.Watched)
    → is_empty (Survey.examine c tick now snapshots w).reasons ≡ true
    → book_in_time c now w.book ≡ false
    → (is_empty (Survey.examine c tick now snapshots w).idle_reasons ≡ false)
      × ((Survey.examine c tick now snapshots w).fresh_books ≡ 0)
unfolding Survey.examine
examine_quiet c tick now snapshots w h late =
    elim (Bool-cases (any (λ t. t == w.market.ticker) snapshots)) [
      | inl seen ↦
          let (idle, fresh) = examine_book_quiet c tick now w w.book (simp seen at h) late in
          (simp seen idle, simp seen fresh)
      | inr missing ↦
          let (_, rest) =
            append-empty (Survey.when w.blocked (Collector.market_integrity w.market.ticker)) _
              (simp missing at h) in
          absurd (ground (arith, rest))
    ]

survey_quiet :
    (c : Strategy) (e : Collector.Engine) (now : ℕ) (snapshots : List ℕ)
    (ws : List Collector.Watched)
    → is_empty (Survey.survey c e now snapshots ws).reasons ≡ true
    → any (is_live c e now) ws ≡ false
    → ((Survey.survey c e now snapshots ws).fresh_books ≡ 0)
      × (is_empty (Survey.survey c e now snapshots ws).idle_reasons
          ≡ not (Survey.has_active e now ws))
unfolding Survey.survey
survey_quiet c e now snapshots [] h dead = (refl, refl)
survey_quiet c e now snapshots (w ∷ ws) h dead = elim (Bool-cases (Survey.is_active e now w)) [
  | inl seen ↦
      let found = Survey.examine c e.tick now snapshots w in
      let others = Survey.survey c e now snapshots ws in
      let (one, rest) = append-empty found.reasons others.reasons (simp seen at h) in
      let (idle, none_fresh) =
        examine_quiet c e.tick now snapshots w one (ground (arith, seen, dead)) in
      let (later, _) = survey_quiet c e now snapshots ws rest (ground (arith, dead)) in
      let idle_all = empty-append found.idle_reasons others.idle_reasons idle in
      (simp seen (ground (arith, none_fresh, later)), simp seen idle_all)
  | inr apart ↦
      let (later, idle) =
        survey_quiet c e now snapshots ws (simp apart at h) (ground (arith, dead)) in
      (simp apart later, simp apart idle)
]

-- Where nothing is found, and some market is active, an active market has its book in time.
pub survey-live :
    (c : Strategy) (e : Collector.Engine) (now : ℕ) (snapshots : List ℕ)
    (ws : List Collector.Watched)
    → let f = Survey.survey c e now snapshots ws in
      is_empty f.reasons ≡ true
      → is_empty (if f.fresh_books == 0 then f.idle_reasons else []) ≡ true
      → Survey.has_active e now ws ≡ true
      → any (is_live c e now) ws ≡ true
survey-live c e now snapshots ws h idle active = elim (Bool-cases (any (is_live c e now) ws)) [
  | inl live ↦ live
  | inr dead ↦
      let (fresh, same) = survey_quiet c e now snapshots ws h dead in
      absurd (ground (arith, fresh, same, idle, active))
]
