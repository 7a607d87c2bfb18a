-- ===== src/Collector/Steps.antt =====
-- Histories of the gate: the methods in any order, with `check` cut in two at its lock.
use project.Common.{
  ℕ, ◌≡◌, refl, Bool, true, false, not, ◌||◌, ◌&&◌, if◌then◌else◌, Option, none, some, List, [],
  ◌∷◌, arith, Bool-cases, inl, inr, is_empty, leb, min, ◌*◌,
}
use project.Strategy.{Strategy}
use project.Collector
use project.Collector.Check

-- A step of either thread. The worker reconnects only while a drain is requested (runner.py), and
-- concludes on reasons that it may have found some steps before.
pub data Step : Type 0 where
  requests : Collector.Cause → ℕ → Step
  presses : ℕ → ℕ → ℕ → ℕ → Step
  reconnects : Step
  observes : Collector.Engine → Collector.Row → Collector.Payload → Bool → Step
  assesses : Collector.Engine → Check.Look → Step
  concludes : ℕ → List Collector.Cause → Step
  checks : Collector.Engine → Check.Look → Step

abbrev pub step : Strategy → Step → Collector.Collector → Collector.Collector
step c (requests reason now) s = Collector.request reason now s
step c (presses lag depth capacity now) s = Collector.pressure c lag depth capacity now s
step c reconnects s = if s.drain then Collector.reconnect s else s
step c (observes e row payload valid) s = Collector.observe e row payload valid s
step c (assesses e l) s = Check.assess c e l s
step c (concludes capacity found) s = Check.conclude capacity found s
step c (checks e l) s = Check.check c e l s

unfoldable pub run : Strategy → List Step → Collector.Collector → Collector.Collector
run c [] s = s
run c (x ∷ xs) s = run c xs (step c x s)

abbrev pub is_ready : Collector.Phase → Bool
is_ready Collector.ready = true
is_ready _ = false

-- Blocked, or neither draining nor catching up, and ready with no reasons.
abbrev pub is_gated : Collector.Collector → Bool
is_gated s =
    s.paused || (not s.drain && not s.catching_up && is_ready s.phase && is_empty s.reasons)

request-gated :
    (r : Collector.Cause) (now : ℕ) (s : Collector.Collector)
    → is_gated (Collector.request r now s) ≡ true
unfolding Collector.request
request-gated r now s = ground arith

suspend-gated : (now : ℕ) (s : Collector.Collector) → is_gated (Collector.suspend now s) ≡ true
suspend-gated now s = ground arith

pressure-gated :
    (c : Strategy) (lag depth capacity now : ℕ) (s : Collector.Collector)
    → is_gated s ≡ true
    → is_gated (Collector.pressure c lag depth capacity now s) ≡ true
unfolding Collector.pressure
pressure-gated c lag depth capacity now s g = elim (Bool-cases (leb (4 * capacity) (5 * depth))) [
  | inl over ↦ simp over (request-gated Collector.processing_overload now _)
  | inr under ↦ elim (Bool-cases (leb (min 2000 (min c.reference_max_age c.book_max_age)) lag)) [
    | inl late ↦
        simp (under, late)
          (suspend-gated now (record s {
            lag = lag;
            depth = depth;
            warning = leb Collector.warning_lag lag || leb capacity (2 * depth);
          }))
    | inr early ↦ simp (under, early) g
  ]
]

reconnect-gated :
    (s : Collector.Collector)
    → is_gated s ≡ true
    → is_gated (if s.drain then Collector.reconnect s else s) ≡ true
unfolding Collector.reconnect
reconnect-gated s g = ground arith

note-gated :
    (row : Collector.Row) (payload : Collector.Payload) (valid : Bool) (s : Collector.Collector)
    → is_gated s ≡ true
    → is_gated (Collector.note row payload valid s) ≡ true
note-gated row Collector.connected valid s g = g
note-gated row Collector.other_message valid s g = g
note-gated row (Collector.metadata none) valid s g = g
note-gated row (Collector.metadata (some started)) false s g = g
note-gated row (Collector.metadata (some started)) true s g =
    elim (Bool-cases (leb s.since started)) [ inl late ↦ simp late g | inr early ↦ simp early g ]
note-gated row Collector.reference_value valid s g = g
note-gated row (Collector.orderbook_snapshot sequenced ticker) valid s g = g

take_tick-gated :
    (tick : Option Collector.Tick) (row : Collector.Row) (s : Collector.Collector)
    → is_gated s ≡ true
    → is_gated (Collector.take_tick tick row s) ≡ true
take_tick-gated none row s g = g
take_tick-gated (some t) row s g = g

take_in-gated :
    (e : Collector.Engine) (row : Collector.Row) (payload : Collector.Payload)
    (s : Collector.Collector)
    → is_gated s ≡ true
    → is_gated (Collector.take_in e row payload s) ≡ true
take_in-gated e row Collector.connected s g = g
take_in-gated e row Collector.other_message s g = g
take_in-gated e row (Collector.metadata t) s g = g
take_in-gated e row Collector.reference_value s g = take_tick-gated e.tick row s g
take_in-gated e row (Collector.orderbook_snapshot false ticker) s g =
    request-gated Collector.unsequenced_snapshot row.received s
take_in-gated e row (Collector.orderbook_snapshot true ticker) s g =
    elim (Bool-cases (Collector.has_book ticker e.markets)) [
      | inl there ↦ simp there g
      | inr missing ↦ simp missing g
    ]

observe-gated :
    (e : Collector.Engine) (row : Collector.Row) (payload : Collector.Payload) (valid : Bool)
    (s : Collector.Collector)
    → is_gated s ≡ true
    → is_gated (Collector.observe e row payload valid s) ≡ true
unfolding Collector.observe
observe-gated e row payload valid s g = elim (Bool-cases s.drain) [
  | inl drains ↦ let stops : s.paused ≡ true = ground arith in simp (drains, stops) refl
  | inr flows ↦
      let noted = Collector.note row payload valid s in
      let kept = note-gated row payload valid s g in
      elim (Bool-cases
        (not (Collector.is_connection noted.connection row.connection_id) || not valid)) [
          | inl other ↦ simp (flows, other) kept
          | inr ours ↦ simp (flows, ours) (take_in-gated e row payload noted kept)
        ]
]

request_stalled-gated :
    (r : Option Collector.Stream) (now : ℕ) (s : Collector.Collector)
    → is_gated s ≡ true
    → is_gated (Check.request_stalled r now s) ≡ true
request_stalled-gated none now s g = g
request_stalled-gated (some r) now s g = request-gated (Collector.stalled r) now s

assess-gated :
    (c : Strategy) (e : Collector.Engine) (l : Check.Look) (s : Collector.Collector)
    → is_gated s ≡ true
    → is_gated (Check.assess c e l s) ≡ true
unfolding Check.assess
assess-gated c e l s g = request_stalled-gated (Check.overdue l.monotonic _) l.now _ g

conclude-gated :
    (capacity : ℕ) (found : List Collector.Cause) (s : Collector.Collector)
    → is_gated (Check.conclude capacity found s) ≡ true
unfolding Check.conclude
conclude-gated capacity found s = ground arith

check_open-gated :
    (c : Strategy) (e : Collector.Engine) (l : Check.Look) (s : Collector.Collector)
    → is_gated s ≡ true
    → is_gated (Check.check_open c e l s) ≡ true
check_open-gated c e l s g = elim (Bool-cases s.drain) [
  | inl drains ↦ let stops : s.paused ≡ true = ground arith in simp (drains, stops) refl
  | inr flows ↦
      simp flows (conclude-gated l.capacity (Check.all_reasons c e l s) (Check.assess c e l s))
]

check-gated :
    (c : Strategy) (e : Collector.Engine) (l : Check.Look) (s : Collector.Collector)
    → is_gated s ≡ true
    → is_gated (Check.check c e l s) ≡ true
unfolding Check.check
check-gated c e l s g = elim (Bool-cases (Check.integrity_failed e l s)) [
  | inl broken ↦ simp broken (
      check_open-gated c e l (Collector.request Collector.data_integrity_failure l.now s)
        (request-gated Collector.data_integrity_failure l.now s))
  | inr whole ↦ simp whole (check_open-gated c e l s g)
]

step-gated :
    (c : Strategy) (x : Step) (s : Collector.Collector)
    → is_gated s ≡ true
    → is_gated (step c x s) ≡ true
step-gated c (requests reason now) s g = request-gated reason now s
step-gated c (presses lag depth capacity now) s g = pressure-gated c lag depth capacity now s g
step-gated c reconnects s g = reconnect-gated s g
step-gated c (observes e row payload valid) s g = observe-gated e row payload valid s g
step-gated c (assesses e l) s g = assess-gated c e l s g
step-gated c (concludes capacity found) s g = conclude-gated capacity found s
step-gated c (checks e l) s g = check-gated c e l s g

run-gated_from :
    (c : Strategy) (xs : List Step) (s : Collector.Collector)
    → is_gated s ≡ true
    → is_gated (run c xs s) ≡ true
unfolding run
run-gated_from c [] s g = g
run-gated_from c (x ∷ xs) s g = run-gated_from c xs (step c x s) (step-gated c x s g)

-- After any steps of both threads from the start, with `check` cut in two at its lock and any
-- reasons found before: entries are blocked, or no drain and no catching up is under way and the
-- phase is ready with no reasons.
pub run-gated :
    (c : Strategy) (xs : List Step) (now : ℕ) → is_gated (run c xs (Collector.start now)) ≡ true
unfolding Collector.start
run-gated c xs now = run-gated_from c xs (Collector.start now) refl
