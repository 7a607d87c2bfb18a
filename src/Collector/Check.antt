-- ===== src/Collector/Check.antt =====
-- `check`: what it reads before the lock, and what it decides under it.
use project.Common.{
  ℕ, ◌+◌, ◌*◌, Bool, true, false, ◌&&◌, ◌||◌, not, if◌then◌else◌, ltb, leb, ◌==◌, Option, none,
  some, List, [], ◌∷◌, ◌++◌, is_empty, map,
}
use project.Strategy.{Strategy}
use project.Collector.{
  Cause, Collector, Engine, Stream, backlog_not_drained, book_stream, clock_skew,
  data_integrity_failure, draining, exchange_closed, halted, is_present, no_active_market, ready,
  recovering, reference_stream, request, same_connection, stalled, stalled_stream, stopping,
  waiting_for_connection, waiting_for_fresh_metadata, waiting_for_fresh_reference, warning_lag,
}
use project.Collector.Survey.{has_active, metadata_fresh, reference_fresh, survey, when}

-- The arguments of `check`, and `time.monotonic()`.
pub record Look : Type 0 where
  pub now : ℕ
  pub lag : ℕ
  pub depth : ℕ
  pub capacity : ℕ
  pub connected : Bool
  pub stopping : Bool
  pub monotonic : ℕ

abbrev pub has_backlog : ℕ → ℕ → ℕ → Bool
has_backlog lag depth capacity = ltb warning_lag lag || ltb capacity (5 * depth)

-- The reasons before the markets are looked at.
unfoldable pub general_reasons : Strategy → Engine → Look → Collector → List Cause
general_reasons c e l self =
    when l.stopping stopping
    ++ (when (not l.connected || not (same_connection self.connection e.connection))
          waiting_for_connection
        ++ (when (not (metadata_fresh self.metadata_at l.now)) waiting_for_fresh_metadata
            ++ (when (not e.clock_ok) clock_skew
                ++ (when (not e.exchange_open) exchange_closed
                    ++ (when e.halted halted
                        ++ (when (not (reference_fresh c e l.now self)) waiting_for_fresh_reference
                            ++ (when (has_backlog l.lag l.depth l.capacity) backlog_not_drained
                                ++ when (not (has_active e l.now e.markets)) no_active_market)))))))

unfoldable pub all_reasons : Strategy → Engine → Look → Collector → List Cause
all_reasons c e l self =
    let f = survey c e l.now self.snapshots e.markets in
    general_reasons c e l self ++ (f.reasons ++ (if f.fresh_books == 0 then f.idle_reasons else []))

-- The streams that stall, where nothing else explains it.
unfoldable pub all_stalled : Strategy → Engine → Look → Collector → List Stream
all_stalled c e l self =
    let f = survey c e l.now self.snapshots e.markets in
    if l.stopping
      || not l.connected
      || not (is_present self.connection)
      || not (same_connection self.connection e.connection)
      || not e.clock_ok
      || not e.exchange_open
      || has_backlog l.lag l.depth l.capacity
    then []
    else when (not (reference_fresh c e l.now self)) reference_stream
      ++ (f.stalled ++ (if f.fresh_books == 0 then f.idle_stalls else []))

abbrev pub same_stream : Stream → Stream → Bool
same_stream reference_stream reference_stream = true
same_stream (book_stream a) (book_stream b) = a == b
same_stream _ _ = false

abbrev pub since_or : Stream → ℕ → List (Stream × ℕ) → ℕ
since_or s monotonic [] = monotonic
since_or s monotonic ((r, t) ∷ rest) = if same_stream r s then t else since_or s monotonic rest

-- The first stream that has stalled for long enough.
abbrev pub overdue : ℕ → List (Stream × ℕ) → Option Stream
overdue monotonic [] = none
overdue monotonic ((r, t) ∷ rest) =
    if leb (t + stalled_stream) monotonic then some r else overdue monotonic rest

abbrev pub request_stalled : Option Stream → ℕ → Collector → Collector
request_stalled none now self = self
request_stalled (some s) now self = request (stalled s) now self

-- The part of `check` before the lock.
unfoldable pub assess : Strategy → Engine → Look → Collector → Collector
assess c e l self =
    let since =
      map (λ s. (s, since_or s l.monotonic self.stalled_since)) (all_stalled c e l self) in
    request_stalled (overdue l.monotonic since) l.now (record self { stalled_since = since })

-- The part under the lock, on the reasons that were found before it.
unfoldable pub conclude : ℕ → List Cause → Collector → Collector
conclude capacity found self =
    if self.drain
    then record self { phase = draining; reasons = self.reason ∷ []; paused = true }
    else (let reasons =
          found
          ++ when (self.catching_up && has_backlog self.lag self.depth capacity)
              backlog_not_drained in
        if is_empty reasons
        then record self { reasons = []; phase = ready; catching_up = false; paused = false }
        else record self { reasons = reasons; phase = recovering; paused = true })

-- `check` without another step in between.
abbrev pub check_open : Strategy → Engine → Look → Collector → Collector
check_open c e l self =
    if self.drain
    then record self { phase = draining; reasons = self.reason ∷ [] }
    else conclude l.capacity (all_reasons c e l self) (assess c e l self)

abbrev pub integrity_failed : Engine → Look → Collector → Bool
integrity_failed e l self =
    not l.stopping
    && is_present self.connection
    && same_connection self.connection e.connection
    && e.integrity_failed

unfoldable pub check : Strategy → Engine → Look → Collector → Collector
check c e l self =
    check_open c e l
      (if integrity_failed e l self then request data_integrity_failure l.now self else self)
