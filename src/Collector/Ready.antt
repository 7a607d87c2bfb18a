-- ===== src/Collector/Ready.antt =====
-- When entries are unblocked.
use project.Common.{
  any, ℕ, ◌+◌, ◌*◌, ◌≤◌, All, ◌≡◌, refl, sym, ◌∙◌, true, false, not, ◌||◌, ◌&&◌, is_empty, Option,
  none, some, List, [], ◌++◌, arith, Bool-cases, inl, inr,
}
use project.Strategy.{Strategy}
use project.Collector
use project.Collector.Survey
use project.Collector.Check
use project.Collector.Ladder.{is_live, survey-live}
use project.Collector.Fresh.{not-false, append-empty, when-empty, Clear, survey-Clear}

-- What the general checks have found in order.
pub record Sound (c : Strategy) (e : Collector.Engine) (l : Check.Look) (self : Collector.Collector)
    : Type 0 where
  pub running : l.stopping ≡ false
  pub connected : l.connected ≡ true
  pub same_connection : Collector.same_connection self.connection e.connection ≡ true
  pub read_at : ℕ
  pub has_metadata : self.metadata_at ≡ some read_at
  pub metadata : (read_at ≤ l.now) × (l.now ≤ read_at + 30000)
  pub clock : e.clock_ok ≡ true
  pub exchange : e.exchange_open ≡ true
  pub not_halted : e.halted ≡ false
  pub reference : self.reference ≡ true
  pub healthy : e.healthy ≡ true
  pub drained : (l.lag ≤ Collector.warning_lag) × (5 * l.depth ≤ l.capacity)
  pub market : Survey.has_active e l.now e.markets ≡ true

metadata-in_time :
    (o : Option ℕ) (now : ℕ)
    → Survey.metadata_fresh o now ≡ true
    → (t : ℕ) × (o ≡ some t) × ((t ≤ now) × (now ≤ t + 30000))
metadata-in_time none now h = absurd (ground arith)
metadata-in_time (some t) now h = (t, refl, (ground arith, ground arith))

general_reasons-Sound :
    (c : Strategy) (e : Collector.Engine) (l : Check.Look) (self : Collector.Collector)
    → is_empty (Check.general_reasons c e l self) ≡ true
    → Sound c e l self
unfolding Check.general_reasons
general_reasons-Sound c e l self h =
    let (a1, h1) = append-empty (Survey.when l.stopping Collector.stopping) _ h in
    let (a2, h2) =
      append-empty
        (Survey.when
          (not l.connected || not (Collector.same_connection self.connection e.connection))
          Collector.waiting_for_connection)
        _ h1 in
    let (a3, h3) =
      append-empty
        (Survey.when (not (Survey.metadata_fresh self.metadata_at l.now))
          Collector.waiting_for_fresh_metadata)
        _ h2 in
    let (a4, h4) = append-empty (Survey.when (not e.clock_ok) Collector.clock_skew) _ h3 in
    let (a5, h5) =
      append-empty (Survey.when (not e.exchange_open) Collector.exchange_closed) _ h4 in
    let (a6, h6) = append-empty (Survey.when e.halted Collector.halted) _ h5 in
    let (a7, h7) =
      append-empty
        (Survey.when (not (Survey.reference_fresh c e l.now self))
          Collector.waiting_for_fresh_reference)
        _ h6 in
    let (a8, h8) =
      append-empty
        (Survey.when (Check.has_backlog l.lag l.depth l.capacity) Collector.backlog_not_drained) _
        h7 in
    let b1 = when-empty l.stopping Collector.stopping a1 in
    let b2 =
      when-empty (not l.connected || not (Collector.same_connection self.connection e.connection))
        Collector.waiting_for_connection a2 in
    let b3 =
      when-empty (not (Survey.metadata_fresh self.metadata_at l.now))
        Collector.waiting_for_fresh_metadata a3 in
    let b4 = when-empty (not e.clock_ok) Collector.clock_skew a4 in
    let b5 = when-empty (not e.exchange_open) Collector.exchange_closed a5 in
    let b6 = when-empty e.halted Collector.halted a6 in
    let b7 =
      when-empty (not (Survey.reference_fresh c e l.now self)) Collector.waiting_for_fresh_reference
        a7 in
    let b8 =
      when-empty (Check.has_backlog l.lag l.depth l.capacity) Collector.backlog_not_drained a8 in
    let b9 = when-empty (not (Survey.has_active e l.now e.markets)) Collector.no_active_market h8 in
    let (read_at, has, in_time) = metadata-in_time self.metadata_at l.now (not-false _ b3) in
    let fed = not-false _ b7 in
    record {
      running = b1;
      connected = ground arith;
      same_connection = ground arith;
      read_at = read_at;
      has_metadata = has;
      metadata = in_time;
      clock = not-false _ b4;
      exchange = not-false _ b5;
      not_halted = b6;
      reference = ground (arith, fed);
      healthy = ground (arith, fed);
      drained = (ground arith, ground arith);
      market = not-false _ b9;
    }

-- Entries that are open.
pub record Open (c : Strategy) (e : Collector.Engine) (l : Check.Look)
    (self after : Collector.Collector) : Type 0 where
  pub sound : Sound c e l self
  pub clear : All (Clear c e l.now self.snapshots) e.markets
  pub live : any (is_live c e l.now) e.markets ≡ true
  pub no_drain : after.drain ≡ false
  pub caught_up : after.catching_up ≡ false
  pub is_ready : after.phase ≡ Collector.ready
  pub no_reasons : after.reasons ≡ []

true-false : true ≡ false → ⊥
true-false h = ground arith

check_open-paused :
    (c : Strategy) (e : Collector.Engine) (l : Check.Look) (self : Collector.Collector)
    → self.drain ≡ true
    → (Check.check_open c e l self).paused ≡ self.paused
check_open-paused c e l self drains = simp drains refl

pub request-drains :
    (r : Collector.Cause) (now : ℕ) (self : Collector.Collector)
    → ((Collector.request r now self).drain ≡ true) × ((Collector.request r now self).paused ≡ true)
unfolding Collector.request
request-drains r now self = (ground arith, ground arith)

conclude-open :
    (capacity : ℕ) (found : List Collector.Cause) (self : Collector.Collector)
    → (Check.conclude capacity found self).paused ≡ false
    → (is_empty found ≡ true)
      × ((Check.conclude capacity found self).drain ≡ false)
      × ((Check.conclude capacity found self).catching_up ≡ false)
      × ((Check.conclude capacity found self).phase ≡ Collector.ready)
      × ((Check.conclude capacity found self).reasons ≡ [])
unfolding Check.conclude
conclude-open capacity found self h = elim (Bool-cases self.drain) [
  | inl drains ↦ absurd (true-false (simp drains at h))
  | inr flows ↦
      let last =
        Survey.when (self.catching_up && Check.has_backlog self.lag self.depth capacity)
          Collector.backlog_not_drained in
      elim (Bool-cases (is_empty (found ++ last))) [
        | inl empty ↦
            let (first, rest) = append-empty found last empty in
            (
              first,
              simp (flows, empty) refl,
              simp (flows, empty) refl,
              simp (flows, empty) refl,
              simp (flows, empty) refl,
            )
        | inr full ↦ absurd (true-false (simp (flows, full) at h))
      ]
]

all_reasons-Sound :
    (c : Strategy) (e : Collector.Engine) (l : Check.Look) (self : Collector.Collector)
    → is_empty (Check.all_reasons c e l self) ≡ true
    → Sound c e l self
      × All (Clear c e l.now self.snapshots) e.markets
      × (any (is_live c e l.now) e.markets ≡ true)
unfolding Check.all_reasons
all_reasons-Sound c e l self h =
    let (general, rest) = append-empty (Check.general_reasons c e l self) _ h in
    let (markets, idle) =
      append-empty (Survey.survey c e l.now self.snapshots e.markets).reasons _ rest in
    let sound = general_reasons-Sound c e l self general in
    (
      sound,
      survey-Clear c e l.now self.snapshots e.markets markets,
      survey-live c e l.now self.snapshots e.markets markets idle sound.market,
    )

check_open-Open :
    (c : Strategy) (e : Collector.Engine) (l : Check.Look) (self : Collector.Collector)
    → (self.paused || not self.drain) ≡ true
    → (Check.check_open c e l self).paused ≡ false
    → Open c e l self (Check.check_open c e l self)
check_open-Open c e l self guard h = elim (Bool-cases self.drain) [
  | inl drains ↦ let still = check_open-paused c e l self drains in absurd (ground arith)
  | inr flows ↦
      let (empty, d, u, p, r) =
        conclude-open l.capacity (Check.all_reasons c e l self) (Check.assess c e l self)
          (simp flows at h) in
      let (sound, clear, live) = all_reasons-Sound c e l self empty in
      let made : Open c e l self
          (Check.conclude l.capacity (Check.all_reasons c e l self) (Check.assess c e l self)) =
        record {
          sound = sound;
          clear = clear;
          live = live;
          no_drain = d;
          caught_up = u;
          is_ready = p;
          no_reasons = r;
        } in
      simp flows made
]

-- Where a drain has blocked the entries: if they are open after `check`, then the feed is connected
-- on the engine's connection, the metadata and the reference are fresh, the clock, the exchange and
-- the backlog are in order, nothing is halted or stopping, an active market is there, every active
-- market is unblocked, has its snapshot noted and a valid book, a reference within its ages and,
-- but for an hourly ladder, a book within its ages, on a ladder too one active market has its book
-- within its ages, no drain or catching up is under way, and the phase is ready with no reasons.
pub check-Open :
    (c : Strategy) (e : Collector.Engine) (l : Check.Look) (self : Collector.Collector)
    → (self.paused || not self.drain) ≡ true
    → (Check.check c e l self).paused ≡ false
    → Open c e l self (Check.check c e l self)
unfolding Check.check
check-Open c e l self guard h = elim (Bool-cases (Check.integrity_failed e l self)) [
  | inl broken ↦
      let asked = Collector.request Collector.data_integrity_failure l.now self in
      let (drains, stops) = request-drains Collector.data_integrity_failure l.now self in
      let still = check_open-paused c e l asked drains in
      absurd (true-false (sym stops ∙ sym still ∙ simp broken at h))
  | inr whole ↦ simp whole (check_open-Open c e l self guard (simp whole at h))
]
