-- ===== src/Collector/Backlog.antt =====
-- src/btc15/backlog_entry.py: the exception that lets the live bot enter BTC during a backlog.
--
-- An age, a lag or a depth is `none` where it is not a finite number of at least the minimum that
-- the code asks for; times are milliseconds.
use project.Common.{
  ℕ, ◌+◌, ◌*◌, ◌≤◌, ◌≡◌, Bool, true, false, ◌&&◌, ◌||◌, not, if◌then◌else◌, leb, min, all, any,
  is_empty, Option, none, some, List, [], ◌∷◌,
}

-- The codes that the rule tells apart.
pub data Code : Type 0 where
  collector_recovering backlog_warning processing_lag stale_reference stale_book : Code
  book_receive_age book_source_age reference_receive_age reference_source_age : Code
  backlog_not_drained waiting_for_fresh_reference : Code
  existing_entry post_close_cooldown model_quality : Code
  other_code : ℕ → Code

-- `HEALTH_REASONS`
abbrev is_health : Code → Bool
is_health collector_recovering = true
is_health backlog_warning = true
is_health processing_lag = true
is_health stale_reference = true
is_health _ = false

-- `AGE_REASONS`
abbrev is_age : Code → Bool
is_age book_receive_age = true
is_age book_source_age = true
is_age reference_receive_age = true
is_age reference_source_age = true
is_age _ = false

abbrev is_stale_book : Code → Bool
is_stale_book stale_book = true
is_stale_book _ = false

abbrev is_stale_reference : Code → Bool
is_stale_reference stale_reference = true
is_stale_reference _ = false

abbrev is_backlog_warning : Code → Bool
is_backlog_warning backlog_warning = true
is_backlog_warning _ = false

abbrev is_not_drained : Code → Bool
is_not_drained backlog_not_drained = true
is_not_drained _ = false

abbrev is_waiting : Code → Bool
is_waiting waiting_for_fresh_reference = true
is_waiting _ = false

-- `DECISION_REASONS`
abbrev pub is_decision : Code → Bool
is_decision c = is_health c || is_age c || is_stale_book c

-- `status` of the report, and its `recovery`, whose reasons are cut at the colon; `ready` says that
-- its state is READY or RECOVERING.
pub record Report : Type 0 where
  pub status_age : Option ℕ
  pub reasons : List Code
  pub connected : Bool
  pub clock_ok : Bool
  pub exchange_open : Bool
  pub live_signals : Bool
  pub halted : Bool
  pub settlement_recovery : Bool
  pub ready : Bool
  pub recovery_reasons : List Code
  pub queue_depth : Option ℕ
  pub processing_lag : Option ℕ

abbrev is_finite : Option ℕ → Bool
is_finite none = false
is_finite (some n) = true

-- within five seconds
abbrev is_current : Option ℕ → Bool
is_current none = false
is_current (some age) = leb age 5000

unfoldable pub permitted : Bool → Report → Bool
permitted is_btc r =
    if not is_btc || not (is_current r.status_age)
    then false
    else (if is_empty r.reasons
          || not (all is_health r.reasons)
          || not (r.connected && r.clock_ok && r.exchange_open && r.live_signals)
          || r.halted
          || r.settlement_recovery
          || not r.ready
          || not (all (λ c. is_age c || is_not_drained c || is_waiting c) r.recovery_reasons)
        then false
        else is_finite r.queue_depth
          && is_finite r.processing_lag
          && (any is_backlog_warning r.reasons || any is_not_drained r.recovery_reasons))

-- What the rule reads of a decision: its reasons, and the reasons and the score of its quality.
pub record Decision : Type 0 where
  pub reasons : List Code
  pub quality_reasons : List Code
  pub score : Option ℕ

abbrev count : Bool → ℕ
count true = 1
count false = 0

-- `len(stale)`, a set of two codes at most
unfoldable pub stale_count : Decision → ℕ
stale_count d =
    count (any is_stale_reference d.quality_reasons) + count (any is_stale_book d.quality_reasons)

abbrev reaches : ℕ → ℕ → Option ℕ → Bool
reaches min_quality n none = false
reaches min_quality n (some score) = leb min_quality (min 100 (score + 25 * n))

-- The quality without its penalty for stale inputs is enough.
unfoldable pub forgives_quality : Decision → ℕ → Bool
unfolding stale_count
forgives_quality d min_quality =
    leb 1 (stale_count d) && reaches min_quality (stale_count d) d.score

-- `r["code"] in ignored`
unfoldable pub ignored : Decision → ℕ → Bool → Code → Bool
unfolding forgives_quality
ignored d min_quality bypass existing_entry = true
ignored d min_quality bypass post_close_cooldown = true
ignored d min_quality bypass model_quality = bypass && forgives_quality d min_quality
ignored d min_quality bypass c = bypass && is_decision c

unfoldable pub not_ignored : Decision → ℕ → Bool → List Code → List Code
not_ignored d min_quality bypass [] = []
not_ignored d min_quality bypass (c ∷ rest) =
    let later = not_ignored d min_quality bypass rest in
    if ignored d min_quality bypass c then later else c ∷ later

unfoldable pub decision_reasons : Decision → ℕ → Bool → List Code
unfolding not_ignored
decision_reasons d min_quality bypass = not_ignored d min_quality bypass d.reasons

-- The market is BTC and the report is current; connection, clock, exchange and market are in order,
-- nothing is halted or recovering a settlement, the collector is READY or RECOVERING, and only a
-- backlog with known depth and lag keeps the health and the recovery down.
pub record Backlog (is_btc : Bool) (r : Report) : Type 0 where
  pub btc : is_btc ≡ true
  pub age : ℕ
  pub recent : (r.status_age ≡ some age) × (age ≤ 5000)
  pub unhealthy : is_empty r.reasons ≡ false
  pub in_phase : r.ready ≡ true
  pub only_recovery :
      all (λ c. is_age c || is_not_drained c || is_waiting c) r.recovery_reasons ≡ true
  pub depth : ℕ
  pub known_depth : r.queue_depth ≡ some depth
  pub lag : ℕ
  pub known_lag : r.processing_lag ≡ some lag
  pub in_order : (r.connected && r.clock_ok && r.exchange_open && r.live_signals) ≡ true
  pub running : (r.halted || r.settlement_recovery) ≡ false
  pub only_health : all is_health r.reasons ≡ true
  pub has_backlog :
      (any is_backlog_warning r.reasons || any is_not_drained r.recovery_reasons) ≡ true

-- What clears a reason of a decision: the bot owns the market's cooldowns itself; or there is a
-- backlog, and the reason is one of age, or a quality that is enough without its stale inputs.
pub data Cleared (d : Decision) (min_quality : ℕ) (is_btc : Bool) (r : Report) : Code → Type 0 where
  own_entry : Cleared d min_quality is_btc r existing_entry
  own_cooldown : Cleared d min_quality is_btc r post_close_cooldown
  aged : {c : Code} → Backlog is_btc r → is_decision c ≡ true → Cleared d min_quality is_btc r c
  forgiven :
      Backlog is_btc r
      → forgives_quality d min_quality ≡ true
      → Cleared d min_quality is_btc r model_quality
