-- ===== src/Strategy.antt =====
-- src/btc15/strategies/settlement_edge/config.py: the frozen configuration, its checks and the
-- thresholds that it answers.
--
-- Decimals and money are whole numbers of millionths. Durations that the source gives in seconds
-- as floats are milliseconds; the integer seconds stay seconds. The first loop of
-- `__post_init__` has made sure that every number is finite and not negative.
pub mod Windows
pub mod Samples
mod Tests
use project.Common.{
  ℕ, zero, ◌+◌, ◌*◌, min, Bool, true, false, ◌&&◌, ◌||◌, not, if◌then◌else◌, ltb, leb, ◌==◌, Option,
  none, some, List, [], ◌∷◌,
}
use project.Fees.{micro}

pub data SizingMode : Type 0 where
  fixed_contracts_mode fixed_dollars_mode bankroll_percentage other_mode : SizingMode

-- `class Strategy`; `hourly` stands for `asset_spec.hourly`.
pub record Strategy : Type 0 where
  pub hourly : Bool
  pub enabled : Bool
  pub entry_window_start : ℕ
  pub no_new_entry : ℕ
  pub min_entry_price : ℕ
  pub max_entry_price : ℕ
  pub entry_limit_offset : Option ℕ
  pub min_probability : ℕ
  pub early_min_probability : ℕ
  pub min_quality : ℕ
  pub entry_value_filters_enabled : Bool
  pub min_edge : ℕ
  pub min_ev : ℕ
  pub min_liquidity : ℕ
  pub warmup_seconds : ℕ
  pub ewma_decay : ℕ
  pub slippage : ℕ
  pub reference_max_age : ℕ
  pub book_max_age : ℕ
  pub max_clock_skew : ℕ
  pub evaluation_interval : ℕ
  pub full_position_execution : Bool
  pub passive : Bool
  pub passive_discount : ℕ
  pub revalidate_entry_signal : Bool
  pub max_entry_retries : ℕ
  pub entry_retry_cooldown : ℕ
  pub post_close_cooldown : ℕ
  pub one_trade_per_market : Bool
  pub max_wait : ℕ
  pub latency : ℕ
  pub queue_multiplier : ℕ
  pub bankroll : ℕ
  pub sizing_mode : SizingMode
  pub fixed_contracts : ℕ
  pub fixed_dollars : ℕ
  pub bankroll_fraction : ℕ
  pub max_contracts : ℕ
  pub max_trade_dollars : ℕ
  pub max_open_exposure : ℕ
  pub daily_entry_limits_enabled : Bool
  pub max_daily_exposure : ℕ
  pub max_daily_loss : ℕ
  pub max_daily_trades : ℕ
  pub fixed_stop_price : ℕ
  pub stop_multiplier : ℕ
  pub take_profit : Option ℕ
  pub exit_probability : ℕ
  pub sustained_lead_enabled : Bool
  pub late_entry_enabled : Bool
  pub late_no_new_entry : ℕ
  pub lead_confirmation_samples : ℕ
  pub late_min_probability : ℕ
  pub late_lead_confirmation_samples : ℕ
  pub min_lead_sigma : ℕ
  pub late_min_lead_sigma : ℕ
  pub bollinger_entry_filter_enabled : Bool
  pub bollinger_period : ℕ
  pub rsi_period : ℕ
  pub stochastic_period : ℕ
  pub atr_period : ℕ
  pub taker_fee_rate : ℕ
  pub maker_fee_rate : ℕ
  pub fee_balance_precision : ℕ

abbrev pub is_fixed_contracts : SizingMode → Bool
is_fixed_contracts fixed_contracts_mode = true
is_fixed_contracts _ = false

abbrev pub is_known_mode : SizingMode → Bool
is_known_mode other_mode = false
is_known_mode _ = true

abbrev pub between : ℕ → ℕ → ℕ → Bool
between lo x hi = leb lo x && leb x hi

abbrev pub at_most : Option ℕ → ℕ → Bool
at_most none bound = true
at_most (some x) bound = leb x bound

abbrev pub inside_unit : Option ℕ → Bool
inside_unit none = true
inside_unit (some x) = ltb 0 x && ltb x micro

-- "0.01" and "0.0001" dollars, in 10^-12 dollars.
abbrev pub cent_precision : ℕ
cent_precision = 10000000000

abbrev pub centicent_precision : ℕ
centicent_precision = 100000000

-- The checks of `__post_init__`, in the order of the source and in groups: execution, the entry
-- window, and the confirmation of the lead.
unfoldable pub has_valid_execution : Strategy → Bool
has_valid_execution c =
    at_most c.entry_limit_offset 50000
    && not (c.full_position_execution && (c.passive || not (is_fixed_contracts c.sizing_mode)))
    && ltb c.fixed_stop_price micro

unfoldable pub has_valid_window : Strategy → Bool
has_valid_window c =
    ltb 0 c.no_new_entry
    && ltb c.no_new_entry c.entry_window_start
    && leb c.entry_window_start 900
    && ltb 0 c.late_no_new_entry
    && ltb c.late_no_new_entry c.no_new_entry

unfoldable pub has_valid_lead : Strategy → Bool
has_valid_lead c =
    not (c.late_entry_enabled && not c.sustained_lead_enabled)
    && between 1 c.lead_confirmation_samples 60
    && (c.late_lead_confirmation_samples == 0 || between 1 c.late_lead_confirmation_samples 60)
    && leb c.late_min_probability micro
    && leb c.min_lead_sigma c.late_min_lead_sigma

unfoldable pub has_valid_model : Strategy → Bool
has_valid_model c =
    ltb 0 c.min_entry_price
    && leb c.min_entry_price c.max_entry_price
    && ltb c.max_entry_price micro
    && leb 30 c.warmup_seconds
    && ltb 0 c.ewma_decay
    && ltb c.ewma_decay micro

unfoldable pub has_valid_fractions : Strategy → Bool
has_valid_fractions c =
    leb c.min_probability micro
    && leb c.early_min_probability micro
    && leb c.exit_probability micro
    && leb c.bankroll_fraction micro

unfoldable pub has_valid_limits : Strategy → Bool
has_valid_limits c =
    leb c.min_quality 100
    && leb micro c.queue_multiplier
    && ltb 0 c.evaluation_interval
    && leb c.max_entry_retries 2
    && is_known_mode c.sizing_mode
    && (c.fee_balance_precision == cent_precision || c.fee_balance_precision == centicent_precision)
    && inside_unit c.take_profit
    && leb 2 (min (min c.bollinger_period c.rsi_period) (min c.stochastic_period c.atr_period))

-- `__post_init__` raises no ValueError.
unfoldable pub is_valid : Strategy → Bool
is_valid c =
    has_valid_execution c
    && has_valid_window c
    && has_valid_lead c
    && has_valid_model c
    && has_valid_fractions c
    && has_valid_limits c

-- `a or b` for numbers
abbrev pub or_else : ℕ → ℕ → ℕ
or_else a b = if a == 0 then b else a

-- `stop_price`, in 10^-12 dollars
unfoldable pub stop_price : Strategy → ℕ → ℕ
stop_price c entry = or_else (c.fixed_stop_price * micro) (entry * c.stop_multiplier)

-- `entry_cutoff`, in seconds
unfoldable pub entry_cutoff : Strategy → ℕ
entry_cutoff c = if c.late_entry_enabled then c.late_no_new_entry else c.no_new_entry

abbrev pub in_early_window : Strategy → Option ℕ → Bool
in_early_window c none = false
in_early_window c (some remaining) =
    ltb 420000 remaining
    && leb remaining (c.entry_window_start * 1000)
    && not (c.early_min_probability == 0)

-- `probability_floor`, of a time left in milliseconds
unfoldable pub probability_floor : Strategy → Bool → Option ℕ → ℕ
probability_floor c late remaining =
    if in_early_window c remaining
    then c.early_min_probability
    else if late
    then or_else c.late_min_probability c.min_probability
    else c.min_probability

-- `confirmation_count`
unfoldable pub confirmation_count : Strategy → Bool → ℕ
confirmation_count c late =
    if late
    then or_else c.late_lead_confirmation_samples c.lead_confirmation_samples
    else c.lead_confirmation_samples
