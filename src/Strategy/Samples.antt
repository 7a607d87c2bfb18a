-- ===== src/Strategy/Samples.antt =====
-- A configuration with the defaults of src/btc15/strategies/settlement_edge/config.py, with the
-- full-size execution and the late entries switched on.
use project.Common.{true, false, none, some}
use project.Strategy.{Strategy, fixed_contracts_mode, centicent_precision}

abbrev pub sample : Strategy
sample = record {
  hourly = false;
  enabled = true;
  entry_window_start = 480;
  no_new_entry = 120;
  min_entry_price = 850000;
  max_entry_price = 990000;
  entry_limit_offset = none;
  min_probability = 900000;
  early_min_probability = 950000;
  min_quality = 85;
  entry_value_filters_enabled = true;
  min_edge = 30000;
  min_ev = 30000;
  min_liquidity = 5000000;
  warmup_seconds = 300;
  ewma_decay = 970000;
  slippage = 2000;
  reference_max_age = 3000;
  book_max_age = 5000;
  max_clock_skew = 2000;
  evaluation_interval = 1000;
  full_position_execution = true;
  passive = false;
  passive_discount = 10000;
  revalidate_entry_signal = true;
  max_entry_retries = 1;
  entry_retry_cooldown = 5000;
  post_close_cooldown = 0;
  one_trade_per_market = true;
  max_wait = 20000;
  latency = 250;
  queue_multiplier = 1500000;
  bankroll = 1000000000;
  sizing_mode = fixed_contracts_mode;
  fixed_contracts = 5;
  fixed_dollars = 5000000;
  bankroll_fraction = 10000;
  max_contracts = 10;
  max_trade_dollars = 10000000;
  max_open_exposure = 20000000;
  daily_entry_limits_enabled = true;
  max_daily_exposure = 100000000;
  max_daily_loss = 30000000;
  max_daily_trades = 20;
  fixed_stop_price = 0;
  stop_multiplier = 750000;
  take_profit = some 990000;
  exit_probability = 700000;
  sustained_lead_enabled = true;
  late_entry_enabled = true;
  late_no_new_entry = 15;
  lead_confirmation_samples = 5;
  late_min_probability = 0;
  late_lead_confirmation_samples = 0;
  min_lead_sigma = 1000000;
  late_min_lead_sigma = 2000000;
  bollinger_entry_filter_enabled = false;
  bollinger_period = 20;
  rsi_period = 14;
  stochastic_period = 14;
  atr_period = 14;
  taker_fee_rate = 70000;
  maker_fee_rate = 17500;
  fee_balance_precision = centicent_precision;
}
