-- ===== src/Lib.antt =====
-- A verification library for src/btc15: the trading rules and the paper executor.
--
-- The program trades binary contracts of an exchange. A collector feeds order books; a strategy
-- decides on an entry; the risk budget sizes and reserves it; the paper executor submits an order,
-- matches it against the book, keeps the position and settles it; stored states and guards say
-- what may happen next. The files follow these parts, each with child modules for its theorems
-- and a module Tests with concrete runs:
--
--   Common          shared names, Boolean tests, integers, divisions and dictionaries
--   Fees            src/btc15/strategies/settlement_edge/rules.py: FeeAccumulator, fee_bound
--   Market          src/btc15/domain.py: Market.tradable, snap, valid_tick
--   Book            src/btc15/domain.py: Book; Book/Messages: snapshot and validate, on rows that
--                   may hold infinities, NaN or texts that do not read
--   Settlement      src/btc15/domain.py: SettlementSpecification.yes, favored
--   Strategy        src/btc15/strategies/settlement_edge/config.py: Strategy
--   Risk            src/btc15/strategies/settlement_edge/rules.py: Risk
--   Entry           src/btc15/strategies/settlement_edge/rules.py: effective_entry_ceiling,
--                   evaluate, passive_price; bleep.py: capped_confidence
--   ReadBudget      src/btc15/read_budget.py
--   EntrySchedule   src/btc15/entry_schedule.py
--   LossGuard       src/btc15/global_loss_guard.py
--   LiveLoss        src/btc15/live_loss_guard.py
--   Lease           src/btc15/storage.py: Store.acquire, release; src/btc15/lease_identity.py
--   Lifecycle       src/btc15/storage.py: TRANSITIONS, Store.transition
--   Paper           src/btc15/execution.py: PaperExecutor at one market; Paper/Submit: submit;
--                   Paper/Exit: _apply_monitor, _commit_monitor, observe_exit_liquidity;
--                   Paper/Settle: finish, quarantine, settle; Paper/Venue: halt,
--                   pause_market, resume_market, revalidate
--   Orders          src/btc15/manual_trading.py: ManualTrading's ledger of real orders; Orders/Store:
--                   claim, save, reconcile; Orders/Submit: submit, _submit; Orders/Fills:
--                   _receive_fill; Orders/Cancel: cancel_resting; Orders/Requests: the check
--                   route, and all steps together;
--                   src/btc15/domain.py: order_direction
--   Journal         src/btc15/execution_journal.py: initialize, append, read_events;
--                   src/btc15/research_log.py: _execution_records, capture_execution;
--                   src/btc15/live_automation.py: research_execution
--   Collector       src/btc15/collector_recovery.py: the gate; Collector/Survey: what check looks
--                   at, and src/btc15/engine.py: freshness_rechecks; Collector/Check: check;
--                   Collector/Backlog: src/btc15/backlog_entry.py
--
-- The parts build on each other as in the code: Risk reserves with the fee bound of Fees under a
-- Strategy; Paper charges fills with Fees, checks ticks with Market, follows Lifecycle and releases
-- reservations of Risk. A method that changes an object is a function from its old state to the
-- new one; a ValueError is `none`, an `error` field or `raised`.
-- A real order of Orders records its events in a journal as that of Journal; the two are modelled
-- apart. The `json` module, and SQL's LIKE, are parameters of Journal. What the exchange and the
-- account answer to a submission is its argument `Answers`.
--
-- Numbers: the code uses decimals, kept as floats between calls. Here they are exact whole numbers
-- of the units that each file names (millionths of a dollar, 10^-12 dollars for money,
-- milliseconds), so that nothing is rounded but where the code rounds. Loops run over finite
-- lists, but for the binary search of a band (Entry), whose fuel is the number of its ticks: each
-- round leaves fewer.
--
-- Not modelled: binary floating point, SQL and files beyond the values read and written, the
-- probability models, the parser of the exchange's prose, the live permissions, the event loops and
-- the dashboards. What other threads may set (a pause, a pending reference) is held fixed during
-- one call of the executor; the steps of the collector's two threads are interleaved.
pub mod Common
pub mod Fees
pub mod Market
pub mod Book
pub mod Settlement
pub mod Strategy
pub mod Risk
pub mod Entry
pub mod ReadBudget
pub mod EntrySchedule
pub mod LossGuard
pub mod LiveLoss
pub mod Lease
pub mod Lifecycle
pub mod Paper
pub mod Orders
pub mod Journal
pub mod Collector
