-- ===== src/Lifecycle.antt =====
-- src/btc15/storage.py: the lifecycle of a market in a run, TRANSITIONS and Store.transition.
--
-- The row's version and the optimistic UPDATE are the database's; here a transition is one step.
-- The evidence that a recovery cites is read from the records table, and enters as what those
-- rows say.
pub mod Trace
mod Tests
use project.Common.{
  Bool, true, false, ◌&&◌, ◌||◌, not, if◌then◌else◌, Option, none, some, List, [], ◌∷◌, any,
}

pub data MarketState : Type 0 where
  discover_market validate_market warmup monitoring entry_window evaluating : MarketState
  no_trade trade_candidate order_pending order_partially_filled order_cancelled : MarketState
  position_open exiting settlement_pending closed error halted : MarketState

abbrev pub index : MarketState → Prim.Native.Nat.ℕ
index discover_market = 0
index validate_market = 1
index warmup = 2
index monitoring = 3
index entry_window = 4
index evaluating = 5
index no_trade = 6
index trade_candidate = 7
index order_pending = 8
index order_partially_filled = 9
index order_cancelled = 10
index position_open = 11
index exiting = 12
index settlement_pending = 13
index closed = 14
index error = 15
index halted = 16

abbrev pub same_state : MarketState → MarketState → Bool
same_state a b = project.Common.◌==◌ (index a) (index b)

-- `TRANSITIONS`
unfoldable pub transitions : MarketState → List MarketState
transitions discover_market = validate_market ∷ []
transitions validate_market = warmup ∷ []
transitions warmup = monitoring ∷ entry_window ∷ settlement_pending ∷ []
transitions monitoring = entry_window ∷ settlement_pending ∷ []
transitions entry_window = evaluating ∷ settlement_pending ∷ []
transitions evaluating = no_trade ∷ trade_candidate ∷ settlement_pending ∷ []
transitions no_trade = evaluating ∷ settlement_pending ∷ []
transitions trade_candidate = order_pending ∷ no_trade ∷ []
transitions order_pending = order_partially_filled ∷ position_open ∷ order_cancelled ∷ []
transitions order_partially_filled = position_open ∷ order_cancelled ∷ []
transitions order_cancelled = evaluating ∷ position_open ∷ settlement_pending ∷ []
transitions position_open = exiting ∷ settlement_pending ∷ []
transitions exiting = position_open ∷ closed ∷ settlement_pending ∷ []
transitions settlement_pending = closed ∷ []
transitions closed = monitoring ∷ []
transitions error = halted ∷ []
transitions halted = []

-- `{"DISCOVER_MARKET"} if old is None else TRANSITIONS[old] | {"ERROR", "HALTED"}`
unfoldable pub targets : Option MarketState → List MarketState
unfolding transitions
targets none = discover_market ∷ []
targets (some old) = error ∷ halted ∷ transitions old

-- What the rows cited by a metadata recovery say.
pub record MetadataProof : Type 0 where
  pub target : MarketState
  pub reason_is_invalid_metadata : Bool
  pub hashes_agree : Bool

pub data Recovery : Type 0 where
  no_recovery : Recovery
  metadata_recovery : MetadataProof → Recovery
  settlement_recovery : Bool → Recovery

abbrev pub is_halted : Option MarketState → Bool
is_halted none = false
is_halted (some s) = same_state s halted

-- The check of the cited evidence: a recovery that passes is not bound by the table.
unfoldable pub recovers : Option MarketState → MarketState → Recovery → Option Bool
recovers old target no_recovery = some false
recovers old target (metadata_recovery p) =
    if is_halted old
      && (same_state target evaluating || same_state target position_open)
      && same_state p.target target
      && p.reason_is_invalid_metadata
      && p.hashes_agree
    then some true
    else none
recovers old target (settlement_recovery evidence_agrees) =
    if is_halted old && same_state target settlement_pending && evidence_agrees
    then some true
    else none

abbrev pub is_old : Option MarketState → MarketState → Bool
is_old none target = false
is_old (some s) target = same_state s target

-- `recovering or target in …`, of the verdict on the evidence; none is its ValueError
abbrev pub passes : Option Bool → Bool → Bool
passes none listed = false
passes (some recovering) listed = recovering || listed

-- `Store.transition`: the new state, or none for the ValueError.
unfoldable pub transition : Option MarketState → MarketState → Recovery → Option MarketState
transition old target recovery =
    if is_old old target
      || passes (recovers old target recovery) (any (same_state target) (targets old))
    then some target
    else none
