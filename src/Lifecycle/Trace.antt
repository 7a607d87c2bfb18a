-- ===== src/Lifecycle/Trace.antt =====
-- What the history of a market's states must hold.
use project.Common.{
  ◌≡◌, ◌≢◌, refl, sym, ◌⊎◌, inl, inr, Bool, true, false, Option, none, some, List, [], ◌∷◌, arith,
}
use mathlib.Core.List.{Memᴰ}
use project.Lifecycle
use project.Lifecycle.{
  MarketState, MetadataProof, Recovery, no_recovery, metadata_recovery, settlement_recovery,
  transition, targets, transitions, recovers, position_open, order_pending, order_partially_filled,
  order_cancelled, evaluating, settlement_pending, exiting, halted, same_state, is_old, passes,
}

-- Where a recovery can take a halted market.
abbrev pub Recovered : MarketState → Type 0
Recovered target =
    (target ≡ evaluating) ⊎ ((target ≡ position_open) ⊎ (target ≡ settlement_pending))

halted_by_metadata :
    (target : MarketState) (p : MetadataProof)
    → recovers (some halted) target (metadata_recovery p) ≢ none
    → Recovered target
unfolding recovers
halted_by_metadata target p h = ground arith

halted_by_settlement :
    (target : MarketState) (b : Bool)
    → recovers (some halted) target (settlement_recovery b) ≢ none
    → Recovered target
unfolding recovers
halted_by_settlement target b h = ground arith

same_state→eq : (a b : MarketState) → same_state a b ≡ true → a ≡ b
same_state→eq a b h = ground arith

halted_stays :
    (target : MarketState)
    → transition (some halted) target no_recovery ≢ none
    → target ≢ halted
    → target ≡ Lifecycle.error
unfolding transition recovers targets
halted_stays target h ne = ground arith

transition-recovers :
    (old : MarketState) (target : MarketState) (r : Recovery)
    → transition (some old) target r ≢ none
    → (old ≡ target) ⊎ (recovers (some old) target r ≢ none)
unfolding transition
transition-recovers old target r h = ground (arith, same_state→eq old target)

-- A halted market is left only for the error state, or on the evidence of a recovery, and then
-- only for evaluation, for the position it holds, or for settlement.
pub transition-halted :
    (target : MarketState) (recovery : Recovery)
    → transition (some halted) target recovery ≢ none
    → target ≢ halted
    → (target ≡ Lifecycle.error) ⊎ ((recovery ≢ no_recovery) × Recovered target)
transition-halted target no_recovery h ne = inl (halted_stays target h ne)
transition-halted target (metadata_recovery p) h ne =
    ground (
      arith,
      transition-recovers halted target (metadata_recovery p) h,
      halted_by_metadata target p,
    )
transition-halted target (settlement_recovery b) h ne = ground (
  arith,
  transition-recovers halted target (settlement_recovery b) h,
  halted_by_settlement target b,
)

-- The states in which no order of the cycle has been submitted yet, or all is over.
abbrev is_before_order : Option MarketState → Bool
is_before_order none = true
is_before_order (some order_pending) = false
is_before_order (some order_partially_filled) = false
is_before_order (some order_cancelled) = false
is_before_order (some position_open) = false
is_before_order (some exiting) = false
is_before_order (some _) = true

step_before_order :
    (old : Option MarketState) (target : MarketState)
    → is_before_order old ≡ true
    → transition old target no_recovery ≢ none
    → (target ≡ order_pending) ⊎ (is_before_order (some target) ≡ true)
unfolding transition recovers targets
step_before_order old target b h = ground arith

-- A run of transitions without recoveries, and the state that it ends in; none where one raises.
unfoldable pub run : Option MarketState → List MarketState → Option (Option MarketState)
run old [] = some old
run old (t ∷ ts) = elim (transition old t no_recovery) [ none ↦ none | some s ↦ run (some s) ts ]

run-cons :
    (old : Option MarketState) (t : MarketState) (ts : List MarketState) {end : Option MarketState}
    → run old (t ∷ ts) ≡ some end
    → (transition old t no_recovery ≢ none) × (run (some t) ts ≡ some end)
unfolding run transition
run-cons old t ts h = ground arith

run-position_open_from :
    (old : Option MarketState) (ts : List MarketState)
    → is_before_order old ≡ true
    → run old ts ≡ some (some position_open)
    → Memᴰ order_pending ts
unfolding run
run-position_open_from old [] b h = absurd (ground arith)
run-position_open_from old (t ∷ ts) b h =
    let (allowed, rest) = run-cons old t ts h in
    elim (step_before_order old t b allowed) [
      | inl e ↦ Memᴰ.head (sym e)
      | inr e ↦ Memᴰ.tail (run-position_open_from (some t) ts e rest)
    ]

-- In a history that uses no recovery, a market reaches an open position only after an order
-- was pending.
pub run-position_open :
    (ts : List MarketState) → run none ts ≡ some (some position_open) → Memᴰ order_pending ts
run-position_open ts h = run-position_open_from none ts refl h
