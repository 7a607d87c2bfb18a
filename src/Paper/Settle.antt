-- ===== src/Paper/Settle.antt =====
-- src/btc15/execution.py: `finish`, `quarantine` and `settle`, the end of a market.
--
-- What recovery.py makes of a market and of evidence enters as values: the hash of a contract, and
-- the hash of the final contract that the evidence shows, or none where its validation raises. The
-- audit records (blocked settlements, the recovery, the comparison with holding) are not modelled.
pub mod Once
pub mod Same
pub mod Payout
mod Tests
use project.Common.{
  ℕ, ◌+◌, ◌*◌, max, Bool, true, false, ◌&&◌, ◌||◌, not, if◌then◌else◌, ltb, ◌==◌, any, Option, none,
  some, List, [], ◌∷◌, ℤ, pos, ◌-ℤ◌,
}
use project.Fees.{micro}
use project.Risk
use project.Book.{Side, yes_side, no_side}
use project.Lifecycle.{
  MarketState, same_state, transition, settlement_recovery, halted, error, closed,
  settlement_pending,
}
use project.Paper.{
  PaperOrder, Position, Desk, Result, ok, raised, ◌>>=◌, entered, enter, cancel, lot,
}

-- What of a market a settlement looks at; the executor keeps it from its first contact.
pub record Contract : Type 0 where
  pub close_time : ℕ
  pub hash : ℕ

pub record EvidenceRow : Type 0 where
  pub id : ℕ
  pub digest : ℕ
  pub result : Side

-- A record "trade_result".
pub record TradeResult : Type 0 where
  pub opportunity : ℕ
  pub pnl : ℤ
  pub settlement : Option Side

-- The desk and what the store holds of the market's settlement: the latest record "settlement",
-- whether it is claimed, the evidence and the results.
pub record Account : Type 0 where
  pub desk : Desk
  pub contract : Option Contract
  pub settlement : Option Side
  pub claimed : Bool
  pub evidence : List EvidenceRow
  pub results : List TradeResult

pub record Evidence : Type 0 where
  pub digest : ℕ
  pub final : Option ℕ
  pub new_id : ℕ

-- A review by an operator; `has_reason` is a reason that is not blank.
pub record Review : Type 0 where
  pub evidence_id : ℕ
  pub evidence_hash : ℕ
  pub has_reason : Bool

pub data Answer : Type 0 where
  settled already_settled blocked : Answer

pub record Settling : Type 0 where
  pub account : Account
  pub answer : Answer

abbrev pub is_in : MarketState → Option MarketState → Bool
is_in s none = false
is_in s (some old) = same_state s old

abbrev pub latest : ℕ → Option ℕ → ℕ
latest now none = now
latest now (some t) = max now t

abbrev pub net_pnl : Position → ℤ
net_pnl p = pos p.proceeds -ℤ pos p.cost -ℤ p.fees

-- `order.completed_at = now`, of the order with the position's opportunity
abbrev pub complete : ℕ → ℕ → Option PaperOrder → Option PaperOrder
complete opportunity now none = none
complete opportunity now (some o) =
    if o.opportunity == opportunity then some (record o { completed_at = some now }) else some o

abbrev pub with_desk : Account → Result Desk → Result Account
with_desk a r = r >>= λ d. ok (record a { desk = d })

-- `finish` of the position at the desk
unfoldable pub finish : Position → ℕ → Option Side → Account → Result Account
finish p now result a =
    let d = a.desk in
    with_desk
      (record a {
        results =
            record { opportunity = p.opportunity; pnl = net_pnl p; settlement = result }
            ∷ a.results;
      })
      (enter closed (record d {
        position = none;
        closed_at = some (latest now d.closed_at);
        risk = Risk.close d.risk d.ticker (net_pnl p) now;
        order = complete p.opportunity now d.order;
      }))

abbrev pub known_or : Option Contract → Contract → Contract
known_or none m = m
known_or (some known) m = known

-- `quarantine`; `legacy` is the reason LEGACY_METADATA_QUARANTINE.
unfoldable pub quarantine : Contract → ℕ → Bool → Account → Result Account
quarantine m now legacy a =
    let d = a.desk in
    let kept = record a { contract = some (known_or a.contract m) } in
    if is_in error d.state || (is_in halted d.state && not d.quarantined && not legacy)
    then ok a
    else if d.quarantined
    then ok kept
    else with_desk kept (cancel now d >>= λ d'. enter halted (record d' { quarantined = true }))

abbrev pub same_result : Side → Side → Bool
same_result yes_side yes_side = true
same_result no_side no_side = true
same_result _ _ = false

abbrev pub answer : Answer → Account → Result Settling
answer s a = ok (record { account = a; answer = s })

-- The id of the evidence with a digest, if it is recorded.
abbrev pub find_id : ℕ → List EvidenceRow → Option ℕ
find_id digest [] = none
find_id digest (r ∷ rows) = if r.digest == digest then some r.id else find_id digest rows

abbrev pub row_id : Option ℕ → ℕ → ℕ
row_id none new = new
row_id (some id) new = id

abbrev pub rows_with : Option ℕ → EvidenceRow → List EvidenceRow → List EvidenceRow
rows_with none row rows = row ∷ rows
rows_with (some id) row rows = rows

-- What the evidence settles: its id and digest, and the hash of the final contract.
pub record Final : Type 0 where
  pub id : ℕ
  pub digest : ℕ
  pub hash : ℕ

-- The account with the evidence recorded, and what is final; none is a settlement blocked.
pub record Weighed : Type 0 where
  pub account : Account
  pub final : Option Final
  pub is_blocked : Bool

unfoldable pub record_evidence : Evidence → Side → Account → Account
record_evidence e result a = record a {
  evidence =
      rows_with (find_id e.digest a.evidence)
        (record { id = e.new_id; digest = e.digest; result = result }) a.evidence;
}

abbrev pub weigh_final : Contract → ℕ → ℕ → ℕ → Option ℕ → Account → Result Weighed
weigh_final m id digest now none a =
    quarantine m now false a >>= λ a'. ok (record { account = a'; final = none; is_blocked = true })
weigh_final m id digest now (some hash) a =
    (if hash == m.hash then ok a else quarantine m now false a) >>= λ a'. ok (record {
      account = a';
      final = some (record { id = id; digest = digest; hash = hash });
      is_blocked = false;
    })

-- The part of `settle` under `if evidence is not None`.
unfoldable pub weigh : Contract → Side → ℕ → Option Evidence → Account → Result Weighed
weigh m result now none a = ok (record { account = a; final = none; is_blocked = false })
weigh m result now (some e) a =
    weigh_final m (row_id (find_id e.digest a.evidence) e.new_id) e.digest now e.final
      (record_evidence e result a)

-- How a quarantined market may settle: none is the ValueError.
abbrev pub review_allows : Review → Final → Option Bool
review_allows r f =
    if r.evidence_id == f.id && r.evidence_hash == f.digest && r.has_reason then some true else none

unfoldable pub recovery_allows :
    Contract → Side → Option Final → Option Review → List EvidenceRow → Option Bool
recovery_allows m result none review rows = some false
recovery_allows m result (some f) (some r) rows = review_allows r f
recovery_allows m result (some f) none rows =
    some (f.hash == m.hash && not (any (λ r. not (same_result r.result result)) rows))

-- The audited escape of a quarantined market into settlement_pending.
abbrev pub escape : Bool → Desk → Result Desk
escape false d = ok d
escape true d = entered d (transition d.state settlement_pending (settlement_recovery true))

-- A contract on the winning side pays a dollar.
abbrev pub payout : Position → Side → ℕ
payout p result = if same_result p.side result then p.quantity * lot * micro else 0

abbrev pub paid : Position → Side → Position
paid p result = record p { proceeds = p.proceeds + payout p result; quantity = 0 }

abbrev pub is_ended : Option MarketState → Bool
is_ended s = is_in closed s || is_in halted s || is_in error s

-- With a position it is paid and finished, and without one the market just closes.
abbrev pub close_out : Option Position → Side → ℕ → Account → Result Account
close_out (some p) result now a =
    with_desk a (enter settlement_pending a.desk) >>= finish (paid p result) now (some result)
close_out none result now a =
    if is_ended a.desk.state
    then ok a
    else with_desk a (enter settlement_pending a.desk >>= enter closed)

abbrev pub reopened : Account → Account
reopened a = record a { desk = record (a.desk) { quarantined = false; paused = false } }

-- What `settle` does once it has claimed the settlement.
unfoldable pub book_settlement : Side → ℕ → Bool → Account → Result Account
book_settlement result now recovering a =
    with_desk (record a { claimed = true; settlement = some result })
      (cancel now a.desk >>= escape recovering)
    >>= (λ a'. close_out a'.desk.position result now a')
    >>= λ a'. ok (reopened a')

abbrev pub claim_settlement : Side → ℕ → Bool → Account → Result Settling
claim_settlement result now recovering a =
    if a.claimed
    then answer already_settled a
    else book_settlement result now recovering a >>= answer settled

abbrev pub is_present {ℓ} : {A : Type ℓ} → Option A → Bool
is_present none = false
is_present (some a) = true

abbrev pub recover : Side → ℕ → Account → Option Bool → Result Settling
recover result now a none = raised
recover result now a (some false) = answer blocked a
recover result now a (some true) = claim_settlement result now true a

unfoldable pub settle_weighed : Contract → Side → ℕ → Option Review → Weighed → Result Settling
settle_weighed m result now review w =
    let a = w.account in
    if w.is_blocked
    then answer blocked a
    else if a.desk.quarantined
    then recover result now a (recovery_allows m result w.final review a.evidence)
    else if is_present review
    then raised
    else claim_settlement result now false a

abbrev pub settle_known :
    Contract → Side → ℕ → Option Evidence → Option Review → Account → Option Side → Result Settling
settle_known m result now evidence review a (some prior) =
    answer (if same_result prior result then already_settled else blocked) a
settle_known m result now evidence review a none =
    if is_in error a.desk.state || (is_in halted a.desk.state && not a.desk.quarantined)
    then answer blocked a
    else weigh m result now evidence a >>= settle_weighed m result now review

abbrev pub settle_result :
    Contract → Option Side → ℕ → Option Evidence → Option Review → Account → Result Settling
settle_result m none now evidence review a = raised
settle_result m (some result) now evidence review a =
    if ltb now m.close_time
    then raised
    else settle_known m result now evidence review a a.settlement

-- `settle`; a `result` of none is a text that is neither "yes" nor "no".
unfoldable pub settle :
    Contract → Option Side → ℕ → Option Evidence → Option Review → Account → Result Settling
settle market result now evidence review a =
    settle_result (known_or a.contract market) result now evidence review a
