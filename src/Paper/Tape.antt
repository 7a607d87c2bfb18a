-- ===== src/Paper/Tape.antt =====
-- src/btc15/execution.py: PaperExecutor.trade, a print of the tape against a passive order.
--
-- The size of a print and the queue ahead of an order are millionths of a contract.
use project.Common.{
  ℕ, ◌+◌, ◌-◌, ◌%◌, ◌/◌, min, Bool, true, false, ◌&&◌, ◌||◌, not, if◌then◌else◌, ltb, ◌==◌, any,
  Option, none, some, List, ◌∷◌,
}
use project.Fees.{micro}
use project.Strategy.{Strategy}
use project.Book.{Side, yes_side, no_side}
use project.Paper.{PaperOrder, Desk, Result, ok, raised, ◌>>=◌, fill_order, Filled, lot}

-- A trade message; `none` stands for a missing id, for a taker side that is neither "yes" nor
-- "no", and for a price or a count that is no finite number.
pub record Print : Type 0 where
  pub id : Option ℕ
  pub ts_ms : ℕ
  pub taker : Option Side
  pub yes_price : Option ℕ
  pub count : Option ℕ

-- The desk and `seen_trades`.
pub record Tape : Type 0 where
  pub desk : Desk
  pub seen : List ℕ

abbrev pub same_side : Side → Side → Bool
same_side yes_side yes_side = true
same_side no_side no_side = true
same_side _ _ = false

-- `taker not in ("yes", "no") or taker == order.side`
abbrev pub is_other_side : Option Side → Side → Bool
is_other_side none side = false
is_other_side (some taker) side = not (same_side taker side)

abbrev pub leg_price : Side → ℕ → ℕ
leg_price yes_side yes_price = yes_price
leg_price no_side yes_price = micro - yes_price

-- `quantity - min(queue, quantity)`, cut down to hundredths
abbrev pub beyond_queue : PaperOrder → ℕ → ℕ
beyond_queue o count = (count - min o.queue count) / lot

abbrev pub queued : PaperOrder → ℕ → PaperOrder
queued o count = record o { queue = o.queue - min o.queue count }

abbrev pub keep_desk : Result Filled → Result Desk
keep_desk r = r >>= λ f. ok f.desk

-- The queue ahead is used up first; what is printed beyond it fills at the order's limit.
unfoldable pub consume : Strategy → ℕ → PaperOrder → ℕ → ℕ → Desk → Result Desk
consume c maker_rate o count now d =
    let d' = record d { order = some (queued o count) } in
    if beyond_queue o count == 0
    then ok d'
    else keep_desk (fill_order c (queued o count) (beyond_queue o count) o.limit maker_rate now d')

-- The checks on the count.
abbrev pub consume_count : Strategy → ℕ → PaperOrder → Option ℕ → ℕ → Desk → Result Desk
consume_count c maker_rate o none now d = raised
consume_count c maker_rate o (some count) now d =
    if count == 0 || not (count % lot == 0) then raised else consume c maker_rate o count now d

-- The checks on the price.
abbrev pub consume_print : Strategy → ℕ → PaperOrder → Print → Option ℕ → ℕ → Desk → Result Desk
consume_print c maker_rate o msg none now d = raised
consume_print c maker_rate o msg (some yes_price) now d =
    if not (ltb 0 yes_price && ltb yes_price micro)
    then raised
    else if ltb o.limit (leg_price o.side yes_price)
    then ok d
    else consume_count c maker_rate o msg.count now d

-- The print of an order at the desk, its guards in the order of the source.
unfoldable pub trade_order : Strategy → ℕ → PaperOrder → Print → ℕ → Desk → Result Desk
trade_order c maker_rate o msg now d =
    if not o.active || not c.passive || ltb now o.eligible || d.paused || d.pending_reference
    then ok d
    else if ltb msg.ts_ms o.eligible
        || ltb (now + c.max_clock_skew) msg.ts_ms
        || ltb (msg.ts_ms + c.book_max_age) now
    then ok d
    else if not (is_other_side msg.taker o.side)
    then ok d
    else consume_print c maker_rate o msg msg.yes_price now d

abbrev pub trade_at : Strategy → ℕ → Option PaperOrder → Print → ℕ → Desk → Result Desk
trade_at c maker_rate none msg now d = ok d
trade_at c maker_rate (some o) msg now d = trade_order c maker_rate o msg now d

abbrev pub trade_id : Strategy → ℕ → Option ℕ → Print → ℕ → Tape → Result Tape
trade_id c maker_rate none msg now t = ok t
trade_id c maker_rate (some id) msg now t =
    if any (λ x. x == id) t.seen
    then ok t
    else trade_at c maker_rate t.desk.order msg now t.desk >>= λ d.
        ok (record { desk = d; seen = id ∷ t.seen })

-- `trade`
unfoldable pub trade : Strategy → ℕ → Print → ℕ → Tape → Result Tape
trade c maker_rate msg now t = trade_id c maker_rate msg.id msg now t
