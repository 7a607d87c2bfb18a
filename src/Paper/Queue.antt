-- ===== src/Paper/Queue.antt =====
-- `trade`: a print fills a passive order only with what is printed beyond the queue ahead of it.
use project.Common.{
  ℕ, ◌+◌, ◌≤◌, ◌≡◌, ◌⊎◌, refl, inl, inr, true, ap, sym, ◌∙◌, ◌==◌, any, some, ◌∷◌, arith,
  Bool-cases, Option-cases, eq_self,
}
use project.Strategy.{Strategy}
use project.Paper.{PaperOrder, Desk, ok, cancel, Filled, fill_order}
use project.Paper.Tape.{Print, Tape, beyond_queue, queued, consume, trade_order, trade_at, trade}
use project.Paper.Accounts.{
  Booked, cancelled, cancel_active-Cancels, FillEnd, bought, refused_at_once, refused_cancelled,
  ignored, fill_order-end,
}
use project.Paper.Matching.{bind-ok}
use project.Paper.Books.{Held, end-Held}

-- The books are right, and at most `most` hundredths of the order o have been filled.
pub record Printed (o : PaperOrder) (most : ℕ) (d : Desk) : Type 0 where
  pub held : Held o.limit o.quantity o.remaining d
  pub order : PaperOrder
  pub is_order : d.order ≡ some order
  pub no_less : o.remaining ≤ order.remaining + most

same-Printed :
    (o o' : PaperOrder) (most : ℕ) (d : Desk)
    → o'.limit ≡ o.limit
    → o'.quantity ≡ o.quantity
    → o'.remaining ≡ o.remaining
    → d.order ≡ some o'
    → Booked o' d.position
    → Printed o most d
same-Printed o o' most d l q r at b = record {
  held = record {
    order = o';
    is_order = at;
    same_limit = l;
    same_quantity = q;
    no_more = ground arith;
    booked = b;
  };
  order = o';
  is_order = at;
  no_less = ground arith;
}

cancel_order_remaining :
    (o : PaperOrder) (now : ℕ) (d d' : Desk)
    → d.order ≡ some o
    → cancel now d ≡ ok d'
    → (o' : PaperOrder) × (d'.order ≡ some o') × (o'.remaining ≡ o.remaining)
unfolding cancel
cancel_order_remaining o now d d' at h = elim (Bool-cases o.active) [
  | inl on ↦
      let k = cancel_active-Cancels o now d {d' = d'} (ground arith) in
      (cancelled now o, k.order_off, refl)
  | inr off ↦ (o, ground arith, refl)
]

end_remaining :
    (o : PaperOrder) (q now : ℕ) (d : Desk) (f : Filled)
    → d.order ≡ some o
    → FillEnd o q now d f
    → (o' : PaperOrder) × (f.desk.order ≡ some o') × (o.remaining ≤ o'.remaining + q)
end_remaining o q now d f at (bought b e) = (b.order, b.is_order, omega (arith, b.left))
end_remaining o q now d f at (refused_at_once e t) = (o, ground arith, omega arith)
end_remaining o q now d f at (refused_cancelled e t) =
    let (o', is, same) = cancel_order_remaining o now d f.desk at e in (o', is, ground arith)
end_remaining o q now d f at (ignored e why) = (o, ground arith, omega arith)

queued-Booked :
    (o : PaperOrder) (count : ℕ) (d : Desk)
    → Booked o d.position
    → Booked (queued o count) d.position
queued-Booked o count d b = elim (Option-cases d.position) [
  | inl e ↦ simp e (simp e at b)
  | inr (p, e) ↦ simp e (simp e at b)
]

consume-Printed :
    (c : Strategy) (rate : ℕ) (o : PaperOrder) (count now : ℕ) (d d' : Desk)
    → Booked o d.position
    → consume c rate o count now d ≡ ok d'
    → Printed o (beyond_queue o count) d'
unfolding consume
consume-Printed c rate o count now d d' b h = elim (Bool-cases (beyond_queue o count == 0)) [
  | inl nothing ↦
      let same : d' ≡ record d { order = some (queued o count) } = ground arith in
      simp same (
        same-Printed o (queued o count) (beyond_queue o count)
          (record d { order = some (queued o count) }) refl refl refl refl
          (queued-Booked o count d b))
  | inr some_left ↦
      let at = record d { order = some (queued o count) } in
      let (f, e, k) =
        bind-ok (fill_order c (queued o count) (beyond_queue o count) o.limit rate now at)
          (λ f. ok f.desk) {b = d'} (ground arith) in
      let end =
        fill_order-end c (queued o count) (beyond_queue o count) o.limit rate now at
          (queued-Booked o count d b) e in
      let (o', is, low) = end_remaining (queued o count) (beyond_queue o count) now at f refl end in
      let same : d' ≡ f.desk = sym (ground arith) in
      simp same (record {
        held =
            end-Held (queued o count) (beyond_queue o count) now at f refl
              (queued-Booked o count d b) end;
        order = o';
        is_order = is;
        no_less = low;
      })
]

trade_order-Way :
    (c : Strategy) (rate : ℕ) (o : PaperOrder) (msg : Print) (count now : ℕ) (d d' : Desk)
    → msg.count ≡ some count
    → trade_order c rate o msg now d ≡ ok d'
    → (d' ≡ d) ⊎ (consume c rate o count now d ≡ ok d')
unfolding trade_order
trade_order-Way c rate o msg count now d d' n h = elim (Option-cases msg.yes_price) [
  | inl e ↦ ground arith
  | inr (p, e) ↦ ground arith
]

trade_order-Printed :
    (c : Strategy) (rate : ℕ) (o : PaperOrder) (msg : Print) (count now : ℕ) (d d' : Desk)
    → d.order ≡ some o
    → Booked o d.position
    → msg.count ≡ some count
    → trade_order c rate o msg now d ≡ ok d'
    → Printed o (beyond_queue o count) d'
trade_order-Printed c rate o msg count now d d' at b n h =
    elim (trade_order-Way c rate o msg count now d d' n h) [
      | inl same ↦ simp same (same-Printed o o (beyond_queue o count) d refl refl refl at b)
      | inr used ↦ consume-Printed c rate o count now d d' b used
    ]

-- `trade` does nothing, or takes the print to the order.
trade-Way :
    (c : Strategy) (rate : ℕ) (msg : Print) (now : ℕ) (t t' : Tape)
    → trade c rate msg now t ≡ ok t'
    → (t'.desk ≡ t.desk) ⊎ (trade_at c rate t.desk.order msg now t.desk ≡ ok t'.desk)
unfolding trade
trade-Way c rate msg now t t' h = elim (Option-cases msg.id) [
  | inl e ↦ inl (ground arith)
  | inr (id, e) ↦ elim (Bool-cases (any (λ x. x == id) t.seen)) [
    | inl known ↦ inl (ground arith)
    | inr fresh ↦
        let (d, k, l) =
          bind-ok (trade_at c rate t.desk.order msg now t.desk)
            (λ d. ok (record { desk = d; seen = id ∷ t.seen })) {b = t'} (ground arith) in
        let same : d ≡ t'.desk = ground arith in inr (k ∙ ap ok same)
  ]
]

-- When `trade` takes a print of some count and the desk's order was booked, the desk still has
-- the order of the same limit and quantity, booked and with no more remaining than before, and at
-- most the hundredths printed beyond the queue have been filled.
pub trade-Printed :
    (c : Strategy) (rate : ℕ) (o : PaperOrder) (msg : Print) (count now : ℕ) (t t' : Tape)
    → t.desk.order ≡ some o
    → Booked o t.desk.position
    → msg.count ≡ some count
    → trade c rate msg now t ≡ ok t'
    → Printed o (beyond_queue o count) t'.desk
trade-Printed c rate o msg count now t t' at b n h = elim (trade-Way c rate msg now t t' h) [
  | inl same ↦ simp same (same-Printed o o (beyond_queue o count) t.desk refl refl refl at b)
  | inr used ↦
      trade_order-Printed c rate o msg count now t.desk t'.desk at b n
        (sym (ap (λ x. trade_at c rate x msg now t.desk) at) ∙ used)
]

trade_seen :
    (c : Strategy) (rate : ℕ) (msg : Print) (now id : ℕ) (t : Tape)
    → msg.id ≡ some id
    → any (λ x. x == id) t.seen ≡ true
    → trade c rate msg now t ≡ ok t
unfolding trade
trade_seen c rate msg now id t e known = ground arith

trade_marks :
    (c : Strategy) (rate : ℕ) (msg : Print) (now id : ℕ) (t t' : Tape)
    → msg.id ≡ some id
    → trade c rate msg now t ≡ ok t'
    → any (λ x. x == id) t'.seen ≡ true
unfolding trade
trade_marks c rate msg now id t t' e h = elim (Bool-cases (any (λ x. x == id) t.seen)) [
  | inl known ↦ let same : t' ≡ t = ground arith in simp same known
  | inr fresh ↦
      let (d, k, l) =
        bind-ok (trade_at c rate t.desk.order msg now t.desk)
          (λ d. ok (record { desk = d; seen = id ∷ t.seen })) {b = t'} (ground arith) in
      let same : t' ≡ record { desk = d; seen = id ∷ t.seen } = ground arith in
      simp (same, eq_self id)
]

-- A print that was taken changes nothing when it comes again, at any later time.
pub trade-trade :
    (c : Strategy) (rate : ℕ) (msg : Print) (now later : ℕ) (t t' : Tape)
    → trade c rate msg now t ≡ ok t'
    → trade c rate msg later t' ≡ ok t'
unfolding trade
trade-trade c rate msg now later t t' h = elim (Option-cases msg.id) [
  | inl e ↦ ground arith
  | inr (id, e) ↦ trade_seen c rate msg later id t' e (trade_marks c rate msg now id t t' e h)
]
