-- ===== src/Journal/Synced.antt =====
-- What the backfill has archived, and what the journal still holds for it.
use project.Common.{
  ◌==◌, ◌&&◌, ◌||◌, ℕ, zero, suc, ◌-◌, ◌*◌, ◌≤◌, ◌≡◌, refl, sym, ap, ◌∙◌, Bool, true, false,
  if◌then◌else◌, length, Option, none, some, List, [], ◌∷◌, ◌++◌, arith,
}
use mathlib.Core.List.{append_assoc, append-nil}
use project.Journal.{
  Event, Table, Call, append, read_events, take, event_of, entry_of, has_id, created,
}
use project.Journal.Scan.{
  Ordered, Ordered-append, all_after, selected-next, selected-same, all_after-append,
}
use project.Journal.Backfill.{
  Archiver, Copy, immediate, journal_backfill, capture, backfilled, page, accepted, deliver,
  execution_records, research_execution, Step, appended, published, polled, started, polls, happen,
  run,
}

backfilled-journal {ℓ} :
    {Json : Type ℓ} (cs : List (Copy Json)) (e : ℕ × Event Json)
    → backfilled (cs ++ record { delivery = journal_backfill; event = e } ∷ [])
      ≡ backfilled cs ++ e ∷ []
backfilled-journal [] e = refl
backfilled-journal (c ∷ cs) e =
    elim c.delivery
      as (λ d.
        elim d [
          | immediate ↦ backfilled (cs ++ record { delivery = journal_backfill; event = e } ∷ [])
          | journal_backfill ↦
              c.event ∷ backfilled (cs ++ record { delivery = journal_backfill; event = e } ∷ [])
        ]
        ≡ elim d [ immediate ↦ backfilled cs | journal_backfill ↦ c.event ∷ backfilled cs ]
          ++ e ∷ []) [
            | immediate ↦ backfilled-journal cs e
            | journal_backfill ↦ ap (λ rest. c.event ∷ rest) (backfilled-journal cs e)
          ]

backfilled-immediate {ℓ} :
    {Json : Type ℓ} (cs : List (Copy Json)) (e : ℕ × Event Json)
    → backfilled (cs ++ record { delivery = immediate; event = e } ∷ []) ≡ backfilled cs
backfilled-immediate [] e = refl
backfilled-immediate (c ∷ cs) e =
    elim c.delivery
      as (λ d.
        elim d [
          | immediate ↦ backfilled (cs ++ record { delivery = immediate; event = e } ∷ [])
          | journal_backfill ↦
              c.event ∷ backfilled (cs ++ record { delivery = immediate; event = e } ∷ [])
        ]
        ≡ elim d [ immediate ↦ backfilled cs | journal_backfill ↦ c.event ∷ backfilled cs ]) [
          | immediate ↦ backfilled-immediate cs e
          | journal_backfill ↦ ap (λ rest. c.event ∷ rest) (backfilled-immediate cs e)
        ]

nothing_left {ℓ} :
    {A : Type ℓ} (xs ys : List A) {zs : List A} → length ys ≤ 0 → xs ++ ys ≡ zs → xs ≡ zs
nothing_left xs [] h e = sym (append-nil xs) ∙ e
nothing_left xs (y ∷ ys) h e = absurd (omega (arith, h))

-- What the backfill has archived, and what the journal still holds for it, is what the journal holds.
module _ {ℓ} {Json Text : Type ℓ} (loads : Text → Event Json) (like : ℕ → Bool) where
  pub record Synced (t : Table Text) (a : Archiver Json) : Type ℓ where
    pub ordered : Ordered 0 t.counter t.rows
    pub reached : a.execution_cursor ≤ t.counter
    pub kept :
        backfilled a.archived ++ all_after loads like a.execution_cursor t.rows
        ≡ all_after loads like 0 t.rows

  accepted-Synced :
      (t : Table Text) (a : Archiver Json) (e : ℕ × Event Json) (more : List (ℕ × Event Json))
      → Synced t a
      → all_after loads like a.execution_cursor t.rows ≡ e ∷ more
      → Synced t (accepted a e) × (all_after loads like e.0 t.rows ≡ more)
  accepted-Synced t a e more s h =
      let (lo, hi, next) =
        selected-next loads like 0 t.counter a.execution_cursor t.rows e more s.ordered h in
      (
        record {
          ordered = s.ordered;
          reached = hi;
          kept =
              ap (λ done. done ++ all_after loads like e.0 t.rows) (backfilled-journal a.archived e)
              ∙ append_assoc (backfilled a.archived) (e ∷ []) (all_after loads like e.0 t.rows)
              ∙ ap (λ rest. backfilled a.archived ++ e ∷ rest) next
              ∙ ap (λ rest. backfilled a.archived ++ rest) (sym h)
              ∙ s.kept;
        },
        next,
      )

  deliver-Synced :
      (accepts : ℕ × Event Json → Bool) (n : ℕ) (t : Table Text) (a : Archiver Json)
      (more : List (ℕ × Event Json))
      → Synced t a
      → all_after loads like a.execution_cursor t.rows ≡ more
      → Synced t (deliver accepts a (take n more))
  unfolding deliver
  deliver-Synced accepts zero t a more s h = s
  deliver-Synced accepts (suc n) t a [] s h = s
  deliver-Synced accepts (suc n) t a (e ∷ more) s h =
      let (s', next) = accepted-Synced t a e more s h in
      elim (accepts e)
        as (λ b. Synced t (if b then deliver accepts (accepted a e) (take n more) else a)) [
          | true ↦ deliver-Synced accepts n t (accepted a e) more s' next
          | false ↦ s
        ]

  research_execution-Synced :
      (starts : ℕ → Bool) (accepts : ℕ × Event Json → Bool) (e : ℕ × Event Json) (t : Table Text)
      (a : Archiver Json)
      → Synced t a
      → Synced t (research_execution starts accepts e a)
  unfolding research_execution
  research_execution-Synced starts accepts e t a s =
      elim ((e.1.market == 0 || starts e.1.market) && accepts e)
        as (λ b. Synced t (if b then capture immediate e a else a)) [
          | true ↦ record {
            ordered = s.ordered;
            reached = s.reached;
            kept =
                ap (λ done. done ++ all_after loads like a.execution_cursor t.rows)
                  (backfilled-immediate a.archived e)
                ∙ s.kept;
          }
          | false ↦ s
        ]

  append-Synced :
      (dumps : Event Json → Text) (t : Table Text) (c : Call Json) (a : Archiver Json)
      → Synced t a
      → Synced (append dumps t c).1 a
  unfolding append
  append-Synced dumps t c a s =
      let e = event_of c in
      let r = entry_of dumps (suc t.counter) e in
      let t' : Table Text = record { rows = t.rows ++ r ∷ []; counter = suc t.counter } in
      let ignored : Option (ℕ × Event Json) × Table Text = (none, t) in
      let stored : Option (ℕ × Event Json) × Table Text = (some (suc t.counter, e), t') in
      elim (has_id e.event_id t.rows) as (λ b. Synced (if b then ignored else stored).1 a) [
        | true ↦ s
        | false ↦ record {
          ordered = Ordered-append 0 t.counter t.rows r s.ordered (omega arith);
          reached = omega (arith, s.reached);
          kept =
              ap (λ rest. backfilled a.archived ++ rest)
                (all_after-append loads like a.execution_cursor t.rows r)
              ∙ sym (
                  append_assoc (backfilled a.archived)
                    (all_after loads like a.execution_cursor t.rows)
                    (all_after loads like a.execution_cursor (r ∷ [])))
              ∙ ap (λ all. all ++ all_after loads like a.execution_cursor (r ∷ [])) s.kept
              ∙ ap (λ last. all_after loads like 0 t.rows ++ last)
                  (selected-same loads like t.counter (suc t.counter) a.execution_cursor 0 (r ∷ [])
                    (omega arith, omega arith) s.reached (omega arith))
              ∙ sym (all_after-append loads like 0 t.rows r);
        }
      ]

-- Where every event of a page is accepted, the page is done with.
module _ {ℓ} {Json Text : Type ℓ} (loads : Text → Event Json) (like : ℕ → Bool) where
  deliver-rest :
      (n : ℕ) (t : Table Text) (a : Archiver Json) (more : List (ℕ × Event Json))
      → Synced loads like t a
      → all_after loads like a.execution_cursor t.rows ≡ more
      → let a' = deliver (λ e. true) a (take n more) in
        length (all_after loads like a'.execution_cursor t.rows) ≡ length more - n
  unfolding deliver
  deliver-rest zero t a more s h = ground (arith, h)
  deliver-rest (suc n) t a [] s h = ground (arith, h)
  deliver-rest (suc n) t a (e ∷ more) s h =
      let (s', next) = accepted-Synced loads like t a e more s h in
      omega (arith, deliver-rest n t (accepted a e) more s' next)

module _ {ℓ} {Json Text : Type ℓ} (dumps : Event Json → Text) (loads : Text → Event Json)
    (like : ℕ → Bool) where
  pub run-Synced :
      (t : Table Text) (a : Archiver Json) (xs : List (Step Json))
      → Synced loads like t a
      → let s = run dumps loads like (t, a) xs in Synced loads like s.0 s.1
  unfolding run happen execution_records read_events all_after
  run-Synced t a [] s = s
  run-Synced t a (appended c ∷ xs) s =
      run-Synced (append dumps t c).1 a xs (append-Synced loads like dumps t c a s)
  run-Synced t a (published starts accepts e ∷ xs) s =
      run-Synced t (research_execution starts accepts e a) xs
        (research_execution-Synced loads like starts accepts e t a s)
  run-Synced t a (polled accepts ∷ xs) s =
      run-Synced t (execution_records loads like t accepts a) xs (
        deliver-Synced loads like accepts page t a (all_after loads like a.execution_cursor t.rows)
          s refl)

  pub created-Synced : Synced loads like created started
  created-Synced = record { ordered = omega arith; reached = omega arith; kept = refl }

  pub run-polls :
      (t : Table Text) (a : Archiver Json) (n : ℕ)
      → Synced loads like t a
      → length (all_after loads like a.execution_cursor t.rows) ≤ n * page
      → backfilled (run dumps loads like (t, a) (polls n)).1.archived
        ≡ all_after loads like 0 t.rows
  unfolding run happen polls execution_records read_events all_after
  run-polls t a zero s h =
      nothing_left (backfilled a.archived) (all_after loads like a.execution_cursor t.rows) h s.kept
  run-polls t a (suc n) s h =
      let rest = all_after loads like a.execution_cursor t.rows in
      run-polls t (execution_records loads like t (λ e. true) a) n
        (deliver-Synced loads like (λ e. true) page t a rest s refl)
        (omega (arith, deliver-rest loads like page t a rest s refl))
