-- ===== src/Journal/Delivery.antt =====
-- From the calls that record events to the archive: the journal and its archiver together.
use project.Common.{
  ℕ, ◌*◌, ◌≤◌, ◌≡◌, refl, ap, ◌∙◌, Bool, length, length-append, List, [], ◌∷◌, arith,
}
use project.Journal.{Event, Table, Call, append, selected, created}
use project.Journal.Scan.{all_after}
use project.Journal.Log.{logged, visible, events, append_all, append_all-stored, events-selected}
use project.Journal.Backfill.{
  Archiver, Step, appended, published, polled, research_execution, backfilled, happen, run, started,
  polls, page, execution_records,
}
use project.Journal.Synced.{run-Synced, created-Synced, run-polls}

-- The calls of `append` among the steps.
abbrev pub calls_of {ℓ} : {Json : Type ℓ} → List (Step Json) → List (Call Json)
calls_of [] = []
calls_of (appended c ∷ xs) = c ∷ calls_of xs
calls_of (published starts accepts e ∷ xs) = calls_of xs
calls_of (polled accepts ∷ xs) = calls_of xs

length-events {ℓ} : {Json : Type ℓ} (xs : List (ℕ × Event Json)) → length (events xs) ≡ length xs
length-events [] = refl
length-events (x ∷ xs) = omega (arith, length-events xs)

module _ {ℓ} {Json Text : Type ℓ} (dumps : Event Json → Text) (loads : Text → Event Json)
    (like : ℕ → Bool) where
  run-append_all :
      (t : Table Text) (a : Archiver Json) (xs : List (Step Json))
      → (run dumps loads like (t, a) xs).0 ≡ append_all dumps t (calls_of xs)
  unfolding run happen append_all
  run-append_all t a [] = refl
  run-append_all t a (appended c ∷ xs) = run-append_all (append dumps t c).1 a xs
  run-append_all t a (published starts accepts e ∷ xs) =
      run-append_all t (research_execution starts accepts e a) xs
  run-append_all t a (polled accepts ∷ xs) =
      run-append_all t (execution_records loads like t accepts a) xs

  -- Where the json module reads back what it wrote: after any calls and page reads, any refusals of
  -- events, and any copies handed to the archive at once in between, n more pages that accept every
  -- event, of room for all that the reader may see, leave as the copies tagged journal_backfill
  -- exactly the first event of each id that the reader may see, each once, in the order of the
  -- calls; the immediate copies stand beside these.
  pub run-delivered :
      (loads-dumps : (e : Event Json) → loads (dumps e) ≡ e) (xs : List (Step Json)) (n : ℕ)
      → length (visible like (logged [] (calls_of xs))) ≤ n * page
      → let later = run dumps loads like (run dumps loads like (created, started) xs) (polls n) in
        events (backfilled later.1.archived) ≡ visible like (logged [] (calls_of xs))
  unfolding all_after
  run-delivered loads-dumps xs n h =
      let s = run dumps loads like (created, started) xs in
      let synced =
        run-Synced dumps loads like created started xs (created-Synced dumps loads like) in
      let all = all_after loads like 0 s.0.rows in
      let (columns, view) = append_all-stored dumps loads loads-dumps created (calls_of xs) _ in
      let same : events all ≡ visible like (logged [] (calls_of xs)) =
        ap (λ t. events (selected loads like 0 t.rows)) (run-append_all created started xs)
        ∙ events-selected loads like (append_all dumps created (calls_of xs)).rows columns
        ∙ ap (visible like) view in
      let rest = all_after loads like s.1.execution_cursor s.0.rows in
      ap events (
        run-polls dumps loads like s.0 s.1 n synced (
          omega (
            arith,
            h,
            ap length same,
            length-events all,
            ap length synced.kept,
            length-append (backfilled s.1.archived) rest,
          )))
      ∙ same
