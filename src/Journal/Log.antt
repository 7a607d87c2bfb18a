-- ===== src/Journal/Log.antt =====
-- What the journal promises: a log of events without a table, in which an id is recorded once.
use mathlib.Core.Path.{subst}
use project.Common.{
  ℕ, zero, suc, ◌<◌, ◌≡◌, refl, sym, ap, ◌∙◌, Bool, true, false, ◌||◌, ◌==◌, if◌then◌else◌, All,
  none, some, List, [], ◌∷◌, ◌++◌, arith, Bool-cases, inl, inr,
}
use project.Journal.{
  Event, Entry, Table, Call, append, selected, read_events, take, event_of, entry_of, has_id,
  created,
}

module _ {ℓ} {Json : Type ℓ} where
  abbrev pub records_id : ℕ → List (Event Json) → Bool
  records_id id [] = false
  records_id id (e ∷ log) = e.event_id == id || records_id id log

  -- The log after the calls: the first event of each id, in the order of the calls.
  unfoldable pub logged : List (Event Json) → List (Call Json) → List (Event Json)
  logged log [] = log
  logged log (c ∷ calls) =
      let ignored = logged log calls in
      let stored = logged (log ++ event_of c ∷ []) calls in
      if records_id (event_of c).event_id log then ignored else stored

  -- A reader of some markets sees their events, and those of no market.
  unfoldable pub visible : (ℕ → Bool) → List (Event Json) → List (Event Json)
  visible like [] = []
  visible like (e ∷ log) =
      let later = visible like log in if like e.market || e.market == 0 then e ∷ later else later

  abbrev pub events : List (ℕ × Event Json) → List (Event Json)
  events [] = []
  events (x ∷ xs) = x.1 ∷ events xs

module _ {ℓ} {Json Text : Type ℓ} (loads : Text → Event Json) where
  -- The columns of a row are the id and the market of the event it stores.
  abbrev Columns : Entry Text → Type 0
  Columns r =
      (0 < r.seq) × (r.event_id ≡ (loads r.body).event_id) × (r.market ≡ (loads r.body).market)

  -- The abstract view of the table: what its rows store.
  abbrev stored : List (Entry Text) → List (Event Json)
  stored [] = []
  stored (r ∷ rows) = loads r.body ∷ stored rows

  has_id-stored :
      (id : ℕ) (rows : List (Entry Text))
      → All Columns rows
      → has_id id rows ≡ records_id id (stored rows)
  has_id-stored id [] s = refl
  has_id-stored id (r ∷ rows) ((a, b, c), s) = ground (arith, has_id-stored id rows s, b)

  stored-append :
      (rows : List (Entry Text)) (r : Entry Text)
      → stored (rows ++ r ∷ []) ≡ stored rows ++ loads r.body ∷ []
  stored-append [] r = refl
  stored-append (x ∷ rows) r = ap (λ log. loads x.body ∷ log) (stored-append rows r)

  Columns-append :
      (rows : List (Entry Text)) (r : Entry Text)
      → All Columns rows
      → Columns r
      → All Columns (rows ++ r ∷ [])
  Columns-append [] r s c = (c, _)
  Columns-append (x ∷ rows) r s c = (s.0, Columns-append rows r s.1 c)

  pub events-selected :
      (like : ℕ → Bool) (rows : List (Entry Text))
      → All Columns rows
      → events (selected loads like 0 rows) ≡ visible like (stored rows)
  unfolding selected visible
  events-selected like [] s = refl
  events-selected like (r ∷ rows) ((a, b, c), s) =
      ground (arith, events-selected like rows s, a, ap like c, c)

events-take {ℓ} :
    {Json : Type ℓ} (n : ℕ) (xs : List (ℕ × Event Json)) → events (take n xs) ≡ take n (events xs)
events-take zero xs = refl
events-take (suc n) [] = refl
events-take (suc n) (x ∷ xs) = ap (λ rest. x.1 ∷ rest) (events-take n xs)

module _ {ℓ} {Json Text : Type ℓ} (dumps : Event Json → Text) where
  unfoldable pub append_all : Table Text → List (Call Json) → Table Text
  append_all t [] = t
  append_all t (c ∷ calls) = append_all (append dumps t c).1 calls

  abbrev next : Table Text → Call Json → Table Text
  next t c = record {
    rows = t.rows ++ entry_of dumps (suc t.counter) (event_of c) ∷ [];
    counter = suc t.counter;
  }

  append-known :
      (t : Table Text) (c : Call Json)
      → has_id (event_of c).event_id t.rows ≡ true
      → append dumps t c ≡ (none, t)
  unfolding append
  append-known t c h = simp h refl

  append-new :
      (t : Table Text) (c : Call Json)
      → has_id (event_of c).event_id t.rows ≡ false
      → append dumps t c ≡ (some (suc t.counter, event_of c), next t c)
  unfolding append
  append-new t c h = simp h refl

logged-none {ℓ} : {Json : Type ℓ} (log : List (Event Json)) → logged log [] ≡ log
unfolding logged
logged-none log = refl

logged-known {ℓ} :
    {Json : Type ℓ} (log : List (Event Json)) (c : Call Json) (calls : List (Call Json))
    → records_id (event_of c).event_id log ≡ true
    → logged log (c ∷ calls) ≡ logged log calls
unfolding logged
logged-known log c calls h = simp h refl

logged-new {ℓ} :
    {Json : Type ℓ} (log : List (Event Json)) (c : Call Json) (calls : List (Call Json))
    → records_id (event_of c).event_id log ≡ false
    → logged log (c ∷ calls) ≡ logged (log ++ event_of c ∷ []) calls
unfolding logged
logged-new log c calls h = simp h refl

module _ {ℓ} {Json Text : Type ℓ} (dumps : Event Json → Text) (loads : Text → Event Json)
    (loads-dumps : (e : Event Json) → loads (dumps e) ≡ e) where
  -- The columns are right, and the log is what they store.
  abbrev Holds : Table Text → List (Event Json) → Type ℓ
  Holds t log = All (Columns loads) t.rows × (stored loads t.rows ≡ log)

  pub append_all-stored :
      (t : Table Text) (calls : List (Call Json))
      → All (Columns loads) t.rows
      → Holds (append_all dumps t calls) (logged (stored loads t.rows) calls)
  unfolding append_all
  append_all-stored t [] s = (s, sym (logged-none (stored loads t.rows)))
  append_all-stored t (c ∷ calls) s =
      let e = event_of c in
      let r = entry_of dumps (suc t.counter) e in
      let same = has_id-stored loads e.event_id t.rows s in
      elim (Bool-cases (has_id e.event_id t.rows)) [
        | inl h ↦
            subst
              (λ x. Holds (append_all dumps x.1 calls) (logged (stored loads t.rows) (c ∷ calls)))
              (sym (append-known dumps t c h))
              (let (s', rec) = append_all-stored t calls s in
                (s', rec ∙ sym (logged-known (stored loads t.rows) c calls (sym same ∙ h))))
        | inr h ↦
            let columns : Columns loads r = (
              omega arith,
              ap (λ x. x.event_id) (sym (loads-dumps e)),
              ap (λ x. x.market) (sym (loads-dumps e)),
            ) in
            let (s', rec) =
              append_all-stored (next dumps t c) calls (Columns-append loads t.rows r s columns) in
            let view : stored loads (next dumps t c).rows ≡ stored loads t.rows ++ e ∷ [] =
              stored-append loads t.rows r
              ∙ ap (λ x. stored loads t.rows ++ x ∷ []) (loads-dumps e) in
            subst
              (λ x. Holds (append_all dumps x.1 calls) (logged (stored loads t.rows) (c ∷ calls)))
              (sym (append-new dumps t c h))
              (
                s',
                rec
                    ∙ ap (λ log. logged log calls) view
                    ∙ sym (logged-new (stored loads t.rows) c calls (sym same ∙ h)),
              )
      ]

  -- Where the json module reads back what it wrote: a read from the start of the table that any
  -- calls of `append` leave gives the first events of the log of those calls that the reader may
  -- see, up to the limit; the log keeps the first event of each id, in the order of the calls.
  pub append_all-logged :
      (calls : List (Call Json)) (like : ℕ → Bool) (limit : ℕ)
      → events (read_events loads like (append_all dumps created calls) 0 limit)
        ≡ take limit (visible like (logged [] calls))
  unfolding read_events
  append_all-logged calls like limit =
      let t = append_all dumps created calls in
      let (s, e) = append_all-stored created calls _ in
      events-take limit (selected loads like 0 t.rows)
      ∙ ap (take limit) (events-selected loads like t.rows s ∙ ap (visible like) e)
