-- ===== src/Journal/Scan.antt =====
-- The journal's rows in their order: what a read from a cursor passes over, and what is next.
use project.Common.{
  ℕ, ◌≤◌, ◌<◌, ◌≡◌, refl, sym, ap, Bool, ◌&&◌, ◌||◌, ◌==◌, ltb, List, [], ◌∷◌, ◌++◌, arith,
  Bool-cases, inl, inr, taken_branch, not_taken,
}
use mathlib.Core.List.{head-eq_of_cons-eq, tail-eq_of_cons-eq}
use project.Journal.{Event, Entry, selected}

module _ {ℓ} {Text : Type ℓ} where
  -- The rows' numbers go up from above `low` to at most `high`.
  abbrev pub Ordered : ℕ → ℕ → List (Entry Text) → Type 0
  Ordered low high [] = low ≤ high
  Ordered low high (r ∷ rest) = (low < r.seq) × Ordered r.seq high rest

  Ordered-le : (low high : ℕ) (rows : List (Entry Text)) → Ordered low high rows → low ≤ high
  Ordered-le low high [] o = o
  Ordered-le low high (r ∷ rest) o = omega (arith, o.0, Ordered-le r.seq high rest o.1)

  pub Ordered-append :
      (low high : ℕ) (rows : List (Entry Text)) (r : Entry Text)
      → Ordered low high rows
      → high < r.seq
      → Ordered low r.seq (rows ++ r ∷ [])
  Ordered-append low high [] r o h = (omega (arith, o, h), omega arith)
  Ordered-append low high (x ∷ rows) r o h = (o.0, Ordered-append x.seq high rows r o.1 h)

module _ {ℓ} {Json Text : Type ℓ} (loads : Text → Event Json) (like : ℕ → Bool) where
  unfoldable pub all_after : ℕ → List (Entry Text) → List (ℕ × Event Json)
  all_after after rows = selected loads like after rows

  -- Nothing is skipped where every row comes later.
  pub selected-same :
      (low high b c : ℕ) (rows : List (Entry Text))
      → Ordered low high rows
      → b ≤ low
      → c ≤ low
      → all_after b rows ≡ all_after c rows
  unfolding selected all_after
  selected-same low high b c [] o p q = refl
  selected-same low high b c (r ∷ rest) o p q =
      ground (arith, selected-same r.seq high b c rest o.1 (ground arith) (ground arith))

  pub selected-next :
      (low high c : ℕ) (rows : List (Entry Text)) (e : ℕ × Event Json)
      (more : List (ℕ × Event Json))
      → Ordered low high rows
      → all_after c rows ≡ e ∷ more
      → (low < e.0) × (e.0 ≤ high) × (all_after e.0 rows ≡ more)
  unfolding selected all_after
  selected-next low high c [] e more o h = absurd (ground arith)
  selected-next low high c (r ∷ rest) e more o h =
      let chosen = ltb c r.seq && (like r.market || r.market == 0) in
      let later = all_after c rest in
      elim (Bool-cases chosen) [
        | inl t ↦
            let k = taken_branch chosen ((r.seq, loads r.body) ∷ later) later t h in
            let same : e.0 ≡ r.seq = sym (ap (λ p. p.0) (head-eq_of_cons-eq k)) in
            let tail : later ≡ more = tail-eq_of_cons-eq k in
            let skip : all_after e.0 rest ≡ later =
              selected-same r.seq high e.0 c rest o.1 (omega (arith, same)) (ground (arith, t)) in
            (
              omega (arith, same, o.0),
              omega (arith, same, Ordered-le r.seq high rest o.1),
              ground (arith, skip, tail, same),
            )
        | inr f ↦
            let (lo, hi, rec) =
              selected-next r.seq high c rest e more o.1
                (not_taken chosen ((r.seq, loads r.body) ∷ later) later f h) in
            (omega (arith, o.0, lo), hi, ground arith)
      ]

  pub all_after-append :
      (after : ℕ) (rows : List (Entry Text)) (r : Entry Text)
      → all_after after (rows ++ r ∷ []) ≡ all_after after rows ++ all_after after (r ∷ [])
  unfolding all_after selected
  all_after-append after [] r = refl
  all_after-append after (x ∷ rows) r = ground (arith, all_after-append after rows r)
