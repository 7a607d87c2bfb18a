-- ===== src/Entry/Bisect.antt =====
-- The bisection finds the end of a prefix, and its fuel is enough.
use project.Common.{
  ℕ, zero, suc, ◌+◌, ◌-◌, ◌*◌, ◌/◌, ◌≤◌, ◌<◌, ◌≡◌, inl, inr, refl, Bool, true, false, ltb, Option,
  some, arith, Bool-cases,
}
use project.Entry.{bisect, search_ticks}

-- Between low and high, whatever passes, everything below it passes.
abbrev pub Prefix : (ℕ → Bool) → ℕ → ℕ → Type 0
Prefix ok low high = (i j : ℕ) → low ≤ i → i ≤ j → j ≤ high → ok j ≡ true → ok i ≡ true

-- The last tick from low to high that passes.
pub record Last (ok : ℕ → Bool) (low high m : ℕ) : Type 0 where
  pub above : low ≤ m
  pub below : m ≤ high
  pub passes : ok m ≡ true
  pub last : (j : ℕ) → j ≤ high → ok j ≡ true → j ≤ m

module _ (ok : ℕ → Bool) (low high : ℕ) (prefix : Prefix ok low high) where
  below_failed : (m j : ℕ) → low ≤ m → ok m ≡ false → j ≤ high → ok j ≡ true → j < m
  below_failed m j a bad q good = elim (Bool-cases (ltb j m)) [
    | inl before ↦ ground arith
    | inr after ↦ let also = prefix m j a (ground arith) q good in absurd (ground arith)
  ]

  -- The fuel is at least the width of what is left.
  bisect-Last_from :
      (fuel l h : ℕ)
      → h ≤ l + fuel
      → low ≤ l
      → l ≤ h
      → h ≤ high
      → ok l ≡ true
      → ((j : ℕ) → j ≤ high → ok j ≡ true → j ≤ h)
      → Last ok low high (bisect ok fuel l h)
  unfolding bisect
  bisect-Last_from zero l h wide a b c here within = record {
    above = a;
    below = omega arith;
    passes = here;
    last = λ j q good. omega (arith, within j q good);
  }
  bisect-Last_from (suc fuel) l h wide a b c here within = elim (Bool-cases (ltb l h)) [
    | inr done ↦
        let end : Last ok low high l = record {
          above = a;
          below = omega arith;
          passes = here;
          last = λ j q good. ground (arith, within j q good);
        } in
        simp done end
    | inl more ↦
        let mid = (l + h + 1) / 2 in
        let halves : (l < mid) × (mid ≤ h) × (2 * mid ≤ l + h + 1) × (l + h ≤ 2 * mid) =
          grind arith in
        elim (Bool-cases (ok mid)) [
          | inl good ↦
              simp (more, good)
                (bisect-Last_from fuel mid h (omega arith) (omega arith) (omega arith) c good
                  within)
          | inr bad ↦
              simp (more, bad)
                (bisect-Last_from fuel l (mid - 1) (omega arith) a (omega arith) (omega arith) here
                  (λ j q good. omega (arith, below_failed mid j (omega arith) bad q good)))
        ]
  ]

-- What the search among the ticks of a band promises: the last tick that passes, if any does.
pub record Searched (ok : ℕ → Bool) (low high : ℕ) (r : Option ℕ) : Type 0 where
  pub sound : (m : ℕ) → r ≡ some m → (low ≤ m) × (m ≤ high) × (ok m ≡ true)
  pub complete : (j : ℕ) → low ≤ j → j ≤ high → ok j ≡ true → (m : ℕ) × (r ≡ some m) × (j ≤ m)

Last-Searched :
    (ok : ℕ → Bool) (low high m : ℕ) → Last ok low high m → Searched ok low high (some m)
Last-Searched ok low high m l = record {
  sound = λ n e. ground arith;
  complete = λ j a b good. (m, refl, l.last j b good);
}

-- Where a tick that passes and does not end the band makes all before it pass.
pub search_ticks-Searched :
    (ok : ℕ → Bool) (low high : ℕ)
    → (ok high ≡ false → Prefix ok low high)
    → Searched ok low high (search_ticks ok low high)
unfolding search_ticks
search_ticks-Searched ok low high prefix = elim (Bool-cases (ltb high low)) [
  | inl nothing ↦
      simp nothing (record { sound = λ m e. ground arith; complete = λ j a b good. ground arith })
  | inr more ↦ elim (Bool-cases (ok high)) [
    | inl good ↦
        simp (more, good)
          (Last-Searched ok low high high (record {
            above = ground arith;
            below = omega arith;
            passes = good;
            last = λ j q g. q;
          }))
    | inr bad ↦ elim (Bool-cases (ok low)) [
      | inr none_good ↦
          simp (more, bad, none_good)
            (record {
              sound = λ m e. ground arith;
              complete = λ j a b good.
                  let first = prefix bad low j (omega arith) a b good in absurd (ground arith);
            })
      | inl some_good ↦
          simp (more, bad, some_good)
            (Last-Searched ok low high (bisect ok (high - low) low high) (
              bisect-Last_from ok low high (prefix bad) (high - low) low high (ground arith)
                (omega arith) (ground arith) (omega arith) some_good (λ j q g. q)))
    ]
  ]
]
