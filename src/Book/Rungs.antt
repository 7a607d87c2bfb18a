-- ===== src/Book/Rungs.antt =====
-- The ladders of figures that a snapshot brings: how they are read, and what a check finds.
use mathlib.Core.Path.{subst}
use project.Common.{
  ◌⊎◌, ◌∙◌, &&-true, ◌≡◌, refl, ap, Bool, true, false, ◌&&◌, if◌then◌else◌, all, none, some, List,
  [], ◌∷◌, ℤ, pos, ◌<ℤ◌, ltb_ℤ, eqb_ℤ, arith, map, Bool-cases, inl, inr,
}
use project.Book.{Level, one, get}
use project.Book.Levels.{Good}
use project.Book.Messages.{
  Figure, number, infinite, nan, unreadable, Rung, is_positive, complement, same_figure, put_rung,
  key_rung, keep_row, read_rows, Check, fine, bad, raises, check_rung, check_rungs, cons_check,
  both_checks, rung_of,
}

-- A number or an infinity.
abbrev pub is_decimal : Figure → Bool
is_decimal (number n) = true
is_decimal (infinite positive) = true
is_decimal nan = false
is_decimal unreadable = false

abbrev pub is_readable : Figure × Figure → Bool
is_readable (p, q) = is_decimal p && is_decimal q

abbrev has_rung : Figure → List Rung → Bool
has_rung k [] = false
has_rung k (r ∷ rs) = if same_figure r.price k then true else has_rung k rs

-- A ladder as it is read: prices that can be compared, positive sizes, no price twice.
abbrev pub Nice : List Rung → Type 0
Nice [] = Unit
Nice (r ∷ rs) =
    (is_decimal r.price ≡ true)
    × (is_positive r.size ≡ some true)
    × (has_rung r.price rs ≡ false)
    × Nice rs

has_rung-put_rung :
    (k p q : Figure) (rs : List Rung)
    → same_figure p k ≡ false
    → has_rung k rs ≡ false
    → has_rung k (put_rung p q rs) ≡ false
unfolding put_rung
has_rung-put_rung k p q [] e h = ground (arith, e)
has_rung-put_rung k p q (r ∷ rs) e h = ground (arith, h, has_rung-put_rung k p q rs e)

put_rung-Nice :
    (p q : Figure) (rs : List Rung)
    → is_decimal p ≡ true
    → is_positive q ≡ some true
    → Nice rs
    → Nice (put_rung p q rs)
unfolding put_rung
put_rung-Nice p q [] a b n = (a, b, refl, tt)
put_rung-Nice p q (r ∷ rs) a b (d, s, fresh, n) = elim (Bool-cases (same_figure p r.price)) [
  | inl e ↦ ground (arith, e, d, b, fresh, n)
  | inr e ↦
      ground (arith, e, d, s, has_rung-put_rung r.price p q rs e fresh, put_rung-Nice p q rs a b n)
]

key_rung-Nice :
    (p q : Figure) (rs : List Rung)
    → is_decimal p ≡ true
    → is_positive q ≡ some true
    → Nice rs
    → (next : List Rung) × (key_rung p q rs ≡ some next) × Nice next
key_rung-Nice (number p) q rs a b n =
    (put_rung (number p) q rs, refl, put_rung-Nice (number p) q rs a b n)
key_rung-Nice (infinite p) q rs a b n =
    (put_rung (infinite p) q rs, refl, put_rung-Nice (infinite p) q rs a b n)
key_rung-Nice nan q rs a b n = absurd (ground (arith, a))
key_rung-Nice unreadable q rs a b n = absurd (ground (arith, a))

is_positive-some :
    (q : Figure) → is_decimal q ≡ true → (keeps : Bool) × (is_positive q ≡ some keeps)
is_positive-some (number q) h = (ltb_ℤ (pos 0) q, refl)
is_positive-some (infinite positive) h = (positive, refl)
is_positive-some nan h = absurd (ground (arith, h))
is_positive-some unreadable h = absurd (ground (arith, h))

keep_row-Nice :
    (keeps : Bool) (p q : Figure) (rs : List Rung)
    → is_decimal p ≡ true
    → is_positive q ≡ some keeps
    → Nice rs
    → (next : List Rung) × (keep_row (is_positive q) p q rs ≡ some next) × Nice next
keep_row-Nice true p q rs a e n =
    let (next, made, nice) = key_rung-Nice p q rs a e n in
    (next, ap (λ o. keep_row o p q rs) e ∙ made, nice)
keep_row-Nice false p q rs a e n = (rs, ap (λ o. keep_row o p q rs) e, n)

pub read_rows-Nice :
    (f : Figure → Figure)
    (keeps_decimal : (p : Figure) → is_decimal p ≡ true → is_decimal (f p) ≡ true)
    (rows : List (Figure × Figure)) (rs : List Rung)
    → all is_readable rows ≡ true
    → Nice rs
    → (next : List Rung) × (read_rows f rows rs ≡ some next) × Nice next
unfolding read_rows
read_rows-Nice f keeps_decimal [] rs h n = (rs, refl, n)
read_rows-Nice f keeps_decimal ((p, q) ∷ rows) rs h n =
    let (readable, others) = &&-true (is_decimal p && is_decimal q) (all is_readable rows) h in
    let (price, size) = &&-true (is_decimal p) (is_decimal q) readable in
    let (keeps, e) = is_positive-some q size in
    let (grown, e1, n1) = keep_row-Nice keeps (f p) q rs (keeps_decimal p price) e n in
    let (next, e2, n2) = read_rows-Nice f keeps_decimal rows grown others n1 in
    (next, ap (λ o. elim o [ none ↦ none | some x ↦ read_rows f rows x ]) e1 ∙ e2, n2)

pub complement-is_decimal : (p : Figure) → is_decimal p ≡ true → is_decimal (complement p) ≡ true
complement-is_decimal (number p) h = refl
complement-is_decimal (infinite positive) h = refl
complement-is_decimal nan h = absurd (ground (arith, h))
complement-is_decimal unreadable h = absurd (ground (arith, h))

cons_check-fine :
    (c : Check Level) (d : Check (List Level)) {ls : List Level}
    → cons_check c d ≡ fine ls
    → (l : Level) × (rest : List Level) × (c ≡ fine l) × (d ≡ fine rest) × (l ∷ rest ≡ ls)
cons_check-fine bad d h = absurd (ground arith)
cons_check-fine raises d h = absurd (ground arith)
cons_check-fine (fine l) bad h = absurd (ground arith)
cons_check-fine (fine l) raises h = absurd (ground arith)
cons_check-fine (fine l) (fine rest) h = (l, rest, refl, refl, ground arith)

cons_check-raises :
    (c : Check Level) (d : Check (List Level))
    → cons_check c d ≡ raises
    → (c ≡ raises) ⊎ (d ≡ raises)
cons_check-raises bad d h = absurd (ground arith)
cons_check-raises raises d h = inl refl
cons_check-raises (fine l) bad h = absurd (ground arith)
cons_check-raises (fine l) raises h = inr refl
cons_check-raises (fine l) (fine rest) h = absurd (ground arith)

check_rung-fine :
    (p q : Figure) {l : Level}
    → check_rung p q ≡ fine l
    → (p ≡ number l.price) × (q ≡ number l.size) × (pos 0 <ℤ l.price) × (l.price <ℤ one)
check_rung-fine (number p) (number q) h =
    (ground (arith, h), ground (arith, h), ground (arith, h), ground (arith, h))
check_rung-fine (number p) (infinite q) h = absurd (ground arith)
check_rung-fine (number p) nan h = absurd (ground arith)
check_rung-fine (number p) unreadable h = absurd (ground arith)
check_rung-fine (infinite p) q h = absurd (ground arith)
check_rung-fine nan q h = absurd (ground arith)
check_rung-fine unreadable q h = absurd (ground arith)

check_rung-raises : (p q : Figure) → is_decimal p ≡ true → check_rung p q ≡ raises → ⊥
check_rung-raises (number p) (number q) d h = ground arith
check_rung-raises (number p) (infinite q) d h = ground arith
check_rung-raises (number p) nan d h = ground arith
check_rung-raises (number p) unreadable d h = ground arith
check_rung-raises (infinite p) q d h = ground arith
check_rung-raises nan q d h = ground arith
check_rung-raises unreadable q d h = ground arith

pub check_rungs-raises : (rs : List Rung) → Nice rs → check_rungs rs ≡ raises → ⊥
unfolding check_rungs
check_rungs-raises [] n h = ground arith
check_rungs-raises (r ∷ rs) (d, s, fresh, n) h =
    elim (cons_check-raises (check_rung r.price r.size) (check_rungs rs) h) [
      | inl e ↦ check_rung-raises r.price r.size d e
      | inr e ↦ check_rungs-raises rs n e
    ]

-- A price that no rung has is at no level.
check_rungs-get :
    (rs : List Rung) (k : ℤ) {ls : List Level}
    → check_rungs rs ≡ fine ls
    → has_rung (number k) rs ≡ false
    → get k ls ≡ none
unfolding check_rungs
check_rungs-get [] k {ls} h e =
    let same : [] ≡ ls = ground arith in subst (λ x. get k x ≡ none) same refl
check_rungs-get (r ∷ rs) k {ls} h e =
    let (l, rest, e1, e2, same) = cons_check-fine (check_rung r.price r.size) (check_rungs rs) h in
    let (price, _, _, _) = check_rung-fine r.price r.size e1 in
    let apart : (if eqb_ℤ l.price k then true else has_rung (number k) rs) ≡ false =
      simp price at e in
    let later = check_rungs-get rs k {ls = rest} e2 (ground (arith, apart)) in
    subst (λ x. get k x ≡ none) same (ground (arith, apart, later))

pub check_rungs-Good :
    (rs : List Rung) {ls : List Level} → Nice rs → check_rungs rs ≡ fine ls → Good ls
unfolding check_rungs
check_rungs-Good [] {ls} n h = let same : [] ≡ ls = ground arith in subst Good same tt
check_rungs-Good (r ∷ rs) {ls} (d, s, fresh, n) h =
    let (l, rest, e1, e2, same) = cons_check-fine (check_rung r.price r.size) (check_rungs rs) h in
    let (price, size, low, high) = check_rung-fine r.price r.size e1 in
    let positive : some (ltb_ℤ (pos 0) l.size) ≡ some true = simp size at s in
    let unseen : has_rung (number l.price) rs ≡ false = simp price at fresh in
    subst Good same (
      record { price_pos = low; price_below = high; size_pos = ground (arith, positive) },
      check_rungs-get rs l.price {ls = rest} e2 unseen,
      check_rungs-Good rs {ls = rest} n e2,
    )

-- The levels of a good ladder are what a check finds of them.
pub check_rungs-map : (ls : List Level) → Good ls → check_rungs (map rung_of ls) ≡ fine ls
unfolding check_rungs
check_rungs-map [] g = refl
check_rungs-map (l ∷ ls) (r, fresh, g) =
    let low = r.price_pos in
    let high = r.price_below in
    let here : check_rung (number l.price) (number l.size) ≡ fine l = ground (arith, low, high) in
    ap (λ c. cons_check c (check_rungs (map rung_of ls))) here
    ∙ ap (λ d. cons_check (fine l) d) (check_rungs-map ls g)

pub both_checks-fine :
    (c d : Check (List Level)) {ys ns : List Level}
    → both_checks c d ≡ fine (ys, ns)
    → (c ≡ fine ys) × (d ≡ fine ns)
both_checks-fine bad d h = absurd (ground arith)
both_checks-fine raises d h = absurd (ground arith)
both_checks-fine (fine ys) bad h = absurd (ground arith)
both_checks-fine (fine ys) raises h = absurd (ground arith)
both_checks-fine (fine ys) (fine ns) h = (ground arith, ground arith)

pub both_checks-raises :
    (c d : Check (List Level)) → both_checks c d ≡ raises → (c ≡ raises) ⊎ (d ≡ raises)
both_checks-raises bad d h = absurd (ground arith)
both_checks-raises raises d h = inl refl
both_checks-raises (fine ys) bad h = absurd (ground arith)
both_checks-raises (fine ys) raises h = inr refl
both_checks-raises (fine ys) (fine ns) h = absurd (ground arith)
