-- ===== src/Random.antt =====
-- `CRandom::RandomInt` of utils/Random.cpp, with the number that rand gives. An int that overflows is
-- undefined behaviour, which is `none`.
use mathlib.Core.Path.{subst}
use tag_etl.Prelude.{
  ℕ, suc, ◌+◌, ◌-◌, ◌%◌, ◌^◌, ◌≤◌, ◌≡◌, refl, Bool, true, false, Option, none, some, ltb, ◌==◌,
  arith, if◌then◌else◌, ◌>>=◌,
}
use tag_etl.Text.Number.{ℤ, pos, negsuc, ltb_ℤ}

abbrev eqb_ℤ : ℤ → ℤ → Bool
eqb_ℤ (pos a) (pos b) = a == b
eqb_ℤ (negsuc a) (negsuc b) = a == b
eqb_ℤ _ _ = false

-- a - b
abbrev pub diff : ℕ → ℕ → ℤ
diff a b = if ltb a b then negsuc (b - a - 1) else pos (a - b)

infixl 60 ◌+ℤ◌
abbrev pub ◌+ℤ◌ : ℤ → ℤ → ℤ
pos a +ℤ pos b = pos (a + b)
pos a +ℤ negsuc b = diff a (suc b)
negsuc a +ℤ pos b = diff b (suc a)
negsuc a +ℤ negsuc b = negsuc (suc (a + b))

infixl 60 ◌-ℤ◌
abbrev pub ◌-ℤ◌ : ℤ → ℤ → ℤ
pos a -ℤ pos b = diff a b
pos a -ℤ negsuc b = pos (a + suc b)
negsuc a -ℤ pos b = negsuc (a + b)
negsuc a -ℤ negsuc b = diff b a

abbrev pub is_int : ℤ → Bool
is_int (pos a) = ltb a (2 ^ 31)
is_int (negsuc a) = ltb a (2 ^ 31)

abbrev checked : ℤ → Option ℤ
checked z = if is_int z then some z else none

-- min + rand() % d; d is not 0 where it is called.
unfoldable pub drawn : ℕ → ℤ → ℤ → Option ℤ
drawn rand min (pos (suc n)) = checked (min +ℤ pos (rand % suc n))
drawn rand min d = none

unfoldable pub draw : ℕ → ℤ → ℤ → Option ℤ
unfolding drawn
draw rand min max = checked (max -ℤ min) >>= λ d. drawn rand min d

unfoldable pub random_int : ℕ → ℤ → ℤ → Option ℤ
unfolding draw
random_int rand min max =
    if eqb_ℤ max min
    then some (pos 0)
    else if ltb_ℤ max min
    then (checked (max +ℤ min) >>= λ sum.
        checked (sum -ℤ min) >>= λ low. checked (sum -ℤ low) >>= λ high. draw rand low high)
    else draw rand min max

-- At least `low`, and below `high`.
abbrev pub IsBetween : ℤ → ℤ → ℤ → Type 0
IsBetween low high z = (ltb_ℤ z low ≡ false) × (ltb_ℤ z high ≡ true)

gap :
    (low high : ℤ)
    → ltb_ℤ low high ≡ true
    → (n : ℕ) × (high -ℤ low ≡ pos (suc n)) × (low +ℤ pos (suc n) ≡ high)
gap (pos a) (pos b) h = (b - a - 1, ground arith, ground arith)
gap (pos a) (negsuc b) h = cc
gap (negsuc a) (pos b) h = (b + a, ground arith, ground arith)
gap (negsuc a) (negsuc b) h = (a - b - 1, ground arith, ground arith)

rest-IsBetween :
    (low : ℤ) (n j : ℕ)
    → j ≤ n
    → is_int low ≡ true
    → is_int (low +ℤ pos (suc n)) ≡ true
    → (is_int (low +ℤ pos j) ≡ true) × IsBetween low (low +ℤ pos (suc n)) (low +ℤ pos j)
rest-IsBetween (pos a) n j h i k = (ground arith, (ground arith, ground arith))
rest-IsBetween (negsuc a) n j h i k = (ground arith, (ground arith, ground arith))

draw-IsBetween :
    (rand : ℕ) (low high : ℤ)
    → ltb_ℤ low high ≡ true
    → is_int low ≡ true
    → is_int high ≡ true
    → is_int (high -ℤ low) ≡ true
    → (z : ℤ) × (draw rand low high ≡ some z) × IsBetween low high z
unfolding draw drawn
draw-IsBetween rand low high h i j k =
    let g = gap low high h in
    let r = rest-IsBetween low g.0 (rand % suc g.0) (omega arith) i (rw (g.2) j) in
    (
      low +ℤ pos (rand % suc g.0),
      rw (k, g.1, r.0) refl,
      subst (λ x. IsBetween low x (low +ℤ pos (rand % suc g.0))) g.2 r.1,
    )

-- The swap by a sum and two differences.
swap_low : (low high : ℤ) → (low +ℤ high) -ℤ high ≡ low
swap_low (pos a) (pos b) = ground arith
swap_low (pos a) (negsuc b) = ground arith
swap_low (negsuc a) (pos b) = ground arith
swap_low (negsuc a) (negsuc b) = ground arith

swap_high : (low high : ℤ) → (low +ℤ high) -ℤ low ≡ high
swap_high (pos a) (pos b) = ground arith
swap_high (pos a) (negsuc b) = ground arith
swap_high (negsuc a) (pos b) = ground arith
swap_high (negsuc a) (negsuc b) = ground arith

ltb_ℤ-tests :
    (low high : ℤ)
    → ltb_ℤ low high ≡ true
    → (eqb_ℤ high low ≡ false) × (eqb_ℤ low high ≡ false) × (ltb_ℤ high low ≡ false)
ltb_ℤ-tests (pos a) (pos b) h = (ground arith, ground arith, ground arith)
ltb_ℤ-tests (pos a) (negsuc b) h = cc
ltb_ℤ-tests (negsuc a) (pos b) h = (refl, refl, refl)
ltb_ℤ-tests (negsuc a) (negsuc b) h = (ground arith, ground arith, ground arith)

-- `RandomInt` of two ints, the one less than the other, whose difference and sum are ints gives, in
-- either order of the two, the same number, which is at least the smaller and below the greater.
pub random_int-IsBetween :
    (rand : ℕ) (low high : ℤ)
    → ltb_ℤ low high ≡ true
    → is_int low ≡ true
    → is_int high ≡ true
    → is_int (high -ℤ low) ≡ true
    → is_int (low +ℤ high) ≡ true
    → (z : ℤ) × (random_int rand low high ≡ some z)
      × (random_int rand high low ≡ some z)
      × IsBetween low high z
unfolding random_int
random_int-IsBetween rand low high h i j k s =
    let r = draw-IsBetween rand low high h i j k in
    let t = ltb_ℤ-tests low high h in
    let low_int : is_int ((low +ℤ high) -ℤ high) ≡ true = rw (swap_low low high) i in
    let high_int : is_int ((low +ℤ high) -ℤ low) ≡ true = rw (swap_high low high) j in
    (r.0, rw (t.0, t.2) r.1, rw (t.1, h, s, swap_low low high, i, swap_high low high, j) r.1, r.2)
