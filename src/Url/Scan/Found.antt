-- ===== src/Url/Scan/Found.antt =====
-- What `find` of a text tells: the first place, from a position on, where the text stands.
use tag_etl.Prelude.{
  ℕ, zero, suc, ◌+◌, ◌-◌, ◌≤◌, ◌<◌, ◌≡◌, refl, ap, sym, ◌∙◌, true, false, [], ◌∷◌, ◌++◌, none, some,
  inl, inr, length, drop, get_or, leb, arith, drop-drop, Bool-cases, >>=-eq-some,
}
use tag_etl.Text.{Bytes}
use tag_etl.Url.Scan.{is_prefix, index_of_text, find_text}

pub get_or-drop : (k i : ℕ) (s : Bytes) → get_or (drop k s) i 0 ≡ get_or s (k + i) 0
get_or-drop zero i s = ap (λ j. get_or s j 0) (omega arith)
get_or-drop (suc k) i [] = refl
get_or-drop (suc k) i (x ∷ s) =
    let e : suc k + i ≡ suc (k + i) = omega arith in rw e (get_or-drop k i s)

pub drop-cons : (k : ℕ) (s : Bytes) → k < length s → drop k s ≡ get_or s k 0 ∷ drop (suc k) s
drop-cons k [] h = absurd (omega arith)
drop-cons zero (x ∷ s) h = refl
drop-cons (suc k) (x ∷ s) h = drop-cons k s (omega arith)

pub is_prefix-le : (p s : Bytes) → is_prefix p s ≡ true → length p ≤ length s
is_prefix-le [] s h = omega arith
is_prefix-le (c ∷ p) [] h = cc
is_prefix-le (c ∷ p) (x ∷ s) h = ground (arith, is_prefix-le p s)

pub is_prefix-get_or :
    (p s : Bytes) (i : ℕ) → is_prefix p s ≡ true → i < length p → get_or s i 0 ≡ get_or p i 0
is_prefix-get_or [] s i h k = absurd (omega arith)
is_prefix-get_or (c ∷ p) [] i h k = cc
is_prefix-get_or (c ∷ p) (x ∷ s) zero h k = ground arith
is_prefix-get_or (c ∷ p) (x ∷ s) (suc i) h k = ground (arith, is_prefix-get_or p s i)

pub is_prefix-append : (p s : Bytes) → is_prefix p s ≡ true → s ≡ p ++ drop (length p) s
is_prefix-append [] s h = refl
is_prefix-append (c ∷ p) [] h = cc
is_prefix-append (c ∷ p) (x ∷ s) h = ground (arith, is_prefix-append p s)

-- The text `p` stands at `k`, and at no place before it.
pub record IsFirst (p s : Bytes) (k : ℕ) : Type 0 where
  pub here : is_prefix p (drop k s) ≡ true
  pub before : (i : ℕ) → i < k → is_prefix p (drop i s) ≡ false

pub index_of_text-none :
    (p s : Bytes) (i : ℕ) → index_of_text p s ≡ none → is_prefix p (drop i s) ≡ false
unfolding index_of_text
index_of_text-none [] [] i h = cc
index_of_text-none (c ∷ p) [] zero h = refl
index_of_text-none (c ∷ p) [] (suc i) h = refl
index_of_text-none p (x ∷ s) zero h = ground arith
index_of_text-none p (x ∷ s) (suc i) h = ground (arith, index_of_text-none p s i)

IsFirst-zero : {p s : Bytes} → is_prefix p s ≡ true → IsFirst p s 0
IsFirst-zero h = record { here = h; before = λ i j. absurd (omega arith) }

IsFirst-suc :
    {p s : Bytes} (x : ℕ) {k : ℕ}
    → is_prefix p (x ∷ s) ≡ false
    → IsFirst p s k
    → IsFirst p (x ∷ s) (suc k)
IsFirst-suc {p} {s} x {k} h f = record { here = f.here; before = before }
  where
    before : (i : ℕ) → i < suc k → is_prefix p (drop i (x ∷ s)) ≡ false
    before zero j = h
    before (suc i) j = f.before i (omega arith)

pub index_of_text-some : (p s : Bytes) {k : ℕ} → index_of_text p s ≡ some k → IsFirst p s k
unfolding index_of_text
index_of_text-some [] [] {k} h = let e : 0 ≡ k = ground arith in rw (← e) (IsFirst-zero refl)
index_of_text-some (c ∷ p) [] h = cc
index_of_text-some p (x ∷ s) {k} h = elim (Bool-cases (is_prefix p (x ∷ s))) [
  | inl now ↦ let e : 0 ≡ k = ground arith in rw (← e) (IsFirst-zero now)
  | inr later ↦
      let (j, found, e) = >>=-eq-some (index_of_text p s) (λ j. some (suc j)) (rw later at h) in
      let e' : suc j ≡ k = ground arith in
      rw (← e') (IsFirst-suc x later (index_of_text-some p s found))
]

module _ (p s : Bytes) (pos : ℕ) where
  pub find_text-none :
      find_text p s pos ≡ none → (i : ℕ) → pos ≤ i → i < length s → is_prefix p (drop i s) ≡ false
  unfolding find_text
  find_text-none h i j below =
      let e : pos + (i - pos) ≡ i = omega arith in
      let absent : index_of_text p (drop pos s) ≡ none = ground arith in
      ap (λ t. is_prefix p t) (sym (drop-drop pos (i - pos) s ∙ ap (λ k. drop k s) e))
      ∙ index_of_text-none p (drop pos s) (i - pos) absent

  pub find_text-some :
      {at : ℕ}
      → find_text p s pos ≡ some at
      → (pos ≤ at)
        × (is_prefix p (drop at s) ≡ true)
        × ((i : ℕ) → pos ≤ i → i < at → is_prefix p (drop i s) ≡ false)
  unfolding find_text
  find_text-some {at} h = elim (Bool-cases (leb pos (length s))) [
    | inl inside ↦
        let (k, found, e) =
          >>=-eq-some (index_of_text p (drop pos s)) (λ k. some (pos + k)) (rw inside at h) in
        let e' : at ≡ pos + k = ground arith in
        let first = index_of_text-some p (drop pos s) found in
        (
          omega arith,
          rw (e', ← drop-drop pos k s) first.here,
          λ i j below.
              let back : pos + (i - pos) ≡ i = omega arith in
              ap (λ t. is_prefix p t) (sym (drop-drop pos (i - pos) s ∙ ap (λ k. drop k s) back))
              ∙ first.before (i - pos) (omega arith),
        )
    | inr outside ↦ ground arith
  ]
