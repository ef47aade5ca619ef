-- ===== src/Url/Select.antt =====
-- A parameter of a query, for `do_SelectParam` of utils/URLAnalyzer.cpp: the first place where a mark, the
-- name and `=` follow one another.
pub mod Test
pub mod Loop
use native.Mathlib.Decide.{dec_lt, ℕ_discrete}
use tag_etl.Prelude.{
  ℕ, zero, suc, ◌+◌, ◌-◌, ◌≤◌, ◌<◌, ◌≡◌, ◌≢◌, refl, ap, sym, ◌∙◌, Bool, true, false, ◌&&◌, [], ◌∷◌,
  ◌++◌, ◌⊎◌, Option, none, some, inl, inr, length, drop, get_or, leb, ltb, ◌==◌, if◌then◌else◌,
  ◌>>=◌, arith, length-drop, drop_all, Bool-cases, Option-cases, ==_iff,
}
use tag_etl.Text.{Bytes}
use tag_etl.Url.Scan.Found.{
  get_or-drop, drop-cons, find_text-none, find_text-some, is_prefix-get_or, is_prefix-le,
}
use tag_etl.Url.Scan.Tidy.{
  is_mark, Tidy, Tidy-drop, Tidy-is_mark, filter_pre-IsAhead, filter_bac-IsBehind, IsAhead,
  IsBehind,
}
use tag_etl.Url.Scan.{is_prefix, find_text, filter_pre, filter_bac}
use tag_etl.Url.{is_param, select_loop}

-- What a name is made of: no byte that ends or marks one.
abbrev pub HasNoMark : Bytes → Type 0
HasNoMark [] = Unit
HasNoMark (c ∷ s) = (is_mark c ≡ false) × HasNoMark s

pub HasNoMark-get_or : (s : Bytes) (i : ℕ) → HasNoMark s → is_mark (get_or s i 0) ≡ false
HasNoMark-get_or [] i h = refl
HasNoMark-get_or (c ∷ s) zero h = h.0
HasNoMark-get_or (c ∷ s) (suc i) h = HasNoMark-get_or s i h.1

module _ (name : Bytes) where
  -- The name, and `=` behind it.
  abbrev pub is_named : Bytes → Bool
  is_named s = is_prefix name s && get_or s (length name) 0 == b'='

  -- The position of the `=`.
  unfoldable pub param_at : Bytes → Option ℕ
  param_at [] = none
  param_at (c ∷ s) =
      let later = param_at s in
      if is_mark c && is_named s then some (suc (length name)) else later >>= λ k. some (suc k)

  -- The same from a position on.
  unfoldable pub param_from : Bytes → ℕ → Option ℕ
  unfolding param_at
  param_from s pos = param_at (drop pos s) >>= λ k. some (pos + k)

  module _ (s : Bytes) where
    abbrev pub is_hit : ℕ → Bool
    is_hit k = is_mark (get_or s k 0) && is_named (drop (suc k) s)

    shift_cases :
        (b : Bool) (o : Option ℕ) (k n : ℕ)
        → ((if b then some (suc n) else o >>= λ j. some (suc j)) >>= λ j. some (k + j))
          ≡ (if b then some (suc k + n) else (o >>= λ j. some (suc k + j)))
    shift_cases true o k n = ap some (omega arith)
    shift_cases false none k n = refl
    shift_cases false (some j) k n = ap some (omega arith)

    pub param_from-suc :
        (k : ℕ)
        → k < length s
        → param_from s k ≡ (if is_hit k then some (suc k + length name) else param_from s (suc k))
    unfolding param_from
    param_from-suc k h =
        ap (λ t. param_at t >>= λ j. some (k + j)) (drop-cons k s h)
        ∙ shift_cases (is_hit k) (param_at (drop (suc k) s)) k (length name)

    pub param_from_end : (k : ℕ) → length s ≤ k → param_from s k ≡ none
    unfolding param_from
    param_from_end k h = rw (drop_all k s h) refl

    -- Over places that are no hit.
    param_from_over :
        (n k : ℕ)
        → ((i : ℕ) → k ≤ i → i < k + n → is_hit i ≡ false)
        → k + n ≤ length s
        → param_from s k ≡ param_from s (k + n)
    param_from_over zero k h below = ap (param_from s) (omega arith)
    param_from_over (suc n) k h below =
        param_from-suc k (omega arith)
        ∙ rw (h k (omega arith) (omega arith)) (
            param_from_over n (suc k) (λ i low high. h i (omega arith) (omega arith)) (omega arith)
            ∙ ap (param_from s) (omega arith))

    pub param_from_no_hit :
        (k m : ℕ)
        → k ≤ m
        → m ≤ length s
        → ((i : ℕ) → k ≤ i → i < m → is_hit i ≡ false)
        → param_from s k ≡ param_from s m
    param_from_no_hit k m le below h =
        let e : k + (m - k) ≡ m = omega arith in
        param_from_over (m - k) k (λ i low high. h i low (omega arith)) (omega arith)
        ∙ ap (param_from s) e

    pub no_hit_of_unmarked : (i : ℕ) → is_mark (get_or s i 0) ≡ false → is_hit i ≡ false
    no_hit_of_unmarked i h = rw h refl

    pub no_hit_of_other : (i : ℕ) → is_prefix name (drop (suc i) s) ≡ false → is_hit i ≡ false
    no_hit_of_other i h = rw h (false_right (is_mark (get_or s i 0)))
      where
        false_right : (b : Bool) → (b && false) ≡ false
        false_right true = refl
        false_right false = refl

-- A name that can be looked for.
abbrev pub IsName : Bytes → Type 0
IsName name = (0 < length name) × HasNoMark name
