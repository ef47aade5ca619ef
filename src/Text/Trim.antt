-- ===== src/Text/Trim.antt =====
-- Trimming from both ends by a class of bytes: the reference that the trimming routines of
-- utils/Profile.cpp and utils/Utility.cpp are compared with.
use tag_etl.Prelude.{
  ℕ, suc, ◌≤◌, ◌<◌, ◌≡◌, ◌≢◌, refl, ap, ◌∙◌, Bool, false, [], ◌∷◌, ◌++◌, inl, inr, arith, length,
  drop, take, get_or, take-suc, if◌then◌else◌, Bool-cases,
}
use tag_etl.Text.{Bytes}

module _ (blank : ℕ → Bool) where
  -- Without the leading bytes of the class.
  unfoldable pub trim_left : Bytes → Bytes
  trim_left [] = []
  trim_left (c ∷ cs) = if blank c then trim_left cs else c ∷ cs

  abbrev keep : ℕ → Bytes → Bytes
  keep c [] = if blank c then [] else c ∷ []
  keep c (d ∷ ds) = c ∷ d ∷ ds

  -- Without the trailing bytes of the class.
  unfoldable pub trim_right : Bytes → Bytes
  trim_right [] = []
  trim_right (c ∷ cs) = keep c (trim_right cs)

  unfoldable pub trim_both : Bytes → Bytes
  unfolding trim_left trim_right
  trim_both s = trim_left (trim_right s)

  pub trim_both_lem : (s : Bytes) → trim_both s ≡ trim_left (trim_right s)
  unfolding trim_both
  trim_both_lem s = refl

  -- How many leading bytes are of the class.
  unfoldable pub lead : Bytes → ℕ
  lead [] = 0
  lead (c ∷ cs) = let more = lead cs in if blank c then suc more else 0

  pub trim_right-concat :
      (xs : Bytes) (c : ℕ)
      → trim_right (xs ++ c ∷ []) ≡ (if blank c then trim_right xs else xs ++ c ∷ [])
  unfolding trim_right
  trim_right-concat [] c = refl
  trim_right-concat (x ∷ xs) c = elim (Bool-cases (blank c)) [
    | inl b ↦ ap (keep x) (rw b at (trim_right-concat xs c)) ∙ rw b
    | inr b ↦ ap (keep x) (rw b at (trim_right-concat xs c)) ∙ rw b (keep-concat xs)
  ]
    where
      keep-concat : (ys : Bytes) → keep x (ys ++ c ∷ []) ≡ x ∷ (ys ++ c ∷ [])
      keep-concat [] = refl
      keep-concat (y ∷ ys) = refl

  pub drop-lead : (s : Bytes) → drop (lead s) s ≡ trim_left s
  unfolding lead trim_left
  drop-lead [] = refl
  drop-lead (c ∷ cs) = ground (arith, drop-lead cs)

  pub lead-le-length : (s : Bytes) → lead s ≤ length s
  unfolding lead
  lead-le-length [] = omega arith
  lead-le-length (c ∷ cs) = ground (arith, lead-le-length cs)

  -- A text of the class alone has nothing left.
  pub lead_all : (s : Bytes) → trim_right s ≡ [] → lead s ≡ length s
  unfolding trim_right lead
  lead_all [] h = refl
  lead_all (c ∷ cs) h = ground (arith, lead_all cs)

  pub lead-trim_right : (s : Bytes) → trim_right s ≢ [] → lead (trim_right s) ≡ lead s
  unfolding trim_right lead
  lead-trim_right [] h = absurd (h refl)
  lead-trim_right (c ∷ cs) h = ground (arith, lead-trim_right cs, lead_all cs)

  pub lead-lt-length : (s : Bytes) → trim_right s ≢ [] → lead s < length (trim_right s)
  unfolding trim_right lead
  lead-lt-length [] h = absurd (h refl)
  lead-lt-length (c ∷ cs) h = ground (arith, lead-lt-length cs)

  -- The two ends do not depend on one another.
  pub trim_right-trim_left : (s : Bytes) → trim_right (trim_left s) ≡ trim_left (trim_right s)
  unfolding trim_right trim_left
  trim_right-trim_left [] = refl
  trim_right-trim_left (c ∷ cs) = ground (arith, trim_right-trim_left cs)

  pub trim_left-eq-nil : (s : Bytes) → trim_left s ≡ [] → trim_right s ≡ []
  unfolding trim_right trim_left
  trim_left-eq-nil [] h = refl
  trim_left-eq-nil (c ∷ cs) h = ground (arith, trim_left-eq-nil cs)

  pub trim_right-take :
      (s : Bytes) (k : ℕ)
      → k < length s
      → trim_right (take (suc k) s)
        ≡ (if blank (get_or s k 0) then trim_right (take k s) else take (suc k) s)
  trim_right-take s k h = rw (take-suc k s 0 h) (trim_right-concat (take k s) (get_or s k 0))

  trim_left_idem : (s : Bytes) → trim_left (trim_left s) ≡ trim_left s
  unfolding trim_left
  trim_left_idem [] = refl
  trim_left_idem (c ∷ cs) = ground (arith, trim_left_idem cs)

  trim_right_idem : (s : Bytes) → trim_right (trim_right s) ≡ trim_right s
  unfolding trim_right
  trim_right_idem [] = refl
  trim_right_idem (c ∷ cs) = ground (arith, trim_right_idem cs)

  pub trim_both_idem : (s : Bytes) → trim_both (trim_both s) ≡ trim_both s
  unfolding trim_both
  trim_both_idem s =
      rw (trim_right-trim_left (trim_right s), trim_right_idem s) (trim_left_idem (trim_right s))

  -- Behind a part that keeps something, all that stands before it is kept.
  pub trim_right-append :
      (xs ys : Bytes) → trim_right ys ≢ [] → trim_right (xs ++ ys) ≡ xs ++ trim_right ys
  unfolding trim_right
  trim_right-append [] ys h = refl
  trim_right-append (x ∷ xs) ys h = rw (trim_right-append xs ys h) (keep-ne xs)
    where
      keep-ne : (zs : Bytes) → keep x (zs ++ trim_right ys) ≡ x ∷ (zs ++ trim_right ys)
      keep-ne [] = ground arith
      keep-ne (z ∷ zs) = refl

  -- What is left begins with a byte outside the class.
  pub trim_left_head : (s : Bytes) {c : ℕ} {cs : Bytes} → trim_left s ≡ c ∷ cs → blank c ≡ false
  unfolding trim_left
  trim_left_head [] h = cc
  trim_left_head (x ∷ xs) {c} {cs} h = ground (arith, trim_left_head xs {c = c} {cs = cs})
