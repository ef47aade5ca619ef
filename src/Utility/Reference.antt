-- ===== src/Utility/Reference.antt =====
-- What `ltrim`, `rtrim` and `trim` of utils/Utility.cpp return, and on which texts they read out of
-- bounds.
use tag_etl.Prelude.{
  ℕ, zero, suc, ◌+◌, ◌-◌, ◌<◌, ◌≡◌, ◌≢◌, refl, sym, ap, ◌∙◌, [], ◌∷◌, ◌>>=◌, inl, inr, arith,
  length, take, drop, take_all, length-take, length-drop, ==_iff, ◌==◌, Bool-cases, some, none,
  Option, List-cases,
}
use tag_etl.Text.{Bytes, substr, substr-eq-some, is_blank}
use tag_etl.Text.Trim.{
  lead, trim_left, trim_right, trim_both, trim_right-take, drop-lead, lead-le-length,
  trim_right-trim_left,
}
use tag_etl.Profile.Trimming.{right_end, tirm}
use tag_etl.Profile.Trimming.Reference.{tirm-trim_both, right_end-le, take-right}
use tag_etl.Utility.{ltrim, rtrim_loop, rtrim_cut, rtrim, trim}

-- `ltrim` returns for every text, and drops the leading blanks.
pub ltrim-trim_left : (s : Bytes) → ltrim s ≡ some (trim_left is_blank s)
unfolding ltrim
ltrim-trim_left s =
    let n = lead is_blank s in
    let left : drop n s ≡ trim_left is_blank s = drop-lead is_blank s in
    elim (Bool-cases (n == 0)) [
      | inl e ↦ rw e (ap some (rw ((==_iff n 0).0 e) at left))
      | inr e ↦ rw e (
          substr-eq-some s n (length s - n) (lead-le-length is_blank s)
          ∙ ap some (take_all (length s - n) (drop n s) (omega (arith, length-drop n s)) ∙ left))
    ]

-- Nothing is left: the loop runs below 0.
rtrim_loop-eq-none :
    (s : Bytes) (k : ℕ)
    → k < length s
    → trim_right is_blank (take (suc k) s) ≡ []
    → rtrim_loop s k ≡ none
unfolding rtrim_loop trim_right
rtrim_loop-eq-none s zero h e = ground (arith, trim_right-take is_blank s 0 h, length-take 1 s h)
rtrim_loop-eq-none s (suc k) h e = ground (
  arith,
  trim_right-take is_blank s (suc k) h,
  length-take (suc (suc k)) s h,
  rtrim_loop-eq-none s k,
)

-- Else it stops where the loop of `tirm` stops.
rtrim_loop-eq-some :
    (s : Bytes) (k : ℕ)
    → k < length s
    → trim_right is_blank (take (suc k) s) ≢ []
    → rtrim_loop s k ≡ some (right_end is_blank s k)
unfolding rtrim_loop right_end trim_right
rtrim_loop-eq-some s zero h ne = ground (arith, trim_right-take is_blank s 0 h)
rtrim_loop-eq-some s (suc k) h ne =
    ground (arith, trim_right-take is_blank s (suc k) h, rtrim_loop-eq-some s k)

rtrim_cut-eq-some : (s : Bytes) (u : ℕ) → u < length s → rtrim_cut s u ≡ some (take (suc u) s)
unfolding rtrim_cut substr
rtrim_cut-eq-some s u h =
    let e : u + 1 ≡ suc u = omega arith in rw e (ground (arith, take_all (suc u) s))

-- The text itself, unless it is empty.
abbrev pub nonempty : Bytes → Option Bytes
nonempty [] = none
nonempty (c ∷ cs) = some (c ∷ cs)

nonempty-eq-some : (s : Bytes) → s ≢ [] → nonempty s ≡ some s
nonempty-eq-some [] h = absurd (h refl)
nonempty-eq-some (c ∷ cs) h = refl

rtrim_body :
    (s : Bytes)
    → 0 < length s
    → (rtrim_loop s (length s - 1) >>= rtrim_cut s) ≡ nonempty (trim_right is_blank s)
rtrim_body s h =
    let k = length s - 1 in
    let e : suc k ≡ length s = omega arith in
    let all : take (suc k) s ≡ s = rw e (take_all (length s) s (omega arith)) in
    elim (List-cases (trim_right is_blank s)) [
      | inl e ↦ rw (e, rtrim_loop-eq-none s k (omega arith) (rw all e))
      | inr ne ↦ rw (rtrim_loop-eq-some s k (omega arith) (rw all ne)) (
          rtrim_cut-eq-some s (right_end is_blank s k) (omega (arith, right_end-le is_blank s k))
          ∙ ap some (take-right is_blank s h ne)
          ∙ sym (nonempty-eq-some (trim_right is_blank s) ne))
    ]

-- `rtrim` drops the trailing blanks of a text that has another byte, and reads out of bounds on
-- every text of blanks alone, the empty one among them.
pub rtrim-trim_right : (s : Bytes) → rtrim s ≡ nonempty (trim_right is_blank s)
unfolding rtrim trim_right
rtrim-trim_right [] = refl
rtrim-trim_right (c ∷ cs) = rtrim_body (c ∷ cs) (omega arith)

-- `CUtility::trim` reads out of bounds on a text of blanks alone, the empty one among them. On any
-- other it returns what `tirm` of utils/Profile.cpp returns.
pub trim-tirm : (s : Bytes) → trim s ≡ (tirm s >>= nonempty)
unfolding trim
trim-tirm s =
    rw (ltrim-trim_left s, tirm-trim_both s)
      (rtrim-trim_right (trim_left is_blank s) ∙ ap nonempty (both s))
  where
    both : (t : Bytes) → trim_right is_blank (trim_left is_blank t) ≡ trim_both is_blank t
    both t = unfold trim_both in trim_right-trim_left is_blank t
