-- ===== src/Profile/Trimming/Reference.antt =====
-- `tirm` and `QuotTirm` always return, and return the text trimmed at both ends.
use tag_etl.Prelude.{
  ℕ, zero, suc, ◌+◌, ◌-◌, ◌≤◌, ◌<◌, ◌≡◌, ◌≢◌, refl, sym, ap, ◌∙◌, Bool, [], ◌∷◌, inl, inr, arith,
  length, get_or, take, drop, take_all, take-nil, length-take, List-cases, take-drop, drop_all,
  Bool-cases, some,
}
use tag_etl.Text.{Bytes, substr, sub_size, substr-eq-some, is_blank, is_quote}
use tag_etl.Text.Trim.{
  lead, trim_left, trim_right, trim_both, drop-lead, lead-le-length, lead_all, trim_right-take,
  lead-lt-length, lead-trim_right,
}
use tag_etl.Profile.Trimming.{right_end, trim_ends, tirm, quot_tirm}

module _ (blank : ℕ → Bool) where
  pub right_end-le : (s : Bytes) (k : ℕ) → right_end blank s k ≤ k
  unfolding right_end
  right_end-le s zero = omega arith
  right_end-le s (suc k) = ground (arith, right_end-le s k)

  take-right_end_zero :
      (s : Bytes)
      → 0 < length s
      → trim_right blank (take 1 s) ≢ []
      → take 1 s ≡ trim_right blank (take 1 s)
  unfolding trim_right
  take-right_end_zero [] h ne = absurd (omega arith)
  take-right_end_zero (c ∷ cs) h ne = ground arith

  -- Up to position `k` the loop leaves what `trim_right` leaves, unless that is nothing.
  pub take-right_end :
      (s : Bytes) (k : ℕ)
      → k < length s
      → trim_right blank (take (suc k) s) ≢ []
      → take (suc (right_end blank s k)) s ≡ trim_right blank (take (suc k) s)
  unfolding right_end
  take-right_end s zero h ne = take-right_end_zero s h ne
  take-right_end s (suc k) h ne = elim (Bool-cases (blank (get_or s (suc k) 0))) [
    | inl b ↦
        let cut = rw b at (trim_right-take blank s (suc k) h) in
        rw b (take-right_end s k (omega arith) (λ e. ne (cut ∙ e)) ∙ sym cut)
    | inr b ↦ rw b (sym (rw b at (trim_right-take blank s (suc k) h)))
  ]

  module _ (s : Bytes) (h : 0 < length s) where
    abbrev left : ℕ
    left = lead blank s

    abbrev right : ℕ
    right = right_end blank s (length s - 1)

    module _ (ne : trim_right blank s ≢ []) where
      pub take-right : take (suc right) s ≡ trim_right blank s
      take-right =
          let e : suc (length s - 1) ≡ length s = omega arith in
          let all : take (suc (length s - 1)) s ≡ s = rw e (take_all (length s) s (omega arith)) in
          take-right_end s (length s - 1) (omega arith) (rw all ne) ∙ ap (trim_right blank) all

      left-le-right : left ≤ right
      left-le-right = omega (
        arith,
        lead-lt-length blank s ne,
        ap length take-right,
        length-take (suc right) s (omega (arith, right_end-le s (length s - 1))),
      )

      between_some : substr s left (sub_size right left + 1) ≡ some (trim_both blank s)
      unfolding trim_both
      between_some =
          let n : sub_size right left + 1 ≡ right - left + 1 = ground (arith, left-le-right) in
          let e : left + (right - left + 1) ≡ suc right = omega (arith, left-le-right) in
          let kept : take (right - left + 1) (drop left s) ≡ drop left (trim_right blank s) =
            take-drop left (right - left + 1) s ∙ ap (drop left) (rw e take-right) in
          let head : drop left (trim_right blank s) ≡ trim_left blank (trim_right blank s) =
            rw (← lead-trim_right blank s ne) (drop-lead blank (trim_right blank s)) in
          substr-eq-some s left (sub_size right left + 1) (lead-le-length blank s)
          ∙ ap some (rw n (kept ∙ head))

    between_none :
        trim_right blank s ≡ [] → substr s left (sub_size right left + 1) ≡ some (trim_both blank s)
    unfolding trim_both trim_left
    between_none e =
        substr-eq-some s left _ (lead-le-length blank s)
        ∙ ap some (rw (e, lead_all blank s e, drop_all (length s) s (omega arith)) (take-nil _))

  trim_ends-eq-some : (s : Bytes) → trim_ends blank s ≡ some (trim_both blank s)
  unfolding trim_ends trim_both trim_right trim_left
  trim_ends-eq-some [] = refl
  trim_ends-eq-some (c ∷ cs) = elim (List-cases (trim_right blank (c ∷ cs))) [
    | inl e ↦ between_none (c ∷ cs) (omega arith) e
    | inr ne ↦ between_some (c ∷ cs) (omega arith) ne
  ]

-- `tirm` returns for every text, with no exception, and returns the text without the blanks
-- (space, tab, carriage return, line feed) at both ends.
pub tirm-trim_both : (s : Bytes) → tirm s ≡ some (trim_both is_blank s)
unfolding tirm
tirm-trim_both s = trim_ends-eq-some is_blank s

-- `QuotTirm` returns for every text, with no exception, and returns the text without the single
-- and double quotes at both ends.
pub quot_tirm-trim_both : (s : Bytes) → quot_tirm s ≡ some (trim_both is_quote s)
unfolding quot_tirm
quot_tirm-trim_both s = trim_ends-eq-some is_quote s
