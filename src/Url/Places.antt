-- ===== src/Url/Places.antt =====
-- What stands at a position of a text, and what `find`, `substr` and `FilterInvalidChar` of
-- utils/URLAnalyzer.cpp answer there.
use tag_etl.Prelude.{
  ℕ, zero, suc, ◌+◌, ◌-◌, ◌≤◌, ◌<◌, ◌≡◌, ◌≢◌, refl, ap, sym, ◌∙◌, false, [], ◌∷◌, ◌++◌, none, some,
  length, drop, take, get_or, ◌>>=◌, arith, length-append, length-drop, drop-drop, take-append,
  drop-append, take_all,
}
use tag_etl.Text.Trim.{lead}
use tag_etl.Text.{Bytes, index_of, find_char, substr, sub_size, index_of-append, substr-eq-some}
use tag_etl.Url.Scan.{is_skipped, lead_spaces, filter_pre}
use tag_etl.Url.{rest_from}

drop-append_le : (n : ℕ) (s t : Bytes) → n ≤ length s → drop n (s ++ t) ≡ drop n s ++ t
drop-append_le zero s t h = refl
drop-append_le (suc n) [] t h = absurd (omega arith)
drop-append_le (suc n) (c ∷ s) t h = drop-append_le n s t (omega arith)

-- `rest` stands at `pos`, to the end of the text.
pub record At (s : Bytes) (pos : ℕ) (rest : Bytes) : Type 0 where
  pub within : pos ≤ length s
  pub here : drop pos s ≡ rest

-- Nothing is skipped in front of it.
abbrev pub IsFront : Bytes → Type 0
IsFront s = (is_skipped (get_or s 0 0) ≡ false) × (get_or s 0 0 ≢ b'%')

pub IsFront-append : (xs ys : Bytes) → IsFront xs → IsFront ys → IsFront (xs ++ ys)
IsFront-append [] ys h k = k
IsFront-append (c ∷ xs) ys h k = h

pub At-front : (s : Bytes) → At s 0 s
At-front s = record { within = omega arith; here = refl }

front_unskipped : (t : Bytes) → is_skipped (get_or t 0 0) ≡ false → lead is_skipped t ≡ 0
unfolding lead
front_unskipped [] f = refl
front_unskipped (c ∷ t) f = rw f refl

front_spaces : (fuel : ℕ) (t : Bytes) → get_or t 0 0 ≢ b'%' → lead_spaces fuel t ≡ 0
unfolding lead_spaces
front_spaces zero t f = refl
front_spaces (suc fuel) [] f = refl
front_spaces (suc fuel) (c ∷ t) f = ground arith

filter_pre_lem :
    (s : Bytes) (pos : ℕ)
    → 0 < length s
    → pos ≤ length s
    → lead is_skipped (drop pos s) ≡ 0
    → ((fuel : ℕ) → lead_spaces fuel (drop pos s) ≡ 0)
    → filter_pre s pos ≡ some pos
unfolding filter_pre
filter_pre_lem [] pos h below l f = absurd (omega arith)
filter_pre_lem (c ∷ cs) pos h below l f =
    let e : pos + 0 ≡ pos = omega arith in ground (arith, f (length (c ∷ cs)))

module _ {s : Bytes} {pos : ℕ} where
  pub At-length : {rest : Bytes} → At s pos rest → length s ≡ pos + length rest
  At-length h = omega (arith, h.within, length-drop pos s, ap length h.here)

  pub At-append : (xs ys : Bytes) → At s pos (xs ++ ys) → At s (pos + length xs) ys
  At-append xs ys h = record {
    within = omega (arith, At-length h, length-append xs ys);
    here = sym (drop-drop pos (length xs) s) ∙ ap (drop (length xs)) h.here ∙ drop-append xs ys;
  }

  pub At-suc : (c : ℕ) (ys : Bytes) → At s pos (c ∷ ys) → At s (pos + 1) ys
  At-suc c ys = At-append (c ∷ []) ys

  pub substr-At : (xs ys : Bytes) → At s pos (xs ++ ys) → substr s pos (length xs) ≡ some xs
  substr-At xs ys h =
      substr-eq-some s pos (length xs) h.within
      ∙ ap (λ t. some (take (length xs) t)) h.here
      ∙ ap some (take-append xs ys)

  pub rest_from-At : (rest : Bytes) → At s pos rest → rest_from s pos ≡ some rest
  unfolding rest_from
  rest_from-At rest h =
      let n : sub_size (length s) pos ≡ length s - pos = ground (arith, h.within) in
      ap (substr s pos) n
      ∙ substr-eq-some s pos (length s - pos) h.within
      ∙ ap (λ t. some (take (length s - pos) t)) h.here
      ∙ ap some (take_all (length s - pos) rest (omega (arith, At-length h)))

  pub find_char-At :
      (c : ℕ) (xs ys : Bytes)
      → index_of c xs ≡ none
      → At s pos (xs ++ c ∷ ys)
      → find_char c s pos ≡ some (pos + length xs)
  unfolding find_char
  find_char-At c xs ys n h =
      ap (λ o. o >>= λ k. some (pos + k)) (ap (index_of c) h.here ∙ index_of-append c xs ys n)

  pub find_char-none :
      (c : ℕ) (xs : Bytes) → index_of c xs ≡ none → At s pos xs → find_char c s pos ≡ none
  unfolding find_char
  find_char-none c xs n h = ap (λ o. o >>= λ k. some (pos + k)) (ap (index_of c) h.here ∙ n)

  pub filter_pre-At :
      (rest : Bytes) → 0 < length s → IsFront rest → At s pos rest → filter_pre s pos ≡ some pos
  filter_pre-At rest some_byte f h =
      filter_pre_lem s pos some_byte h.within (rw h.here (front_unskipped rest f.0))
        (λ fuel. rw h.here (front_spaces fuel rest f.1))

  -- The same before a text that follows.
  pub At-behind : (rest t : Bytes) → At s pos rest → At (s ++ t) pos (rest ++ t)
  At-behind rest t h = record {
    within = omega (arith, h.within, length-append s t);
    here = drop-append_le pos s t h.within ∙ ap (λ r. r ++ t) h.here;
  }
