-- ===== src/Url/Query/Values.antt =====
-- The pieces of a query of names and encoded values, as `do_SelectParam` of utils/URLAnalyzer.cpp cuts them.
use tag_etl.Url.Query.{Params, print_params, IsPlain, digit_char_plain, answer}
use tag_etl.Prelude.{
  ℕ, suc, ◌+◌, ◌-◌, ◌/◌, ◌%◌, ◌≤◌, ◌≡◌, refl, ap, sym, ◌∙◌, [], ◌∷◌, ◌++◌, Option, none, some,
  length, drop, ◌>>=◌, arith, length-append, length-drop, drop-drop, take-append, drop-append,
}
use mathlib.Core.List.{append-nil}
use tag_etl.Profile.Build.{find_or_length}
use tag_etl.Text.{Bytes, bytes_eq, index_of, find_char, substr, index_of-append, substr-eq-some}
use tag_etl.Url.Decode.{url_to_utf8}
use tag_etl.Url.Decode.RoundTrip.{encode, AllBytes, url_to_utf8-encode}
use tag_etl.Url.Select.{HasNoMark, param_at, is_named}
use tag_etl.Url.{value_at}

pub encode-HasNoMark : (value : Bytes) → AllBytes value → HasNoMark (encode value)
unfolding encode
encode-HasNoMark [] a = tt
encode-HasNoMark (c ∷ cs) a =
    let (skip, mark, percent) = digit_char_plain (c / 16) (omega arith) in
    let (skip', mark', percent') = digit_char_plain (c % 16) (omega arith) in
    (refl, (mark, (mark', encode-HasNoMark cs a.1)))

pub HasNoMark-append : (xs ys : Bytes) → HasNoMark xs → HasNoMark ys → HasNoMark (xs ++ ys)
HasNoMark-append [] ys h k = k
HasNoMark-append (c ∷ xs) ys h k = (h.0, HasNoMark-append xs ys h.1 k)

-- A name with `=` behind it is the one looked for, or another.
pub is_named-bytes_eq :
    (name n rest : Bytes)
    → IsPlain name
    → IsPlain n
    → is_named name (n ++ b'=' ∷ rest) ≡ bytes_eq n name
unfolding bytes_eq
is_named-bytes_eq [] [] rest h k = refl
is_named-bytes_eq (c ∷ name) [] rest h k = ground (arith, h.2)
is_named-bytes_eq [] (x ∷ n) rest h k = ground (arith, k.2)
is_named-bytes_eq (c ∷ name) (x ∷ n) rest h k =
    ground (arith, is_named-bytes_eq name n rest h.4 k.4)

abbrev pub shift : ℕ → Option ℕ → Option ℕ
shift n o = o >>= λ k. some (n + k)

pub shift-suc : (n : ℕ) (o : Option ℕ) → (shift n o >>= λ k. some (suc k)) ≡ shift (suc n) o
shift-suc n none = refl
shift-suc n (some k) = ap some (omega arith)

pub shift-shift : (m n : ℕ) (o : Option ℕ) → shift m (shift n o) ≡ shift (m + n) o
shift-shift m n none = refl
shift-shift m n (some k) = ap some (omega arith)

pub param_at-append :
    (name xs ys : Bytes)
    → HasNoMark xs
    → param_at name (xs ++ ys) ≡ shift (length xs) (param_at name ys)
unfolding param_at
param_at-append name [] ys h = shift_zero (param_at name ys)
  where
    shift_zero : (o : Option ℕ) → o ≡ shift 0 o
    shift_zero none = refl
    shift_zero (some k) = ap some (omega arith)
param_at-append name (c ∷ xs) ys h = rw h.0 (
    ap (λ o. o >>= λ k. some (suc k)) (param_at-append name xs ys h.1)
    ∙ shift-suc (length xs) (param_at name ys))

url_to_utf8-answer :
    (value old : Bytes) → AllBytes value → url_to_utf8 (encode value) old ≡ answer (some value) old
unfolding url_to_utf8 encode
url_to_utf8-answer [] old a = refl
url_to_utf8-answer (c ∷ cs) old a = url_to_utf8-encode c cs old a

HasNoMark-index_of : (s : Bytes) → HasNoMark s → index_of b'&' s ≡ none
unfolding index_of
HasNoMark-index_of [] h = refl
HasNoMark-index_of (c ∷ s) h = ground (arith, HasNoMark-index_of s)

-- The value ends before the next mark, or with the text.
module _ (s value : Bytes) (pos : ℕ) (inside : pos ≤ length s) (a : AllBytes value) where
  abbrev upto : Option ℕ → ℕ
  upto o = elim (o >>= λ k. some (pos + k)) [ none ↦ length s | some k ↦ k ]

  value_ends :
      (ps : Params)
      → drop pos s ≡ encode value ++ print_params b'&' ps
      → find_or_length b'&' s pos ≡ pos + length (encode value)
  unfolding find_or_length find_char print_params
  value_ends [] e =
      let unmarked = HasNoMark-index_of (encode value) (encode-HasNoMark value a) in
      let text : drop pos s ≡ encode value = e ∙ append-nil (encode value) in
      ap upto (ap (index_of b'&') text ∙ unmarked)
      ∙ omega (arith, length-drop pos s, ap length text)
  value_ends ((n, v) ∷ ps) e =
      let unmarked = HasNoMark-index_of (encode value) (encode-HasNoMark value a) in
      ap upto (ap (index_of b'&') e ∙ index_of-append b'&' (encode value) _ unmarked)

  -- What the code cuts out and decodes.
  value_cut :
      (ps : Params)
      → drop pos s ≡ encode value ++ print_params b'&' ps
      → substr s pos (find_or_length b'&' s pos - pos) ≡ some (encode value)
  value_cut ps e =
      let n : pos + length (encode value) - pos ≡ length (encode value) = omega arith in
      rw (value_ends ps e, n)
        (substr-eq-some s pos (length (encode value)) inside
          ∙ rw e (ap some (take-append (encode value) (print_params b'&' ps))))

pub value_at-print :
    (pre value : Bytes) (ps : Params) (old : Bytes)
    → AllBytes value
    → value_at (pre ++ b'=' ∷ (encode value ++ print_params b'&' ps)) old (some (length pre))
      ≡ some (answer (some value) old)
unfolding value_at
value_at-print pre value ps old a =
    let rest = encode value ++ print_params b'&' ps in
    let s = pre ++ b'=' ∷ rest in
    let e : drop (length pre + 1) s ≡ rest =
      sym (drop-drop (length pre) 1 s) ∙ ap (drop 1) (drop-append pre (b'=' ∷ rest)) in
    rw (value_cut s value (length pre + 1) (omega (arith, length-append pre (b'=' ∷ rest))) a ps e)
      (ap some (url_to_utf8-answer value old a))
