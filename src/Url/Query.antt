-- ===== src/Url/Query.antt =====
-- Queries of names and encoded values, for `SelectParam` of utils/URLAnalyzer.cpp.
pub mod Values
pub mod Selected
use tag_etl.Codes.{s_ok, error_invalid_parameter}
use tag_etl.Prelude.{
  ℕ, zero, suc, ◌+◌, ◌-◌, ◌*◌, ◌/◌, ◌%◌, ◌≤◌, ◌<◌, ◌≡◌, ◌≢◌, refl, ap, sym, ◌∙◌, Bool, true, false,
  ◌&&◌, List, [], ◌∷◌, ◌++◌, ◌⊎◌, Option, none, some, inl, inr, length, drop, take, get_or, leb,
  ltb, ◌==◌, if◌then◌else◌, ◌>>=◌, arith, length-append, length-drop, drop-drop, take-append,
  drop-append, Bool-cases,
}
use mathlib.Core.List.{append-nil, append_assoc}
use tag_etl.Profile.Build.{find_or_length}
use tag_etl.Text.Converter.{digit_char}
use tag_etl.Text.{
  Bytes, bytes_eq, bytes_eq_iff, index_of, find_char, substr, index_of-append, substr-eq-some,
}
use tag_etl.Url.Decode.{url_to_utf8}
use tag_etl.Url.Decode.RoundTrip.{encode, AllBytes, url_to_utf8-encode}
use tag_etl.Url.Scan.Tidy.{is_mark, Tidy}
use tag_etl.Url.Scan.{is_skipped}
use tag_etl.Url.Select.{HasNoMark, IsName, param_at, is_named}
use tag_etl.Url.{Url, value_at, select_param, do_select_param, sta_cant_find}

abbrev pub Params : Type 0
Params = List (Bytes × Bytes)

-- Each parameter behind a mark: the first behind `?`, the others behind `&`.
unfoldable pub print_params : ℕ → Params → Bytes
unfolding encode
print_params mark [] = []
print_params mark ((name, value) ∷ ps) =
    mark ∷ (name ++ b'=' ∷ (encode value ++ print_params b'&' ps))

-- The value of the first parameter of the name.
unfoldable pub value_of : Bytes → Params → Option Bytes
unfolding bytes_eq
value_of name [] = none
value_of name ((n, value) ∷ ps) = if bytes_eq n name then some value else value_of name ps

-- A name of a query: nothing in it is skipped, marks or ends a name, or begins a code.
abbrev pub IsPlain : Bytes → Type 0
IsPlain [] = Unit
IsPlain (c ∷ s) = (is_skipped c ≡ false) × (is_mark c ≡ false) × (c ≢ b'=') × (c ≢ b'%') × IsPlain s

abbrev pub ArePlain : Params → Type 0
ArePlain [] = Unit
ArePlain ((name, value) ∷ ps) = IsPlain name × AllBytes value × ArePlain ps

pub IsPlain-HasNoMark : (s : Bytes) → IsPlain s → HasNoMark s
IsPlain-HasNoMark [] h = tt
IsPlain-HasNoMark (c ∷ s) h = (h.1, IsPlain-HasNoMark s h.4)

-- A tidy text stays tidy behind a plain name.
Tidy-name : (name rest : Bytes) → IsPlain name → Tidy rest → Tidy (name ++ rest)
Tidy-name [] rest h t = t
Tidy-name (c ∷ s) rest h t = (h.0, (λ m. cc), (λ e. absurd (h.3 e)), Tidy-name s rest h.4 t)

pub digit_char_plain :
    (d : ℕ)
    → d < 16
    → (is_skipped (digit_char d) ≡ false) × (is_mark (digit_char d) ≡ false) × (digit_char d ≢ b'%')
unfolding digit_char is_skipped
digit_char_plain d h = ground arith

encode_head :
    (value rest : Bytes) → get_or rest 0 0 ≢ b'=' → get_or (encode value ++ rest) 0 0 ≢ b'='
unfolding encode
encode_head [] rest h = h
encode_head (c ∷ cs) rest h = omega arith

marked-ne : {b : Bool} → b ≡ false → b ≢ true
marked-ne h e = cc

percent_unmarked : (c : ℕ) → is_mark c ≡ true → c ≢ b'%'
percent_unmarked c h = ground arith

Tidy-encode :
    (value rest : Bytes)
    → AllBytes value
    → get_or rest 0 0 ≢ b'='
    → Tidy rest
    → Tidy (encode value ++ rest)
unfolding encode is_skipped
Tidy-encode [] rest a h t = t
Tidy-encode (c ∷ cs) rest a h t =
    let (skip, mark, percent) = digit_char_plain (c / 16) (omega arith) in
    let (skip', mark', percent') = digit_char_plain (c % 16) (omega arith) in
    let second = encode_head cs rest h in
    (
      refl,
      (λ m. cc),
      (λ _. second),
      (
        skip,
        (λ m. absurd (marked-ne mark m)),
        (λ e. absurd (percent e)),
        (
          skip',
          (λ m. absurd (marked-ne mark' m)),
          (λ e. absurd (percent' e)),
          Tidy-encode cs rest a.1 h t,
        ),
      ),
    )

name_head : (name rest : Bytes) → IsPlain name → get_or (name ++ b'=' ∷ rest) 0 0 ≢ b'%'
name_head [] rest h = omega arith
name_head (c ∷ s) rest h = h.3

params_head : (ps : Params) → get_or (print_params b'&' ps) 0 0 ≢ b'='
unfolding print_params
params_head [] = omega arith
params_head ((n, v) ∷ ps) = omega arith

pub Tidy-params :
    (mark : ℕ) (ps : Params) → is_mark mark ≡ true → ArePlain ps → Tidy (print_params mark ps)
unfolding print_params is_skipped
Tidy-params mark [] h a = tt
Tidy-params mark ((n, v) ∷ ps) h a = (
  ground arith,
  (λ m. name_head n _ a.0),
  (λ e. absurd (percent_unmarked mark h e)),
  Tidy-name n _ a.0 (
    refl,
    (λ m. cc),
    (λ e. absurd (omega arith)),
    Tidy-encode v _ a.1 (params_head ps) (Tidy-params b'&' ps refl a.2),
  ),
)

-- What the value of a parameter, or its absence, is answered with.
abbrev pub answer : Option Bytes → Bytes → ℕ × Bytes
answer none old = (sta_cant_find, old)
answer (some []) old = (error_invalid_parameter, old)
answer (some (c ∷ cs)) old = (s_ok, c ∷ cs)
