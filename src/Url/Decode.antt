-- ===== src/Url/Decode.antt =====
-- `UrlToUtf8` of utils/URLAnalyzer.cpp.
pub mod RoundTrip
use tag_etl.Codes.{s_ok, error_invalid_parameter}
use tag_etl.Prelude.{
  ℕ, zero, suc, ◌+◌, ◌-◌, ◌*◌, ◌%◌, Bool, true, false, ◌&&◌, ◌||◌, List, [], ◌∷◌, ◌++◌, Option,
  none, some, length, take, drop, get_or, ltb, leb, ◌==◌, if◌then◌else◌, ◌>>=◌,
}
use tag_etl.Profile.Build.{find_or_length}
use tag_etl.Profile.Lookup.{is_empty}
use tag_etl.Text.Number.{to_uint, neg, is_space, ℤ}
use tag_etl.Text.Trim.{lead}
use tag_etl.Profile.Load.{c_string}
use tag_etl.Text.{Bytes, codes, sub_size, substr, find_char}

-- strtol(temp, NULL, 16) of at most two bytes: white space, a sign, digits. A `0x` has no digit
-- behind it there, and is 0.
unfoldable pub hex_digit : ℕ → Option ℕ
hex_digit c =
    if leb b'0' c && leb c b'9'
    then some (c - b'0')
    else if leb b'a' c && leb c b'f'
    then some (c - b'a' + 10)
    else if leb b'A' c && leb c b'F'
    then some (c - b'A' + 10)
    else none

unfoldable pub hex_digits : ℕ → Bytes → ℕ
unfolding hex_digit
hex_digits acc [] = acc
hex_digits acc (c ∷ cs) = elim (hex_digit c) [ none ↦ acc | some d ↦ hex_digits (acc * 16 + d) cs ]

unfoldable pub signed_hex : Bytes → ℤ
unfolding hex_digits
signed_hex [] = ℤ.pos 0
signed_hex (c ∷ cs) =
    if is_space c
    then ℤ.pos (hex_digits 0 cs)
    else if c == b'-'
    then neg (hex_digits 0 cs)
    else if c == b'+'
    then ℤ.pos (hex_digits 0 cs)
    else ℤ.pos (hex_digits 0 (c ∷ cs))

-- One byte that is not a percent sign.
unfoldable pub plain_byte : ℕ → ℕ
plain_byte c = if c == b'+' then b' ' else if leb 65 c && leb c 90 then c + 32 else c

-- The two bytes behind a percent sign; strncpy stops at a zero byte.
unfoldable pub coded_byte : Bytes → ℕ
unfolding c_string signed_hex to_uint
coded_byte s = to_uint (signed_hex (c_string s)) % 256

-- The loop, with capitals made small; on fuel, since a percent sign takes up to two bytes more.
unfoldable pub decode : ℕ → Bytes → Bytes
unfolding plain_byte coded_byte
decode zero s = []
decode (suc fuel) [] = []
decode (suc fuel) (c ∷ cs) =
    let coded = coded_byte (take 2 cs) ∷ decode fuel (drop 2 cs) in
    let plain = plain_byte c ∷ decode fuel cs in if c == b'%' then coded else plain

-- UrlToUtf8(strUrl, strUtf8, strUrl.length())
unfoldable pub url_to_utf8 : Bytes → Bytes → ℕ × Bytes
unfolding decode
url_to_utf8 [] old = (error_invalid_parameter, old)
url_to_utf8 (c ∷ cs) old = (s_ok, decode (length (c ∷ cs)) (c ∷ cs))
