-- ===== src/Url/Decode/RoundTrip.antt =====
-- `UrlToUtf8` of utils/URLAnalyzer.cpp reads back what is written byte by byte as %xx.
use tag_etl.Codes.{s_ok}
use tag_etl.Prelude.{
  ℕ, zero, suc, ◌+◌, ◌*◌, ◌/◌, ◌%◌, ◌<◌, ◌≤◌, ◌≡◌, refl, ap, ◌∙◌, [], ◌∷◌, none, some, length,
  arith,
}
use tag_etl.Profile.Load.{c_string}
use tag_etl.Text.Converter.{digit_char}
use tag_etl.Text.Number.{ℤ, to_uint}
use tag_etl.Text.{Bytes}
use tag_etl.Url.Decode.{hex_digit, hex_digits, signed_hex, coded_byte, decode, url_to_utf8}

-- Every byte as a percent sign and two digits.
unfoldable pub encode : Bytes → Bytes
unfolding digit_char
encode [] = []
encode (c ∷ cs) = b'%' ∷ digit_char (c / 16) ∷ digit_char (c % 16) ∷ encode cs

abbrev pub AllBytes : Bytes → Type 0
AllBytes [] = Unit
AllBytes (c ∷ cs) = (c < 256) × AllBytes cs

hex_digit-digit_char : (d : ℕ) → d < 16 → hex_digit (digit_char d) ≡ some d
unfolding hex_digit digit_char
hex_digit-digit_char d h = ground arith

hex_digits-cons :
    (acc c d : ℕ) (cs : Bytes)
    → hex_digit c ≡ some d
    → hex_digits acc (c ∷ cs) ≡ hex_digits (acc * 16 + d) cs
unfolding hex_digits
hex_digits-cons acc c d cs h =
    ap (λ r. elim r [ none ↦ acc | some x ↦ hex_digits (acc * 16 + x) cs ]) h

hex_digits-pair :
    (a b : ℕ) → a < 16 → b < 16 → hex_digits 0 (digit_char a ∷ digit_char b ∷ []) ≡ a * 16 + b
unfolding hex_digits
hex_digits-pair a b h k =
    let total : (0 * 16 + a) * 16 + b ≡ a * 16 + b = omega arith in
    hex_digits-cons 0 (digit_char a) a (digit_char b ∷ []) (hex_digit-digit_char a h)
    ∙ hex_digits-cons (0 * 16 + a) (digit_char b) b [] (hex_digit-digit_char b k)
    ∙ total

le-digit_char : (d : ℕ) → 48 ≤ digit_char d
unfolding digit_char
le-digit_char d = ground arith

c_string-pair : (x y : ℕ) → 48 ≤ x → 48 ≤ y → c_string (x ∷ y ∷ []) ≡ x ∷ y ∷ []
unfolding c_string
c_string-pair x y h k = ground arith

signed_hex-digits :
    (x : ℕ) (cs : Bytes) → 48 ≤ x → signed_hex (x ∷ cs) ≡ ℤ.pos (hex_digits 0 (x ∷ cs))
unfolding signed_hex
signed_hex-digits x cs h = ground arith

in_range : (n : ℕ) → n < 256 → to_uint (ℤ.pos n) % 256 ≡ n
unfolding to_uint
in_range n h = omega arith

coded_byte-pair :
    (a b : ℕ) → a < 16 → b < 16 → coded_byte (digit_char a ∷ digit_char b ∷ []) ≡ a * 16 + b
unfolding coded_byte
coded_byte-pair a b h k =
    let x = digit_char a in
    let y = digit_char b in
    ap (λ s. to_uint (signed_hex s) % 256) (c_string-pair x y (le-digit_char a) (le-digit_char b))
    ∙ ap (λ z. to_uint z % 256)
        (signed_hex-digits x (y ∷ []) (le-digit_char a) ∙ ap ℤ.pos (hex_digits-pair a b h k))
    ∙ in_range (a * 16 + b) (omega arith)

decode-encode : (n : ℕ) (s : Bytes) → length s ≤ n → AllBytes s → decode n (encode s) ≡ s
unfolding decode encode
decode-encode zero [] h a = refl
decode-encode zero (c ∷ cs) h a = absurd (omega arith)
decode-encode (suc n) [] h a = refl
decode-encode (suc n) (c ∷ cs) h a =
    ground (arith, coded_byte-pair (c / 16) (c % 16), decode-encode n cs)

length-encode : (s : Bytes) → length s ≤ length (encode s)
unfolding encode
length-encode [] = omega arith
length-encode (c ∷ cs) = omega (arith, length-encode cs)

-- Decoding gives back every text of bytes that is not empty from its encoding byte by byte, capitals and spaces
-- included.
pub url_to_utf8-encode :
    (c : ℕ) (cs old : Bytes)
    → AllBytes (c ∷ cs)
    → url_to_utf8 (encode (c ∷ cs)) old ≡ (s_ok, c ∷ cs)
unfolding url_to_utf8 encode
url_to_utf8-encode c cs old a =
    ap (λ s. (s_ok, s))
      (decode-encode (length (encode (c ∷ cs))) (c ∷ cs) (length-encode (c ∷ cs)) a)
