-- ===== src/Text/Number.antt =====
-- `int` and `unsigned int` of 32 bits, and `atoi` as the C library gives it: white space, a sign,
-- digits; the long that strtol makes of them stops at its bounds, and the cast keeps 32 bits.
use tag_etl.Prelude.{
  ℕ, zero, suc, ◌+◌, ◌-◌, ◌*◌, ◌%◌, ◌^◌, Bool, ◌&&◌, ◌||◌, [], ◌∷◌, leb, ltb, ◌==◌, if◌then◌else◌,
}
use tag_etl.Text.{Bytes}

-- `negsuc n` is -(n + 1).
pub data ℤ : Type 0 where
  pos : ℕ → ℤ
  negsuc : ℕ → ℤ

abbrev pub neg : ℕ → ℤ
neg zero = pos 0
neg (suc n) = negsuc n

abbrev pub ltb_ℤ : ℤ → ℤ → Bool
ltb_ℤ (pos a) (pos b) = ltb a b
ltb_ℤ (pos a) (negsuc b) = Bool.false
ltb_ℤ (negsuc a) (pos b) = Bool.true
ltb_ℤ (negsuc a) (negsuc b) = ltb b a

-- The conversion to unsigned int, modulo 2 ^ 32.
unfoldable pub to_uint : ℤ → ℕ
to_uint (pos n) = n % 2 ^ 32
to_uint (negsuc n) = 2 ^ 32 - 1 - n % 2 ^ 32

-- The int with the same bits.
unfoldable pub to_int : ℕ → ℤ
to_int u = if ltb u (2 ^ 31) then pos u else negsuc (2 ^ 32 - 1 - u)

abbrev pub is_digit : ℕ → Bool
is_digit c = leb b'0' c && leb c b'9'

abbrev pub is_space : ℕ → Bool
is_space c = c == 32 || leb 9 c && leb c 13

unfoldable pub digits_value : ℕ → Bytes → ℕ
digits_value acc [] = acc
digits_value acc (c ∷ cs) =
    let more = digits_value (acc * 10 + (c - b'0')) cs in if is_digit c then more else acc

unfoldable pub clamp : ℕ → ℕ → ℕ
clamp top n = if leb n top then n else top

unfoldable pub signed_value : Bytes → ℤ
unfolding digits_value clamp
signed_value [] = pos 0
signed_value (c ∷ cs) =
    if c == b'-'
    then neg (clamp (2 ^ 63) (digits_value 0 cs))
    else if c == b'+'
    then pos (clamp (2 ^ 63 - 1) (digits_value 0 cs))
    else pos (clamp (2 ^ 63 - 1) (digits_value 0 (c ∷ cs)))

unfoldable pub skip_space : Bytes → Bytes
skip_space [] = []
skip_space (c ∷ cs) = if is_space c then skip_space cs else c ∷ cs

unfoldable pub atoi : Bytes → ℤ
unfolding signed_value skip_space to_uint to_int
atoi s = to_int (to_uint (signed_value (skip_space s)))
