-- ===== src/Text/Converter.antt =====
-- `CConverter::Uint2String` of utils/Converter.cpp, and the printf conversions %u and %x that it and
-- MySqlHelper.cpp use. The numbers are below 2 ^ 32: 32 digits are more than enough.
pub mod ReadBack
use tag_etl.Prelude.{ℕ, zero, suc, ◌+◌, ◌-◌, ◌/◌, ◌%◌, ◌^◌, [], ◌∷◌, ltb, ◌==◌, if◌then◌else◌}
use tag_etl.Text.{Bytes}

unfoldable pub digit_char : ℕ → ℕ
digit_char d = if ltb d 10 then b'0' + d else b'a' + (d - 10)

-- The digits of `n` in front of `acc`.
unfoldable pub digits_onto : ℕ → ℕ → ℕ → Bytes → Bytes
unfolding digit_char
digits_onto base zero n acc = acc
digits_onto base (suc fuel) n acc =
    let acc' = digit_char (n % base) ∷ acc in
    let more = digits_onto base fuel (n / base) acc' in if n / base == 0 then acc' else more

-- %u
unfoldable pub print_unsigned : ℕ → Bytes
unfolding digits_onto
print_unsigned u = digits_onto 10 32 u []

-- An unsigned int whose cast to int is negative is written in hexadecimal.
unfoldable pub uint2string : ℕ → Bytes
unfolding print_unsigned
uint2string u = if ltb u (2 ^ 31) then print_unsigned u else b'0' ∷ b'x' ∷ digits_onto 16 32 u []
