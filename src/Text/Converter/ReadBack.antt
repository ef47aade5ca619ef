-- ===== src/Text/Converter/ReadBack.antt =====
-- `atoi` reads back what `Uint2String` of utils/Converter.cpp writes, so that no two numbers below
-- 2 ^ 31 are written alike.
use tag_etl.Prelude.{
  ℕ, zero, suc, ◌+◌, ◌-◌, ◌*◌, ◌/◌, ◌%◌, ◌^◌, ◌≤◌, ◌<◌, ◌≡◌, refl, sym, ap, ◌∙◌, true, false, [],
  ◌∷◌, inl, inr, arith, ltb, ◌==◌, ==_iff, Bool-cases,
}
use tag_etl.Text.Converter.{digit_char, digits_onto, print_unsigned, uint2string}
use tag_etl.Text.Number.{pos, is_digit, digits_value, atoi}
use tag_etl.Text.{Bytes}

digit_char-decimal : (d : ℕ) → d < 10 → digit_char d ≡ 48 + d
unfolding digit_char
digit_char-decimal d h = ground arith

digits_value-cons :
    (a d : ℕ) (t : Bytes) → d < 10 → digits_value a (digit_char d ∷ t) ≡ digits_value (a * 10 + d) t
unfolding digits_value
digits_value-cons a d t h =
    let e : digit_char d - 48 ≡ d = omega (arith, digit_char-decimal d h) in
    let digit : is_digit (digit_char d) ≡ true = rw (digit_char-decimal d h) (ground arith) in
    rw (digit, e) refl

pow-suc : (k : ℕ) → 2 ^ suc k ≡ 2 * 2 ^ k
pow-suc k = omega arith

fuel_left : (fuel n : ℕ) → n < 2 ^ suc fuel → (n / 10 == 0) ≡ false → 0 < fuel
fuel_left zero n h e = absurd (ground (arith, e, h))
fuel_left (suc fuel) n h e = omega arith

-- The digits of `n` in front of a text add `n` to what the text is worth.
digits_value-digits_onto :
    (fuel n : ℕ) (t : Bytes)
    → n < 2 ^ fuel
    → 0 < fuel
    → digits_value 0 (digits_onto 10 fuel n t) ≡ digits_value n t
unfolding digits_onto
digits_value-digits_onto zero n t h k = absurd (omega arith)
digits_value-digits_onto (suc fuel) n t h k = elim (Bool-cases (n / 10 == 0)) [
  | inl e ↦
      let small : 0 * 10 + n % 10 ≡ n = omega (arith, (==_iff (n / 10) 0).0 e) in
      rw (e, digits_onto)
        (digits_value-cons 0 (n % 10) t (omega arith) ∙ ap (λ m. digits_value m t) small)
  | inr e ↦
      let whole : n / 10 * 10 + n % 10 ≡ n = omega arith in
      rw (e, digits_onto)
        (digits_value-digits_onto fuel (n / 10) (digit_char (n % 10) ∷ t)
            (omega (arith, h, pow-suc fuel)) (fuel_left fuel n h e)
          ∙ digits_value-cons (n / 10) (n % 10) t (omega arith)
          ∙ ap (λ m. digits_value m t) whole)
]

digits_value-print_unsigned : (n : ℕ) → n < 2 ^ 32 → digits_value 0 (print_unsigned n) ≡ n
unfolding print_unsigned digits_value
digits_value-print_unsigned n h = digits_value-digits_onto 32 n [] h (omega arith)

-- A text of a decimal digit and a rest.
abbrev StartsWithDigit : Bytes → Type 0
StartsWithDigit [] = ⊥
StartsWithDigit (c ∷ cs) = (48 ≤ c) × (c ≤ 57)

digit-StartsWithDigit : (d : ℕ) (t : Bytes) → d < 10 → StartsWithDigit (digit_char d ∷ t)
digit-StartsWithDigit d t h = omega (arith, digit_char-decimal d h)

StartsWithDigit-digits_onto :
    (fuel n : ℕ) (t : Bytes) → StartsWithDigit t → StartsWithDigit (digits_onto 10 fuel n t)
unfolding digits_onto
StartsWithDigit-digits_onto zero n t h = h
StartsWithDigit-digits_onto (suc fuel) n t h = elim (Bool-cases (n / 10 == 0)) [
  | inl e ↦ rw (e, digits_onto, StartsWithDigit) (digit-StartsWithDigit (n % 10) t (omega arith))
  | inr e ↦
      rw (e, digits_onto, StartsWithDigit)
        (StartsWithDigit-digits_onto fuel (n / 10) (digit_char (n % 10) ∷ t)
          (digit-StartsWithDigit (n % 10) t (omega arith)))
]

StartsWithDigit-digits_onto_first : (fuel n : ℕ) → StartsWithDigit (digits_onto 10 (suc fuel) n [])
unfolding digits_onto
StartsWithDigit-digits_onto_first fuel n = elim (Bool-cases (n / 10 == 0)) [
  | inl e ↦ rw (e, digits_onto, StartsWithDigit) (digit-StartsWithDigit (n % 10) [] (omega arith))
  | inr e ↦
      rw (e, digits_onto, StartsWithDigit)
        (StartsWithDigit-digits_onto fuel (n / 10) (digit_char (n % 10) ∷ [])
          (digit-StartsWithDigit (n % 10) [] (omega arith)))
]

StartsWithDigit-print_unsigned : (n : ℕ) → StartsWithDigit (print_unsigned n)
unfolding print_unsigned
StartsWithDigit-print_unsigned n = StartsWithDigit-digits_onto_first 31 n

-- A number that begins with a digit has no space and no sign in front.
atoi-digits :
    (s : Bytes) (n : ℕ) → StartsWithDigit s → digits_value 0 s ≡ n → n < 2 ^ 31 → atoi s ≡ pos n
unfolding atoi
atoi-digits [] n d e h = elim d [ ]
atoi-digits (c ∷ cs) n d e h = ground (arith, e)

-- `atoi` reads from the text that `Uint2String` writes for a number below 2 ^ 31 that number.
pub atoi-uint2string : (u : ℕ) → u < 2 ^ 31 → atoi (uint2string u) ≡ pos u
unfolding uint2string
atoi-uint2string u h =
    let small : ltb u (2 ^ 31) ≡ true = ground arith in
    rw small (
      atoi-digits (print_unsigned u) u (StartsWithDigit-print_unsigned u)
        (digits_value-print_unsigned u (omega arith)) h)

pub print_unsigned-injective :
    (m n : ℕ) → m < 2 ^ 32 → n < 2 ^ 32 → print_unsigned m ≡ print_unsigned n → m ≡ n
print_unsigned-injective m n h k e =
    sym (digits_value-print_unsigned m h)
    ∙ ap (λ t. digits_value 0 t) e
    ∙ digits_value-print_unsigned n k
