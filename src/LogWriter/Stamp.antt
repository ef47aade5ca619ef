-- ===== src/LogWriter/Stamp.antt =====
-- The line of a message in the log of utils/Logger.cpp: the date and the time of the call in digits.
use tag_etl.LogWriter.{print_padded, stamped, time_stamp}
use tag_etl.Logger.{Tm}
use tag_etl.Prelude.{
  ℕ, suc, ◌+◌, ◌/◌, ◌%◌, ◌≤◌, ◌<◌, ◌≡◌, refl, ◌∙◌, [], ◌∷◌, ◌++◌, length, ltb, arith, Bool-cases,
  inl, inr,
}
use tag_etl.Profile.Load.{c_string}
use tag_etl.Text.Converter.{digits_onto, digit_char, print_unsigned}
use tag_etl.Text.{Bytes, codes}

-- The last two decimal digits, and the last four.
abbrev pub two_digits : ℕ → Bytes
two_digits n = (48 + n / 10 % 10) ∷ (48 + n % 10) ∷ []

abbrev pub four_digits : ℕ → Bytes
four_digits n = two_digits (n / 100) ++ two_digits (n % 100)

-- `[year-month-day hour:minute:second]:`, with the year of the calendar and the months from 1 on.
abbrev pub date_line : Tm → Bytes → Bytes
date_line t msg =
    codes "["
    ++ (four_digits (t.tm_year + 1900)
        ++ (codes "-"
            ++ (two_digits (t.tm_mon + 1)
                ++ (codes "-"
                    ++ (two_digits t.tm_mday
                        ++ (codes " "
                            ++ (two_digits t.tm_hour
                                ++ (codes ":"
                                    ++ (two_digits t.tm_min
                                        ++ (codes ":"
                                            ++ (two_digits t.tm_sec
                                                ++ (codes "]:" ++ (msg ++ codes "\n")))))))))))))

-- A time of the years 1900 to 9999.
abbrev pub IsDate : Tm → Type 0
IsDate t =
    (t.tm_year < 8100)
    × (t.tm_mon < 12)
    × (t.tm_mday < 32)
    × (t.tm_hour < 24)
    × (t.tm_min < 60)
    × (t.tm_sec < 62)

abbrev pub NoZero : Bytes → Type 0
NoZero [] = Unit
NoZero (c ∷ cs) = (1 ≤ c) × NoZero cs

digits_last : (f n : ℕ) (t : Bytes) → n < 10 → digits_onto 10 (suc f) n t ≡ (48 + n % 10) ∷ t
unfolding digits_onto digit_char
digits_last f n t h = ground arith

digits_more :
    (f n : ℕ) (t : Bytes)
    → 10 ≤ n
    → digits_onto 10 (suc f) n t ≡ digits_onto 10 f (n / 10) ((48 + n % 10) ∷ t)
unfolding digits_onto digit_char
digits_more f n t h = ground arith

print_unsigned_one : (n : ℕ) → n < 10 → print_unsigned n ≡ (48 + n % 10) ∷ []
unfolding print_unsigned
print_unsigned_one n h = digits_last 31 n [] h

print_unsigned_two :
    (n : ℕ) → 10 ≤ n → n < 100 → print_unsigned n ≡ (48 + n / 10 % 10) ∷ (48 + n % 10) ∷ []
unfolding print_unsigned
print_unsigned_two n low h =
    digits_more 31 n [] low ∙ digits_last 30 (n / 10) ((48 + n % 10) ∷ []) (omega arith)

print_unsigned_four : (n : ℕ) → 1000 ≤ n → n < 10000 → print_unsigned n ≡ four_digits n
unfolding print_unsigned
print_unsigned_four n low h =
    digits_more 31 n [] (omega arith)
    ∙ digits_more 30 (n / 10) _ (omega arith)
    ∙ digits_more 29 (n / 10 / 10) _ (omega arith)
    ∙ digits_last 28 (n / 10 / 10 / 10) _ (omega arith)
    ∙ ground arith

print_padded_two : (n : ℕ) → n < 100 → print_padded 2 n ≡ two_digits n
unfolding print_padded
print_padded_two n h = elim (Bool-cases (ltb n 10)) [
  | inl e ↦ rw (print_unsigned_one n (ground arith)) (ground arith)
  | inr e ↦ rw (print_unsigned_two n (ground arith) h) refl
]

print_padded_four : (n : ℕ) → 1000 ≤ n → n < 10000 → print_padded 4 n ≡ four_digits n
unfolding print_padded
print_padded_four n low h = rw (print_unsigned_four n low h) refl

c_string-NoZero : (s : Bytes) → NoZero s → c_string s ≡ s
unfolding c_string
c_string-NoZero [] h = refl
c_string-NoZero (c ∷ cs) h = ground (arith, c_string-NoZero cs h.1)

NoZero-end : (s : Bytes) → NoZero s → NoZero (s ++ codes "\n")
NoZero-end [] h = (omega arith, tt)
NoZero-end (c ∷ cs) h = (h.0, NoZero-end cs h.1)

-- The date in front of a line.
abbrev stamp_of : Tm → Bytes
stamp_of t =
    codes "["
    ++ (four_digits (t.tm_year + 1900)
        ++ (codes "-"
            ++ (two_digits (t.tm_mon + 1)
                ++ (codes "-"
                    ++ (two_digits t.tm_mday
                        ++ (codes " "
                            ++ (two_digits t.tm_hour
                                ++ (codes ":"
                                    ++ (two_digits t.tm_min
                                        ++ (codes ":"
                                            ++ (two_digits t.tm_sec ++ codes "]:")))))))))))

time_stamp-stamp_of : (t : Tm) → IsDate t → time_stamp t ≡ stamp_of t
unfolding time_stamp
time_stamp-stamp_of t (year, mon, day, hour, min, sec) =
    rw
      (
        print_padded_four (t.tm_year + 1900) (omega arith) (omega arith),
        print_padded_two (t.tm_mon + 1) (omega arith),
        print_padded_two t.tm_mday (omega arith),
        print_padded_two t.tm_hour (omega arith),
        print_padded_two t.tm_min (omega arith),
        print_padded_two t.tm_sec (omega arith),
      )
      refl

pub length-time_stamp : (t : Tm) → IsDate t → length (time_stamp t) < 32
length-time_stamp t h = rw (time_stamp-stamp_of t h) (omega arith)

NoZero-append : (a b : Bytes) → NoZero a → NoZero b → NoZero (a ++ b)
NoZero-append [] b h k = k
NoZero-append (c ∷ cs) b h k = (h.0, NoZero-append cs b h.1 k)

NoZero-stamp_of : (t : Tm) → NoZero (stamp_of t)
NoZero-stamp_of t = ground arith

NoZero-date_line : (t : Tm) (msg : Bytes) → NoZero msg → NoZero (date_line t msg)
NoZero-date_line t msg h =
    NoZero-append (stamp_of t) (msg ++ codes "\n") (NoZero-stamp_of t) (NoZero-end msg h)

pub stamped-date_line :
    (t : Tm) (msg : Bytes) → IsDate t → NoZero msg → stamped (time_stamp t) msg ≡ date_line t msg
unfolding stamped
stamped-date_line t msg h k =
    rw (time_stamp-stamp_of t h) (c_string-NoZero (date_line t msg) (NoZero-date_line t msg k))
