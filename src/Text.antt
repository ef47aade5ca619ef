-- ===== src/Text.antt =====
-- `std::string` as the code uses it: a list of bytes. `substr` throws std::out_of_range beyond the
-- end, which is `none` here; `find` answers `none` for npos. The code points of a literal are its
-- bytes where it is ASCII.
pub mod Trim
pub mod Number
pub mod Converter
use Prim.Native.Char.{code}
use Prim.Native.String.{String}
use tag_etl.Prelude.{
  ℕ, suc, ◌+◌, ◌-◌, ◌^◌, ◌≤◌, ◌≡◌, ◌≢◌, ◌↔◌, refl, ap, arith, Bool, true, false, ◌&&◌, ◌||◌, List,
  [], ◌∷◌, ◌++◌, Option, none, some, length, take, drop, leb, ◌==◌, if◌then◌else◌, ◌>>=◌,
}

abbrev pub Bytes : Type 0
Bytes = List ℕ

abbrev pub codes : String → Bytes
codes String.[] = []
codes (String.◌∷◌ c s) = code c ∷ codes s

-- ASCII_SPACE, ASCII_TAB, ASCII_ENTER, ASCII_WRAP
unfoldable pub is_blank : ℕ → Bool
is_blank c = c == 32 || c == 9 || c == 13 || c == 10

-- ASCII_DQUOT, ASCII_QUOT
unfoldable pub is_quote : ℕ → Bool
is_quote c = c == 34 || c == 39

-- a - b on size_t: below 0 it wraps. Lengths and positions are far below 2 ^ 64.
abbrev pub sub_size : ℕ → ℕ → ℕ
sub_size a b = if leb b a then a - b else 2 ^ 64 - (b - a)

-- s.substr(pos, n)
unfoldable pub substr : Bytes → ℕ → ℕ → Option Bytes
substr s pos n = if leb pos (length s) then some (take n (drop pos s)) else none

-- The position of the first `c`.
unfoldable pub index_of : ℕ → Bytes → Option ℕ
index_of c [] = none
index_of c (x ∷ xs) =
    let later = index_of c xs in if x == c then some 0 else later >>= λ k. some (suc k)

-- s.find(c, pos)
unfoldable pub find_char : ℕ → Bytes → ℕ → Option ℕ
unfolding index_of
find_char c s pos = index_of c (drop pos s) >>= λ k. some (pos + k)

unfoldable pub bytes_eq : Bytes → Bytes → Bool
bytes_eq [] [] = true
bytes_eq (x ∷ xs) (y ∷ ys) = x == y && bytes_eq xs ys
bytes_eq _ _ = false

pub substr-eq-some :
    (s : Bytes) (pos n : ℕ) → pos ≤ length s → substr s pos n ≡ some (take n (drop pos s))
unfolding substr
substr-eq-some s pos n h = ground arith

abbrev pub starts_with : ℕ → Bytes → Bool
starts_with c [] = false
starts_with c (x ∷ xs) = x == c

module _ (c : ℕ) where
  pub index_of-append :
      (xs ys : Bytes) → index_of c xs ≡ none → index_of c (xs ++ c ∷ ys) ≡ some (length xs)
  unfolding index_of
  index_of-append [] ys h = ground arith
  index_of-append (x ∷ xs) ys h = ground (arith, index_of-append xs ys)

  pub index_of-append_none :
      (xs ys : Bytes) → index_of c xs ≡ none → index_of c ys ≡ none → index_of c (xs ++ ys) ≡ none
  unfolding index_of
  index_of-append_none [] ys h k = k
  index_of-append_none (x ∷ xs) ys h k = ground (arith, index_of-append_none xs ys)

  pub starts_with-none : (s : Bytes) → index_of c s ≡ none → starts_with c s ≡ false
  unfolding index_of
  starts_with-none [] h = refl
  starts_with-none (x ∷ xs) h = ground arith

  pub find_char-index_of : (s : Bytes) → find_char c s 0 ≡ index_of c s
  unfolding find_char
  find_char-index_of s = zero-add-some (index_of c s)
    where
      zero-add-some : (o : Option ℕ) → (o >>= λ k. some (0 + k)) ≡ o
      zero-add-some none = refl
      zero-add-some (some k) = ap some (omega arith)

pub bytes_eq_iff : (a b : Bytes) → (bytes_eq a b ≡ true) ↔ (a ≡ b)
unfolding bytes_eq
bytes_eq_iff (x ∷ a) (y ∷ b) = ground (arith, bytes_eq_iff a b)
bytes_eq_iff _ _ = ground arith

abbrev pub HasNoZero : Bytes → Type 0
HasNoZero [] = Unit
HasNoZero (c ∷ s) = (c ≢ 0) × HasNoZero s
