-- ===== src/Url/Scan.antt =====
-- Finding and skipping in utils/URLAnalyzer.cpp: `find` of a text, and `FilterInvalidChar`.
pub mod Found
pub mod Tidy
use tag_etl.Prelude.{
  ℕ, zero, suc, ◌+◌, ◌-◌, Bool, true, false, ◌&&◌, ◌||◌, [], ◌∷◌, Option, none, some, length, drop,
  get_or, ltb, leb, ◌==◌, if◌then◌else◌, ◌>>=◌,
}
use tag_etl.Profile.Lookup.{is_empty}
use tag_etl.Text.Trim.{lead}
use tag_etl.Text.{Bytes, codes}

abbrev pub is_prefix : Bytes → Bytes → Bool
is_prefix [] s = true
is_prefix (c ∷ cs) [] = false
is_prefix (c ∷ cs) (x ∷ xs) = c == x && is_prefix cs xs

-- The position of the first `p` in a text.
unfoldable pub index_of_text : Bytes → Bytes → Option ℕ
index_of_text p [] = if is_empty p then some 0 else none
index_of_text p (x ∷ xs) =
    let later = index_of_text p xs in
    if is_prefix p (x ∷ xs) then some 0 else later >>= λ k. some (suc k)

-- s.find(p, pos)
unfoldable pub find_text : Bytes → Bytes → ℕ → Option ℕ
unfolding index_of_text
find_text p s pos =
    if leb pos (length s) then (index_of_text p (drop pos s) >>= λ k. some (pos + k)) else none

-- UTF8_SPACE2 is a plus sign.
unfoldable pub is_skipped : ℕ → Bool
is_skipped c = c == 32 || c == 13 || c == 9 || c == 10 || c == b'+'

-- The bytes of the `%20`s in front, on fuel.
unfoldable pub lead_spaces : ℕ → Bytes → ℕ
lead_spaces zero s = 0
lead_spaces (suc fuel) s =
    let rest = lead_spaces fuel (drop 3 s) in if is_prefix (codes "%20") s then 3 + rest else 0

-- FilterInvalidChar(str, pos, DIREC_PRE)
unfoldable pub filter_pre : Bytes → ℕ → Option ℕ
unfolding lead is_skipped lead_spaces
filter_pre [] pos = some pos
filter_pre (c ∷ cs) pos =
    let s = c ∷ cs in
    let at = pos + lead is_skipped (drop pos s) in
    if leb pos (length s) then some (at + lead_spaces (length s) (drop at s)) else none

-- while(is_skipped(str[pos])) pos --; below 0 it reads outside.
unfoldable pub back_over : Bytes → ℕ → Option ℕ
unfolding is_skipped
back_over s zero = if is_skipped (get_or s 0 0) then none else some 0
back_over s (suc k) = if is_skipped (get_or s (suc k) 0) then back_over s k else some (suc k)

-- while((tPos = str.find("%20", pos - 3)) == pos - 3 + 1) pos -= 3; a position below 3 wraps, and
-- nothing is found there.
unfoldable pub back_spaces : ℕ → Bytes → ℕ → ℕ
unfolding find_text
back_spaces zero s pos = pos
back_spaces (suc fuel) s pos =
    let back = back_spaces fuel s (pos - 3) in
    if ltb pos 3 then pos else elim (find_text (codes "%20") s (pos - 3)) [
      | none ↦ pos
      | some t_pos ↦ if t_pos == pos - 2 then back else pos
    ]

-- FilterInvalidChar(str, pos, DIREC_BAC)
unfoldable pub filter_bac : Bytes → ℕ → Option ℕ
unfolding back_over back_spaces
filter_bac [] pos = some pos
filter_bac (c ∷ cs) pos =
    if leb pos (length (c ∷ cs))
    then (back_over (c ∷ cs) pos >>= λ at. some (back_spaces (suc at) (c ∷ cs) at))
    else none
