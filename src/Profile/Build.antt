-- ===== src/Profile/Build.antt =====
-- `CProfile::BuildProfileQueue` of utils/Profile.cpp: from the text of a file to the linked lists of
-- sections and items, which are lists here. `none` is undefined behaviour: an item before any
-- section, or a section added by a second load, is linked to through a null pointer.
pub mod Lines
use tag_etl.Codes.{s_ok, error_bad_format, error_invalid_parameter}
use tag_etl.Prelude.{
  ℕ, zero, suc, ◌+◌, ◌-◌, Bool, true, false, List, [], ◌∷◌, ◌++◌, Option, none, some, length, ltb,
  ◌==◌, if◌then◌else◌, ◌>>=◌,
}
use tag_etl.Profile.Trimming.{tirm, quot_tirm}
use tag_etl.Text.{Bytes, substr, find_char}

pub record Item : Type 0 where
  pub name : Bytes
  pub value : Bytes

pub record Section : Type 0 where
  pub name : Bytes
  pub items : List Item

-- pProfile, and whether plstSecNode is set: it is the last section then.
pub record Builder : Type 0 where
  pub sections : List Section
  pub has_last : Bool

-- What a line leads to: the next round of the loop, or `goto e_exit` with a code.
pub data Round : Type 0 where
  go_on : Builder → Round
  stop : ℕ → Builder → Round

-- (*pLstItmNode).next = pItmNode in the last section, or its pItemList where that is empty
unfoldable pub append_item : List Section → Item → List Section
append_item [] i = []
append_item (s ∷ []) i = record s { items = s.items ++ i ∷ [] } ∷ []
append_item (s ∷ t ∷ ts) i = s ∷ append_item (t ∷ ts) i

unfoldable pub link_section : List Section → Bool → Section → Option Builder
link_section [] last s = some (record { sections = s ∷ []; has_last = true })
link_section (t ∷ ts) true s = some (record { sections = t ∷ (ts ++ s ∷ []); has_last = true })
link_section (t ∷ ts) false s = none

unfoldable pub add_section : Builder → Bytes → Option Round
unfolding link_section
add_section b name =
    link_section b.sections b.has_last (record { name = name; items = [] }) >>= λ b'.
    some (go_on b')

unfoldable pub add_item : Builder → Item → Option Round
unfolding append_item
add_item b i =
    if b.has_last then some (go_on (record b { sections = append_item b.sections i })) else none

-- s.find(c, pos) == string::npos ? s.length() : s.find(c, pos)
unfoldable pub find_or_length : ℕ → Bytes → ℕ → ℕ
unfolding find_char
find_or_length c s pos = elim (find_char c s pos) [ none ↦ length s | some k ↦ k ]

unfoldable pub section_line : Builder → Bytes → Option Round
unfolding add_section find_char substr tirm
section_line b line = elim (find_char b']' line 1) [
  | none ↦ some (stop error_bad_format b)
  | some t_pos ↦ substr line 1 (t_pos - 1) >>= tirm >>= add_section b
]

-- A comment behind an item is cut off.
unfoldable pub without_comment : Bytes → Option Bytes
unfolding find_or_length substr tirm
without_comment line =
    let t_pos = find_or_length b';' line 0 in
    if ltb t_pos (length line) then substr line 0 t_pos >>= tirm else some line

unfoldable pub item_line : Builder → Bytes → Option Round
unfolding add_item find_char substr tirm quot_tirm
item_line b line = elim (find_char b'=' line 0) [
  | none ↦ some (stop error_bad_format b)
  | some t_pos ↦ do
    name ← substr line 0 t_pos >>= tirm
    value ← substr line (t_pos + 1) (length line) >>= tirm >>= quot_tirm
    add_item b (record { name = name; value = value })
]

-- The body of the loop, behind `tirm(strtLine)`.
unfoldable pub trimmed_line : Builder → Bytes → Option Round
unfolding section_line without_comment item_line
trimmed_line b [] = some (go_on b)
trimmed_line b (c ∷ cs) =
    if c == b';'
    then some (go_on b)
    else if c == b'['
    then section_line b (c ∷ cs)
    else without_comment (c ∷ cs) >>= item_line b

unfoldable pub profile_line : Builder → Bytes → Option Round
unfolding trimmed_line tirm
profile_line b line = tirm line >>= trimmed_line b

-- while(pos < strtProf.length()), on fuel
unfoldable pub build_loop : ℕ → Bytes → ℕ → Builder → Option Round
unfolding profile_line find_or_length substr
build_loop zero s pos b = none
build_loop (suc fuel) s pos b =
    let t_pos = find_or_length b'\n' s pos in
    let next = substr s pos (t_pos - pos) >>= profile_line b >>= elim [
      | go_on b' ↦ build_loop fuel s (t_pos + 1) b'
      | stop code b' ↦ some (stop code b')
    ] in
    if ltb pos (length s) then next else some (go_on b)

-- e_exit: an error releases what was built.
unfoldable pub finish_build : Round → ℕ × List Section
finish_build (go_on b) = (s_ok, b.sections)
finish_build (stop code b) = (code, [])

unfoldable pub build_trimmed : List Section → Bytes → Option (ℕ × List Section)
unfolding build_loop finish_build
build_trimmed old [] = some (error_invalid_parameter, old)
build_trimmed old (c ∷ cs) =
    build_loop (length (c ∷ cs) + 2) (c ∷ cs) 0 (record { sections = old; has_last = false })
    >>= λ round. some (finish_build round)

-- The code, and pProfile as it is left.
unfoldable pub build_profile_queue : List Section → Bytes → Option (ℕ × List Section)
unfolding build_trimmed tirm
build_profile_queue old prof = tirm prof >>= build_trimmed old
