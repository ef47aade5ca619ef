-- ===== src/Profile/Printer.antt =====
-- The ini text of a profile, as the program's configuration file is written, and which profiles can
-- be read back: the specification for `BuildProfileQueue` of utils/Profile.cpp.
pub mod Pieces
pub mod Layout
pub mod RoundTrip
use mathlib.Core.List.{append_assoc, append-nil}
use tag_etl.Codes.{s_ok}
use tag_etl.Prelude.{
  ℕ, zero, suc, ◌+◌, ◌-◌, ◌≤◌, ◌<◌, ◌≡◌, ◌≢◌, refl, sym, ap, ◌∙◌, Bool, true, false, List, [], ◌∷◌,
  ◌++◌, map, Option, none, some, inl, inr, arith, length, take, drop, ltb, ◌==◌, if◌then◌else◌,
  ◌>>=◌, Bool-cases, drop-drop, length-drop, drop_all, length-append, take-append, drop-append,
  take_all,
}
use tag_etl.Profile.Build.{
  Item, Section, Builder, Round, go_on, stop, append_item, add_section, add_item, find_or_length,
  section_line, without_comment, item_line, trimmed_line, profile_line, build_profile_queue,
}
use tag_etl.Profile.Build.Lines.{lines, run_lines}
use tag_etl.Profile.Trimming.{tirm, quot_tirm}
use tag_etl.Profile.Trimming.Reference.{tirm-trim_both, quot_tirm-trim_both}
use tag_etl.Text.Trim.{
  trim_both, trim_both_lem, trim_left, trim_right, trim_right-concat, trim_left_head,
  trim_right-append, trim_right-trim_left,
}
use tag_etl.Text.{
  Bytes, is_blank, is_quote, substr, substr-eq-some, index_of, find_char, find_char-index_of,
  starts_with, starts_with-none, index_of-append, index_of-append_none,
}

-- name="value"
unfoldable pub print_item : Item → Bytes
print_item i = i.name ++ (b'=' ∷ b'"' ∷ (i.value ++ (b'"' ∷ [])))

-- [name]
unfoldable pub print_header : Section → Bytes
print_header s = b'[' ∷ (s.name ++ (b']' ∷ []))

-- What can be written and read back.
pub record IsPlainItem (i : Item) : Type 0 where
  pub name_trimmed : trim_both is_blank i.name ≡ i.name
  pub value_trimmed : trim_both is_quote i.value ≡ i.value
  pub no_bracket : starts_with b'[' i.name ≡ false
  pub no_equals : index_of b'=' i.name ≡ none
  pub no_comment : index_of b';' i.name ≡ none
  pub no_comment_value : index_of b';' i.value ≡ none
  pub no_line : index_of b'\n' i.name ≡ none
  pub no_line_value : index_of b'\n' i.value ≡ none

pub record IsPlainName (name : Bytes) : Type 0 where
  pub trimmed : trim_both is_blank name ≡ name
  pub no_bracket : index_of b']' name ≡ none
  pub no_line : index_of b'\n' name ≡ none

-- The lines of a profile: each section's header, and its items under it.
unfoldable pub print_lines : List Section → List Bytes
unfolding print_item print_header
print_lines [] = []
print_lines (s ∷ rest) = print_header s ∷ (map print_item s.items ++ print_lines rest)

-- A line feed between the lines.
unfoldable pub join : List Bytes → Bytes
join [] = []
join (l ∷ []) = l
join (l ∷ m ∷ ls) = l ++ (b'\n' ∷ join (m ∷ ls))

unfoldable pub print_profile : List Section → Bytes
unfolding print_lines join
print_profile p = join (print_lines p) ++ b'\n' ∷ []

abbrev pub AllPlainItems : List Item → Type 0
AllPlainItems [] = Unit
AllPlainItems (i ∷ rest) = IsPlainItem i × AllPlainItems rest

abbrev pub IsPlain : List Section → Type 0
IsPlain [] = Unit
IsPlain (s ∷ rest) = IsPlainName s.name × AllPlainItems s.items × IsPlain rest
