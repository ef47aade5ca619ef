-- ===== src/Profile/Lookup/First.antt =====
-- What the getters of utils/Profile.cpp return: a search with the trimmed names.
use tag_etl.Codes.{s_ok, error_dev_not_exist, error_invalid_parameter}
use tag_etl.Prelude.{
  ℕ, List, [], ◌∷◌, Option, none, some, if◌then◌else◌, ◌>>=◌, ◌||◌, ◌≡◌, refl, arith, ap,
  Bool-cases, inl, inr,
}
use tag_etl.Profile.Build.{Item, Section}
use tag_etl.Profile.Trimming.Reference.{tirm-trim_both}
use tag_etl.Profile.Lookup.{find_section, find_item, is_empty, item_value, value_in, get_prof_value}
use tag_etl.Text.Trim.{trim_both, trim_both_idem}
use tag_etl.Text.{Bytes, bytes_eq, is_blank}

-- The first section of a name, and the first item of a name.
unfoldable pub section_named : Bytes → List Section → Option Section
unfolding bytes_eq
section_named n [] = none
section_named n (s ∷ rest) = if bytes_eq s.name n then some s else section_named n rest

unfoldable pub item_named : Bytes → List Item → Option Item
unfolding bytes_eq
item_named n [] = none
item_named n (i ∷ rest) = if bytes_eq i.name n then some i else item_named n rest

find_section-section_named :
    (sec : Bytes) (p : List Section)
    → find_section sec p ≡ some (section_named (trim_both is_blank sec) p)
unfolding find_section section_named
find_section-section_named sec [] = refl
find_section-section_named sec (s ∷ rest) =
    let n = trim_both is_blank sec in
    ground
      (arith, tirm-trim_both sec, find_section-section_named n rest, trim_both_idem is_blank sec)

find_item-item_named :
    (itm : Bytes) (p : List Item) → find_item itm p ≡ some (item_named (trim_both is_blank itm) p)
unfolding find_item item_named
find_item-item_named itm [] = refl
find_item-item_named itm (s ∷ rest) =
    let n = trim_both is_blank itm in
    ground (arith, tirm-trim_both itm, find_item-item_named n rest, trim_both_idem is_blank itm)

-- The value of an item in a list of sections, both by their first occurrence.
unfoldable pub value_of : List Section → Bytes → Bytes → Option Bytes
unfolding section_named item_named
value_of p sec itm = section_named sec p >>= λ s. item_named itm s.items >>= λ i. some i.value

abbrev reply : Bytes → Option Bytes → ℕ × Bytes
reply old none = (error_dev_not_exist, old)
reply old (some v) = (s_ok, v)

reply-item :
    (old : Bytes) (o : Option Item) → item_value old o ≡ reply old (o >>= λ i. some i.value)
unfolding item_value
reply-item old none = refl
reply-item old (some i) = refl

value_in-reply :
    (itm old : Bytes) (o : Option Section)
    → value_in itm old o
      ≡ some
          (reply old (o >>= λ s. item_named (trim_both is_blank itm) s.items >>= λ i. some i.value))
unfolding value_in
value_in-reply itm old none = refl
value_in-reply itm old (some s) =
    rw (find_item-item_named itm s.items)
      (ap some (reply-item old (item_named (trim_both is_blank itm) s.items)))

-- `GetProfValue` never faults. It refuses an empty name; else it returns the value of the first item
-- of the trimmed name in the first section of the trimmed name, or ERROR_DEV_NOT_EXIST with its
-- output argument unchanged where there is none.
pub get_prof_value-value_of :
    (p : List Section) (sec itm old : Bytes)
    → get_prof_value p sec itm old
      ≡ some (
          if is_empty sec || is_empty itm
          then (error_invalid_parameter, old)
          else reply old (value_of p (trim_both is_blank sec) (trim_both is_blank itm)))
unfolding get_prof_value value_of
get_prof_value-value_of p sec itm old = elim (Bool-cases (is_empty sec || is_empty itm)) [
  | inl e ↦ rw e
  | inr e ↦
      rw (e, find_section-section_named sec p)
        (value_in-reply itm old (section_named (trim_both is_blank sec) p))
]
