-- ===== src/Profile/Lookup/Getters.antt =====
-- The getters of utils/Profile.cpp where the item is there.
use tag_etl.Codes.{s_ok}
use tag_etl.Prelude.{◌≡◌, refl, ap, ◌∙◌, false, List, [], some, ◌||◌, ◌>>=◌}
use tag_etl.Profile.Build.{Section}
use tag_etl.Profile.Lookup.First.{get_prof_value-value_of, value_of}
use tag_etl.Profile.Lookup.{
  get_prof_value, get_profile_int_w, get_profile_string_w, int_of, is_empty,
}
use tag_etl.Text.Number.{ℤ, atoi}
use tag_etl.Text.Trim.{trim_both}
use tag_etl.Text.{Bytes, is_blank}

-- A getter of a name that has no blanks at its ends.
pub get_prof_value-s_ok :
    (p : List Section) (sec itm old v : Bytes)
    → (is_empty sec || is_empty itm) ≡ false
    → trim_both is_blank sec ≡ sec
    → trim_both is_blank itm ≡ itm
    → value_of p sec itm ≡ some v
    → get_prof_value p sec itm old ≡ some (s_ok, v)
get_prof_value-s_ok p sec itm old v h s i e =
    get_prof_value-value_of p sec itm old ∙ rw (h, s, i, e) refl

pub get_profile_string_w-s_ok :
    (p : List Section) (sec itm old v : Bytes)
    → (is_empty sec || is_empty itm) ≡ false
    → trim_both is_blank sec ≡ sec
    → trim_both is_blank itm ≡ itm
    → value_of p sec itm ≡ some v
    → get_profile_string_w p sec itm old ≡ some (s_ok, v)
unfolding get_profile_string_w
get_profile_string_w-s_ok p sec itm old v h s i e = get_prof_value-s_ok p sec itm old v h s i e

pub get_profile_int_w-s_ok :
    (p : List Section) (sec itm v : Bytes) (old : ℤ)
    → (is_empty sec || is_empty itm) ≡ false
    → trim_both is_blank sec ≡ sec
    → trim_both is_blank itm ≡ itm
    → value_of p sec itm ≡ some v
    → get_profile_int_w p sec itm old ≡ some (s_ok, atoi v)
unfolding get_profile_int_w
get_profile_int_w-s_ok p sec itm v old h s i e =
    ap (λ o. o >>= λ r. some (int_of old r)) (get_prof_value-s_ok p sec itm [] v h s i e)
