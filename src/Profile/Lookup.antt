-- ===== src/Profile/Lookup.antt =====
-- `GetProfValue` and the getters of utils/Profile.cpp. The section that is asked for is the first of
-- its name, the item the first of its name in it. A getter's output argument is passed in with its
-- old value, which an error leaves.
pub mod First
pub mod Getters
use tag_etl.Codes.{s_ok, error_dev_not_exist, error_invalid_parameter}
use tag_etl.Prelude.{
  ℕ, Bool, true, false, List, [], ◌∷◌, Option, none, some, if◌then◌else◌, ◌>>=◌, ◌||◌, ◌==◌,
}
use tag_etl.Profile.Build.{Item, Section}
use tag_etl.Profile.Trimming.{tirm}
use tag_etl.Text.Number.{ℤ, atoi}
use tag_etl.Text.{Bytes, bytes_eq}

-- Each round trims the name that is looked for once more.
unfoldable pub find_section : Bytes → List Section → Option (Option Section)
unfolding tirm bytes_eq
find_section sec [] = some none
find_section sec (s ∷ rest) =
    tirm sec >>= λ sec'. if bytes_eq s.name sec' then some (some s) else find_section sec' rest

unfoldable pub find_item : Bytes → List Item → Option (Option Item)
unfolding tirm bytes_eq
find_item itm [] = some none
find_item itm (i ∷ rest) =
    tirm itm >>= λ itm'. if bytes_eq i.name itm' then some (some i) else find_item itm' rest

abbrev pub is_empty : Bytes → Bool
is_empty [] = true
is_empty (c ∷ cs) = false

item_value : Bytes → Option Item → ℕ × Bytes
item_value old none = (error_dev_not_exist, old)
item_value old (some i) = (s_ok, i.value)

value_in : Bytes → Bytes → Option Section → Option (ℕ × Bytes)
unfolding find_item item_value
value_in itm old none = some (error_dev_not_exist, old)
value_in itm old (some s) = find_item itm s.items >>= λ i. some (item_value old i)

unfoldable pub get_prof_value : List Section → Bytes → Bytes → Bytes → Option (ℕ × Bytes)
unfolding find_section value_in
get_prof_value p sec itm old =
    if is_empty sec || is_empty itm
    then some (error_invalid_parameter, old)
    else find_section sec p >>= value_in itm old

unfoldable pub get_profile_string_w : List Section → Bytes → Bytes → Bytes → Option (ℕ × Bytes)
unfolding get_prof_value
get_profile_string_w = get_prof_value

unfoldable pub int_of : ℤ → ℕ × Bytes → ℕ × ℤ
unfolding atoi
int_of old (code, value) = if code == s_ok then (code, atoi value) else (code, old)

unfoldable pub get_profile_int_w : List Section → Bytes → Bytes → ℤ → Option (ℕ × ℤ)
unfolding get_prof_value int_of
get_profile_int_w p sec itm old = get_prof_value p sec itm [] >>= λ r. some (int_of old r)

-- atof of the C library, into the machine's numbers
module _ {Double : Type 0} (atof : Bytes → Double) where
  double_of : Double → ℕ × Bytes → ℕ × Double
  double_of old (code, value) = if code == s_ok then (code, atof value) else (code, old)

  unfoldable pub get_profile_double_w : List Section → Bytes → Bytes → Double → Option (ℕ × Double)
  unfolding get_prof_value double_of
  get_profile_double_w p sec itm old = get_prof_value p sec itm [] >>= λ r. some (double_of old r)
