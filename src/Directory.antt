-- ===== src/Directory.antt =====
-- `CDirectory` of utils/Directory.cpp. The system answers each call as a function of the calls so far,
-- the call itself in front.
pub mod Entries
use tag_etl.Codes.{
  s_ok, error_invalid_parameter, error_dir_aready_exist, error_dir_not_exist, error_dir_create,
  error_dir_remove, error_dir_cannot_open,
}
use tag_etl.Prelude.{
  ℕ, suc, ◌-◌, Bool, true, false, List, [], ◌∷◌, ◌++◌, Option, none, some, length, get_or, not,
  ◌||◌, ◌&&◌, ◌==◌, if◌then◌else◌,
}
use tag_etl.Profile.Lookup.{is_empty}
use tag_etl.Text.{Bytes, bytes_eq, codes}

pub data Call : Type 0 where
  mkdir rmdir opendir : Bytes → Call

-- Whether mkdir and rmdir succeed, and the names in a directory that opendir opens.
pub record System : Type 0 where
  pub succeeds : List Call → Bool
  pub entries : List Call → Option (List Bytes)

-- The text is not empty.
unfoldable pub add_dir_end_symb : Bytes → Bytes
add_dir_end_symb s = if get_or s (length s - 1) 0 == b'/' then s else s ++ (b'/' ∷ [])

unfoldable pub has_entry : List Bytes → Bool
has_entry [] = false
has_entry (name ∷ names) =
    let rest = has_entry names in
    if bytes_eq name (codes ".") || bytes_eq name (codes "..") then rest else true

abbrev is_none : {A : Type 0} → Option A → Bool
is_none none = true
is_none (some a) = false

module _ (env : System) where
  -- The calls made are given and returned. What opendir opens is never closed.
  unfoldable pub is_dir_exist : Bytes → List Call → Bool × List Call
  is_dir_exist path calls =
      let calls' = opendir (add_dir_end_symb path) ∷ calls in
      if is_empty path then (false, calls) else (not (is_none (env.entries calls')), calls')

  unfoldable pub make_dir : Bytes → List Call → ℕ × List Call
  make_dir path calls =
      let r = is_dir_exist path calls in
      let calls' = mkdir (add_dir_end_symb path) ∷ r.1 in
      if is_empty path
      then (error_invalid_parameter, calls)
      else if r.0
      then (error_dir_aready_exist, r.1)
      else if env.succeeds calls'
      then (s_ok, calls')
      else (error_dir_create, calls')

  unfoldable pub remove_dir : Bytes → List Call → ℕ × List Call
  remove_dir path calls =
      let r = is_dir_exist (add_dir_end_symb path) calls in
      let calls' = rmdir (add_dir_end_symb path) ∷ r.1 in
      if is_empty path
      then (error_invalid_parameter, calls)
      else if not r.0
      then (error_dir_not_exist, r.1)
      else if env.succeeds calls'
      then (s_ok, calls')
      else (error_dir_remove, calls')

  -- A code as bool is true where it is not 0.
  abbrev to_bool : ℕ → Bool
  to_bool code = not (code == 0)

  unfoldable pub is_empty_dir : Bytes → List Call → Bool × List Call
  is_empty_dir path calls =
      let r = is_dir_exist path calls in
      let calls' = opendir (add_dir_end_symb path) ∷ r.1 in
      if is_empty path
      then (to_bool error_invalid_parameter, calls)
      else if not r.0
      then (to_bool error_invalid_parameter, r.1)
      else elim (env.entries calls') [
        | none ↦ (to_bool error_dir_cannot_open, calls')
        | some names ↦ (not (has_entry names), calls')
      ]
