-- ===== src/Url.antt =====
-- `CURLAnalyzer` of utils/URLAnalyzer.cpp. `none` is an exception of `substr` or a read behind the
-- end of a text: the text's own length still reads a zero byte.
pub mod Scan
pub mod Decode
pub mod Select
pub mod Query
pub mod Places
pub mod Print
use tag_etl.Codes.{s_ok, error_invalid_parameter}
use tag_etl.Prelude.{
  ℕ, zero, suc, ◌+◌, ◌-◌, ◌*◌, ◌%◌, Bool, true, false, ◌&&◌, ◌||◌, List, [], ◌∷◌, ◌++◌, Option,
  none, some, length, take, drop, get_or, ltb, leb, ◌==◌, if◌then◌else◌, ◌>>=◌,
}
use tag_etl.Profile.Build.{find_or_length}
use tag_etl.Profile.Lookup.{is_empty}
use tag_etl.Text.Number.{to_uint, neg, is_space, ℤ}
use tag_etl.Text.Trim.{lead}
use tag_etl.Url.Decode.{url_to_utf8}
use tag_etl.Url.Scan.{find_text, filter_pre, filter_bac}
use tag_etl.Profile.Load.{c_string}
use tag_etl.Text.{Bytes, codes, sub_size, substr, find_char}

-- ERR_INVALID_URL, STA_CANT_FIND
abbrev pub err_invalid_url : ℕ
err_invalid_url = 0x90000100

abbrev pub sta_cant_find : ℕ
sta_cant_find = 0x90010100

pub record Url : Type 0 where
  pub protocol : Bytes
  pub domain : Bytes
  pub port : Bytes
  pub path : Bytes
  pub param : Bytes

abbrev pub no_url : Url
no_url = record { protocol = []; domain = []; port = []; path = []; param = [] }

-- behind `pos`, to the end
unfoldable pub rest_from : Bytes → ℕ → Option Bytes
unfolding substr
rest_from s pos = substr s pos (sub_size (length s) pos)

-- analyze path
pub analyze_path : Bytes → Bytes → ℕ → Url → Option (ℕ × Url)
unfolding filter_pre rest_from
analyze_path url t_url pos u = do
  pos' ← filter_pre url pos
  path ← rest_from t_url pos'
  some (s_ok, record u { path = path })

-- A home page has nothing behind its domain or its port.
pub home_page : Bytes → ℕ → (Bytes → Url) → Url → Option (ℕ × Url)
unfolding rest_from
home_page t_url pos set u =
    if length t_url == pos
    then some (err_invalid_url, u)
    else (rest_from t_url pos >>= λ s. some (s_ok, set s))

-- analyze port
pub analyze_port : Bytes → Bytes → ℕ → Url → Option (ℕ × Url)
unfolding filter_pre home_page analyze_path find_char substr
analyze_port url t_url pos u = do
  pos' ← filter_pre url pos
  elim (find_char b'/' t_url pos') [
    | none ↦ home_page t_url pos' (λ s. record u { port = s }) u
    | some s_pos ↦ do
      port ← substr t_url pos' (sub_size s_pos pos')
      analyze_path url t_url (s_pos + 1) (record u { port = port })
  ]

-- analyze domain
pub analyze_domain : Bytes → Bytes → ℕ → Url → Option (ℕ × Url)
unfolding filter_pre home_page analyze_port analyze_path find_char substr
analyze_domain url t_url pos u = do
  pos' ← filter_pre url pos
  elim (find_char b':' t_url pos') [
    | some s_pos ↦ do
      domain ← substr t_url pos' (sub_size s_pos pos')
      analyze_port url t_url (s_pos + 1) (record u { domain = domain })
    | none ↦ elim (find_char b'/' t_url pos') [
      | none ↦ home_page t_url pos' (λ s. record u { domain = s }) u
      | some s_pos ↦ do
        domain ← substr t_url pos' (sub_size s_pos pos')
        analyze_path url t_url (s_pos + 1) (record u { domain = domain })
    ]
  ]

-- analyze protocol
pub analyze_protocol : Bytes → Bytes → Url → Option (ℕ × Url)
unfolding filter_pre analyze_domain find_text substr
analyze_protocol url t_url u = do
  pos ← filter_pre url 0
  elim (find_text (codes "://") t_url 0) [
    | none ↦ analyze_domain url t_url pos u
    | some s_pos ↦ do
      protocol ← substr t_url pos (sub_size s_pos pos)
      analyze_domain url t_url (s_pos + 3) (record u { protocol = protocol })
  ]

unfoldable pub analyze_url : Bytes → Url → Option (ℕ × Url)
unfolding analyze_protocol find_char substr rest_from
analyze_url [] u = some (error_invalid_parameter, u)
analyze_url (c ∷ cs) u = elim (find_char b'?' (c ∷ cs) 0) [
  | none ↦ analyze_protocol (c ∷ cs) (c ∷ cs) u
  | some s_pos ↦ do
    t_url ← substr (c ∷ cs) 0 s_pos
    param ← rest_from (c ∷ cs) s_pos
    analyze_protocol (c ∷ cs) t_url (record u { param = param })
]

unfoldable pub load_url : Bytes → Url → Option (ℕ × Url)
unfolding analyze_url
load_url [] u = some (error_invalid_parameter, u)
load_url (c ∷ cs) u = analyze_url (c ∷ cs) u

abbrev pub release_url : Url → Url
release_url u = no_url

-- Whether a name that ends at `pos`, and begins behind `pre_pos`, is a parameter.
unfoldable pub is_param : Bytes → ℕ → ℕ → Bool
is_param s pos pre_pos =
    get_or s pos 0 == b'=' && (get_or s pre_pos 0 == b'?' || get_or s pre_pos 0 == b'&')

-- The loop of do_SelectParam, on fuel: the position of the `=`. A name at position 0 makes prePos wrap,
-- which reads outside.
unfoldable pub select_loop : ℕ → Bytes → Bytes → ℕ → Option (Option ℕ)
unfolding find_text filter_pre filter_bac is_param
select_loop zero name s pos = none
select_loop (suc fuel) name s pos = elim (find_text name s pos) [
  | none ↦ some none
  | some zero ↦ none
  | some (suc pre_pos) ↦ do
    pos' ← filter_pre s (suc pre_pos + length name)
    pre_pos' ← filter_bac s pre_pos
    let again = select_loop fuel name s pos'
    if is_param s pos' pre_pos' then some (some pos') else again
]

pub value_at : Bytes → Bytes → Option ℕ → Option (ℕ × Bytes)
unfolding url_to_utf8 find_or_length substr
value_at s old none = some (sta_cant_find, old)
value_at s old (some pos) = do
  value ← substr s (pos + 1) (find_or_length b'&' s (pos + 1) - (pos + 1))
  some (url_to_utf8 value old)

unfoldable pub do_select_param : Bytes → Url → Bytes → Option (ℕ × Bytes)
unfolding filter_pre select_loop value_at
do_select_param name u old =
    if is_empty name || is_empty u.param then some (error_invalid_parameter, old) else do
      pos ← filter_pre u.param 0
      at ← select_loop (suc (length u.param)) name u.param pos
      value_at u.param old at

unfoldable pub select_param : Bytes → Url → Bytes → Option (ℕ × Bytes)
unfolding do_select_param
select_param name u old =
    if is_empty name || is_empty u.param
    then some (error_invalid_parameter, old)
    else do_select_param name u old
