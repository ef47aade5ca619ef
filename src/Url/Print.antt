-- ===== src/Url/Print.antt =====
-- A URL printed from its parts, for `LoadUrl` of utils/URLAnalyzer.cpp, and which parts can be read back.
pub mod Steps
pub mod RoundTrip
use tag_etl.Codes.{s_ok}
use tag_etl.Prelude.{
  ℕ, zero, suc, ◌+◌, ◌-◌, ◌≤◌, ◌<◌, ◌≡◌, ◌≢◌, refl, ap, sym, ◌∙◌, true, false, List, [], ◌∷◌, ◌++◌,
  ◌⊎◌, Option, none, some, length, drop, take, get_or, leb, ltb, ◌==◌, if◌then◌else◌, ◌>>=◌, arith,
  length-append, length-drop, drop-drop, take-append, drop-append, take_all, Bool-cases,
}
use mathlib.Core.Path.{subst}
use mathlib.Core.List.{append-nil, append_assoc}
use tag_etl.Text.{
  Bytes, codes, index_of, find_char, substr, sub_size, index_of-append, index_of-append_none,
  starts_with,
}
use tag_etl.Url.Places.{
  At, IsFront, IsFront-append, At-front, At-length, At-append, At-suc, At-behind, substr-At,
  rest_from-At, find_char-At, find_char-none, filter_pre-At,
}
use tag_etl.Url.Scan.{is_skipped, filter_pre, find_text, index_of_text, is_prefix}
use tag_etl.Url.{
  Url, rest_from, analyze_path, home_page, analyze_port, analyze_domain, analyze_protocol,
  analyze_url, load_url,
}

-- A port stands behind a colon.
unfoldable pub print_port : Bytes → Bytes
print_port [] = []
print_port (c ∷ cs) = b':' ∷ c ∷ cs

-- A URL without its parameters.
unfoldable pub print_main : Url → Bytes
unfolding print_port
print_main u = u.protocol ++ (codes "://" ++ (u.domain ++ (print_port u.port ++ b'/' ∷ u.path)))

unfoldable pub print_url : Url → Bytes
unfolding print_main
print_url u = print_main u ++ u.param

abbrev pub Lacks : ℕ → Bytes → Type 0
Lacks c s = index_of c s ≡ none

-- A query is empty, or begins with `?`.
abbrev pub IsQuery : Bytes → Type 0
IsQuery [] = Unit
IsQuery (c ∷ cs) = c ≡ b'?'

-- The parts of a URL hold none of the bytes that end them, and nothing that is skipped in front. Where
-- no port is written, a colon in the path would begin one.
pub record IsUrl (u : Url) : Type 0 where
  pub protocol_front : IsFront u.protocol
  pub protocol_colon : Lacks b':' u.protocol
  pub protocol_query : Lacks b'?' u.protocol
  pub domain_front : IsFront u.domain
  pub domain_colon : Lacks b':' u.domain
  pub domain_slash : Lacks b'/' u.domain
  pub domain_query : Lacks b'?' u.domain
  pub port_front : IsFront u.port
  pub port_slash : Lacks b'/' u.port
  pub port_query : Lacks b'?' u.port
  pub path_front : IsFront u.path
  pub path_query : Lacks b'?' u.path
  pub path_colon : u.port ≡ [] → Lacks b':' u.path
  pub query : IsQuery u.param

abbrev pub or_old : Bytes → Bytes → Bytes
or_old [] old = old
or_old (c ∷ cs) old = c ∷ cs

-- What an analyzer holds after it has loaded a URL: an empty port and an empty query leave the old.
abbrev pub loaded : Url → Url → Url
loaded u old = record u { port = or_old u.port old.port; param = or_old u.param old.param }

pub index_of_cons : (c x : ℕ) (s : Bytes) → x ≢ c → Lacks c s → Lacks c (x ∷ s)
unfolding index_of
index_of_cons c x s n h = ground arith

-- The protocol ends before the first `://`.
colon_first :
    (xs ys : Bytes)
    → Lacks b':' xs
    → index_of_text (codes "://") (xs ++ (codes "://" ++ ys)) ≡ some (length xs)
unfolding index_of_text index_of
colon_first [] ys h = refl
colon_first (x ∷ xs) ys h = ground (arith, colon_first xs ys)

pub protocol_found :
    (xs ys : Bytes)
    → Lacks b':' xs
    → find_text (codes "://") (xs ++ (codes "://" ++ ys)) 0 ≡ some (length xs)
unfolding find_text
protocol_found xs ys h =
    let zero_add : 0 + length xs ≡ length xs = omega arith in ground (arith, colon_first xs ys h)

-- A slash or a colon is not skipped.
pub slash-IsFront : (s : Bytes) → IsFront (b'/' ∷ s)
unfolding is_skipped
slash-IsFront s = (refl, omega arith)

pub colon-IsFront : (s : Bytes) → IsFront (b':' ∷ s)
unfolding is_skipped
colon-IsFront s = (refl, omega arith)
