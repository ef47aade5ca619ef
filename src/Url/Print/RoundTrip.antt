-- ===== src/Url/Print/RoundTrip.antt =====
-- `LoadUrl` of utils/URLAnalyzer.cpp reads back the parts of a printed URL.
use tag_etl.Url.Print.Steps.{domain-At, protocol_at}
use tag_etl.Url.Print.{
  print_port, print_main, print_url, Lacks, IsQuery, IsUrl, or_old, loaded, index_of_cons,
}
use tag_etl.Codes.{s_ok}
use tag_etl.Prelude.{
  ℕ, ◌+◌, ◌<◌, ◌≡◌, ◌≢◌, refl, ap, sym, ◌∙◌, [], ◌∷◌, ◌++◌, none, some, length, arith,
  length-append,
}
use mathlib.Core.Path.{subst}
use mathlib.Core.List.{append-nil}
use tag_etl.Text.{Bytes, codes, index_of, find_char, substr, index_of-append_none}
use tag_etl.Url.Places.{
  At, IsFront, At-front, At-append, substr-At, rest_from-At, find_char-At, find_char-none,
}
use tag_etl.Url.Scan.{is_skipped}
use tag_etl.Url.{Url, rest_from, analyze_protocol, load_url}

-- What the first question mark divides.
load_whole :
    (s : Bytes) (u : Url)
    → 0 < length s
    → find_char b'?' s 0 ≡ none
    → load_url s u ≡ analyze_protocol s s u
unfolding load_url
load_whole [] u h e = absurd (omega arith)
load_whole (c ∷ cs) u h e = ground arith

load_divided :
    (s main param : Bytes) (u : Url) (k : ℕ)
    → 0 < length s
    → find_char b'?' s 0 ≡ some k
    → substr s 0 k ≡ some main
    → rest_from s k ≡ some param
    → load_url s u ≡ analyze_protocol s main (record u { param = param })
unfolding load_url
load_divided [] main param u k h e m p = absurd (omega arith)
load_divided (c ∷ cs) main param u k h e m p = ground arith

divide_lem :
    (main param : Bytes) (u : Url)
    → Lacks b'?' main
    → 0 < length main
    → IsQuery param
    → load_url (main ++ param) u
      ≡ analyze_protocol (main ++ param) main (record u { param = or_old param u.param })
divide_lem main [] u lacks h q =
    rw (append-nil main) (load_whole main u h (find_char-none b'?' main lacks (At-front main)))
divide_lem main (c ∷ cs) u lacks h q =
    let s = main ++ c ∷ cs in
    let front : At s 0 (main ++ b'?' ∷ cs) = rw (← q) (At-front s) in
    let behind : At s (0 + length main) (c ∷ cs) = At-append main (c ∷ cs) (At-front s) in
    let zero_add : 0 + length main ≡ length main = omega arith in
    load_divided s main (c ∷ cs) u (length main) (omega (arith, length-append main (c ∷ cs)))
      (find_char-At b'?' main cs lacks front ∙ ap some zero_add)
      (substr-At main (c ∷ cs) (At-front s))
      (ap (rest_from s) (sym zero_add) ∙ rest_from-At (c ∷ cs) behind)

Lacks-port : (c : ℕ) (port : Bytes) → b':' ≢ c → Lacks c port → Lacks c (print_port port)
unfolding print_port index_of
Lacks-port c [] n h = refl
Lacks-port c (x ∷ xs) n h = ground arith

-- No part before the query holds a question mark.
main-Lacks : (u : Url) → IsUrl u → Lacks b'?' (print_main u)
unfolding print_main
main-Lacks u h =
    let port_on =
      index_of-append_none b'?' (print_port u.port) (b'/' ∷ u.path)
        (Lacks-port b'?' u.port (omega arith) h.port_query)
        (index_of_cons b'?' b'/' u.path (omega arith) h.path_query) in
    let domain_on = index_of-append_none b'?' u.domain _ h.domain_query port_on in
    index_of-append_none b'?' u.protocol _ h.protocol_query (
      index_of_cons b'?' b':' _ (omega arith) (
        index_of_cons b'?' b'/' _ (omega arith)
          (index_of_cons b'?' b'/' _ (omega arith) domain_on)))

print_main-length : (u : Url) → 0 < length (print_main u)
unfolding print_main
print_main-length u = omega (
  arith,
  length-append u.protocol (codes "://" ++ (u.domain ++ (print_port u.port ++ b'/' ∷ u.path))),
)

abbrev behind_protocol : Url → Bytes
behind_protocol u = u.domain ++ (print_port u.port ++ b'/' ∷ u.path)

print_main_lem : (u : Url) → print_main u ≡ u.protocol ++ (codes "://" ++ behind_protocol u)
unfolding print_main
print_main_lem u = refl

domain_place : (u : Url) → At (print_main u) (length u.protocol + 3) (behind_protocol u)
unfolding print_main
domain_place u =
    let at : 0 + length u.protocol + 3 ≡ length u.protocol + 3 = omega arith in
    subst (λ k. At (print_main u) k (behind_protocol u)) at
      (At-append (codes "://") (behind_protocol u)
        (At-append u.protocol (codes "://" ++ behind_protocol u) (At-front (print_main u))))

query-IsFront : (param : Bytes) → IsQuery param → IsFront param
unfolding is_skipped
query-IsFront [] q = (refl, omega arith)
query-IsFront (c ∷ cs) q = rw q (refl, omega arith)

-- `LoadUrl` of the text of a URL, whose parts hold none of the bytes that end them and nothing that is
-- skipped in front, returns S_OK and the parts. Where the URL has no port or no query, the analyzer
-- keeps the one that it held before.
pub load_url-print_url :
    (u old : Url) → IsUrl u → load_url (print_url u) old ≡ some (s_ok, loaded u old)
unfolding print_url
load_url-print_url u old h =
    let main = print_main u in
    let some_byte = print_main-length u in
    let front = query-IsFront u.param h.query in
    let u' : Url = record old { param = or_old u.param old.param } in
    divide_lem main u.param old (main-Lacks u h) some_byte h.query
    ∙ protocol_at main u.param front some_byte u.protocol (behind_protocol u) u' h.protocol_front
        h.protocol_colon (print_main_lem u)
    ∙ domain-At main u.param front some_byte (length u.protocol + 3) u.domain u.port u.path
        (record u' { protocol = u.protocol }) (h.domain_front, h.domain_colon, h.domain_slash)
        (h.port_front, h.port_slash) h.path_front h.path_colon (domain_place u)
