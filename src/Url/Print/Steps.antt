-- ===== src/Url/Print/Steps.antt =====
-- The steps of `AnalyzeUrl` of utils/URLAnalyzer.cpp, each at the place of its part.
use tag_etl.Url.Print.{
  print_port, Lacks, or_old, index_of_cons, protocol_found, slash-IsFront, colon-IsFront,
}
use tag_etl.Codes.{s_ok}
use tag_etl.Prelude.{
  ℕ, ◌+◌, ◌<◌, ◌≡◌, refl, ap, ◌∙◌, [], ◌∷◌, ◌++◌, some, length, arith, length-append,
}
use tag_etl.Text.{Bytes, codes, substr, sub_size, index_of-append_none}
use tag_etl.Url.Places.{
  At, IsFront, IsFront-append, At-front, At-append, At-suc, At-behind, substr-At, rest_from-At,
  find_char-At, find_char-none, filter_pre-At,
}
use tag_etl.Url.Scan.{filter_pre, find_text}
use tag_etl.Url.{Url, analyze_path, analyze_port, analyze_domain, analyze_protocol}

module _ (main param : Bytes) (front : IsFront param) (some_byte : 0 < length main) where
  url_length : 0 < length (main ++ param)
  url_length = omega (arith, length-append main param)

  skip-At :
      (pos : ℕ) (rest : Bytes)
      → IsFront rest
      → At main pos rest
      → filter_pre (main ++ param) pos ≡ some pos
  skip-At pos rest f h =
      filter_pre-At (rest ++ param) url_length (IsFront-append rest param f front)
        (At-behind rest param h)

  path-At :
      (pos : ℕ) (path : Bytes) (u : Url)
      → IsFront path
      → At main pos path
      → analyze_path (main ++ param) main pos u ≡ some (s_ok, record u { path = path })
  unfolding analyze_path
  path-At pos path u f h = rw (skip-At pos path f h) (rw (rest_from-At path h) refl)

  sub_size-add : (pos n : ℕ) → sub_size (pos + n) pos ≡ n
  sub_size-add pos n = ground arith

  cut-At :
      (pos : ℕ) (xs ys : Bytes)
      → At main pos (xs ++ ys)
      → substr main pos (sub_size (pos + length xs) pos) ≡ some xs
  cut-At pos xs ys h = ap (substr main pos) (sub_size-add pos (length xs)) ∙ substr-At xs ys h

  port-At :
      (pos : ℕ) (port path : Bytes) (u : Url)
      → IsFront port
      → Lacks b'/' port
      → IsFront path
      → At main pos (port ++ b'/' ∷ path)
      → analyze_port (main ++ param) main pos u ≡ some (s_ok, record u { port = port; path = path })
  unfolding analyze_port
  port-At pos port path u f slash f' h =
      let next = At-suc b'/' path (At-append port (b'/' ∷ path) h) in
      ground (
        arith,
        skip-At pos _ (IsFront-append port (b'/' ∷ path) f (slash-IsFront path)) h,
        find_char-At b'/' port path slash h,
        cut-At pos port (b'/' ∷ path) h,
        path-At (pos + length port + 1) path (record u { port = port }) f' next,
      )

  pub domain-At :
      (pos : ℕ) (domain port path : Bytes) (u : Url)
      → IsFront domain × Lacks b':' domain × Lacks b'/' domain
      → IsFront port × Lacks b'/' port
      → IsFront path
      → (port ≡ [] → Lacks b':' path)
      → At main pos (domain ++ (print_port port ++ b'/' ∷ path))
      → analyze_domain (main ++ param) main pos u
        ≡ some (s_ok, record u { domain = domain; port = or_old port u.port; path = path })
  unfolding analyze_domain print_port
  domain-At pos domain [] path u (f, colon, slash) (fp, ps) f' no_colon h =
      let next = At-suc b'/' path (At-append domain (b'/' ∷ path) h) in
      let lacks : Lacks b':' (b'/' ∷ path) =
        index_of_cons b':' b'/' path (omega arith) (no_colon refl) in
      ground (
        arith,
        skip-At pos _ (IsFront-append domain (b'/' ∷ path) f (slash-IsFront path)) h,
        find_char-none b':' _ (index_of-append_none b':' domain (b'/' ∷ path) colon lacks) h,
        find_char-At b'/' domain path slash h,
        cut-At pos domain (b'/' ∷ path) h,
        path-At (pos + length domain + 1) path (record u { domain = domain }) f' next,
      )
  domain-At pos domain (c ∷ cs) path u (f, colon, slash) (fp, ps) f' no_colon h =
      let rest = c ∷ (cs ++ b'/' ∷ path) in
      let next = At-suc b':' rest (At-append domain (b':' ∷ rest) h) in
      ground (
        arith,
        skip-At pos _ (IsFront-append domain (b':' ∷ rest) f (colon-IsFront rest)) h,
        find_char-At b':' domain rest colon h,
        cut-At pos domain (b':' ∷ rest) h,
        port-At (pos + length domain + 1) (c ∷ cs) path (record u { domain = domain }) fp ps f'
            next,
      )

  pub protocol_at :
      (protocol rest : Bytes) (u : Url)
      → IsFront protocol
      → Lacks b':' protocol
      → main ≡ protocol ++ (codes "://" ++ rest)
      → analyze_protocol (main ++ param) main u
        ≡ analyze_domain
            (main ++ param)
            main
            (length protocol + 3)
            (record u { protocol = protocol })
  unfolding analyze_protocol
  protocol_at protocol rest u f colon e =
      let zero_add : 0 + length protocol ≡ length protocol = omega arith in
      let here : At main 0 (protocol ++ (codes "://" ++ rest)) = rw (← e) (At-front main) in
      ground (
        arith,
        skip-At 0 _
            (IsFront-append protocol (codes "://" ++ rest) f (colon-IsFront (b'/' ∷ b'/' ∷ rest)))
            here,
        ap (λ s. find_text (codes "://") s 0) e ∙ protocol_found protocol rest colon,
        cut-At 0 protocol (codes "://" ++ rest) here,
      )
