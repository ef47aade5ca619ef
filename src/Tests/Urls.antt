-- ===== src/Tests/Urls.antt =====
-- The theorems on URLs at concrete inputs.
use tag_etl.Codes.{s_ok}
use tag_etl.Prelude.{[], ◌∷◌, some, ◌≡◌, refl, arith, ◌>>=◌}
use tag_etl.Text.Converter.{digit_char}
use tag_etl.Text.{codes, index_of}
use tag_etl.Url.Decode.RoundTrip.{encode, url_to_utf8-encode}
use tag_etl.Url.Decode.{url_to_utf8}
use tag_etl.Url.Print.RoundTrip.{load_url-print_url}
use tag_etl.Url.Print.{IsUrl, print_url}
use tag_etl.Url.Query.Selected.{select_param-value_of}
use tag_etl.Url.Query.{IsPlain, ArePlain, print_params, value_of}
use tag_etl.Url.Scan.{is_skipped}
use tag_etl.Url.{Url, load_url, no_url, select_param}

url_to_utf8-encode_example : url_to_utf8 (codes "%41%20%ff") [] ≡ (s_ok, b'A' ∷ b' ' ∷ 255 ∷ [])
unfolding encode digit_char
url_to_utf8-encode_example =
    url_to_utf8-encode b'A' (b' ' ∷ 255 ∷ []) [] (omega arith, (omega arith, (omega arith, tt)))

select_run :
    (load_url (codes "http://a.com:80/x?k=%41&q=1") no_url >>= λ r. select_param (codes "q") r.1 [])
    ≡ some (s_ok, codes "1")
unfolding load_url select_param
select_run = refl

abbrev page : Url
page = record {
  protocol = codes "http";
  domain = codes "a.com";
  port = codes "80";
  path = codes "x";
  param = codes "?k=1";
}

page-IsUrl : IsUrl page
unfolding index_of is_skipped
page-IsUrl = record {
  protocol_front = (refl, omega arith);
  protocol_colon = refl;
  protocol_query = refl;
  domain_front = (refl, omega arith);
  domain_colon = refl;
  domain_slash = refl;
  domain_query = refl;
  port_front = (refl, omega arith);
  port_slash = refl;
  port_query = refl;
  path_front = (refl, omega arith);
  path_query = refl;
  path_colon = λ e. refl;
  query = refl;
}

load_url-print_url_example : load_url (codes "http://a.com:80/x?k=1") no_url ≡ some (s_ok, page)
unfolding print_url
load_url-print_url_example = load_url-print_url page no_url page-IsUrl

-- The port and the query of the URL before are left.
stale_run :
    load_url (codes "http://b.org/y") page
    ≡ some (s_ok, record page { domain = codes "b.org"; path = codes "y" })
unfolding load_url
stale_run = refl

-- A colon in the path of a URL with no port begins a port.
colon_run :
    load_url (codes "http://a.com/x:y/z") no_url
    ≡ some (
      s_ok,
      record no_url {
        protocol = codes "http";
        domain = codes "a.com/x";
        port = codes "y";
        path = codes "z";
      },
    )
unfolding load_url
colon_run = refl

-- A question mark in a value begins a parameter.
mark_run :
    select_param (codes "b") (record no_url { param = codes "?a=?b=1&b=2" }) []
    ≡ some (s_ok, codes "1")
unfolding select_param
mark_run = refl

q-IsPlain : IsPlain (codes "q")
unfolding is_skipped
q-IsPlain = (refl, refl, omega arith, omega arith, tt)

k-IsPlain : IsPlain (codes "kq")
unfolding is_skipped
k-IsPlain = (refl, refl, omega arith, omega arith, q-IsPlain)

params-ArePlain :
    ArePlain ((codes "kq", codes "A") ∷ (codes "q", codes " B") ∷ (codes "q", codes "1") ∷ [])
params-ArePlain = (
  k-IsPlain,
  (omega arith, tt),
  (q-IsPlain, (omega arith, (omega arith, tt)), (q-IsPlain, (omega arith, tt), tt)),
)

select_param-value_of_example :
    select_param (codes "q") (record no_url { param = codes "?kq=%41&q=%20%42&q=%31" }) []
    ≡ some (s_ok, codes " B")
unfolding print_params value_of digit_char
select_param-value_of_example =
    select_param-value_of (codes "q") q-IsPlain [] (codes "kq") (codes "A")
      ((codes "q", codes " B") ∷ (codes "q", codes "1") ∷ []) (omega arith) params-ArePlain
      (record no_url { param = codes "?kq=%41&q=%20%42&q=%31" }) refl
