-- ===== src/HttpClient.antt =====
-- `CHttpClient` of utils/HttpClient.cpp. What libcurl does is the parameter `Curl`: the parts of the
-- answer that it hands to the write function, one after the other, for the options that are set.
use tag_etl.Prelude.{ℕ, ◌*◌, List, [], ◌∷◌, ◌++◌, take}
use tag_etl.Profile.Load.{c_string}
use tag_etl.Text.{Bytes}

-- The options that the class sets; those of the write function are the function and its object.
pub data CurlOption : Type 0 where
  no_signal timeout_ms : ℕ → CurlOption
  write_function write_data : CurlOption
  url : Bytes → CurlOption

-- A part with the size and the number of its members.
pub record Part : Type 0 where
  pub size : ℕ
  pub nmemb : ℕ
  pub buffer : Bytes

pub record Curl : Type 0 where
  pub parts : List CurlOption → List Part

-- What is set in m_curl, the last option in front, and m_httpBody.
pub record HttpClient : Type 0 where
  pub options : List CurlOption
  pub http_body : Bytes

abbrev pub curl_timeout_threshold : ℕ
curl_timeout_threshold = 1000

abbrev setopt : CurlOption → HttpClient → HttpClient
setopt o c = record c { options = o ∷ c.options }

-- The constructor.
unfoldable pub new_http_client : HttpClient
new_http_client = setopt (timeout_ms curl_timeout_threshold) (
    setopt write_data
      (setopt write_function (setopt (no_signal 1) (record { options = []; http_body = [] }))))

unfoldable pub fill_body : Bytes → ℕ → HttpClient → HttpClient
fill_body b n c = record c { http_body = c.http_body ++ take n b }

unfoldable pub receive_data : Part → HttpClient → ℕ × HttpClient
unfolding fill_body
receive_data p c = (p.size * p.nmemb, fill_body p.buffer (p.size * p.nmemb) c)

-- curl_easy_perform, which calls the write function with each part
unfoldable pub receive_all : List Part → HttpClient → HttpClient
unfolding receive_data
receive_all [] c = c
receive_all (p ∷ ps) c = receive_all ps (receive_data p c).1

-- The body, and the object.
unfoldable pub get : Curl → Bytes → HttpClient → Bytes × HttpClient
unfolding receive_all
get curl address c =
    let cleared = setopt (url (c_string address)) (record c { http_body = [] }) in
    let c' = receive_all (curl.parts cleared.options) cleared in (c'.http_body, c')
