-- ===== src/Runner/Auth.antt =====
-- The headers that the host adds to a request over HTTP, resolveHTTPAuth, resolveHTTPHeaderPurposes
-- and withHTTPHeader in runtime/runner.go.
pub mod Laws
use fluxplane_dex.Prelude.{
  String, not, ◌&&◌, ◌||◌, Option, none, some, [], ◌∷◌, ◌==◌, if◌then◌else◌, trim_space, append,
}
use fluxplane_dex.Prelude.Outcome.{Outcome, ok, err, ◌>>=◌}
use fluxplane_dex.Maps.{Map, get, put, get_or}
use fluxplane_dex.Capabilities.{HttpAuthRequest}

-- withHTTPHeader
abbrev pub with_http_header : Map String → String → String → Map String
with_http_header headers key value = put key value headers

abbrev pub authorization : String
authorization = "Authorization"

abbrev pub header : String → Map String → String
header key headers = trim_space (get_or "" key headers)

abbrev pub with_value : Map String → String → Outcome String → Map String
with_value headers key (ok value) =
    if value == "" then headers else with_http_header headers key value
with_value headers key (err e) = headers

-- the body of the loop of resolveHTTPHeaderPurposes
abbrev pub with_purpose : (String → Outcome String) → Map String → String → String → Map String
with_purpose secret headers key purpose =
    if key == "" || (purpose == "" || not (header key headers == ""))
    then headers
    else with_value headers key (secret purpose)

-- resolveHTTPHeaderPurposes, where `secret` gives the trimmed value of a purpose
unfoldable pub resolve_http_header_purposes :
    (String → Outcome String) → Map String → Map String → Map String
unfolding get put
resolve_http_header_purposes secret headers [] = headers
resolve_http_header_purposes secret headers ((key, purpose) ∷ purposes) =
    resolve_http_header_purposes secret
      (with_purpose secret headers (trim_space key) (trim_space purpose)) purposes

-- the value of a purpose, or a blank text for no purpose
abbrev pub optional_secret : (String → Outcome String) → String → Outcome String
optional_secret secret purpose = if purpose == "" then ok "" else secret purpose

-- the value of a bearer token, where there is one
abbrev pub bearer : (String → Outcome String) → String → Option String
bearer secret purpose = if purpose == "" then none else elim (secret purpose) [
  | ok value ↦ if value == "" then none else some value
  | err e ↦ none
]

-- the header for a user name and a password
abbrev pub with_basic : (String → String) → Map String → String → String → Map String
with_basic base64 headers username password =
    if username == "" && password == ""
    then headers
    else with_http_header headers authorization
        (append "Basic " (base64 (append username (append ":" password))))

-- the branch for a user name and a password; without the two purposes both values are blank, and no
-- header is added
abbrev pub basic_headers :
    (String → String)
    → (String → Outcome String)
    → Map String
    → HttpAuthRequest
    → Outcome (Map String)
basic_headers base64 secret headers auth = do
  username ← optional_secret secret (trim_space auth.username_purpose)
  password ← optional_secret secret (trim_space auth.password_purpose)
  ok (with_basic base64 headers username password)

-- the headers with an Authorization, before the purposes of other headers
abbrev pub authorized :
    (String → String)
    → (String → Outcome String)
    → Map String
    → HttpAuthRequest
    → Option String
    → Outcome (Map String)
authorized base64 secret headers auth (some token) =
    ok (with_http_header headers authorization (append "Bearer " token))
authorized base64 secret headers auth none = basic_headers base64 secret headers auth

unfoldable pub resolve_http_auth :
    (String → String)
    → (String → Outcome String)
    → Map String
    → HttpAuthRequest
    → Outcome (Map String)
unfolding resolve_http_header_purposes get put
resolve_http_auth base64 secret headers auth = do
  hs ←
      if not (header authorization headers == "")
      then ok headers
      else authorized base64 secret headers auth
          (bearer secret (trim_space auth.bearer_token_purpose))
  ok (resolve_http_header_purposes secret hs auth.header_purposes)
