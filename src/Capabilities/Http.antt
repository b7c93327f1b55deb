-- ===== src/Capabilities/Http.antt =====
-- HTTP on behalf of a plugin, LocalCapabilityHost.HTTP, httpRequestURL and allowedHTTPMethod in
-- runtime/capabilities.go. net/url and net/http are parameters; durations are nanoseconds of 64 bits.
use fluxplane_dex.Prelude.{
  ℕ, zero, suc, ◌-◌, ◌*◌, ◌%◌, ◌^◌, String, Bool, not, ◌||◌, List, [], ◌∷◌, ◌++◌, ◌==◌,
  if◌then◌else◌, ltb, trim_space, to_upper, append,
}
use fluxplane_dex.Prelude.Int.{ℤ, pos, negsuc}
use fluxplane_dex.Prelude.Outcome.{Outcome, ok, err, ◌>>=◌}
use fluxplane_dex.Prelude.Slices.{trim_left_of, trim_right_of, char_in}
use fluxplane_dex.Prelude.Unique.{mem}
use fluxplane_dex.Maps.{Map, put, get_or}
use fluxplane_dex.Capabilities.{Bytes, HttpRequest, HttpResponse}
use fluxplane_dex.Capabilities.Local.{bounded_http_max_bytes, cut_to}

abbrev methods : List String
methods = "GET" ∷ "HEAD" ∷ "POST" ∷ "PUT" ∷ "PATCH" ∷ "DELETE" ∷ "OPTIONS" ∷ []

unfoldable pub allowed_http_method : String → Bool
allowed_http_method method = mem ◌==◌ (to_upper (trim_space method)) methods

-- the method of a request, in capitals, and "GET" for none
unfoldable pub request_method : String → String
request_method method = let m = to_upper (trim_space method) in if m == "" then "GET" else m

-- the value of 64 bits as a signed number
abbrev pub signed : ℕ → ℤ
signed m = if ltb m (2 ^ 63) then pos m else negsuc ((2 ^ 64 - m) - 1)

-- time.Duration(ms) * time.Millisecond, with its overflow
unfoldable pub milliseconds : ℤ → ℤ
milliseconds (pos n) = signed ((n * 10 ^ 6) % 2 ^ 64)
milliseconds (negsuc n) = signed ((2 ^ 64 - (suc n * 10 ^ 6) % 2 ^ 64) % 2 ^ 64)

abbrev pub minute : ℕ
minute = 60 * 10 ^ 9

abbrev within_minute : ℤ → ℕ
within_minute (pos zero) = 30 * 10 ^ 9
within_minute (pos (suc n)) = if ltb minute (suc n) then 30 * 10 ^ 9 else suc n
within_minute (negsuc n) = 30 * 10 ^ 9

unfoldable pub request_timeout : ℤ → ℕ
unfolding milliseconds
request_timeout ms = within_minute (milliseconds ms)

-- net/url
pub record UrlApi : Type 1 where
  pub Url : Type 0
  pub parse : String → Outcome Url
  pub path : Url → String
  pub escaped_path : Url → String
  pub path_unescape : String → Outcome String
  pub with_path : String → Url → Url
  pub with_raw_path : String → Url → Url
  pub query : Url → Map (List String)
  pub with_query : Map (List String) → Url → Url
  pub print : Url → String

-- url.Values.Add for all values
unfoldable pub add_query : Map (List String) → Map (List String) → Map (List String)
add_query [] query = query
add_query ((key, values) ∷ more) query =
    add_query more
      (elim values [ [] ↦ query | v ∷ vs ↦ put key (get_or [] key query ++ v ∷ vs) query ])

module _ (api : UrlApi) where
  open api use {
    Url, parse, path, escaped_path, path_unescape, with_path, with_raw_path, query, with_query,
    print,
  }

  abbrev pub trim_right_slash : String → String
  trim_right_slash s = trim_right_of (char_in "/") s

  abbrev joined_path : Url → String → String → Url
  joined_path u rel decoded =
      let base = trim_right_slash (path u) in
      let escaped = trim_right_slash (escaped_path u) in
      let joined = with_path (append base (append "/" decoded)) u in
      if not (escaped == base) || not (decoded == rel)
      then with_raw_path (append escaped (append "/" rel)) joined
      else joined

  abbrev with_relative : Url → String → Outcome Url
  with_relative u untrimmed = if trim_space untrimmed == "" then ok u else (do
    let rel = trim_left_of (char_in "/") (trim_space untrimmed)
    decoded ← path_unescape rel
    ok (joined_path u rel decoded))

  unfoldable pub http_request_url : HttpRequest → Outcome String
  unfolding add_query
  http_request_url input =
      let endpoint = trim_space input.url in
      if endpoint == "" then err "HTTP url is required" else (do
        parsed ← parse endpoint
        u ← with_relative parsed input.path
        ok (print (with_query (add_query input.query (query u)) u)))

  -- what net/http is asked for, and what it answers; `body n` reads up to `n` bytes
  pub record Sent : Type 0 where
    pub method : String
    pub url : String
    pub timeout : ℕ
    pub user_agent : String
    pub headers : Map String
    pub body : Bytes

  pub record Answer : Type 0 where
    pub final_url : String
    pub status : String
    pub status_code : ℤ
    pub headers : Map (List String)
    pub content_type : String
    pub body : ℕ → Outcome Bytes
    pub duration_ms : ℤ

  abbrev response_of : String → String → Answer → Bytes × Bool → HttpResponse
  response_of method url a (body, truncated) = record {
    url = url;
    final_url = a.final_url;
    method = method;
    status = a.status;
    status_code = a.status_code;
    headers = a.headers;
    content_type = a.content_type;
    body = body;
    truncated = truncated;
    duration_ms = a.duration_ms;
  }

  abbrev read_answer : String → String → ℤ → Outcome Answer → Outcome HttpResponse
  read_answer method url max_bytes answer = do
    a ← answer
    let max = bounded_http_max_bytes max_bytes
    body ← a.body (suc max)
    ok (response_of method url a (cut_to max body))

  module _ {W : Type 0} (client : Sent → W → Outcome Answer × W) where
    abbrev sent_to : HttpRequest → String → Outcome String → W → Outcome HttpResponse × W
    sent_to input method (err e) w = (err e, w)
    sent_to input method (ok url) w =
        let out =
          client
            (record {
              method = method;
              url = url;
              timeout = request_timeout input.timeout_ms;
              user_agent = input.user_agent;
              headers = input.headers;
              body = input.body;
            })
            w in
        (read_answer method url input.max_bytes out.0, out.1)

    unfoldable pub http : HttpRequest → W → Outcome HttpResponse × W
    unfolding allowed_http_method request_method request_timeout http_request_url
        bounded_http_max_bytes
    http input w =
        let method = request_method input.method in
        if not (allowed_http_method method)
        then (err (append "unsupported HTTP method " method), w)
        else sent_to input method (http_request_url input) w
