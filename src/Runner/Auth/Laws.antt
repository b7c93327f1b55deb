-- ===== src/Runner/Auth/Laws.antt =====
-- The host's headers against those of the plugin, resolveHTTPAuth in runtime/runner.go.
use mathlib.Core.Path.{subst}
use fluxplane_dex.Prelude.{
  String, ◌≡◌, ◌≢◌, refl, sym, ◌∙◌, Bool, false, true, not, ◌&&◌, ◌||◌, Option, none, some, [], ◌∷◌,
  ◌==◌, arith, Bool-cases, inl, inr, eq_iff, trim_space,
}
use fluxplane_dex.Prelude.Outcome.{Outcome, ok, err, Outcome-cases, ◌>>=◌}
use fluxplane_dex.Maps.{Map, get, put, get-put}
use fluxplane_dex.Capabilities.{HttpAuthRequest}
use fluxplane_dex.Runner.Auth.{
  header, authorization, with_value, with_purpose, resolve_http_header_purposes, with_basic,
  optional_secret, basic_headers, authorized, resolve_http_auth,
}

-- `h` has a value that is not blank
abbrev pub is_set : String → Map String → Bool
is_set h headers = not (header h headers == "")

-- the headers that have a value keep it
abbrev Keeps : Map String → Map String → Type 0
Keeps headers hs = (h : String) → is_set h headers ≡ true → get h hs ≡ get h headers

put-Keeps :
    (k v : String) (headers : Map String)
    → is_set k headers ≡ false
    → Keeps headers (put k v headers)
put-Keeps k v headers n h s = elim (Bool-cases (k == h)) [
  | inl e ↦
      let same = subst (λ x. is_set x headers ≡ false) ((eq_iff k h).0 e) n in absurd (ground arith)
  | inr e ↦ get-put k h v headers ∙ rw e refl
]

is_set-Keeps :
    (h : String) (headers hs : Map String)
    → Keeps headers hs
    → is_set h headers ≡ true
    → is_set h hs ≡ true
is_set-Keeps h headers hs k s =
    subst (λ o. not (trim_space (elim o [ none ↦ "" | some v ↦ v ]) == "") ≡ true) (sym (k h s)) s

with_value-Keeps :
    (headers : Map String) (key : String) (o : Outcome String)
    → is_set key headers ≡ false
    → Keeps headers (with_value headers key o)
with_value-Keeps headers key (err e) n h s = refl
with_value-Keeps headers key (ok value) n h s = elim (Bool-cases (value == "")) [
  | inl e ↦ rw e refl
  | inr e ↦ rw e (put-Keeps key value headers n h s)
]

with_purpose-Keeps :
    (secret : String → Outcome String) (headers : Map String) (key purpose : String)
    → Keeps headers (with_purpose secret headers key purpose)
with_purpose-Keeps secret headers key purpose h s =
    elim (Bool-cases (key == "" || (purpose == "" || is_set key headers))) [
      | inl e ↦ rw e refl
      | inr e ↦ rw e (with_value-Keeps headers key (secret purpose) (ground arith) h s)
    ]

resolve_http_header_purposes-Keeps :
    (secret : String → Outcome String) (headers purposes : Map String)
    → Keeps headers (resolve_http_header_purposes secret headers purposes)
unfolding resolve_http_header_purposes
resolve_http_header_purposes-Keeps secret headers [] h s = refl
resolve_http_header_purposes-Keeps secret headers ((key, purpose) ∷ purposes) h s =
    let next = with_purpose secret headers (trim_space key) (trim_space purpose) in
    let kept = with_purpose-Keeps secret headers (trim_space key) (trim_space purpose) in
    resolve_http_header_purposes-Keeps secret next purposes h (is_set-Keeps h headers next kept s)
    ∙ kept h s

with_basic-Keeps :
    (base64 : String → String) (headers : Map String) (username password : String)
    → is_set authorization headers ≡ false
    → Keeps headers (with_basic base64 headers username password)
with_basic-Keeps base64 headers username password n h s =
    elim (Bool-cases (username == "" && password == "")) [
      | inl e ↦ rw e refl
      | inr e ↦ rw e (put-Keeps authorization _ headers n h s)
    ]

abbrev KeepsIn : Map String → Outcome (Map String) → Type 0
KeepsIn headers (ok hs) = Keeps headers hs
KeepsIn headers (err e) = Unit

module _ (base64 : String → String) (secret : String → Outcome String) (headers : Map String)
    (auth : HttpAuthRequest) where
  basic_headers-Keeps :
      is_set authorization headers ≡ false
      → KeepsIn headers (basic_headers base64 secret headers auth)
  basic_headers-Keeps n =
      elim (Outcome-cases (optional_secret secret (trim_space auth.username_purpose))) [
        | inr x ↦ rw x.1 tt
        | inl u ↦ elim (Outcome-cases (optional_secret secret (trim_space auth.password_purpose))) [
          | inr x ↦ rw (u.1, x.1) tt
          | inl p ↦ rw (u.1, p.1) (with_basic-Keeps base64 headers u.0 p.0 n)
        ]
      ]

  authorized-Keeps :
      (token : Option String)
      → is_set authorization headers ≡ false
      → KeepsIn headers (authorized base64 secret headers auth token)
  authorized-Keeps (some token) n = put-Keeps authorization _ headers n
  authorized-Keeps none n = basic_headers-Keeps n

  purposes-Keeps :
      (o : Outcome (Map String))
      → KeepsIn headers o
      → KeepsIn headers
          (o >>= λ hs. ok (resolve_http_header_purposes secret hs auth.header_purposes))
  purposes-Keeps (err e) k = tt
  purposes-Keeps (ok hs) k = λ h s.
      resolve_http_header_purposes-Keeps secret hs auth.header_purposes h
        (is_set-Keeps h headers hs k s)
      ∙ k h s

  resolve_http_auth-Keeps : KeepsIn headers (resolve_http_auth base64 secret headers auth)
  unfolding resolve_http_auth
  resolve_http_auth-Keeps = elim (Bool-cases (is_set authorization headers)) [
    | inl e ↦ rw e (purposes-Keeps (ok headers) (λ h s. refl))
    | inr e ↦ rw e (purposes-Keeps _ (authorized-Keeps _ e))
  ]

  -- If resolving the authentication of a request gives headers, a header of the plugin whose value
  -- is not blank has the value that the plugin gave.
  pub resolve_http_auth-keeps :
      (h : String) (hs : Map String)
      → resolve_http_auth base64 secret headers auth ≡ ok hs
      → header h headers ≢ ""
      → get h hs ≡ get h headers
  resolve_http_auth-keeps h hs e s =
      subst (KeepsIn headers) e resolve_http_auth-Keeps h
        (ground (arith, eq_iff (header h headers) ""))
