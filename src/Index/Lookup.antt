-- ===== src/Index/Lookup.antt =====
-- The terms and the score of a lookup, lookupTerms, lookupRecordScore and their helpers in
-- runtime/index.go. A record matches if a value of it stands in the text between boundaries, or if
-- a term is part of a value.
pub mod Laws
use Prim.Native.Char.{Char, code}
use Prim.Native.String.{[] as end, ◌∷◌ as then_char}
use fluxplane_dex.Prelude.{
  ℕ, zero, suc, ◌-◌, String, Bool, false, true, ◌&&◌, ◌||◌, not, Option, none, some, List, [], ◌∷◌,
  ◌++◌, ◌==◌, if◌then◌else◌, trim_space, to_lower, append, str_contains, has_prefix, ltb, leb,
}
use fluxplane_dex.Prelude.Int.{ℤ}
use fluxplane_dex.Prelude.Slices.{fields, trim_of, char_in, byte_len}
use fluxplane_dex.Prelude.Unique.{collect}
use fluxplane_dex.Maps.{Map}
use fluxplane_dex.Json.{Object, Codec}
use fluxplane_dex.Index.{IndexRecord, first_record_string}
use fluxplane_dex.Index.Score.{Tally, no_match, bump, cutset, lookup_stopword}

pub record LookupOptions : Type 0 where
  pub datasource : String
  pub text : String
  pub terms : List String
  pub limit : ℤ
  pub entity : String

abbrev pub lowered : String → String
lowered value = to_lower (trim_space value)

abbrev pub is_blank : String → Bool
is_blank value = value == ""

-- the tokens of the text that are added
unfoldable pub text_tokens : Bool → List String → List String
text_tokens has_url [] = []
text_tokens has_url (untrimmed ∷ tokens) =
    let rest = text_tokens has_url tokens in
    let token = trim_of cutset untrimmed in
    if has_url && not (str_contains token "://")
    then rest
    else if leb 3 (byte_len token) && not (lookup_stopword token)
    then token ∷ rest
    else rest

-- the values that are passed to the closure `add`, in order
unfoldable pub lookup_candidates : LookupOptions → List String
unfolding text_tokens
lookup_candidates options =
    let text = trim_space options.text in
    options.terms
    ++ (if text == "" then [] else text ∷ text_tokens (str_contains text "://") (fields text))

unfoldable pub lookup_terms : LookupOptions → List String
unfolding lookup_candidates
lookup_terms options = collect ◌==◌ lowered is_blank [] (lookup_candidates options)

-- lookupBoundary of one character
unfoldable pub is_boundary : Char → Bool
is_boundary c =
    let n = code c in
    not (leb 97 n && leb n 122) && not (leb 48 n && leb n 57) && not (char_in "/-_.!#" c)

-- lookupBoundary; none stands for a position outside of the text
unfoldable pub lookup_boundary : Option Char → Bool
lookup_boundary none = true
lookup_boundary (some c) = is_boundary c

unfoldable pub head : String → Option Char
head end = none
head (then_char c s) = some c

-- what follows a prefix of the text
unfoldable pub after_prefix : String → String → String
after_prefix s end = s
after_prefix end (then_char d t) = end
after_prefix (then_char c s) (then_char d t) = after_prefix s t

-- The loop of containsLookupValue from the position after the character `before`. The loop of the
-- source jumps to the next occurrence of the value; here a position with no occurrence is a step.
unfoldable pub contains_from : Option Char → String → String → Bool
unfolding lookup_boundary head after_prefix
contains_from before end value = has_prefix end value && lookup_boundary before
contains_from before (then_char c s) value =
    has_prefix (then_char c s) value
      && (lookup_boundary before && lookup_boundary (head (after_prefix (then_char c s) value)))
    || contains_from (some c) s value

unfoldable pub contains_lookup_value : String → String → Bool
contains_lookup_value text value = contains_from none text value

-- the loop over the terms in the closure `add`
unfoldable pub add_terms : String → String → ℕ → List String → Tally → Tally
add_terms field value value_score [] t = t
add_terms field value value_score (term ∷ terms) t = add_terms field value value_score terms (
    if term == ""
    then t
    else if value == term
    then bump (value_score - 50) field t
    else if str_contains value term
    then bump (value_score - 250) field t
    else t)

-- the closure `add` of lookupRecordScore
unfoldable pub add_value : String → List String → String → String → ℕ → Tally → Tally
unfolding add_terms
add_value text terms field untrimmed value_score t =
    let value = lowered untrimmed in
    if value == ""
    then t
    else if not (text == "") && contains_lookup_value text value
    then bump value_score field t
    else add_terms field value value_score terms t

unfoldable pub add_link_values : String → List String → Map String → Tally → Tally
add_link_values text terms [] t = t
add_link_values text terms ((k, v) ∷ links) t =
    add_link_values text terms links (add_value text terms (append "links." k) v 1050 t)

abbrev pub lookup_keys : List String
lookup_keys =
    "username" ∷ "name" ∷ "display_name" ∷ "name_with_namespace" ∷ "path_with_namespace"
    ∷ "full_name" ∷ "full_path" ∷ "reference" ∷ "author_username" ∷ "web_url" ∷ "email" ∷ "state"
    ∷ "user_id" ∷ "channel_id" ∷ []

unfoldable pub add_key_values : String → List String → Option Object → List String → Tally → Tally
add_key_values text terms object [] t = t
add_key_values text terms object (key ∷ keys) t =
    add_key_values text terms object keys
      (add_value text terms (append "record." key) (first_record_string object (key ∷ [])) 950 t)

unfoldable pub lookup_record_score : Codec → IndexRecord → String → List String → Tally
unfolding add_link_values add_key_values
lookup_record_score codec r text terms =
    let on_fields = add_value text terms "entity" r.entity 500 (
      add_value text terms "title" r.title 900
        (add_value text terms "url" r.url 1150 (add_value text terms "id" r.id 1200 no_match))) in
    add_key_values text terms (codec.unmarshal r.raw) lookup_keys
      (add_link_values text terms r.links on_fields)
