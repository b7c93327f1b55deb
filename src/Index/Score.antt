-- ===== src/Index/Score.antt =====
-- The score of an index record for a query, indexRecordScore and its helpers in runtime/index.go.
-- A query that no field matches is split into terms, and the terms are scored by the same function;
-- the recursion is on fuel here. Index/Score/Depth is about how much of it is used.
pub mod Bounds
pub mod Depth
use Prim.Native.Char.{Char}
use fluxplane_dex.Prelude.{
  ℕ, zero, suc, ◌+◌, ◌/◌, String, Bool, false, true, not, ◌||◌, Option, none, some, List, [], ◌∷◌,
  ◌++◌, ◌==◌, if◌then◌else◌, trim_space, to_lower, append, str_contains, has_prefix, ltb, nat_eq,
  length,
}
use fluxplane_dex.Prelude.Slices.{fields, trim_of, char_in, byte_len}
use fluxplane_dex.Prelude.Unique.{mem, collect}
use fluxplane_dex.Maps.{Map}
use fluxplane_dex.Json.{Object, Codec}
use fluxplane_dex.Index.{IndexRecord, first_record_string}

-- the score and the matched fields
pub record Tally : Type 0 where
  pub score : ℕ
  pub fields : List String

abbrev pub no_match : Tally
no_match = record { score = 0; fields = [] }

unfoldable pub append_matched_field : List String → String → List String
append_matched_field fields field = if mem ◌==◌ field fields then fields else fields ++ field ∷ []

unfoldable pub append_matched_field_values : List String → List String → List String
append_matched_field_values fields [] = fields
append_matched_field_values fields (c ∷ cs) =
    append_matched_field_values (append_matched_field fields c) cs

-- if n > score { score = n }; fields = appendMatchedField(fields, field)
unfoldable pub bump : ℕ → String → Tally → Tally
bump n field t = record {
  score = if ltb t.score n then n else t.score;
  fields = append_matched_field t.fields field;
}

-- the closure `add` of indexRecordScore
unfoldable pub add : String → String → String → ℕ → ℕ → ℕ → Tally → Tally
add query field untrimmed exact prefix inside t =
    let value = to_lower (trim_space untrimmed) in
    if value == ""
    then t
    else if value == query
    then bump exact field t
    else if has_prefix value query
    then bump prefix field t
    else if str_contains value query
    then bump inside field t
    else t

unfoldable pub add_links : String → Map String → Tally → Tally
add_links query [] t = t
add_links query ((k, v) ∷ links) t =
    add_links query links (add query (append "links." k) v 450 350 250 t)

abbrev pub searched_keys : List String
searched_keys =
    "username" ∷ "name" ∷ "display_name" ∷ "real_name" ∷ "name_with_namespace"
    ∷ "path_with_namespace" ∷ "full_name" ∷ "full_path" ∷ "reference" ∷ "author_username"
    ∷ "web_url" ∷ "email" ∷ "state" ∷ "user_id" ∷ "channel_id" ∷ []

unfoldable pub add_keys : String → Option Object → List String → Tally → Tally
add_keys query object [] t = t
add_keys query object (key ∷ keys) t =
    add_keys query object keys
      (add query (append "record." key) (first_record_string object (key ∷ [])) 900 750 550 t)

-- the words that are no search terms
abbrev pub stopwords : List String
stopwords =
    "look" ∷ "lookup" ∷ "find" ∷ "open" ∷ "see" ∷ "the" ∷ "for" ∷ "from" ∷ "this" ∷ "that"
    ∷ "please" ∷ "at" ∷ "in" ∷ "to" ∷ "and" ∷ "with" ∷ []

unfoldable pub lookup_stopword : String → Bool
lookup_stopword token = mem ◌==◌ token stopwords

-- the characters that are trimmed from both ends of a token
abbrev pub cutset : Char → Bool
cutset c = char_in " \t\n\r\"'()[]{}<>.,;:#!" c

abbrev pub is_no_term : String → Bool
is_no_term token = ltb (byte_len token) 2 || lookup_stopword token

unfoldable pub search_terms : String → List String
search_terms query =
    collect ◌==◌ (trim_of cutset) is_no_term [] (fields (to_lower (trim_space query)))

module _ (codec : Codec) where
  -- the part of indexRecordScore before the terms are tried
  unfoldable pub direct_score : IndexRecord → String → Tally
  direct_score r query =
      let on_fields =
        add query "entity" r.entity 500 400 300
          (add query "title" r.title 950 800 600 (add query "id" r.id 1000 850 650 no_match)) in
      let on_keys =
        add_keys query (codec.unmarshal r.raw) searched_keys (add_links query r.links on_fields) in
      if str_contains (to_lower r.raw) query then bump 100 "record" on_keys else on_keys

  -- the loop over the terms; none is the early return for a term that does not match
  unfoldable pub sum_terms : (String → Tally) → List String → Tally → Option Tally
  sum_terms score_of [] t = some t
  sum_terms score_of (term ∷ terms) t =
      let one = score_of term in
      let next : Tally = record {
        score = t.score + one.score;
        fields = append_matched_field_values t.fields one.fields;
      } in
      let rest = sum_terms score_of terms next in if nat_eq one.score 0 then none else rest

  unfoldable pub index_record_token_score : (String → Tally) → String → Tally
  unfolding sum_terms
  index_record_token_score score_of query =
      let terms = search_terms query in
      if ltb (length terms) 2 then no_match else elim (sum_terms score_of terms no_match) [
        | none ↦ no_match
        | some t ↦ record { score = t.score / length terms; fields = t.fields }
      ]

  -- a score of the terms replaces none
  unfoldable pub or_terms : Tally → Tally → Tally
  or_terms direct terms =
      if nat_eq direct.score 0
      then if nat_eq terms.score 0 then direct else record {
        score = terms.score;
        fields = append_matched_field_values direct.fields terms.fields;
      }
      else direct

  unfoldable pub index_record_score : ℕ → IndexRecord → String → Tally
  index_record_score zero r query =
      if query == "" then record { score = 1; fields = [] } else direct_score r query
  index_record_score (suc fuel) r query =
      let terms = index_record_token_score (λ term. index_record_score fuel r term) query in
      if query == ""
      then record { score = 1; fields = [] }
      else or_terms (direct_score r query) terms
