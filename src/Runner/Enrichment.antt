-- ===== src/Runner/Enrichment.antt =====
-- The records of a search, completed from the host's index, runtime/datasource_enrichment.go.
pub mod Laws
use fluxplane_dex.Prelude.{
  String, Bool, true, false, not, ◌&&◌, ◌||◌, Option, none, some, List, [], ◌∷◌, ◌==◌,
  if◌then◌else◌, trim_space,
}
use fluxplane_dex.Prelude.Outcome.{Outcome, ok, err, ◌>>=◌}
use fluxplane_dex.Prelude.Unique.{collect}
use fluxplane_dex.Maps.{Map, get, put}
use fluxplane_dex.Json.{Value, null, text, nested, Object}
use fluxplane_dex.Index.{IndexRecord}
use fluxplane_dex.Index.Store.{IndexDir, get_index_record_by_entity}
use fluxplane_dex.Core.{PluginManifest, DatasourceSpec, DatasourceRelation}
use fluxplane_dex.Protocol.{Response}
use fluxplane_dex.Runner.Payloads.{Reader, string_at, search_payload}
use fluxplane_dex.Runner.IndexDatasource.{datasources_search}

unfoldable pub empty_value : Option Value → Bool
empty_value none = true
empty_value (some null) = true
empty_value (some (text s)) = trim_space s == ""
empty_value (some value) = false

unfoldable pub record_string : Object → String → String
unfolding string_at
record_string record_object field = trim_space (string_at record_object field)

-- what encoding/json makes of links and of the elements of an array
pub record Writer : Type 0 where
  pub links : Map String → Value
  pub array : List Value → String

abbrev put_text : String → String → Object → Object
put_text key s fields = if s == "" then fields else put key (text s) fields

abbrev put_links : Writer → Map String → Object → Object
put_links writer [] fields = fields
put_links writer (l ∷ ls) fields = put "links" (writer.links (l ∷ ls)) fields

abbrev or_empty : Option Object → Object
or_empty none = []
or_empty (some fields) = fields

unfoldable pub indexed_record_fields : Reader → Writer → IndexRecord → Object
unfolding put
indexed_record_fields reader writer r =
    let fields = or_empty (reader.codec.unmarshal r.raw) in
    let named = put "entity" (text r.entity) (put "id" (text r.id) fields) in
    put_links writer r.links
      (put_text "web_url" r.url (put_text "url" r.url (put_text "title" r.title named)))

-- may the field of the record be replaced
abbrev pub is_open : Object → String → String → Bool
is_open record_object field relation_id =
    empty_value (get field record_object)
    || (field == "title" && record_string record_object field == relation_id)

-- one field, with its value in the indexed record
abbrev pub apply_field : String → String → Option Value → Object × Bool → Object × Bool
apply_field relation_id field value (fields, changed) =
    if empty_value value || not (is_open fields field relation_id)
    then (fields, changed)
    else elim value [ none ↦ (fields, changed) | some v ↦ (put field v fields, true) ]

-- the loop over the allowed fields
unfoldable pub apply_fields : Object → String → List String → Object × Bool → Object × Bool
unfolding empty_value record_string get put
apply_fields source relation_id [] out = out
apply_fields source relation_id (field ∷ fields) out =
    apply_fields source relation_id fields (apply_field relation_id field (get field source) out)

unfoldable pub apply_indexed_record_fields :
    Reader → Writer → IndexRecord → List String → String → Object × Bool → Object × Bool
unfolding apply_fields indexed_record_fields
apply_indexed_record_fields reader writer indexed allowed relation_id out =
    apply_fields (indexed_record_fields reader writer indexed) relation_id allowed out

-- the first specification that passes a test
abbrev first_spec : (DatasourceSpec → Bool) → List DatasourceSpec → Option DatasourceSpec
first_spec test [] = none
first_spec test (s ∷ ss) = if test s then some s else first_spec test ss

abbrev or_else : Option DatasourceSpec → Option DatasourceSpec → Option DatasourceSpec
or_else none other = other
or_else (some s) other = some s

unfoldable pub datasource_spec_for_payload :
    Reader → PluginManifest → Outcome String → Option DatasourceSpec
unfolding search_payload
datasource_spec_for_payload reader manifest payload =
    let options = search_payload reader payload in
    let datasource = trim_space options.datasource in
    let entity = trim_space options.entity in
    or_else (first_spec (λ s. not (datasource == "") && s.name == datasource) manifest.datasources)
      (if entity == "" then none else first_spec (λ s. s.entity == entity) manifest.datasources)

abbrev names_of : Option (List String) → List String
names_of none = []
names_of (some names) = names

unfoldable pub datasource_entity_fields : DatasourceSpec → List String
datasource_entity_fields spec =
    collect ◌==◌ trim_space (λ v. v == "") [] (names_of spec.entity_schema)

module _ (reader : Reader) (writer : Writer) (dir : IndexDir) (plugin instance_name : String)
    (allowed : List String) where
  abbrev pub apply_found : String → Option IndexRecord → Object × Bool → Object × Bool
  apply_found id none out = out
  apply_found id (some indexed) out =
      apply_indexed_record_fields reader writer indexed allowed id out

  abbrev pub enrich_relation : DatasourceRelation → Object × Bool → Outcome (Object × Bool)
  enrich_relation relation out =
      let field = trim_space relation.field in
      let entity = trim_space relation.entity in
      let id = record_string out.0 field in
      if field == "" || (entity == "" || id == "") then ok out else (do
        found ← get_index_record_by_entity reader.codec dir plugin instance_name entity id
        ok (apply_found id found out))

  unfoldable pub enrich_record : List DatasourceRelation → Object × Bool → Outcome (Object × Bool)
  unfolding apply_indexed_record_fields record_string
  enrich_record [] out = ok out
  enrich_record (relation ∷ relations) out = do
    next ← enrich_relation relation out
    enrich_record relations next

  abbrev enriched_value : Object × Bool → Value × Bool
  enriched_value (fields, changed) = (nested (reader.codec.marshal fields), changed)

  abbrev enrich_object : Value → List DatasourceRelation → Option Object → Outcome (Value × Bool)
  enrich_object value relations none = ok (value, false)
  enrich_object value relations (some fields) = do
    out ← enrich_record relations (fields, false)
    ok (enriched_value out)

  -- a record of the result that is an object
  unfoldable pub enrich_value : List DatasourceRelation → Value → Outcome (Value × Bool)
  unfolding enrich_record
  enrich_value relations (nested raw) =
      enrich_object (nested raw) relations (reader.codec.unmarshal raw)
  enrich_value relations value = ok (value, false)

  unfoldable pub enrich_records : List DatasourceRelation → List Value → Outcome (List Value × Bool)
  unfolding enrich_value
  enrich_records relations [] = ok ([], false)
  enrich_records relations (v ∷ vs) = do
    out ← enrich_value relations v
    rest ← enrich_records relations vs
    ok (out.0 ∷ rest.0, out.1 || rest.1)

module _ (reader : Reader) (writer : Writer) (dir : IndexDir) (plugin instance_name : String) where
  abbrev rewritten : Response → Object → List Value × Bool → Response
  rewritten resp result (records, true) = record resp {
    result = reader.codec.marshal (put "records" (nested (writer.array records)) result);
  }
  rewritten resp result (records, false) = resp

  abbrev records_at : Object → List Value
  records_at result = elim (get "records" result) [
    | some (nested raw) ↦ elim (reader.elements raw) [ some vs ↦ vs | none ↦ [] ]
    | _ ↦ []
  ]

  abbrev enrich_result : DatasourceSpec → Response → Option Object → Outcome Response
  enrich_result spec resp none = ok resp
  enrich_result spec resp (some result) = do
    out ←
        enrich_records reader writer dir plugin instance_name (datasource_entity_fields spec)
          spec.relations (records_at result)
    ok (rewritten resp result out)

  abbrev is_empty : {A : Type 0} → List A → Bool
  is_empty [] = true
  is_empty (a ∷ as') = false

  abbrev enrich_spec : Response → Option DatasourceSpec → Outcome Response
  enrich_spec resp none = ok resp
  enrich_spec resp (some spec) =
      if is_empty spec.relations || is_empty (datasource_entity_fields spec)
      then ok resp
      else enrich_result spec resp (reader.codec.unmarshal resp.result)

  unfoldable pub enrich_datasource_search_response :
      PluginManifest → Outcome String → Response → Outcome Response
  unfolding enrich_records datasource_entity_fields datasource_spec_for_payload get put
  enrich_datasource_search_response manifest payload resp =
      enrich_spec resp (datasource_spec_for_payload reader manifest payload)

  abbrev enrich_with : Outcome PluginManifest → Outcome String → Response → Outcome Response
  enrich_with (err e) payload resp = ok resp
  enrich_with (ok manifest) payload resp = enrich_datasource_search_response manifest payload resp

  unfoldable pub enrich_datasource_response :
      Outcome PluginManifest → String → Outcome String → Response → Outcome Response
  unfolding enrich_datasource_search_response
  enrich_datasource_response manifest command payload resp =
      if not (command == datasources_search) || (not resp.is_ok || resp.result == "")
      then ok resp
      else enrich_with manifest payload resp
