-- ===== src/Index.antt =====
-- Index records, runtime/index.go: how a record is read from JSON, completed with a title, an
-- address and links, and marked with the snapshot that it comes from.
pub mod Score
pub mod Store
pub mod Records
pub mod Lookup
pub mod Search
use fluxplane_dex.Prelude.{
  ℕ, String, Bool, false, true, not, ◌&&◌, ◌||◌, Option, none, some, List, [], ◌∷◌, ◌==◌,
  if◌then◌else◌, trim_space, append, str_contains, has_prefix,
}
use fluxplane_dex.Prelude.Slices.{
  has_suffix, trim_suffix, cut, before_last, slash, trim_right_of, char_in, format_int,
}
use fluxplane_dex.Prelude.Unique.{mem}
use fluxplane_dex.Maps.{Map, get, put}
use fluxplane_dex.Json.{Value, text, float, Float64, Object, Codec}

-- pluginbinding.LookupSource
pub record IndexOrigin : Type 0 where
  pub source : String
  pub plugin : String
  pub instance_name : String
  pub index : String

pub record IndexRecord : Type 0 where
  pub entity : String
  pub id : String
  pub title : String
  pub url : String
  pub links : Map String
  pub origin : IndexOrigin
  pub score : ℕ
  pub matched_fields : List String
  pub raw : String

pub record IndexSnapshot : Type 0 where
  pub plugin : String
  pub instance_name : String
  pub index : String
  pub records : List IndexRecord
  pub updated_at : ℕ
  pub metadata : String

-- the answer for one value: a text that is not blank, or an integer
abbrev pub shown : Option Value → Option String
shown (some (text s)) = if trim_space s == "" then none else some (trim_space s)
shown (some (float f)) = some (format_int f.truncated)
shown _ = none

-- `object` is none for a nil map
abbrev pub value_at : Option Object → String → Option Value
value_at none key = none
value_at (some o) key = get key o

unfoldable pub first_record_string : Option Object → List String → String
first_record_string object [] = ""
first_record_string object (key ∷ keys) = elim (shown (value_at object key)) [
  | some s ↦ s
  | none ↦ first_record_string object keys
]

abbrev pub entity_ref : String → String → String
entity_ref entity id = append entity (append ":" id)

abbrev pub or_empty : Option String → String
or_empty none = ""
or_empty (some s) = s

unfoldable pub namespace_from_project_path : String → String
namespace_from_project_path path =
    let p = trim_space path in
    if p == "" || not (str_contains p "/") then "" else or_empty (before_last slash p)

-- the text before the first separator that occurs
unfoldable pub cut_at : String → List String → String
cut_at ref [] = ""
cut_at ref (sep ∷ seps) = elim (cut ref sep) [
  | some (project, _) ↦ trim_space project
  | none ↦ cut_at ref seps
]

unfoldable pub project_from_work_item_record : IndexRecord → Option Object → String
unfolding cut_at first_record_string
project_from_work_item_record r object =
    let ref = first_record_string object ("reference" ∷ []) in
    cut_at (if ref == "" then r.id else ref) ("!" ∷ "#" ∷ [])

-- the address before the first marker that occurs after its start
unfoldable pub before_marker : String → List String → String
before_marker url [] = ""
before_marker url (marker ∷ markers) = elim (cut url marker) [
  | some (before, _) ↦ if before == "" then before_marker url markers else before
  | none ↦ before_marker url markers
]

unfoldable pub project_url_from_work_item_url : String → String
unfolding before_marker
project_url_from_work_item_url url =
    before_marker url ("/-/merge_requests/" ∷ "/-/issues/" ∷ "/-/work_items/" ∷ [])

unfoldable pub namespace_link : IndexRecord → Option Object → String
namespace_link r object =
    let path = first_record_string object ("path_with_namespace" ∷ []) in
    if not (r.entity == "gitlab.project") || r.url == ""
    then ""
    else if path == "" || (not (str_contains path "/") || not (has_suffix r.url path))
    then ""
    else append (trim_right_of (char_in "/") (trim_suffix r.url path))
        (append "/" (or_empty (before_last slash path)))

-- m[k] = v where the text is not blank
abbrev pub put_set : String → String → Map String → Map String
put_set k v m = if v == "" then m else put k v m

abbrev pub ref_unless_blank : String → String → String
ref_unless_blank entity id = if id == "" then "" else entity_ref entity id

-- the links of an issue or a merge request to its project and its author
unfoldable pub work_item_links : IndexRecord → Option Object → Map String
work_item_links r object =
    let project = project_from_work_item_record r object in
    let author = first_record_string object ("author_username" ∷ []) in
    let of_project =
      if project == ""
      then []
      else put_set "namespace_entity"
          (ref_unless_blank "gitlab.group" (namespace_from_project_path project))
          (put_set "project" (project_url_from_work_item_url r.url)
            (put "project_entity" (entity_ref "gitlab.project" project) [])) in
    put_set "author_entity" (ref_unless_blank "gitlab.user" author) of_project

unfoldable pub relationship_links : IndexRecord → Option Object → Map String
unfolding work_item_links
relationship_links r object =
    if r.entity == "gitlab.project"
    then put_set "namespace_entity"
        (ref_unless_blank "gitlab.group"
          (namespace_from_project_path (first_record_string object ("path_with_namespace" ∷ []))))
        []
    else if r.entity == "gitlab.issue" || r.entity == "gitlab.merge_request"
    then work_item_links r object
    else if r.entity == "slack.channel"
    then put_set "user_entity"
        (ref_unless_blank "slack.user" (first_record_string object ("user" ∷ []))) []
    else []

-- for key, value := range m { out[key] = value }
unfoldable pub put_all : Map String → Map String → Map String
put_all [] out = out
put_all ((k, v) ∷ m) out = put_all m (put k v out)

unfoldable pub index_record_links : IndexRecord → Option Object → Map String
index_record_links r object =
    put_all (relationship_links r object)
      (put_set "namespace" (namespace_link r object) (put_set "self" r.url []))

-- the links of the second map that the first does not have
unfoldable pub add_missing : Map String → Map String → Map String
add_missing links [] = links
add_missing links ((k, v) ∷ m) =
    add_missing (elim (get k links) [ some w ↦ links | none ↦ put k v links ]) m

abbrev pub with_title : Option Object → IndexRecord → IndexRecord
with_title object r = record r {
  title =
      if r.title == ""
      then first_record_string object ("title" ∷ "name" ∷ "name_with_namespace" ∷ [])
      else r.title;
  url =
      if r.url == ""
      then first_record_string object ("url" ∷ "web_url" ∷ "html_url" ∷ [])
      else r.url;
}

abbrev pub merge_links : Map String → Map String → Map String
merge_links [] calculated = calculated
merge_links links calculated = add_missing links calculated

unfoldable pub apply_standard_index_fields : IndexRecord → Option Object → IndexRecord
unfolding index_record_links add_missing
apply_standard_index_fields raw object =
    let r = with_title object raw in
    record r { links = merge_links r.links (index_record_links r object) }

-- the keys that a record holds in fields of its own
abbrev pub own_keys : List String
own_keys = "entity" ∷ "id" ∷ "title" ∷ "url" ∷ "links" ∷ "origin" ∷ "score" ∷ "matched_fields" ∷ []

unfoldable pub clean : Object → Object
clean [] = []
clean ((k, v) ∷ o) = let rest = clean o in if mem ◌==◌ k own_keys then rest else (k, v) ∷ rest

module _ (codec : Codec) where
  -- a nil map gives no text
  unfoldable pub clean_index_record_raw : Option Object → String
  unfolding clean
  clean_index_record_raw none = ""
  clean_index_record_raw (some o) = codec.marshal (clean o)

  abbrev no_origin : IndexOrigin
  no_origin = record { source = ""; plugin = ""; instance_name = ""; index = "" }

  abbrev pub blank_record : String → String → IndexRecord
  blank_record entity id = record {
    entity = entity;
    id = id;
    title = "";
    url = "";
    links = [];
    origin = no_origin;
    score = 0;
    matched_fields = [];
    raw = "";
  }

  abbrev pub id_of : Object → String
  id_of o =
      let id =
        first_record_string (some o)
          ("id" ∷ "key" ∷ "ref" ∷ "path_with_namespace" ∷ "web_url" ∷ []) in
      if id == "" then first_record_string (some o) ("project_id" ∷ []) else id

  unfoldable pub normalize_index_record : String → Option IndexRecord
  unfolding apply_standard_index_fields clean_index_record_raw
  normalize_index_record untrimmed =
      let raw = trim_space untrimmed in
      if raw == "" || raw == "null" then none else elim (codec.unmarshal raw) [
        | none ↦ none
        | some o ↦
            if id_of o == ""
            then none
            else some
                (record (apply_standard_index_fields
                  (blank_record (first_record_string (some o) ("entity" ∷ [])) (id_of o))
                  (some o)) { raw = clean_index_record_raw (some o) })
      ]

  abbrev pub lacks_fields : IndexRecord → Bool
  lacks_fields r = r.title == "" || (r.url == "" || elim r.links [ [] ↦ true | l ∷ ls ↦ false ])

  unfoldable pub enrich_index_record : IndexSnapshot → IndexRecord → IndexRecord
  unfolding apply_standard_index_fields clean_index_record_raw
  enrich_index_record snapshot r =
      let object = codec.unmarshal r.raw in
      let full = if lacks_fields r then apply_standard_index_fields r object else r in
      record full {
        raw = clean_index_record_raw object;
        origin = record {
          source = "host_index";
          plugin = snapshot.plugin;
          instance_name = snapshot.instance_name;
          index = snapshot.index;
        };
      }
