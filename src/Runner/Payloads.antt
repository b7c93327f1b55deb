-- ===== src/Runner/Payloads.antt =====
-- What the runner reads from the payload of a command, searchPayload, lookupPayload, getPayloadID,
-- operationCalls and their like in runtime/runner.go. A payload is what json.Marshal makes of it.
use fluxplane_dex.Prelude.{
  String, not, Option, none, some, List, [], ◌∷◌, ◌++◌, ◌==◌, if◌then◌else◌, trim_space,
}
use fluxplane_dex.Prelude.Int.{ℤ, pos}
use fluxplane_dex.Prelude.Outcome.{Outcome, ok, err}
use fluxplane_dex.Maps.{get}
use fluxplane_dex.Json.{Value, text, float, int, nested, Float64, Object, Codec}
use fluxplane_dex.Protocol.{OperationCall, OperationBatch}
use fluxplane_dex.Index.Lookup.{LookupOptions}
use fluxplane_dex.Index.Search.{SearchOptions}

-- encoding/json and fmt: the array that a text holds, where it holds one, and the format "%.0f".
pub record Reader : Type 0 where
  pub codec : Codec
  pub elements : String → Option (List Value)
  pub format_float : Float64 → String

-- `value, _ := input[key].(string)`
unfoldable pub string_at : Object → String → String
string_at input key = elim (get key input) [ some (text s) ↦ s | _ ↦ "" ]

unfoldable pub first_payload_string : Object → List String → String
unfolding string_at
first_payload_string input [] = ""
first_payload_string input (key ∷ keys) =
    let value = trim_space (string_at input key) in
    if not (value == "") then value else first_payload_string input keys

-- the switch on the type of `limit`
unfoldable pub payload_limit : Object → ℤ
payload_limit input = elim (get "limit" input) [
  | some (float f) ↦ f.truncated
  | some (int n) ↦ n
  | _ ↦ pos 20
]

-- the trimmed texts among the elements of an array that are not blank
unfoldable pub term_texts : List Value → List String
term_texts [] = []
term_texts (text s ∷ values) =
    let rest = term_texts values in if not (trim_space s == "") then trim_space s ∷ rest else rest
term_texts (value ∷ values) = term_texts values

module _ (reader : Reader) where
  -- json.Marshal and json.Unmarshal at the head of each function
  abbrev pub payload_object : Outcome String → Option Object
  payload_object (ok raw) = reader.codec.unmarshal raw
  payload_object (err e) = none

  abbrev search_options : Option Object → SearchOptions
  search_options none = record { datasource = ""; query = ""; limit = pos 20; entity = "" }
  search_options (some input) = record {
    datasource = trim_space (string_at input "datasource");
    query = trim_space (string_at input "query");
    limit = payload_limit input;
    entity = trim_space (string_at input "entity");
  }

  unfoldable pub search_payload : Outcome String → SearchOptions
  unfolding string_at payload_limit
  search_payload payload = search_options (payload_object payload)

  -- the terms of an array
  abbrev array_terms : Option Value → List String
  array_terms (some (nested raw)) = elim (reader.elements raw) [
    | some values ↦ term_texts values
    | none ↦ []
  ]
  array_terms _ = []

  abbrev single_term : String → List String
  single_term term = if not (term == "") then term ∷ [] else []

  abbrev lookup_options : Option Object → LookupOptions
  lookup_options none = record {
    datasource = "";
    text = "";
    terms = [];
    limit = pos 20;
    entity = "";
  }
  lookup_options (some input) = record {
    datasource = first_payload_string input ("datasource" ∷ []);
    text = trim_space (first_payload_string input ("text" ∷ "query" ∷ "q" ∷ []));
    terms =
        array_terms (get "terms" input)
        ++ single_term (first_payload_string input ("term" ∷ "id" ∷ "ref" ∷ "url" ∷ []));
    limit = payload_limit input;
    entity = trim_space (first_payload_string input ("entity" ∷ []));
  }

  unfoldable pub lookup_payload : Outcome String → LookupOptions
  unfolding term_texts first_payload_string payload_limit
  lookup_payload payload = lookup_options (payload_object payload)

  unfoldable pub get_payload_datasource : Outcome String → String
  unfolding first_payload_string
  get_payload_datasource payload = elim (payload_object payload) [
    | none ↦ ""
    | some input ↦ first_payload_string input ("datasource" ∷ [])
  ]

  unfoldable pub get_payload_entity : Outcome String → String
  unfolding first_payload_string
  get_payload_entity payload = elim (payload_object payload) [
    | none ↦ ""
    | some input ↦ first_payload_string input ("entity" ∷ [])
  ]

  -- the text for one key, or none where the loop goes on
  abbrev id_text : Option Value → Option String
  id_text (some (text s)) = if not (trim_space s == "") then some (trim_space s) else none
  id_text (some (float f)) = some (reader.format_float f)
  id_text _ = none

  unfoldable pub first_id : Object → List String → String
  first_id input [] = ""
  first_id input (key ∷ keys) = elim (id_text (get key input)) [
    | some s ↦ s
    | none ↦ first_id input keys
  ]

  unfoldable pub get_payload_id : Outcome String → String
  unfolding first_id
  get_payload_id payload = elim (payload_object payload) [
    | none ↦ ""
    | some input ↦ first_id input ("id" ∷ "ref" ∷ "key" ∷ [])
  ]

-- The dynamic type of a payload: a call, a batch, or any other value, which is seen by its JSON text.
pub data CallPayload : Type 0 where
  call : OperationCall → CallPayload
  batch : OperationBatch → CallPayload
  other : Outcome String → CallPayload

-- `read_call` and `read_batch` are json.Unmarshal into the two structs
abbrev batch_calls : Outcome OperationBatch → List OperationCall
batch_calls (ok b) = b.calls
batch_calls (err e) = []

abbrev call_or : Outcome OperationCall → List OperationCall → List OperationCall
call_or (ok c) otherwise = if not (c.name == "") then c ∷ [] else otherwise
call_or (err e) otherwise = otherwise

unfoldable pub operation_calls :
    (String → Outcome OperationCall)
    → (String → Outcome OperationBatch)
    → CallPayload
    → List OperationCall
operation_calls read_call read_batch (call c) = c ∷ []
operation_calls read_call read_batch (batch b) = b.calls
operation_calls read_call read_batch (other (err e)) = []
operation_calls read_call read_batch (other (ok raw)) =
    call_or (read_call raw) (batch_calls (read_batch raw))
