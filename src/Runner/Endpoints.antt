-- ===== src/Runner/Endpoints.antt =====
-- The endpoints that the runner puts into the inputs of operations and datasources,
-- resolveEndpointRefs and its helpers in runtime/runner.go.
use fluxplane_dex.Prelude.{
  String, Bool, true, false, not, ◌||◌, Option, none, some, List, [], ◌∷◌, ◌==◌, if◌then◌else◌,
  trim_space, append,
}
use fluxplane_dex.Prelude.Outcome.{Outcome, ok, err, ◌>>=◌}
use fluxplane_dex.Files.{File}
use fluxplane_dex.Maps.{Map, get, put}
use fluxplane_dex.Json.{Value, text, Object, Codec}
use fluxplane_dex.Endpoints.{
  EndpointApi, EndpointRecord, EndpointRegistry, endpoint_id, list_endpoints, get_endpoint,
}
use fluxplane_dex.Core.{PluginManifest, OperationSpec}
use fluxplane_dex.Protocol.{OperationCall}
use fluxplane_dex.Runner.Payloads.{string_at}

-- the fields of an endpoint that are passed on
pub record EndpointFields (api : EndpointApi) : Type 0 where
  pub url : api.EndpointRef → String
  pub credential_ref : api.EndpointRef → String

-- `properties` are the keys of the properties that a schema has, where it is an object; no schema
-- excludes a property
unfoldable pub schema_has_property : (String → Option (List String)) → String → String → Bool
schema_has_property properties raw name = if raw == "" then true else allows (properties raw)
  where
    holds : List String → Bool
    holds [] = false
    holds (n ∷ ns) = n == name || holds ns

    allows : Option (List String) → Bool
    allows none = true
    allows (some []) = true
    allows (some (n ∷ ns)) = holds (n ∷ ns)

unfoldable pub operation_input_schemas : Outcome PluginManifest → Map String
operation_input_schemas (err e) = []
operation_input_schemas (ok manifest) = from manifest.operations []
  where
    from : List OperationSpec → Map String → Map String
    from [] out = out
    from (op ∷ ops) out = from ops (put op.name op.input out)

module _ (api : EndpointApi) (fields : EndpointFields api)
    (registry : File (EndpointRegistry api)) where
  -- the input, and whether it was changed
  abbrev pub Changed : Type 0
  Changed = Object × Bool

  abbrev one_endpoint : Object → List (EndpointRecord api) → Changed
  one_endpoint input (r ∷ []) = (put "endpoint_ref" (text (endpoint_id api r)) input, true)
  one_endpoint input _ = (input, false)

  unfoldable pub inject_default_endpoint_ref : String → Object → Outcome Changed
  unfolding string_at list_endpoints put
  inject_default_endpoint_ref plugin input =
      if trim_space plugin == "" || not (trim_space (string_at input "endpoint_ref") == "")
      then ok (input, false)
      else (do endpoints ← list_endpoints api plugin registry; ok (one_endpoint input endpoints))

  -- the keys that an endpoint sets
  abbrev pub with_credential : String → Object → Object
  with_credential ref input = if ref == "" then input else put "credential_ref" (text ref) input

  abbrev pub with_product : String → Option Value → Object → Object
  with_product product (some v) input = input
  with_product product none input =
      if product == "" then input else put "endpoint_product" (text product) input

  abbrev pub with_endpoint : EndpointRecord api → Object → Object
  with_endpoint r input =
      let located =
        with_credential (fields.credential_ref r.ref) (put "url" (text (fields.url r.ref)) input) in
      with_product (api.product r.ref) (get "endpoint_product" located) located

  abbrev pub apply_endpoint : Bool → String → Object → Option (EndpointRecord api) → Outcome Changed
  apply_endpoint inject ref input none = err (append "unknown endpoint_ref " ref)
  apply_endpoint inject ref input (some r) =
      if not inject || not (trim_space (string_at input "url") == "")
      then ok (input, false)
      else ok (with_endpoint r input, true)

  unfoldable pub resolve_endpoint_ref_input : Object → Bool → Outcome Changed
  unfolding string_at get_endpoint get put
  resolve_endpoint_ref_input input inject =
      let ref = trim_space (string_at input "endpoint_ref") in
      if ref == ""
      then ok (input, false)
      else (do found ← get_endpoint api ref registry; apply_endpoint inject ref input found)

  -- both steps on an input
  unfoldable pub resolve_input : String → Bool → Object → Outcome Changed
  unfolding inject_default_endpoint_ref resolve_endpoint_ref_input
  resolve_input plugin inject input = do
    injected ← if inject then inject_default_endpoint_ref plugin input else ok (input, false)
    resolved ← resolve_endpoint_ref_input injected.0 inject
    ok (resolved.0, resolved.1 || injected.1)

  module _ (codec : Codec) where
    abbrev rewritten : OperationCall → Changed → OperationCall × Bool
    rewritten call (input, true) = (record call { input = codec.marshal input }, true)
    rewritten call (input, false) = (call, false)

    abbrev resolve_object :
        String → OperationCall → Bool → Option Object → Outcome (OperationCall × Bool)
    resolve_object plugin call inject none = ok (call, false)
    resolve_object plugin call inject (some input) = do
      changed ← resolve_input plugin inject input
      ok (rewritten call changed)

    unfoldable pub resolve_operation_endpoint_ref_with_mode :
        String → OperationCall → Bool → Outcome (OperationCall × Bool)
    unfolding resolve_input
    resolve_operation_endpoint_ref_with_mode plugin call inject =
        if call.input == ""
        then ok (call, false)
        else resolve_object plugin call inject (codec.unmarshal call.input)

    abbrev rewritten_payload : String → Changed → String
    rewritten_payload payload (input, true) = codec.marshal input
    rewritten_payload payload (input, false) = payload

    -- resolveDatasourceEndpointRef, on the payload of the request
    unfoldable pub resolve_datasource_endpoint_ref : String → String → Outcome String
    unfolding resolve_input
    resolve_datasource_endpoint_ref plugin payload =
        if payload == "" then ok payload else elim (codec.unmarshal payload) [
          | none ↦ ok payload
          | some input ↦ (do
            changed ← resolve_input plugin true input
            ok (rewritten_payload payload changed))
        ]
