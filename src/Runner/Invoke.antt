-- ===== src/Runner/Invoke.antt =====
-- One invocation of a command of a plugin, InvokeInstance in runtime/runner.go: the endpoints put
-- into the payload, the answer of the host's index, the grant, the call, and the enrichment. What
-- Runner.manifest returns, the built-in plugins and the call of the process are parameters here; the
-- call is invokeRequest, whose conversation is in Runner.Frames.
use fluxplane_dex.Prelude.{
  ℕ, String, Bool, ◌||◌, Option, none, some, List, [], ◌∷◌, ◌*◌, ◌^◌, ◌==◌, if◌then◌else◌,
  trim_space, append,
}
use fluxplane_dex.Prelude.Int.{ℤ, pos}
use fluxplane_dex.Prelude.Outcome.{Outcome, ok, err}
use fluxplane_dex.Files.{Disk}
use fluxplane_dex.Maps.{get_or}
use fluxplane_dex.Grants.{Grant, Grants, normalize_instance, create_grant_with_capabilities}
use fluxplane_dex.Plugins.{PluginEntry}
use fluxplane_dex.Core.{PluginManifest}
use fluxplane_dex.Protocol.{Request, Response, OperationCall, new_request}
use fluxplane_dex.Capabilities.{capability_provider}
use fluxplane_dex.Runner.Scope.{GrantScope, operation_grant_scope, datasource_grant_scope}
use fluxplane_dex.Runner.IndexDatasource.{is_datasource_command}

abbrev pub is_operation_command : String → Bool
is_operation_command command = command == "operations.call" || command == "operations.call_batch"

abbrev pub endpoints_discover : String
endpoints_discover = "endpoints.discover"

-- isBuiltinPlugin
unfoldable pub is_builtin_plugin : PluginEntry → Bool
is_builtin_plugin entry =
    trim_space (get_or "" "kind" entry.metadata) == "builtin"
    || trim_space (get_or "" "builtin" entry.metadata) == "true"

abbrev pub discovery_scope : GrantScope
discovery_scope = record {
  operations = endpoints_discover ∷ [];
  purposes = [];
  capabilities = record { name = capability_provider; provider = "kubernetes"; action = "*" } ∷ [];
}

abbrev pub unless_empty : GrantScope → Option GrantScope
unless_empty scope = elim scope.purposes [
  | p ∷ ps ↦ some scope
  | [] ↦ elim scope.capabilities [ c ∷ cs ↦ some scope | [] ↦ none ]
]

-- The grant that a command is given. `calls` are the calls of the payload, `name` and `entity` what
-- it asks of a datasource.
unfoldable pub scope_of :
    Outcome PluginManifest → String → List OperationCall → String → String → Option GrantScope
unfolding operation_grant_scope datasource_grant_scope is_datasource_command
scope_of manifest command calls name entity =
    if is_operation_command command
    then some (operation_grant_scope manifest calls)
    else if command == endpoints_discover
    then some discovery_scope
    else if is_datasource_command command
    then unless_empty (datasource_grant_scope manifest command name entity)
    else none

abbrev five_minutes : ℤ
five_minutes = pos (5 * (60 * 10 ^ 9))

abbrev pub with_token : Request → Outcome Grant × Grants → Outcome Request × Grants
with_token req (ok g, grants) = (ok (record req { grant = g.token }), grants)
with_token req (err e, grants) = (err e, grants)

-- the request with the token of its grant, and the directory of grants
unfoldable pub granted_request :
    Outcome String
    → Disk Grant
    → ℕ
    → String
    → Option GrantScope
    → Request
    → Grants
    → Outcome Request × Grants
unfolding create_grant_with_capabilities
granted_request random disk now plugin none req grants = (ok req, grants)
granted_request random disk now plugin (some scope) req grants = with_token req (
    create_grant_with_capabilities random disk now plugin req.instance_name scope.operations
      scope.purposes scope.capabilities five_minutes grants)

-- What InvokeInstance reaches. `index` is the answer of the host's index, `enrich` the enrichment of
-- a response, `resolve_payload` the payload of the request with its endpoints, and `call` and
-- `builtin` are the two ways to a plugin.
pub record Invoker (W : Type 0) : Type 0 where
  pub random : Outcome String
  pub disk : Disk Grant
  pub now : ℕ
  pub manifest : Outcome PluginManifest
  pub resolve_payload : String → String → Outcome String
  pub index : String → Outcome (Option Response)
  pub enrich : String → Response → Outcome Response
  pub builtin : Request → W → Outcome Response × W
  pub call : Grants → Request → W → (Response × Option String) × W

module _ {W : Type 0} (invoker : Invoker W) where
  open invoker use {random, disk, now, manifest, resolve_payload, index, enrich, builtin, call}

  -- the answer, the directory of grants, and the world
  abbrev pub Invoked : Type 0
  Invoked = Outcome Response × Grants × W

  abbrev enriched : String → Grants → Outcome Response × W → Invoked
  enriched command grants (err e, w) = (err e, grants, w)
  enriched command grants (ok resp, w) = (enrich command resp, grants, w)

  abbrev of_result : (Response × Option String) × W → Outcome Response × W
  of_result ((resp, none), w) = (ok resp, w)
  of_result ((resp, some e), w) = (err e, w)

  abbrev called : String → Outcome Request × Grants → W → Invoked
  called command (err e, grants) w = (err e, grants, w)
  called command (ok req, grants) w = enriched command grants (of_result (call grants req w))

  -- the part after the index was asked
  abbrev to_plugin :
      PluginEntry
      → List OperationCall
      → String
      → String
      → Request
      → Outcome (Option Response)
      → Grants
      → W
      → Invoked
  to_plugin entry calls name entity req (err e) grants w = (err e, grants, w)
  to_plugin entry calls name entity req (ok (some resp)) grants w = (ok resp, grants, w)
  to_plugin entry calls name entity req (ok none) grants w =
      if is_builtin_plugin entry
      then enriched req.command grants (builtin req w)
      else called req.command
          (granted_request random disk now entry.name
            (scope_of manifest req.command calls name entity) req grants)
          w

  abbrev with_payload :
      PluginEntry
      → List OperationCall
      → String
      → String
      → Request
      → Outcome String
      → Grants
      → W
      → Invoked
  with_payload entry calls name entity req (err e) grants w = (err e, grants, w)
  with_payload entry calls name entity req (ok raw) grants w =
      to_plugin entry calls name entity (record req { payload = raw })
        (if is_datasource_command req.command then index req.command else ok none) grants w

  abbrev with_request :
      PluginEntry
      → List OperationCall
      → String
      → String
      → String
      → Outcome Request
      → Grants
      → W
      → Invoked
  with_request entry calls name entity instance_name (err e) grants w = (err e, grants, w)
  with_request entry calls name entity instance_name (ok req) grants w =
      with_payload entry calls name entity
        (record req { instance_name = normalize_instance instance_name })
        (if is_operation_command req.command || is_datasource_command req.command
          then resolve_payload req.command req.payload
          else ok req.payload)
        grants w

  -- `resolved` is what the marketplace has for the name, `encoded` the text of the payload
  unfoldable pub invoke_instance :
      String
      → Option PluginEntry
      → String
      → String
      → Outcome String
      → List OperationCall
      → String
      → String
      → Grants
      → W
      → Invoked
  unfolding granted_request scope_of is_builtin_plugin is_datasource_command new_request
      normalize_instance
  invoke_instance plugin_name none instance_name command encoded calls name entity grants w =
      (err (append "unknown plugin " plugin_name), grants, w)
  invoke_instance plugin_name (some entry) instance_name command encoded calls name entity grants
        w =
      with_request entry calls name entity instance_name (new_request command entry.name encoded)
        grants w
