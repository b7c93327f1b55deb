-- ===== src/Runner/Scope.antt =====
-- What an invocation lets a plugin ask of the host, operationGrantScope, datasourceGrantScope and
-- their helpers in runtime/runner.go. The manifest is what Runner.manifest returns.
pub mod Laws
use fluxplane_dex.Prelude.{
  String, Bool, false, true, not, ◌&&◌, ◌||◌, Option, none, some, List, [], ◌∷◌, ◌++◌, map, ◌==◌,
  if◌then◌else◌, trim_space,
}
use fluxplane_dex.Prelude.Outcome.{Outcome, ok, err}
use fluxplane_dex.Prelude.Slices.{cut}
use fluxplane_dex.Prelude.Unique.{mem}
use fluxplane_dex.Maps.{Map, get, put, get_or}
use fluxplane_dex.Grants.{CapabilityGrant, SecretPurpose, normalize_capability_grants}
use fluxplane_dex.Core.{
  OperationAccess, network, provider, process, browser, filesystem, same_access, OperationSpec,
  AuthField, AuthMethod, DatasourceSpec, PluginManifest,
}
use fluxplane_dex.Protocol.{OperationCall}
use fluxplane_dex.Capabilities.{
  capability_http, capability_blob_read, capability_blob_write, capability_provider,
}

-- a grant of a capability by its name
abbrev pub only : String → CapabilityGrant
only name = record { name = name; provider = ""; action = "" }

abbrev pub provider_grant : String → CapabilityGrant
provider_grant name = record { name = capability_provider; provider = name; action = "*" }

unfoldable pub contains_access : List OperationAccess → OperationAccess → Bool
unfolding same_access
contains_access [] wanted = false
contains_access (a ∷ as') wanted = same_access a wanted || contains_access as' wanted

unfoldable pub operation_has_access : OperationSpec → OperationAccess → Bool
unfolding contains_access
operation_has_access spec access = contains_access spec.access access

unfoldable pub operation_has_effect : OperationSpec → String → Bool
operation_has_effect spec effect = mem ◌==◌ effect spec.effects

-- the text before the first dot
unfoldable pub operation_provider : String → String
operation_provider name = elim (cut (trim_space name) ".") [
  | none ↦ "*"
  | some (before, after) ↦ if trim_space before == "" then "*" else trim_space before
]

-- what an operation with access to files may do with blobs
abbrev pub blob_grants : OperationSpec → List CapabilityGrant
blob_grants spec =
    (if spec.read_only
        || (operation_has_effect spec "read" || not (operation_has_effect spec "write"))
      then only capability_blob_read ∷ []
      else [])
    ++ (if not spec.read_only && operation_has_effect spec "write"
        then only capability_blob_write ∷ []
        else [])

-- the body of the loop over the kinds of access
unfoldable pub access_grants : OperationSpec → OperationAccess → List CapabilityGrant
unfolding operation_has_access operation_provider operation_has_effect
access_grants spec network =
    if operation_has_access spec provider then [] else only capability_http ∷ []
access_grants spec provider = provider_grant (operation_provider spec.name) ∷ []
access_grants spec filesystem = blob_grants spec
access_grants spec process = provider_grant "*" ∷ []
access_grants spec browser = provider_grant "*" ∷ []
access_grants spec _ = []

-- the loop
unfoldable pub grants_of :
    (OperationAccess → List CapabilityGrant) → List OperationAccess → List CapabilityGrant
grants_of body [] = []
grants_of body (a ∷ as') = body a ++ grants_of body as'

unfoldable pub operation_capability_grants : OperationSpec → List CapabilityGrant
unfolding grants_of access_grants
operation_capability_grants spec = grants_of (access_grants spec) spec.access

unfoldable pub datasource_access_grants : DatasourceSpec → OperationAccess → List CapabilityGrant
unfolding operation_provider
datasource_access_grants spec network = only capability_http ∷ []
datasource_access_grants spec provider = provider_grant (operation_provider spec.name) ∷ []
datasource_access_grants spec filesystem = only capability_blob_read ∷ []
datasource_access_grants spec process = provider_grant "*" ∷ []
datasource_access_grants spec browser = provider_grant "*" ∷ []
datasource_access_grants spec _ = []

unfoldable pub datasource_capability_grants : DatasourceSpec → List CapabilityGrant
unfolding grants_of datasource_access_grants
datasource_capability_grants spec =
    grants_of (datasource_access_grants spec) spec.access
    ++ elim spec.secret_purposes [ [] ↦ [] | p ∷ ps ↦ only capability_http ∷ [] ]

-- the variables of a field are its own, or else those of its method
abbrev pub field_env : AuthMethod → AuthField → List String
field_env method field = elim field.env [ [] ↦ method.env | e ∷ es ↦ e ∷ es ]

unfoldable pub add_fields : AuthMethod → List AuthField → Map (List String) → Map (List String)
add_fields method [] out = out
add_fields method (field ∷ fields) out = add_fields method fields (
    if field.name == ""
    then out
    else put field.name (get_or [] field.name out ++ field_env method field) out)

unfoldable pub add_methods : List AuthMethod → Map (List String) → Map (List String)
unfolding add_fields
add_methods [] out = out
add_methods (method ∷ methods) out = add_methods methods (add_fields method method.fields out)

unfoldable pub manifest_auth_env : PluginManifest → Map (List String)
unfolding add_methods
manifest_auth_env manifest = add_methods manifest.auth_methods []

-- the map `byName`, where a later operation replaces an earlier one
unfoldable pub by_name : List OperationSpec → Map OperationSpec → Map OperationSpec
by_name [] out = out
by_name (op ∷ ops) out = by_name ops (put op.name op out)

-- the map `purposeByName` after the purposes of one operation or datasource; `blank` is the test of
-- the names that are passed over
unfoldable pub add_purposes :
    (String → Bool) → Map (List String) → List String → Map SecretPurpose → Map SecretPurpose
add_purposes blank auth_env [] out = out
add_purposes blank auth_env (purpose ∷ purposes) out = add_purposes blank auth_env purposes (
    if blank purpose
    then out
    else put purpose (record { name = purpose; env = get_or [] purpose auth_env }) out)

-- the values of a map, in some order
abbrev pub values_of : {V : Type 0} → Map V → List V
values_of [] = []
values_of ((k, v) ∷ m) = v ∷ values_of m

-- the grants of the operation that a call names, where there is one
abbrev pub found_grants : Option OperationSpec → List CapabilityGrant
found_grants none = []
found_grants (some spec) = operation_capability_grants spec

unfoldable pub calls_grants : Map OperationSpec → List OperationCall → List CapabilityGrant
unfolding get operation_capability_grants
calls_grants specs [] = []
calls_grants specs (call ∷ calls) = found_grants (get call.name specs) ++ calls_grants specs calls

unfoldable pub calls_purposes :
    Map (List String)
    → Map OperationSpec
    → List OperationCall
    → Map SecretPurpose
    → Map SecretPurpose
unfolding add_purposes
calls_purposes auth_env specs [] out = out
calls_purposes auth_env specs (call ∷ calls) out =
    calls_purposes auth_env specs calls (elim (get call.name specs) [
      | none ↦ out
      | some spec ↦ add_purposes (λ p. p == "") auth_env spec.secret_purposes out
    ])

-- the operations, the purposes and the capabilities of a grant
pub record GrantScope : Type 0 where
  pub operations : List String
  pub purposes : List SecretPurpose
  pub capabilities : List CapabilityGrant

abbrev no_scope : GrantScope
no_scope = record { operations = []; purposes = []; capabilities = [] }

unfoldable pub operation_grant_scope : Outcome PluginManifest → List OperationCall → GrantScope
unfolding calls_grants calls_purposes by_name manifest_auth_env
operation_grant_scope (err e) calls = no_scope
operation_grant_scope (ok manifest) calls =
    let specs = by_name manifest.operations [] in
    record {
      operations = map (λ (c : OperationCall). c.name) calls;
      purposes = values_of (calls_purposes (manifest_auth_env manifest) specs calls []);
      capabilities = normalize_capability_grants (calls_grants specs calls);
    }

unfoldable pub datasource_command_capability : String → String
datasource_command_capability command =
    if command == "datasources.search"
    then "search"
    else if command == "datasources.get"
    then "get"
    else if command == "datasources.lookup"
    then "lookup"
    else ""

-- the three tests by which the loop over the datasources passes one over
unfoldable pub is_selected : String → String → String → DatasourceSpec → Bool
is_selected name entity capability spec =
    (name == "" || spec.name == name)
    && ((entity == "" || spec.entity == entity)
        && (capability == "" || mem ◌==◌ capability spec.capabilities))

unfoldable pub datasources_grants :
    (DatasourceSpec → Bool) → List DatasourceSpec → List CapabilityGrant
unfolding datasource_capability_grants
datasources_grants selected [] = []
datasources_grants selected (spec ∷ specs) =
    (if selected spec then datasource_capability_grants spec else [])
    ++ datasources_grants selected specs

unfoldable pub datasources_purposes :
    (DatasourceSpec → Bool)
    → Map (List String)
    → List DatasourceSpec
    → Map SecretPurpose
    → Map SecretPurpose
unfolding add_purposes
datasources_purposes selected auth_env [] out = out
datasources_purposes selected auth_env (spec ∷ specs) out =
    datasources_purposes selected auth_env specs (
      if selected spec
      then add_purposes (λ p. trim_space p == "") auth_env spec.secret_purposes out
      else out)

-- `name` and `entity` are what the payload of the command asks for
unfoldable pub datasource_grant_scope :
    Outcome PluginManifest → String → String → String → GrantScope
unfolding datasources_grants datasources_purposes manifest_auth_env is_selected
datasource_grant_scope (err e) command name entity = no_scope
datasource_grant_scope (ok manifest) command name entity =
    let selected = is_selected name entity (datasource_command_capability command) in
    record {
      operations = command ∷ [];
      purposes =
          values_of
            (datasources_purposes selected (manifest_auth_env manifest) manifest.datasources []);
      capabilities = normalize_capability_grants (datasources_grants selected manifest.datasources);
    }
