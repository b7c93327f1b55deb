-- ===== src/Runner/Requests.antt =====
-- How the host serves a request of a plugin, handleHostRequest and its helpers in
-- runtime/runner.go.
pub mod Laws
pub mod Granted
use fluxplane_dex.Prelude.{
  String, not, ◌&&◌, Option, none, some, ◌==◌, if◌then◌else◌, trim_space, append,
}
use fluxplane_dex.Prelude.Outcome.{Outcome, ok, err, ◌>>=◌}
use fluxplane_dex.Json.{Object}
use fluxplane_dex.Endpoints.{EndpointApi, EndpointRecord, get_endpoint}
use fluxplane_dex.Grants.{CapabilityGrant, validate_capability_grant}
use fluxplane_dex.Grants.Release.{SecretApi, SecretMaterial, resolve_secret}
use fluxplane_dex.Index.Store.{get_index_record_by_entity}
use fluxplane_dex.Index.Search.{lookup_index_with_options, search_index_with_options}
use fluxplane_dex.Index
use fluxplane_dex.Capabilities
use fluxplane_dex.Capabilities.{
  capability_http, capability_blob_read, capability_blob_write, capability_env_lookup,
  capability_provider, HttpRequest, HttpAuthRequest, ProviderCallRequest,
}
use fluxplane_dex.Protocol.{
  HostCommand, secret_get, index_lookup, index_search, index_get, endpoint_resolve, http_do,
  blob_read, blob_write, blob_info, env_lookup, provider_call, unknown, host_command, Response,
  Frame, fail, ok_response,
}
use fluxplane_dex.Runner.Payloads.{
  string_at, search_payload, lookup_payload, get_payload_id, get_payload_entity,
}
use fluxplane_dex.Runner.Auth.{resolve_http_auth}
use fluxplane_dex.Runner.Scope.{only}
use fluxplane_dex.Runner.Host.{Host}

-- the error for a payload that names another plugin; %q is written without its quotes
unfoldable pub reject_cross_plugin_host_call : Option Object → String → Option String
unfolding string_at
reject_cross_plugin_host_call none plugin = none
reject_cross_plugin_host_call (some payload) plugin =
    let value = string_at payload "plugin" in
    if not (trim_space value == "") && not (trim_space value == plugin)
    then some
        (append "host call cannot access plugin " (append value (append " from plugin " plugin)))
    else none

-- the endings of the branches of handleHostRequest: a payload that cannot be read, a capability that
-- is not granted, and what was done
module _ {W : Type 0} where
  abbrev pub decoded : {A : Type 0} → Outcome A → (A → Response × W) → W → Response × W
  decoded (ok a) next w = next a
  decoded (err e) next w = (fail "bad_payload" e, w)

  abbrev pub permitted : Outcome (Unit {0}) → Response × W → W → Response × W
  permitted (ok u) next w = next
  permitted (err e) next w = (fail "forbidden" e, w)

  abbrev pub performed : {A : Type 0} → (A → Outcome String) → String → Outcome A × W → Response × W
  performed write code (ok a, w) = (ok_response (write a), w)
  performed write code (err e, w) = (fail code e, w)

module _ {api : SecretApi} {endpoint_api : EndpointApi} {W : Type 0}
    (host : Host api endpoint_api W) where
  open host use {wire, capabilities, providers, grants, now}

  module _ (plugin instance_name grant : String) where
    unfoldable pub secret_of : String → Outcome (SecretMaterial api)
    secret_of purpose =
        resolve_secret api host.getenv host.secrets grants now plugin instance_name purpose grant

    -- the trimmed value of a purpose
    abbrev pub secret_value : String → Outcome String
    secret_value purpose = do material ← secret_of purpose; ok (trim_space material.value)

    -- the address of an endpoint
    abbrev endpoint_url : String → Option (EndpointRecord endpoint_api) → Outcome String
    endpoint_url ref none = err (append "unknown endpoint_ref " ref)
    endpoint_url ref (some r) = ok (host.url_of r.ref)

    abbrev with_endpoint : HttpRequest → Outcome HttpRequest
    with_endpoint input =
        if trim_space input.endpoint_ref == ""
        then ok input
        else if not (trim_space input.url == "")
        then err "host HTTP request cannot include both endpoint_ref and url"
        else (do
          found ← get_endpoint endpoint_api input.endpoint_ref host.endpoints
          url ← endpoint_url input.endpoint_ref found
          ok (record input { url = url }))

    abbrev with_auth : HttpRequest → Option HttpAuthRequest → Outcome HttpRequest
    with_auth input none = ok input
    with_auth input (some auth) = do
      headers ← resolve_http_auth wire.base64 secret_value input.headers auth
      ok (record input { headers = headers })

    unfoldable pub resolve_http_request : HttpRequest → Outcome HttpRequest
    unfolding resolve_http_auth secret_of
    resolve_http_request input = do
      addressed ← with_endpoint input
      with_auth addressed addressed.auth

    abbrev sent : Outcome HttpRequest → W → Outcome Capabilities.HttpResponse × W
    sent (ok input) w = capabilities.http input w
    sent (err e) w = (err e, w)

    unfoldable pub host_http : HttpRequest → W → Outcome Capabilities.HttpResponse × W
    unfolding resolve_http_request
    host_http input w = sent (resolve_http_request input) w

    unfoldable pub host_env_lookup : String → W → Outcome Capabilities.EnvLookupResponse × W
    host_env_lookup key w =
        if trim_space key == ""
        then (err "environment key is empty", w)
        else capabilities.env_lookup key w

    unfoldable pub host_provider_call : ProviderCallRequest → W → Outcome String × W
    host_provider_call input w =
        let name = trim_space input.provider in
        if name == "sql"
        then providers.sql plugin instance_name grant input w
        else if name == "docker"
        then providers.docker plugin instance_name grant input w
        else if name == "kubernetes"
        then providers.kubernetes plugin instance_name grant input w
        else if name == "asterisk"
        then providers.asterisk plugin instance_name grant input w
        else if name == "system"
        then providers.system (trim_space input.action) input.payload w
        else capabilities.provider_call input w

    abbrev pub permission : CapabilityGrant → Outcome (Unit {0})
    permission requested = validate_capability_grant grants now plugin instance_name grant requested

    abbrev pub provider_action : ProviderCallRequest → CapabilityGrant
    provider_action input = record {
      name = capability_provider;
      provider = input.provider;
      action = input.action;
    }

    -- the answer with a record of the index
    abbrev record_response : Option Index.IndexRecord → Response
    record_response none = fail "not_found" "indexed record not found"
    record_response (some r) = ok_response (wire.write_record r)

    abbrev endpoint_response : String → Option (EndpointRecord endpoint_api) → Response
    endpoint_response ref none = fail "not_found" (append "unknown endpoint_ref " ref)
    endpoint_response ref (some r) = ok_response (wire.write_endpoint r.ref)

    abbrev answer : {A : Type 0} → String → (A → Response) → Outcome A → Response
    answer code respond (ok a) = respond a
    answer code respond (err e) = fail code e

    -- the switch of handleHostRequest
    unfoldable pub serve : HostCommand → String → W → Response × W
    unfolding host_http host_env_lookup host_provider_call secret_of ok_response lookup_payload
        search_payload get_payload_id get_payload_entity get_endpoint
    serve secret_get raw w =
        decoded (wire.read_purpose raw)
          (λ purpose. performed wire.write_material "secret" (secret_of purpose, w)) w
    serve index_lookup raw w =
        let options = lookup_payload wire.reader (wire.remarshal raw) in
        performed (wire.write_lookup options.text options.terms) "host_index"
          (lookup_index_with_options wire.reader.codec host.indexes plugin instance_name options, w)
    serve index_search raw w =
        let options = search_payload wire.reader (wire.remarshal raw) in
        performed (wire.write_search options.query) "host_index"
          (search_index_with_options wire.reader.codec host.indexes plugin instance_name options, w)
    serve index_get raw w =
        let id = get_payload_id wire.reader (wire.remarshal raw) in
        let entity = get_payload_entity wire.reader (wire.remarshal raw) in
        if id == "" then (fail "bad_payload" "host index get requires id", w) else (
          answer "host_index" record_response (
              get_index_record_by_entity wire.reader.codec host.indexes plugin instance_name entity
                id),
          w,
        )
    serve endpoint_resolve raw w =
        decoded (wire.read_endpoint_ref raw)
          (λ ref. (
            answer "endpoint" (endpoint_response ref)
                (get_endpoint endpoint_api ref host.endpoints),
            w,
          ))
          w
    serve http_do raw w =
        decoded (wire.read_http raw)
          (λ input.
            permitted (permission (only capability_http))
              (performed wire.write_http "host_http" (host_http input w)) w)
          w
    serve blob_read raw w =
        decoded (wire.read_blob_read raw)
          (λ input.
            permitted (permission (only capability_blob_read))
              (performed wire.write_blob_read "host_blob" (capabilities.blob_read input w)) w)
          w
    serve blob_write raw w =
        decoded (wire.read_blob_write raw)
          (λ input.
            permitted (permission (only capability_blob_write))
              (performed wire.write_blob "host_blob" (capabilities.blob_write input w)) w)
          w
    serve blob_info raw w =
        decoded (wire.read_blob_info raw)
          (λ input.
            permitted (permission (only capability_blob_read))
              (performed wire.write_blob "host_blob" (capabilities.blob_info input w)) w)
          w
    serve env_lookup raw w =
        decoded (wire.read_env_lookup raw)
          (λ key.
            permitted (permission (only capability_env_lookup))
              (performed wire.write_env "host_env" (host_env_lookup key w)) w)
          w
    serve provider_call raw w =
        decoded (wire.read_provider_call raw)
          (λ input.
            permitted (permission (provider_action input))
              (performed wire.write_provider "host_provider" (host_provider_call input w)) w)
          w
    serve (unknown word) raw w =
        (fail "unknown_host_command" (append "unknown host command " word), w)

    abbrev served_unless : Option String → Response × W → W → Response × W
    served_unless none next w = next
    served_unless (some e) next w = (fail "forbidden" e, w)

    unfoldable pub handle_host_request : Frame → W → Response × W
    unfolding reject_cross_plugin_host_call serve host_command
    handle_host_request frame w =
        served_unless
          (reject_cross_plugin_host_call (wire.reader.codec.unmarshal frame.payload) plugin)
          (serve (host_command frame.command) frame.payload w) w
