-- ===== src/Runner/Requests/Granted.antt =====
-- What a plugin can make the host do with the grant of its invocation: operationGrantScope and
-- handleHostRequest in runtime/runner.go, CreateGrantWithCapabilities in runtime/secret.go.
use fluxplane_dex.Prelude.{ℕ, String, ◌≡◌, Bool, false, List, trim_space, arith}
use fluxplane_dex.Prelude.Int.{ℤ}
use fluxplane_dex.Prelude.Outcome.{ok}
use fluxplane_dex.Endpoints.{EndpointApi}
use fluxplane_dex.Grants.{is_blank}
use fluxplane_dex.Grants.Laws.{after_create}
use fluxplane_dex.Grants.Release.{SecretApi}
use fluxplane_dex.Core.{PluginManifest}
use fluxplane_dex.Protocol.{OperationCall, Frame, host_command}
use fluxplane_dex.Runner.Host.{Host}
use fluxplane_dex.Runner.Scope.{operation_grant_scope}
use fluxplane_dex.Runner.Scope.Laws.{may_use, validate_capability_grant-operation}
use fluxplane_dex.Runner.Requests.{handle_host_request}
use fluxplane_dex.Runner.Requests.Laws.{
  Demand, nothing, unreadable, capability, demand, is_met, handle_host_request-world,
}

-- is the demand one that the called operations declare
abbrev pub is_declared : PluginManifest → List OperationCall → Demand → Bool
is_declared manifest calls (capability c) = may_use manifest calls c
is_declared manifest calls _ = false

module _ {api : SecretApi} {endpoint_api : EndpointApi} {W : Type 0}
    (host : Host api endpoint_api W) (manifest : PluginManifest) (calls : List OperationCall)
    (now : ℕ) (token plugin instance_name : String) (ttl : ℤ) where
  -- the host after the invocation has made its grant
  abbrev pub granting : Host api endpoint_api W
  granting =
      let scope = operation_grant_scope (ok manifest) calls in
      record host {
        grants =
            after_create now token plugin instance_name scope.operations scope.purposes
              scope.capabilities ttl host.grants;
      }

  module _ (named : is_blank (trim_space plugin) ≡ false)
      (held : is_blank (trim_space token) ≡ false) where
    met-declared :
        (for_plugin for_instance : String) (d : Demand)
        → is_declared manifest calls d ≡ false
        → is_met granting for_plugin for_instance token d ≡ false
    met-declared for_plugin for_instance nothing h = h
    met-declared for_plugin for_instance unreadable h = h
    met-declared for_plugin for_instance (capability c) h = ground (
      arith,
      validate_capability_grant-operation manifest calls now token plugin instance_name ttl
          host.grants named held host.now for_plugin for_instance c,
    )

    -- If the plugin and the token are not blank, then with the grant of an invocation of operations
    -- a request leaves the world outside of the program as it was, whoever shows the token and when,
    -- unless some call names an operation of the manifest that declares the access which the
    -- request needs.
    pub handle_host_request-declared :
        (for_plugin for_instance : String) (frame : Frame) (w : W)
        → is_declared manifest calls (
            demand granting for_plugin for_instance token
              (host_command frame.command)
              frame.payload)
          ≡ false
        → (handle_host_request granting for_plugin for_instance token frame w).1 ≡ w
    handle_host_request-declared for_plugin for_instance frame w h =
        handle_host_request-world granting for_plugin for_instance token frame w (
          ground (
            arith,
            met-declared for_plugin for_instance
                (demand granting for_plugin for_instance token (host_command frame.command)
                  frame.payload)
                h,
          ))
