-- ===== src/Runner/Requests/Laws.antt =====
-- What a request of a plugin needs before the host acts for it, handleHostRequest in
-- runtime/runner.go.
use fluxplane_dex.Prelude.{
  String, ◌≡◌, refl, ap, ◌∙◌, inl, inr, Bool, false, ◌&&◌, is_none, Option, none, Option-cases,
  arith,
}
use fluxplane_dex.Prelude.Outcome.{Outcome, ok, err, is_ok}
use fluxplane_dex.Endpoints.{EndpointApi}
use fluxplane_dex.Grants.{CapabilityGrant}
use fluxplane_dex.Grants.Release.{SecretApi}
use fluxplane_dex.Capabilities.{
  capability_http, capability_blob_read, capability_blob_write, capability_env_lookup,
}
use fluxplane_dex.Protocol.{
  HostCommand, secret_get, index_lookup, index_search, index_get, endpoint_resolve, http_do,
  blob_read, blob_write, blob_info, env_lookup, provider_call, unknown, host_command, Response,
  Frame, fail,
}
use fluxplane_dex.Runner.Host.{Host}
use fluxplane_dex.Runner.Scope.{only}
use fluxplane_dex.Runner.Requests.{
  decoded, permitted, performed, permission, provider_action, serve, reject_cross_plugin_host_call,
  handle_host_request,
}

-- what a command asks of a grant
pub data Demand : Type 0 where
  nothing : Demand
  unreadable : Demand
  capability : CapabilityGrant → Demand

abbrev pub demand_of : {A : Type 0} → Outcome A → (A → CapabilityGrant) → Demand
demand_of (ok a) f = capability (f a)
demand_of (err e) f = unreadable

capability-injective : {a b : CapabilityGrant} → capability a ≡ capability b → a ≡ b
capability-injective h = cc

module _ {api : SecretApi} {endpoint_api : EndpointApi} {W : Type 0}
    (host : Host api endpoint_api W) where
  open host use {wire}

  module _ (plugin instance_name grant : String) where
    -- the capability of each command that acts on the world outside
    abbrev pub demand : HostCommand → String → Demand
    demand http_do raw = demand_of (wire.read_http raw) (λ _. only capability_http)
    demand blob_read raw = demand_of (wire.read_blob_read raw) (λ _. only capability_blob_read)
    demand blob_info raw = demand_of (wire.read_blob_info raw) (λ _. only capability_blob_read)
    demand blob_write raw = demand_of (wire.read_blob_write raw) (λ _. only capability_blob_write)
    demand env_lookup raw = demand_of (wire.read_env_lookup raw) (λ _. only capability_env_lookup)
    demand provider_call raw =
        demand_of (wire.read_provider_call raw) (provider_action host plugin instance_name grant)
    demand _ raw = nothing

    -- does the grant satisfy the demand
    abbrev pub is_met : Demand → Bool
    is_met (capability c) = is_ok (permission host plugin instance_name grant c)
    is_met _ = false

    permitted-world :
        (o : Outcome (Unit {0})) (next : Response × W) (w : W)
        → is_ok o ≡ false
        → (permitted o next w).1 ≡ w
    permitted-world (ok u) next w h = cc
    permitted-world (err e) next w h = refl

    decoded-world :
        {A : Type 0} (m : Outcome A) (f : A → CapabilityGrant) (act : A → Response × W) (w : W)
        → is_met (demand_of m f) ≡ false
        → (decoded m
            (λ a. permitted (permission host plugin instance_name grant (f a)) (act a) w)
            w).1
          ≡ w
    decoded-world (err e) f act w h = refl
    decoded-world (ok a) f act w h = permitted-world _ (act a) w h

    answered-world :
        {A : Type 0} (m : Outcome A) (f : A → Response × W) (w : W)
        → ((a : A) → (f a).1 ≡ w)
        → (decoded m f w).1 ≡ w
    answered-world (ok a) f w h = h a
    answered-world (err e) f w h = refl

    performed-world :
        {A : Type 0} (write : A → Outcome String) (code : String) (m : Outcome A) (w : W)
        → (performed write code (m, w)).1 ≡ w
    performed-world write code (ok a) w = refl
    performed-world write code (err e) w = refl

    serve-world :
        (command : HostCommand) (raw : String) (w : W)
        → is_met (demand command raw) ≡ false
        → (serve host plugin instance_name grant command raw w).1 ≡ w
    unfolding serve
    serve-world secret_get raw w h =
        answered-world (wire.read_purpose raw) _ w (λ a. performed-world _ _ _ w)
    serve-world index_lookup raw w h = performed-world _ _ _ w
    serve-world index_search raw w h = performed-world _ _ _ w
    serve-world index_get raw w h = ground arith
    serve-world endpoint_resolve raw w h =
        answered-world (wire.read_endpoint_ref raw) _ w (λ a. refl)
    serve-world http_do raw w h = decoded-world (wire.read_http raw) _ _ w h
    serve-world blob_read raw w h = decoded-world (wire.read_blob_read raw) _ _ w h
    serve-world blob_write raw w h = decoded-world (wire.read_blob_write raw) _ _ w h
    serve-world blob_info raw w h = decoded-world (wire.read_blob_info raw) _ _ w h
    serve-world env_lookup raw w h = decoded-world (wire.read_env_lookup raw) _ _ w h
    serve-world provider_call raw w h = decoded-world (wire.read_provider_call raw) _ _ w h
    serve-world (unknown word) raw w h = refl

    abbrev pub rejection : Frame → Option String
    rejection frame =
        reject_cross_plugin_host_call (wire.reader.codec.unmarshal frame.payload) plugin

    -- may the host act on the world outside for the frame
    abbrev pub may_act : Frame → Bool
    may_act frame =
        is_none (rejection frame) && is_met (demand (host_command frame.command) frame.payload)

    -- The host leaves the world outside of the program as it was for every request that names
    -- another plugin, that cannot be read, that asks for no capability, or whose capability the grant
    -- does not cover.
    pub handle_host_request-world :
        (frame : Frame) (w : W)
        → may_act frame ≡ false
        → (handle_host_request host plugin instance_name grant frame w).1 ≡ w
    unfolding handle_host_request
    handle_host_request-world frame w h = elim (Option-cases (rejection frame)) [
      | inl n ↦ rw n (serve-world _ frame.payload w (let e = n in ground arith))
      | inr s ↦ rw s.1 refl
    ]

    decoded-forbidden :
        {A : Type 0} (m : Outcome A) (f : A → CapabilityGrant) (act : A → Response × W) (w : W)
        (c : CapabilityGrant) (e : String)
        → demand_of m f ≡ capability c
        → permission host plugin instance_name grant c ≡ err e
        → decoded m (λ a. permitted (permission host plugin instance_name grant (f a)) (act a) w) w
          ≡ (fail "forbidden" e, w)
    decoded-forbidden (err x) f act w c e d h = cc
    decoded-forbidden (ok a) f act w c e d h =
        rw (ap (λ x. permission host plugin instance_name grant x) (capability-injective d) ∙ h)
          refl

    serve-forbidden :
        (command : HostCommand) (raw : String) (w : W) (c : CapabilityGrant) (e : String)
        → demand command raw ≡ capability c
        → permission host plugin instance_name grant c ≡ err e
        → serve host plugin instance_name grant command raw w ≡ (fail "forbidden" e, w)
    unfolding serve
    serve-forbidden http_do raw w c e = decoded-forbidden (wire.read_http raw) _ _ w c e
    serve-forbidden blob_read raw w c e = decoded-forbidden (wire.read_blob_read raw) _ _ w c e
    serve-forbidden blob_write raw w c e = decoded-forbidden (wire.read_blob_write raw) _ _ w c e
    serve-forbidden blob_info raw w c e = decoded-forbidden (wire.read_blob_info raw) _ _ w c e
    serve-forbidden env_lookup raw w c e = decoded-forbidden (wire.read_env_lookup raw) _ _ w c e
    serve-forbidden provider_call raw w c e =
        decoded-forbidden (wire.read_provider_call raw) _ _ w c e
    serve-forbidden secret_get raw w c e = λ d h. cc
    serve-forbidden index_lookup raw w c e = λ d h. cc
    serve-forbidden index_search raw w c e = λ d h. cc
    serve-forbidden index_get raw w c e = λ d h. cc
    serve-forbidden endpoint_resolve raw w c e = λ d h. cc
    serve-forbidden (unknown word) raw w c e = λ d h. cc

    -- If the payload names no other plugin, the command asks for a capability, and the check of that
    -- capability on the grant fails, then the answer is "forbidden" with the error of the check, and
    -- the world outside of the program is as it was.
    pub handle_host_request-forbidden :
        (frame : Frame) (w : W) (c : CapabilityGrant) (e : String)
        → rejection frame ≡ none
        → demand (host_command frame.command) frame.payload ≡ capability c
        → permission host plugin instance_name grant c ≡ err e
        → handle_host_request host plugin instance_name grant frame w ≡ (fail "forbidden" e, w)
    unfolding handle_host_request
    handle_host_request-forbidden frame w c e r d h =
        rw r (serve-forbidden _ frame.payload w c e d h)
