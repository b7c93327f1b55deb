-- ===== src/Runner/Scope/Laws.antt =====
-- Which capabilities the grants of an invocation cover, operationGrantScope in runtime/runner.go
-- with CreateGrantWithCapabilities and ValidateCapabilityGrant of runtime/secret.go.
use fluxplane_dex.Prelude.{
  ℕ, String, ◌≡◌, refl, sym, ◌∙◌, Bool, true, false, not, ◌&&◌, ◌||◌, Option, none, some, List, [],
  ◌∷◌, ◌++◌, arith, ◌==◌, trim_space, strings, any,
}
use fluxplane_dex.Prelude.Int.{ℤ}
use fluxplane_dex.Prelude.Outcome.{ok, is_ok}
use fluxplane_dex.Maps.{Map, get}
use fluxplane_dex.Grants.{CapabilityGrant, Grants, is_blank, validate_capability_grant}
use fluxplane_dex.Grants.Laws.{after_create, in_time_by_owner, validate_capability_grant-create}
use fluxplane_dex.Grants.Lists.{covers, covers_part, any-normalize}
use fluxplane_dex.Core.{
  OperationAccess, no_access, auth, secret, network, provider, process, browser, filesystem,
  local_system, other_access, same_access, OperationSpec, PluginManifest,
}
use fluxplane_dex.Capabilities.{
  capability_http, capability_blob_read, capability_blob_write, capability_provider,
}
use fluxplane_dex.Protocol.{OperationCall}
use fluxplane_dex.Runner.Scope.{
  contains_access, operation_has_access, operation_has_effect, operation_provider, blob_grants,
  access_grants, grants_of, operation_capability_grants, found_grants, calls_grants,
  operation_grant_scope, by_name,
}

any-++ : {A : Type 0} (p : A → Bool) (xs ys : List A) → any p (xs ++ ys) ≡ any p xs || any p ys
any-++ p [] ys = refl
any-++ p (x ∷ xs) ys = ground (arith, any-++ p xs ys)

-- reads and writes of files, as the effects of an operation say
abbrev pub reads_files : OperationSpec → Bool
reads_files spec =
    spec.read_only || (operation_has_effect spec "read" || not (operation_has_effect spec "write"))

abbrev pub writes_files : OperationSpec → Bool
writes_files spec = not spec.read_only && operation_has_effect spec "write"

abbrev pub asks : CapabilityGrant → String → Bool
asks r name = name == trim_space r.name

-- A rule: the name of a capability, the kind of access that gives it, and a condition.
abbrev pub Rule : Type 0
Rule = String × OperationAccess × Bool

-- HTTP for access to the network that goes by no provider, reading or writing blobs for access to
-- files, and calls of a provider: of any for processes and browsers, and of the operation's own for
-- access to a provider.
abbrev pub rules : OperationSpec → CapabilityGrant → List Rule
rules spec r =
    (capability_http, network, not (operation_has_access spec provider))
    ∷ (capability_blob_read, filesystem, reads_files spec)
    ∷ (capability_blob_write, filesystem, writes_files spec)
    ∷ (capability_provider, process, true)
    ∷ (capability_provider, browser, true)
    ∷ (capability_provider, provider, covers_part (operation_provider spec.name) r.provider)
    ∷ []

abbrev pub applies : CapabilityGrant → List OperationAccess → Rule → Bool
applies r as' (name, wanted, condition) = asks r name && (contains_access as' wanted && condition)

abbrev pub allows_access : OperationSpec → List OperationAccess → CapabilityGrant → Bool
allows_access spec as' r = any (applies r as') (rules spec r)

abbrev pub allows : OperationSpec → CapabilityGrant → Bool
allows spec r = allows_access spec spec.access r

-- a condition on one of two lists, beside the rules that follow
distribute :
    (q x y p m n : Bool)
    → (q && ((x || y) && p)) || (m || n)
      ≡ ((q && ((x || false) && p)) || m) || ((q && (y && p)) || n)
distribute q x y p m n = ground arith

module _ (spec : OperationSpec) (r : CapabilityGrant) where
  abbrev covered : List CapabilityGrant → Bool
  covered cs = any (λ c. covers c r) cs

  blob_grants-covered :
      covered (blob_grants spec)
      ≡ (asks r capability_blob_read && reads_files spec)
        || (asks r capability_blob_write && writes_files spec)
  unfolding strings
  blob_grants-covered = ground arith

  access_grants-covered :
      (a : OperationAccess) → covered (access_grants spec a) ≡ allows_access spec (a ∷ []) r
  unfolding access_grants same_access strings contains_access
  access_grants-covered network = ground arith
  access_grants-covered provider = ground arith
  access_grants-covered filesystem = blob_grants-covered ∙ ground arith
  access_grants-covered process = ground arith
  access_grants-covered browser = ground arith
  access_grants-covered no_access = ground arith
  access_grants-covered auth = ground arith
  access_grants-covered secret = ground arith
  access_grants-covered local_system = ground arith
  access_grants-covered (other_access s) = ground arith

  allows_access-cons :
      (a : OperationAccess) (as' : List OperationAccess) (rs : List Rule)
      → any (applies r (a ∷ as')) rs ≡ any (applies r (a ∷ [])) rs || any (applies r as') rs
  unfolding contains_access
  allows_access-cons a as' [] = refl
  allows_access-cons a as' ((name, wanted, condition) ∷ rs) =
      let later = allows_access-cons a as' rs in
      rw later (
        distribute (asks r name) (same_access a wanted) (contains_access as' wanted) condition
          (any (applies r (a ∷ [])) rs) (any (applies r as') rs))

  pub allows_access-none : (rs : List Rule) → any (applies r []) rs ≡ false
  unfolding contains_access
  allows_access-none [] = refl
  allows_access-none ((name, wanted, condition) ∷ rs) = ground (arith, allows_access-none rs)

  grants_of-covered :
      (as' : List OperationAccess)
      → covered (grants_of (access_grants spec) as') ≡ allows_access spec as' r
  unfolding grants_of
  grants_of-covered [] = sym (allows_access-none (rules spec r))
  grants_of-covered (a ∷ as') =
      any-++ (λ (c : CapabilityGrant). covers c r) (access_grants spec a)
        (grants_of (access_grants spec) as')
      ∙ rw (access_grants-covered a, grants_of-covered as')
          (sym (allows_access-cons a as' (rules spec r)))

abbrev pub found_allows : CapabilityGrant → Option OperationSpec → Bool
found_allows r none = false
found_allows r (some spec) = allows spec r

found_grants-covered :
    (r : CapabilityGrant) (o : Option OperationSpec)
    → any (λ c. covers c r) (found_grants o) ≡ found_allows r o
unfolding operation_capability_grants
found_grants-covered r none = refl
found_grants-covered r (some spec) = grants_of-covered spec r spec.access

-- the rules of the operation that a call names
abbrev pub call_allows : Map OperationSpec → CapabilityGrant → OperationCall → Bool
call_allows specs r call = found_allows r (get call.name specs)

calls_grants-covered :
    (specs : Map OperationSpec) (r : CapabilityGrant) (calls : List OperationCall)
    → any (λ c. covers c r) (calls_grants specs calls) ≡ any (call_allows specs r) calls
unfolding calls_grants
calls_grants-covered specs r [] = refl
calls_grants-covered specs r (call ∷ calls) =
    any-++ (λ (c : CapabilityGrant). covers c r) (found_grants (get call.name specs))
      (calls_grants specs calls)
    ∙ rw (found_grants-covered r (get call.name specs), calls_grants-covered specs r calls) refl

-- does some call name an operation of the manifest whose rules give the capability
abbrev pub may_use : PluginManifest → List OperationCall → CapabilityGrant → Bool
may_use manifest calls r = any (call_allows (by_name manifest.operations []) r) calls

operation_grant_scope-covered :
    (manifest : PluginManifest) (calls : List OperationCall) (r : CapabilityGrant)
    → is_blank (trim_space r.name) ≡ false
    → any (λ c. covers c r) (operation_grant_scope (ok manifest) calls).capabilities
      ≡ may_use manifest calls r
unfolding operation_grant_scope
operation_grant_scope-covered manifest calls r h =
    any-normalize r (calls_grants (by_name manifest.operations []) calls) h
    ∙ calls_grants-covered (by_name manifest.operations []) r calls

-- If the plugin and the token are not blank, the grant that an invocation of operations makes from
-- the plugin's manifest lets a plugin instance use a capability exactly while the lifetime of the
-- grant has not passed, if it is the instance that was invoked, if the capability has a name, and if
-- some call names an operation of the manifest whose kinds of access give the capability: HTTP for
-- the network if the operation uses no provider, blobs for files as far as it reads and writes, and
-- the calls of providers for processes, browsers and the operation's own provider.
pub validate_capability_grant-operation :
    (manifest : PluginManifest) (calls : List OperationCall) (now : ℕ)
    (token plugin instance_name : String) (ttl : ℤ) (grants : Grants)
    (named : is_blank (trim_space plugin) ≡ false) (held : is_blank (trim_space token) ≡ false)
    (time : ℕ) (for_plugin for_instance : String) (r : CapabilityGrant)
    → (let scope = operation_grant_scope (ok manifest) calls in
        is_ok (
          validate_capability_grant
            (after_create now token plugin instance_name scope.operations scope.purposes
              scope.capabilities ttl grants)
            time
            for_plugin
            for_instance
            token
            r)
        ≡ in_time_by_owner now token plugin instance_name scope.operations scope.purposes
            scope.capabilities ttl grants named held time for_plugin for_instance
          && (not (is_blank (trim_space r.name)) && may_use manifest calls r))
validate_capability_grant-operation manifest calls now token plugin instance_name ttl grants named
      held time for_plugin for_instance r =
    let scope = operation_grant_scope (ok manifest) calls in
    validate_capability_grant-create now token plugin instance_name scope.operations scope.purposes
      scope.capabilities ttl grants named held time for_plugin for_instance r
    ∙ ground (arith, operation_grant_scope-covered manifest calls r)
