-- ===== src/PluginSecrets.antt =====
-- Secrets on the plugin's side, core/pluginbinding/secrets.go. The cache of a request is explicit
-- state; `getter` is the function of the plugin, or DefaultSecretGetter. The kinds of the module
-- fluxplane-secret are a parameter `K`.
pub mod Laws
pub mod Choice
use fluxplane_dex.Prelude.{
  String, Bool, true, false, not, Option, none, some, List, [], ◌∷◌, ◌++◌, ◌==◌, if◌then◌else◌,
  trim_space, append,
}
use fluxplane_dex.Prelude.Outcome.{Outcome, ok, err, ◌>>=◌}
use fluxplane_dex.Maps.{Map, get, put}

pub record SecretMaterial (K : Type 0) : Type 0 where
  pub kind : K
  pub value : String
  pub source : String
  pub purpose : String

-- the texts between the separator, strings.Join
unfoldable pub join : String → List String → String
join sep [] = ""
join sep (s ∷ []) = s
join sep (s ∷ t ∷ ts) = append s (append sep (join sep (t ∷ ts)))

-- The cache, by purpose; none where the context has no cache.
abbrev pub Cache : Type 0 → Type 0
Cache K = Option (Map (SecretMaterial K))

module _ {K : Type 0} where
  abbrev pub for_purpose : String → SecretMaterial K → SecretMaterial K
  for_purpose purpose m = if m.purpose == "" then record m { purpose = purpose } else m

  -- DefaultSecretGetter, where `host` is the call of the host
  unfoldable pub default_secret_getter :
      (String → Outcome (SecretMaterial K)) → String → Outcome (SecretMaterial K)
  default_secret_getter host purpose = do material ← host purpose; ok (for_purpose purpose material)

  abbrev pub cached : String → Cache K → Option (SecretMaterial K)
  cached purpose none = none
  cached purpose (some m) = get purpose m

  abbrev pub remember : String → SecretMaterial K → Cache K → Cache K
  remember purpose material none = none
  remember purpose material (some m) = some (put purpose material m)

module _ {K : Type 0} (getter : String → Outcome (SecretMaterial K)) where
  abbrev pub fetched :
      String → Cache K → Outcome (SecretMaterial K) → Outcome (SecretMaterial K) × Cache K
  fetched purpose cache (err e) = (err e, cache)
  fetched purpose cache (ok material) =
      (ok (for_purpose purpose material), remember purpose (for_purpose purpose material) cache)

  abbrev pub found_or :
      String → Cache K → Option (SecretMaterial K) → Outcome (SecretMaterial K) × Cache K
  found_or purpose cache (some material) = (ok material, cache)
  found_or purpose cache none = fetched purpose cache (getter purpose)

  -- Context.Secret
  unfoldable pub secret : String → Cache K → Outcome (SecretMaterial K) × Cache K
  unfolding get put
  secret untrimmed cache =
      let purpose = trim_space untrimmed in
      if purpose == ""
      then (err "secret purpose is empty", cache)
      else found_or purpose cache (cached purpose cache)

  abbrev not_blank : Outcome (SecretMaterial K) × Cache K → Option (SecretMaterial K) × Cache K
  not_blank (err e, cache) = (none, cache)
  not_blank (ok m, cache) = if trim_space m.value == "" then (none, cache) else (some m, cache)

  unfoldable pub optional_secret : String → Cache K → Option (SecretMaterial K) × Cache K
  unfolding secret
  optional_secret purpose cache = not_blank (secret purpose cache)

  abbrev pub required :
      String → Outcome (SecretMaterial K) × Cache K → Outcome (SecretMaterial K) × Cache K
  required purpose (err e, cache) = (err e, cache)
  required purpose (ok m, cache) =
      if trim_space m.value == "" then (err (append purpose " is empty"), cache) else (ok m, cache)

  unfoldable pub required_secret : String → Cache K → Outcome (SecretMaterial K) × Cache K
  unfolding secret
  required_secret purpose cache = required purpose (secret purpose cache)

  -- the loop of RequiredSecrets, from the map that it has filled; `next` is the call of the loop
  abbrev with_required :
      String
      → (Map (SecretMaterial K) → Cache K → Outcome (Map (SecretMaterial K)) × Cache K)
      → Map (SecretMaterial K)
      → Outcome (SecretMaterial K) × Cache K
      → Outcome (Map (SecretMaterial K)) × Cache K
  with_required purpose next out (err e, cache) = (err e, cache)
  with_required purpose next out (ok m, cache) = next (put purpose m out) cache

  unfoldable pub required_secrets :
      List String → Map (SecretMaterial K) → Cache K → Outcome (Map (SecretMaterial K)) × Cache K
  unfolding required_secret put
  required_secrets [] out cache = (ok out, cache)
  required_secrets (purpose ∷ purposes) out cache =
      with_required purpose (required_secrets purposes) out (required_secret purpose cache)
