-- ===== src/Grants/Release.antt =====
-- How secret material is released, ResolveSecret and its helpers in runtime/secret.go. The file
-- store of secrets and the references to secrets are those of the module fluxplane-secret, given as
-- a parameter; `env` is os.Getenv.
pub mod Laws
use fluxplane_dex.Prelude.{
  ℕ, String, Bool, true, false, not, ◌||◌, Option, none, some, List, [], ◌∷◌, ◌==◌, if◌then◌else◌,
  trim_space, append,
}
use fluxplane_dex.Prelude.Outcome.{Outcome, ok, err, ◌>>=◌}
use fluxplane_dex.Maps.{Map, get_or, put}
use fluxplane_dex.Grants.{SecretPurpose, Grants, is_blank, normalize_instance, validate_grant}

pub record SecretApi : Type 1 where
  pub Ref : Type 0
  pub Kind : Type 0
  pub bearer_token : Kind
  pub plugin_ref : String → String → String → Ref
  pub env_ref : String → Ref
  pub normalize : Ref → Ref
  pub has_plugin_scheme : Ref → Bool
  pub plugin : Ref → String
  pub instance_name : Ref → String
  pub slot : Ref → String
  pub Store : Type 0
  pub Stored : Type 0
  pub with_ref : Ref → Stored → Stored
  pub resolve : Store → Ref → Outcome (Option (Kind × String × Ref))
  pub save : Store → Stored → Outcome (Unit {0}) × Store
  pub has_plugin_secrets : Store → String → String → Outcome Bool

module _ (api : SecretApi) where
  pub record SecretMaterial : Type 0 where
    pub kind : api.Kind
    pub value : String
    pub source : String
    pub purpose : String
    pub ref : api.Ref

  -- loadStoredSecretRef; a purpose is filled in by the caller
  abbrev stored_material : Option (api.Kind × String × api.Ref) → Option SecretMaterial
  stored_material none = none
  stored_material (some (k, v, r)) =
      some (record { kind = k; value = v; source = "store"; purpose = ""; ref = api.normalize r })

  unfoldable pub load_stored_secret_ref : api.Store → api.Ref → Outcome (Option SecretMaterial)
  load_stored_secret_ref secrets ref = do
    found ← api.resolve secrets ref
    ok (stored_material found)

  unfoldable pub load_stored_secret :
      api.Store → String → String → String → Outcome (Option SecretMaterial)
  unfolding load_stored_secret_ref
  load_stored_secret secrets plugin instance_name purpose =
      load_stored_secret_ref secrets
        (api.plugin_ref plugin (normalize_instance instance_name) purpose)

  abbrev pub from_env : String → String → SecretMaterial
  from_env key value = record {
    kind = api.bearer_token;
    value = value;
    source = append "env:" key;
    purpose = "";
    ref = api.env_ref key;
  }

  -- the loop of envSecret over the variables of a purpose
  unfoldable pub first_set : (String → String) → List String → Option SecretMaterial
  first_set env [] = none
  first_set env (key ∷ keys) =
      let value = trim_space (env key) in
      if not (is_blank value) then some (from_env key value) else first_set env keys

  unfoldable pub env_secret : (String → String) → Map (List String) → String → Option SecretMaterial
  unfolding first_set
  env_secret env purpose_env purpose = first_set env (get_or [] (trim_space purpose) purpose_env)

  abbrev pub for_purpose : String → SecretMaterial → SecretMaterial
  for_purpose purpose m = record m { purpose = purpose }

  unfoldable pub resolve_secret :
      (String → String)
      → api.Store
      → Grants
      → ℕ
      → String
      → String
      → String
      → String
      → Outcome SecretMaterial
  resolve_secret env secrets grants now plugin instance_name purpose token = do
    grant ← validate_grant grants now plugin instance_name purpose token
    stored ←
        load_stored_secret_ref secrets (api.plugin_ref grant.plugin grant.instance_name purpose)
    elim stored [
      | some m ↦ ok (for_purpose purpose m)
      | none ↦ elim (env_secret env grant.purpose_env purpose) [
        | some m ↦ ok (for_purpose purpose m)
        | none ↦ err "secret material not found"
      ]
    ]

  unfoldable pub resolve_secret_ref :
      (String → String) → api.Store → Grants → ℕ → api.Ref → String → Outcome SecretMaterial
  unfolding resolve_secret
  resolve_secret_ref env secrets grants now raw token =
      let ref = api.normalize raw in
      if not (api.has_plugin_scheme ref)
      then err "secret ref scheme is unsupported"
      else resolve_secret env secrets grants now (api.plugin ref) (api.instance_name ref)
          (api.slot ref) token

  unfoldable pub save_secret_ref : api.Ref → api.Stored → api.Store → Outcome (Unit {0}) × api.Store
  save_secret_ref raw stored secrets =
      let ref = api.normalize raw in
      if not (api.has_plugin_scheme ref) || (is_blank (api.plugin ref) || is_blank (api.slot ref))
      then (err "plugin secret ref is required", secrets)
      else api.save secrets (api.with_ref ref stored)

  unfoldable pub save_secret :
      String → String → String → api.Stored → api.Store → Outcome (Unit {0}) × api.Store
  unfolding save_secret_ref
  save_secret plugin instance_name purpose stored secrets =
      save_secret_ref (api.plugin_ref plugin (normalize_instance instance_name) purpose) stored
        secrets

  unfoldable pub has_stored_auth : api.Store → String → String → Outcome Bool
  has_stored_auth secrets plugin instance_name =
      api.has_plugin_secrets secrets plugin (normalize_instance instance_name)

  -- the answer for one purpose
  unfoldable pub status_of :
      (String → String) → Outcome (Option SecretMaterial) → List String → String
  unfolding first_set
  status_of env (ok (some m)) keys = "stored"
  status_of env (ok none) keys = elim (first_set env keys) [ some m ↦ "env" | none ↦ "missing" ]
  status_of env (err e) keys = elim (first_set env keys) [ some m ↦ "env" | none ↦ "missing" ]

  secret_status_from :
      (String → String) → api.Store → String → String → Map String → List SecretPurpose → Map String
  secret_status_from env secrets plugin instance_name out [] = out
  secret_status_from env secrets plugin instance_name out (p ∷ ps) =
      let name = trim_space p.name in
      secret_status_from env secrets plugin instance_name
        (if is_blank name
          then out
          else put name (status_of env (load_stored_secret secrets plugin instance_name name) p.env)
              out)
        ps

  unfoldable pub secret_status :
      (String → String) → api.Store → String → String → List SecretPurpose → Map String
  unfolding secret_status_from status_of
  secret_status env secrets plugin instance_name purposes =
      secret_status_from env secrets plugin (normalize_instance instance_name) [] purposes
