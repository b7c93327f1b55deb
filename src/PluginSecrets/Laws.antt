-- ===== src/PluginSecrets/Laws.antt =====
-- The cache of secrets, core/pluginbinding/secrets.go.
use mathlib.Core.Path.{subst}
use fluxplane_dex.Prelude.{
  String, ◌≡◌, refl, ◌∙◌, false, Option, none, some, ◌==◌, Bool-cases, inl, inr, trim_space,
  eq_refl,
}
use fluxplane_dex.Prelude.Outcome.{Outcome, ok, err, Gives, Gives-weaken}
use fluxplane_dex.Maps.{Map, get, get-put}
use fluxplane_dex.PluginSecrets.{
  SecretMaterial, Cache, cached, for_purpose, fetched, found_or, secret,
}

module _ {K : Type 0} (getter : String → Outcome (SecretMaterial K)) where
  fetched-cached :
      (purpose : String) (c : Map (SecretMaterial K)) (o : Outcome (SecretMaterial K))
      → Gives
          (λ m. cached purpose (fetched getter purpose (some c) o).1 ≡ some m)
          (fetched getter purpose (some c) o).0
  fetched-cached purpose c (err e) = tt
  fetched-cached purpose c (ok m) =
      get-put purpose purpose (for_purpose purpose m) c ∙ rw (eq_refl purpose) refl

  -- what a call that succeeds leaves in the cache
  found_or-cached :
      (purpose : String) (c : Map (SecretMaterial K)) (o : Option (SecretMaterial K))
      → get purpose c ≡ o
      → Gives
          (λ m. cached purpose (found_or getter purpose (some c) o).1 ≡ some m)
          (found_or getter purpose (some c) o).0
  found_or-cached purpose c (some x) g = g
  found_or-cached purpose c none g = fetched-cached purpose c (getter purpose)

  secret-cached :
      (purpose : String) (c : Map (SecretMaterial K))
      → Gives
          (λ m.
            ((trim_space purpose == "") ≡ false)
            × (cached (trim_space purpose) (secret getter purpose (some c)).1 ≡ some m))
          (secret getter purpose (some c)).0
  unfolding secret
  secret-cached purpose c = elim (Bool-cases (trim_space purpose == "")) [
    | inl e ↦ rw e tt
    | inr e ↦ rw e (
        Gives-weaken _ _
          (found_or getter (trim_space purpose) (some c) (get (trim_space purpose) c)).0
          (found_or-cached (trim_space purpose) c (get (trim_space purpose) c) refl)
          (λ m h. (refl, h)))
  ]

-- If a context has a cache and gives the secret of a purpose, then asking it again for the purpose,
-- with any blank space around, gives the same secret without asking the host, and the cache stays.
pub secret-again :
    {K : Type 0} (getter other : String → Outcome (SecretMaterial K)) (purpose again : String)
    (c : Map (SecretMaterial K)) (m : SecretMaterial K) (after : Cache K)
    → trim_space again ≡ trim_space purpose
    → secret getter purpose (some c) ≡ (ok m, after)
    → secret other again after ≡ (ok m, after)
unfolding secret
secret-again getter other purpose again c m after t h =
    let kept =
      subst
        (λ out.
          Gives
            (λ m.
              ((trim_space purpose == "") ≡ false) × (cached (trim_space purpose) out.1 ≡ some m))
            out.0)
        h (secret-cached getter purpose c) in
    rw (t, kept.0, kept.1) refl
