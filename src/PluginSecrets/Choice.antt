-- ===== src/PluginSecrets/Choice.antt =====
-- Reading with the first of several secrets that works, ReadWithPreferredSecrets and
-- ReadWithPreferredAuthPurposes in core/pluginbinding/secrets.go. `open` and `read` are the functions
-- that a plugin passes; a missing `fallbackable` is the test that accepts nothing.
use fluxplane_dex.Prelude.{
  String, Bool, Option, none, some, List, [], ◌∷◌, ◌++◌, ◌==◌, if◌then◌else◌, trim_space, append,
}
use fluxplane_dex.Prelude.Outcome.{Outcome, ok, err}
use fluxplane_dex.PluginSecrets.{SecretMaterial, Cache, optional_secret, join}

-- What ReadWithPreferredSecrets returns: a result and the purpose that gave it, an error of one
-- purpose, or the failures of all.
pub data Preferred (R : Type 0) : Type 0 where
  result : R → String → Preferred R
  fatal : String → String → Preferred R
  nothing : String → Preferred R

abbrev pub no_result : {R : Type 0} → String → List String → Preferred R
no_result none_configured [] = nothing none_configured
no_result none_configured (f ∷ fs) = nothing (join "; " (f ∷ fs))

-- what came of one purpose
pub data Attempt (R : Type 0) : Type 0 where
  got : R → Attempt R
  stop : String → Attempt R
  failed : String → Attempt R

module _ {C R : Type 0} (read : C → String → Outcome R) (fallbackable : String → Bool) where
  abbrev after_read : String → Outcome R → Attempt R
  after_read purpose (ok r) = got r
  after_read purpose (err e) =
      if fallbackable e then failed (append purpose (append " read: " e)) else stop e

  abbrev pub after_open : String → Outcome C → Attempt R
  after_open purpose (err e) = failed (append purpose (append " open: " e))
  after_open purpose (ok client) = after_read purpose (read client purpose)

  -- the loop of ReadWithPreferredAuthPurposes; `next` is its call for the purposes that follow
  abbrev pub decided : String → (List String → Preferred R) → List String → Attempt R → Preferred R
  decided purpose next failures (got r) = result r purpose
  decided purpose next failures (stop e) = fatal e purpose
  decided purpose next failures (failed f) = next (failures ++ f ∷ [])

  unfoldable pub try_purposes : (String → Outcome C) → List String → List String → Preferred R
  try_purposes open_client [] failures = no_result "no preferred auth purposes configured" failures
  try_purposes open_client (untrimmed ∷ purposes) failures =
      let purpose = trim_space untrimmed in
      let next = try_purposes open_client purposes in
      if purpose == ""
      then next failures
      else decided purpose next failures (after_open purpose (open_client purpose))

  unfoldable pub read_with_preferred_auth_purposes :
      List String → (String → Outcome C) → Preferred R
  unfolding try_purposes
  read_with_preferred_auth_purposes purposes open_client = try_purposes open_client purposes []

  module _ {K : Type 0} (getter : String → Outcome (SecretMaterial K))
      (open_client : SecretMaterial K → Outcome C) where
    abbrev pub decided_with :
        String
        → (List String → Cache K → Preferred R × Cache K)
        → List String
        → Attempt R
        → Cache K
        → Preferred R × Cache K
    decided_with purpose next failures (got r) cache = (result r purpose, cache)
    decided_with purpose next failures (stop e) cache = (fatal e purpose, cache)
    decided_with purpose next failures (failed f) cache = next (failures ++ f ∷ []) cache

    -- the attempt with what OptionalSecret has given
    abbrev pub attempt : String → Option (SecretMaterial K) → Attempt R
    attempt purpose none = failed (append purpose " unavailable")
    attempt purpose (some m) = after_open purpose (open_client (record m { purpose = purpose }))

    abbrev attempted :
        String
        → (List String → Cache K → Preferred R × Cache K)
        → List String
        → Option (SecretMaterial K) × Cache K
        → Preferred R × Cache K
    attempted purpose next failures (m, cache) =
        decided_with purpose next failures (attempt purpose m) cache

    unfoldable pub try_secrets : List String → List String → Cache K → Preferred R × Cache K
    unfolding optional_secret
    try_secrets [] failures cache = (no_result "no preferred secrets configured" failures, cache)
    try_secrets (untrimmed ∷ purposes) failures cache =
        let purpose = trim_space untrimmed in
        let next = try_secrets purposes in
        if purpose == ""
        then next failures cache
        else attempted purpose next failures (optional_secret getter purpose cache)

    unfoldable pub read_with_preferred_secrets : List String → Cache K → Preferred R × Cache K
    unfolding try_secrets
    read_with_preferred_secrets purposes cache = try_secrets purposes [] cache
