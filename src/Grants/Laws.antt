-- ===== src/Grants/Laws.antt =====
-- CreateGrantWithCapabilities against validateGrant and ValidateCapabilityGrant, runtime/secret.go.
use fluxplane_dex.Prelude.{
  ℕ, String, ◌≡◌, ◌≢◌, ◌+◌, refl, Bool, true, false, not, ◌&&◌, List, map, arith, ◌==◌, eq_iff,
  eq_refl, trim_space, trim_space_idem, leb, ap, any, if◌then◌else◌,
}
use fluxplane_dex.Prelude.Int.{ℤ}
use fluxplane_dex.Prelude.Outcome.{ok, is_ok}
use fluxplane_dex.Prelude.Unique.{mem}
use fluxplane_dex.Files.{holds, written}
use fluxplane_dex.Grants.{
  CapabilityGrant, SecretPurpose, Grant, Grants, PathName, blank, encoded, path_name, same_path,
  is_blank, normalize_instance, lifetime, grant_of, create_grant_with_capabilities, check_grant,
  validate_grant_base, validate_grant, validate_capability_grant, normalize_capability_grant,
}
use fluxplane_dex.Grants.Lists.{mem-purpose_names, purpose_name, covers, some_matches-normalize}

same_path_refl : (p : PathName) → same_path p p ≡ true
unfolding same_path
same_path_refl blank = refl
same_path_refl (encoded s) = eq_refl s

same_path→≡ : (p q : PathName) → same_path p q ≡ true → p ≡ q
unfolding same_path
same_path→≡ blank blank h = refl
same_path→≡ (encoded s) (encoded t) h = ap encoded ((eq_iff s t).0 h)
same_path→≡ _ _ h = cc

path_name-trim : (t : String) → path_name (trim_space t) ≡ path_name t
unfolding path_name
path_name-trim t = simp trim_space_idem

module _ (now : ℕ) (token plugin instance_name : String) (operations : List String)
    (purposes : List SecretPurpose) (capabilities : List CapabilityGrant) (ttl : ℤ)
    (grants : Grants) where
  abbrev created : Grant
  created = grant_of token now plugin instance_name operations purposes capabilities ttl

  -- the directory after CreateGrantWithCapabilities
  abbrev pub after_create : Grants
  after_create =
      (create_grant_with_capabilities (ok token) written now plugin instance_name operations
        purposes capabilities ttl grants).1

  after_create-path :
      is_blank (trim_space plugin) ≡ false
      → (p : PathName)
      → after_create p ≡ (if same_path (path_name token) p then holds created else grants p)
  unfolding create_grant_with_capabilities
  after_create-path b p = ground arith

  module _ (named : is_blank (trim_space plugin) ≡ false)
      (secret : is_blank (trim_space token) ≡ false) (time : ℕ)
      (for_plugin for_instance : String) where
    -- the test that a grant is used in time and by its own plugin instance
    abbrev pub in_time_by_owner : Bool
    in_time_by_owner =
        leb time (now + lifetime ttl)
        && (trim_space plugin == trim_space for_plugin
            && normalize_instance instance_name == normalize_instance for_instance)

    validate_grant_base-create :
        (validate_grant_base after_create time for_plugin for_instance token
          ≡ check_grant time (trim_space for_plugin) (normalize_instance for_instance) created)
    unfolding validate_grant_base
    validate_grant_base-create = ground (
      arith,
      after_create-path named (path_name (trim_space token)),
      path_name-trim token,
      same_path_refl (path_name token),
    )

    check_grant-create :
        check_grant time (trim_space for_plugin) (normalize_instance for_instance) created ≡ (
          if in_time_by_owner
          then ok created
          else check_grant time (trim_space for_plugin) (normalize_instance for_instance) created)
        × (is_ok
              (check_grant time (trim_space for_plugin) (normalize_instance for_instance) created)
            ≡ in_time_by_owner)
    unfolding check_grant
    check_grant-create = ground arith

    -- If the plugin and the token are not blank, a grant that was created and written lets a
    -- plugin instance have a secret exactly while its lifetime has not passed, if it is the
    -- instance that the grant was made for, and if the purpose is not blank and is one of those
    -- named when the grant was made.
    pub validate_grant-create :
        (purpose : String)
        → is_ok (validate_grant after_create time for_plugin for_instance purpose token)
          ≡ in_time_by_owner
            && (mem ◌==◌ (trim_space purpose) (map purpose_name purposes)
                && not (is_blank (trim_space purpose)))
    unfolding validate_grant
    validate_grant-create purpose = ground (
      arith,
      validate_grant_base-create,
      check_grant-create,
      mem-purpose_names (trim_space purpose) purposes,
    )

    -- If the plugin and the token are not blank, a grant that was created and written allows a
    -- capability exactly while its lifetime has not passed, to the instance that it was made for,
    -- if the capability has a name and one of those given when the grant was made covers it.
    pub validate_capability_grant-create :
        (requested : CapabilityGrant)
        → is_ok
            (validate_capability_grant after_create time for_plugin for_instance token requested)
          ≡ in_time_by_owner
            && (not (is_blank (trim_space requested.name))
                && any (λ c. covers c requested) capabilities)
    unfolding validate_capability_grant normalize_capability_grant
    validate_capability_grant-create requested = ground (
      arith,
      validate_grant_base-create,
      check_grant-create,
      some_matches-normalize capabilities requested,
    )

  -- Creating a grant for a plugin that is not blank changes nothing for a token with another file
  -- name.
  pub validate_grant-other :
      (named : is_blank (trim_space plugin) ≡ false) (other : String)
      → path_name other ≢ path_name token
      → (time : ℕ) (for_plugin for_instance purpose : String)
      → validate_grant after_create time for_plugin for_instance purpose other
        ≡ validate_grant grants time for_plugin for_instance purpose other
  unfolding validate_grant validate_grant_base
  validate_grant-other named other ne time for_plugin for_instance purpose = ground (
    arith,
    after_create-path named (path_name (trim_space other)),
    path_name-trim other,
    same_path→≡ (path_name token) (path_name other),
  )
