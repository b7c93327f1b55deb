-- ===== src/Tests/Secrets.antt =====
-- Grants and the release of secrets on sample values.
use fluxplane_dex.Prelude.{
  String, ◌≡◌, ◌≢◌, ◌↔◌, ap, refl, false, true, ◌&&◌, not, [], ◌∷◌, map, ◌==◌, any, trim_space,
  strings,
}
use fluxplane_dex.Prelude.Int.{pos}
use fluxplane_dex.Prelude.Outcome.{ok, is_ok}
use fluxplane_dex.Prelude.Unique.{mem}
use fluxplane_dex.Maps.{get}
use fluxplane_dex.Grants.{
  Grant, is_blank, normalize_instance, validate_grant, validate_capability_grant, normalize_list,
  path_name, same_path, validate_grant_base, check_grant,
}
use fluxplane_dex.Grants.Lists.{IsNormalized, normalize_list-normalizes, purpose_name, covers}
use fluxplane_dex.Grants.Laws.{
  after_create, in_time_by_owner, validate_grant-create, validate_capability_grant-create,
  validate_grant-other,
}
use fluxplane_dex.Grants.Release.{
  SecretMaterial, load_stored_secret_ref, env_secret, first_set, resolve_secret,
}
use fluxplane_dex.Grants.Release.Laws.{Allows, IsFrom, resolve_secret-released}
use fluxplane_dex.Tests.Samples.{
  secret_api, token_purpose, read_files, no_grants, with_grant, environment,
}

token-set : is_blank (trim_space "t") ≡ false
unfolding strings
token-set = refl

plugin-set : is_blank (trim_space "slack") ≡ false
unfolding strings
plugin-set = refl

validate_grant-create_example :
    is_ok (
      validate_grant
        (after_create 10 "t" "slack" "work" []
          (token_purpose ∷ [])
          (read_files ∷ [])
          (pos 50)
          no_grants)
        20
        "slack"
        "work"
        "token"
        "t")
    ≡ in_time_by_owner 10 "t" "slack" "work" []
        (token_purpose ∷ [])
        (read_files ∷ [])
        (pos 50)
        no_grants
        plugin-set
        token-set
        20
        "slack"
        "work"
      && (mem ◌==◌ (trim_space "token") (map purpose_name (token_purpose ∷ []))
          && not (is_blank (trim_space "token")))
validate_grant-create_example =
    validate_grant-create 10 "t" "slack" "work" [] (token_purpose ∷ []) (read_files ∷ []) (pos 50)
      no_grants plugin-set token-set 20 "slack" "work" "token"

validate_capability_grant-create_example :
    is_ok (
      validate_capability_grant
        (after_create 10 "t" "slack" "work" []
          (token_purpose ∷ [])
          (read_files ∷ [])
          (pos 50)
          no_grants)
        20
        "slack"
        "work"
        "t"
        read_files)
    ≡ in_time_by_owner 10 "t" "slack" "work" []
        (token_purpose ∷ [])
        (read_files ∷ [])
        (pos 50)
        no_grants
        plugin-set
        token-set
        20
        "slack"
        "work"
      && (not (is_blank (trim_space read_files.name))
          && any (λ c. covers c read_files) (read_files ∷ []))
validate_capability_grant-create_example =
    validate_capability_grant-create 10 "t" "slack" "work" [] (token_purpose ∷ []) (read_files ∷ [])
      (pos 50) no_grants plugin-set token-set 20 "slack" "work" read_files

other-path : path_name "u" ≢ path_name "t"
unfolding path_name same_path strings
other-path h = let e : true ≡ false = ap (same_path (path_name "u")) h in cc

validate_grant-other_example :
    validate_grant
      (after_create 10 "t" "slack" "work" []
        (token_purpose ∷ [])
        (read_files ∷ [])
        (pos 50)
        with_grant)
      20
      "slack"
      "work"
      "token"
      "u"
    ≡ validate_grant with_grant 20 "slack" "work" "token" "u"
validate_grant-other_example =
    validate_grant-other 10 "t" "slack" "work" [] (token_purpose ∷ []) (read_files ∷ []) (pos 50)
      with_grant plugin-set "u" other-path 20 "slack" "work" "token"

normalize_list-normalizes_example :
    IsNormalized (normalize_list (" b " ∷ "a" ∷ "b" ∷ "" ∷ []))
    × ((v : String)
        → mem ◌==◌ v (normalize_list (" b " ∷ "a" ∷ "b" ∷ "" ∷ []))
          ≡ mem ◌==◌ v (map trim_space (" b " ∷ "a" ∷ "b" ∷ "" ∷ [])) && not (is_blank v))
    × (normalize_list (normalize_list (" b " ∷ "a" ∷ "b" ∷ "" ∷ []))
        ≡ normalize_list (" b " ∷ "a" ∷ "b" ∷ "" ∷ []))
normalize_list-normalizes_example = normalize_list-normalizes (" b " ∷ "a" ∷ "b" ∷ "" ∷ [])

-- what is released: the variable's value, as the store has another instance's secret
abbrev released : SecretMaterial secret_api
released = record {
  kind = "bearer_token";
  value = "xoxb";
  source = "env:SLACK_TOKEN";
  purpose = "token";
  ref = "env:SLACK_TOKEN";
}

resolve_secret_test :
    resolve_secret secret_api environment "slack/home/token" with_grant 20 "slack" "work" "token"
      "t"
    ≡ ok released
unfolding resolve_secret load_stored_secret_ref env_secret first_set validate_grant
    validate_grant_base check_grant mem get normalize_instance strings
resolve_secret_test = refl

resolve_secret-released_example :
    (resolve_secret secret_api environment "slack/home/token" with_grant 20 "slack" "work" "token"
        "t"
      ≡ ok released)
    ↔ ((g : Grant) × Allows with_grant 20 "slack" "work" "token" "t" g
        × IsFrom secret_api environment "slack/home/token" g "token" released)
resolve_secret-released_example =
    resolve_secret-released secret_api environment "slack/home/token" with_grant 20 "slack" "work"
      "token" "t" released
