-- ===== src/Grants.antt =====
-- Grants of secrets and capabilities, runtime/secret.go. A grant is a file named by its token; the
-- plugin that runs an operation shows the token to be given a secret. Times are nanoseconds.
-- The module fluxplane-secret (references, kinds, the file store of secrets) is a parameter.
pub mod Lists
pub mod Laws
pub mod Release
use fluxplane_dex.Prelude.{
  ℕ, zero, suc, ◌+◌, ◌*◌, ◌^◌, String, Bool, false, true, not, ◌&&◌, ◌||◌, Option, none, some, List,
  [], ◌∷◌, ◌==◌, if◌then◌else◌, ltb, trim_space, str_lt, append,
}
use fluxplane_dex.Prelude.Int.{ℤ, pos, negsuc}
use fluxplane_dex.Prelude.Outcome.{Outcome, ok, err, ◌>>=◌}
use fluxplane_dex.Prelude.Sorting.{sort}
use fluxplane_dex.Prelude.Unique.{mem, collect}
use fluxplane_dex.Files.{File, absent, unreadable, malformed, holds, Disk, after_write, write_error}
use fluxplane_dex.Maps.{Map, get_or, put}

abbrev pub default_instance : String
default_instance = "default"

unfoldable pub normalize_instance : String → String
normalize_instance instance_name =
    let i = trim_space instance_name in if i == "" then default_instance else i

pub record CapabilityGrant : Type 0 where
  pub name : String
  pub provider : String
  pub action : String

pub record SecretPurpose : Type 0 where
  pub name : String
  pub env : List String

pub record Grant : Type 0 where
  pub token : String
  pub plugin : String
  pub instance_name : String
  pub operations : List String
  pub capabilities : List CapabilityGrant
  pub purposes : List String
  pub purpose_env : Map (List String)
  pub created_at : ℕ
  pub expires_at : ℕ

-- A file name made by `pathName`: "_" for a blank text, else an encoding of the trimmed text by
-- base64, which is injective and never gives "_".
pub data PathName : Type 0 where
  blank : PathName
  encoded : String → PathName

unfoldable pub path_name : String → PathName
path_name value = let v = trim_space value in if v == "" then blank else encoded v

-- equality of file names
unfoldable pub same_path : PathName → PathName → Bool
same_path blank blank = true
same_path (encoded s) (encoded t) = s == t
same_path _ _ = false

-- the directory of grants
abbrev pub Grants : Type 0
Grants = PathName → File Grant

abbrev pub is_blank : String → Bool
is_blank s = s == ""

unfoldable pub normalize_list : List String → List String
normalize_list values = sort str_lt (collect ◌==◌ trim_space is_blank [] values)

unfoldable pub normalize_capability_grant : CapabilityGrant → CapabilityGrant
normalize_capability_grant value = record {
  name = trim_space value.name;
  provider = trim_space value.provider;
  action = trim_space value.action;
}

-- equality of structs, as the key of a map
abbrev pub same_capability : CapabilityGrant → CapabilityGrant → Bool
same_capability a b = a.name == b.name && (a.provider == b.provider && a.action == b.action)

unfoldable pub normalize_capability_grants : List CapabilityGrant → List CapabilityGrant
normalize_capability_grants values =
    collect same_capability normalize_capability_grant (λ c. is_blank c.name) [] values

-- a pattern of a grant that excludes the value asked for
abbrev pub excludes : String → String → Bool
excludes allowed requested =
    not (allowed == "") && (not (allowed == "*") && not (allowed == requested))

unfoldable pub capability_grant_matches : CapabilityGrant → CapabilityGrant → Bool
capability_grant_matches allowed requested =
    let a = normalize_capability_grant allowed in
    let r = normalize_capability_grant requested in
    if not (a.name == r.name)
    then false
    else if excludes a.provider r.provider
    then false
    else if excludes a.action r.action
    then false
    else true

-- the names that purposeNames hands to normalizeList
unfoldable pub named : List SecretPurpose → List String
named [] = []
named (p ∷ ps) = let rest = named ps in if is_blank (trim_space p.name) then rest else p.name ∷ rest

unfoldable pub purpose_names : List SecretPurpose → List String
purpose_names purposes = normalize_list (named purposes)

-- a later purpose of the same name replaces an earlier one
purpose_env_from : Map (List String) → List SecretPurpose → Map (List String)
purpose_env_from out [] = out
purpose_env_from out (p ∷ ps) =
    purpose_env_from
      (if is_blank (trim_space p.name)
        then out
        else put (trim_space p.name) (normalize_list p.env) out)
      ps

unfoldable pub purpose_env : List SecretPurpose → Map (List String)
unfolding purpose_env_from
purpose_env purposes = purpose_env_from [] purposes

-- five minutes where the duration is not positive
unfoldable pub lifetime : ℤ → ℕ
lifetime (pos zero) = 5 * (60 * 10 ^ 9)
lifetime (pos (suc n)) = suc n
lifetime (negsuc n) = 5 * (60 * 10 ^ 9)

abbrev pub grant_of :
    String
    → ℕ
    → String
    → String
    → List String
    → List SecretPurpose
    → List CapabilityGrant
    → ℤ
    → Grant
grant_of token now plugin instance_name operations purposes capabilities ttl = record {
  token = token;
  plugin = trim_space plugin;
  instance_name = normalize_instance instance_name;
  operations = normalize_list operations;
  capabilities = normalize_capability_grants capabilities;
  purposes = purpose_names purposes;
  purpose_env = purpose_env purposes;
  created_at = now;
  expires_at = now + lifetime ttl;
}

abbrev pub update : Grants → PathName → File Grant → Grants
update grants p f q = if same_path p q then f else grants q

-- the end of a function that writes: the error of the write, or the value
abbrev pub or_error : Option String → Grant → Outcome Grant
or_error none g = ok g
or_error (some e) g = err e

-- `random` is what randomToken returns
unfoldable pub create_grant_with_capabilities :
    Outcome String
    → Disk Grant
    → ℕ
    → String
    → String
    → List String
    → List SecretPurpose
    → List CapabilityGrant
    → ℤ
    → Grants
    → Outcome Grant × Grants
create_grant_with_capabilities random disk now plugin instance_name operations purposes capabilities
      ttl grants =
    if is_blank (trim_space plugin)
    then (err "secret grant plugin is empty", grants)
    else elim random [
      | err e ↦ (err e, grants)
      | ok token ↦
          let grant =
            grant_of token now plugin instance_name operations purposes capabilities ttl in
          let path = path_name token in
          (
            or_error (write_error disk) grant,
            update grants path (after_write disk grant (grants path)),
          )
    ]

unfoldable pub create_grant :
    Outcome String
    → Disk Grant
    → ℕ
    → String
    → String
    → List String
    → List SecretPurpose
    → ℤ
    → Grants
    → Outcome Grant × Grants
unfolding create_grant_with_capabilities
create_grant random disk now plugin instance_name operations purposes ttl grants =
    create_grant_with_capabilities random disk now plugin instance_name operations purposes [] ttl
      grants

-- the tests of validateGrantBase on a grant that was read
unfoldable pub check_grant : ℕ → String → String → Grant → Outcome Grant
check_grant now plugin instance_name g =
    if ltb g.expires_at now
    then err "secret grant is expired"
    else if not (g.plugin == plugin) || not (g.instance_name == instance_name)
    then err "secret grant does not match plugin instance"
    else ok g

abbrev pub read_grant : File Grant → Outcome Grant
read_grant absent = err "secret grant is invalid"
read_grant (unreadable e) = err e
read_grant (malformed e) = err e
read_grant (holds g) = ok g

unfoldable pub validate_grant_base : Grants → ℕ → String → String → String → Outcome Grant
unfolding check_grant
validate_grant_base grants now plugin instance_name token =
    if is_blank (trim_space token) then err "secret grant is required" else do
      g ← read_grant (grants (path_name (trim_space token)))
      check_grant now (trim_space plugin) (normalize_instance instance_name) g

unfoldable pub validate_grant : Grants → ℕ → String → String → String → String → Outcome Grant
validate_grant grants now plugin instance_name purpose token = do
  g ← validate_grant_base grants now plugin instance_name token
  if mem ◌==◌ (trim_space purpose) g.purposes
      then ok g
      else err (append "secret grant does not allow purpose " (trim_space purpose))

-- the loop over the capabilities of a grant
unfoldable pub some_matches : List CapabilityGrant → CapabilityGrant → Bool
some_matches [] requested = false
some_matches (allowed ∷ rest) requested =
    capability_grant_matches allowed requested || some_matches rest requested

unfoldable pub validate_capability_grant :
    Grants → ℕ → String → String → String → CapabilityGrant → Outcome (Unit {0})
unfolding some_matches
validate_capability_grant grants now plugin instance_name token requested = do
  g ← validate_grant_base grants now plugin instance_name token
  let r = normalize_capability_grant requested
  if is_blank r.name
      then err "capability grant name is required"
      else if some_matches g.capabilities r
      then ok tt
      else err (append "secret grant does not allow capability " r.name)
