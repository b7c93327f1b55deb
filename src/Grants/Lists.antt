-- ===== src/Grants/Lists.antt =====
-- Lemmas on the lists that a grant holds: normalizeList, purposeNames and the matching of
-- capabilities, runtime/secret.go.
use fluxplane_dex.Prelude.{
  String, ◌≡◌, refl, ◌↔◌, Bool, true, false, not, ◌&&◌, ◌||◌, List, [], ◌∷◌, map, arith, ◌==◌,
  eq_iff, All, any, trim_space, trim_space_idem, str_lt, ap, ◌∙◌, sym,
}
use fluxplane_dex.Prelude.Sorting.{
  sort, IsSorted, sort-IsSorted, str_lt-IsLess, All-sort, sort_of_IsSorted,
}
use fluxplane_dex.Prelude.Unique.{
  mem, collect, IsUnique, mem-collect, mem-sort, collect-IsUnique, sort-IsUnique, All-collect,
  any-collect, collect_of_IsUnique,
}
use fluxplane_dex.Grants.{
  CapabilityGrant, SecretPurpose, is_blank, normalize_list, named, purpose_names, same_capability,
  normalize_capability_grant, normalize_capability_grants, capability_grant_matches, some_matches,
}

-- A name is in a normalised list exactly if it is not blank and some element trims to it.
pub mem-normalize_list :
    (v : String) (xs : List String)
    → mem ◌==◌ v (normalize_list xs) ≡ mem ◌==◌ v (map trim_space xs) && not (is_blank v)
unfolding normalize_list mem
mem-normalize_list v xs = ground (
  arith,
  mem-sort ◌==◌ eq_iff str_lt v (collect ◌==◌ trim_space is_blank [] xs),
  mem-collect ◌==◌ eq_iff trim_space is_blank v [] xs,
)

-- Trimmed and not blank.
abbrev pub IsClean : String → Type 0
IsClean s = (trim_space s ≡ s) × (is_blank s ≡ false)

pub record IsNormalized (xs : List String) : Type 0 where
  pub sorted : IsSorted str_lt xs
  pub unique : IsUnique ◌==◌ xs
  pub clean : All IsClean xs

pub normalize_list-IsNormalized : (xs : List String) → IsNormalized (normalize_list xs)
unfolding normalize_list
normalize_list-IsNormalized xs =
    let kept = collect ◌==◌ trim_space is_blank [] xs in
    record {
      sorted = sort-IsSorted str_lt str_lt-IsLess kept;
      unique =
          sort-IsUnique ◌==◌ eq_iff str_lt kept
            (collect-IsUnique ◌==◌ eq_iff trim_space is_blank [] xs);
      clean =
          All-sort str_lt IsClean kept
            (All-collect ◌==◌ IsClean trim_space is_blank [] xs (λ x h. (trim_space_idem x, h)));
    }

normalize_list_of_IsNormalized : (xs : List String) → IsNormalized xs → normalize_list xs ≡ xs
unfolding normalize_list
normalize_list_of_IsNormalized xs n =
    ap (sort str_lt)
      (collect_of_IsUnique ◌==◌ eq_iff trim_space is_blank [] xs (fresh xs n.clean) n.unique)
    ∙ sort_of_IsSorted str_lt xs n.sorted
  where
    fresh :
        (ys : List String)
        → All IsClean ys
        → All (λ y. (trim_space y ≡ y) × (is_blank y ≡ false) × (mem ◌==◌ y [] ≡ false)) ys
    fresh [] h = tt
    fresh (y ∷ ys) ((a, b), h) = ((a, b, unfold mem in refl), fresh ys h)

-- A normalised list is sorted, has no repetition and only trimmed, non-blank names; it has every
-- such name that some element trims to, and normalising it again changes nothing.
pub normalize_list-normalizes :
    (xs : List String)
    → IsNormalized (normalize_list xs)
      × ((v : String)
          → mem ◌==◌ v (normalize_list xs) ≡ mem ◌==◌ v (map trim_space xs) && not (is_blank v))
      × (normalize_list (normalize_list xs) ≡ normalize_list xs)
normalize_list-normalizes xs = (
  normalize_list-IsNormalized xs,
  λ v. mem-normalize_list v xs,
  normalize_list_of_IsNormalized (normalize_list xs) (normalize_list-IsNormalized xs),
)

abbrev pub purpose_name : SecretPurpose → String
purpose_name p = trim_space p.name

mem-named :
    (v : String) (ps : List SecretPurpose)
    → mem ◌==◌ v (map trim_space (named ps)) && not (is_blank v)
      ≡ mem ◌==◌ v (map purpose_name ps) && not (is_blank v)
unfolding named mem
mem-named v [] = refl
mem-named v (p ∷ ps) = ground (
  arith,
  mem-named v ps,
  eq_iff (trim_space p.name) v,
  eq_iff (trim_space p.name) "",
  eq_iff v "",
)

pub mem-purpose_names :
    (v : String) (ps : List SecretPurpose)
    → mem ◌==◌ v (purpose_names ps) ≡ mem ◌==◌ v (map purpose_name ps) && not (is_blank v)
unfolding purpose_names
mem-purpose_names v ps = mem-normalize_list v (named ps) ∙ mem-named v ps

same_capability_iff : (a b : CapabilityGrant) → (same_capability a b ≡ true) ↔ (a ≡ b)
same_capability_iff a b =
    ground (arith, eq_iff a.name b.name, eq_iff a.provider b.provider, eq_iff a.action b.action)

some_matches-any :
    (cs : List CapabilityGrant) (r : CapabilityGrant)
    → some_matches cs r ≡ any (λ c. capability_grant_matches c r) cs
unfolding some_matches
some_matches-any [] r = refl
some_matches-any (c ∷ cs) r = rw (some_matches-any cs r)

-- The meaning of a capability of a grant, on the texts that the caller gave: the name is the one
-- asked for, and the provider and the action are blank, "*", or the ones asked for.
abbrev pub covers_part : String → String → Bool
covers_part allowed requested =
    let a = trim_space allowed in is_blank a || (a == "*" || a == trim_space requested)

abbrev pub covers : CapabilityGrant → CapabilityGrant → Bool
covers allowed requested =
    trim_space allowed.name == trim_space requested.name
    && (covers_part allowed.provider requested.provider
        && covers_part allowed.action requested.action)

capability_grant_matches-covers :
    (a r : CapabilityGrant)
    → capability_grant_matches (normalize_capability_grant a) (normalize_capability_grant r)
      ≡ covers a r
unfolding capability_grant_matches normalize_capability_grant
capability_grant_matches-covers a r = simp trim_space_idem (ground arith)

any-or-false : (b : Bool) → b || false ≡ b
any-or-false true = refl
any-or-false false = refl

any-covers :
    (r : CapabilityGrant) (cs : List CapabilityGrant)
    → is_blank (trim_space r.name) ≡ false
    → any
        (λ c.
          not (is_blank (trim_space c.name))
          && capability_grant_matches (normalize_capability_grant c) (normalize_capability_grant r))
        cs
      ≡ any (λ c. covers c r) cs
any-covers r [] h = refl
any-covers r (c ∷ cs) h = ground (
  arith,
  any-covers r cs h,
  capability_grant_matches-covers c r,
  eq_iff (trim_space c.name) (trim_space r.name),
  eq_iff (trim_space c.name) "",
  eq_iff (trim_space r.name) "",
)

-- Cleaning a list of capabilities does not change what it covers.
pub some_matches-normalize :
    (cs : List CapabilityGrant) (r : CapabilityGrant)
    → is_blank (trim_space r.name) ≡ false
    → some_matches (normalize_capability_grants cs) (normalize_capability_grant r)
      ≡ any (λ c. covers c r) cs
unfolding normalize_capability_grants normalize_capability_grant
some_matches-normalize cs r h =
    some_matches-any (normalize_capability_grants cs) (normalize_capability_grant r)
    ∙ sym (any-or-false _)
    ∙ any-collect same_capability same_capability_iff
        (λ c. capability_grant_matches c (normalize_capability_grant r)) normalize_capability_grant
        (λ c. is_blank c.name) [] cs
    ∙ any-or-false _
    ∙ any-covers r cs h

any-kept :
    (r : CapabilityGrant) (cs : List CapabilityGrant)
    → is_blank (trim_space r.name) ≡ false
    → any
        (λ c.
          not (is_blank (normalize_capability_grant c).name)
          && covers (normalize_capability_grant c) r)
        cs
      ≡ any (λ c. covers c r) cs
unfolding normalize_capability_grant
any-kept r [] h = refl
any-kept r (c ∷ cs) h = ground (
  arith,
  any-kept r cs h,
  trim_space_idem c.name,
  trim_space_idem c.provider,
  trim_space_idem c.action,
  eq_iff (trim_space c.name) (trim_space r.name),
  eq_iff (trim_space c.name) "",
  eq_iff (trim_space r.name) "",
)

-- A cleaned list covers the capabilities with a name that the list covers.
pub any-normalize :
    (r : CapabilityGrant) (cs : List CapabilityGrant)
    → is_blank (trim_space r.name) ≡ false
    → any (λ c. covers c r) (normalize_capability_grants cs) ≡ any (λ c. covers c r) cs
unfolding normalize_capability_grants
any-normalize r cs h =
    sym (any-or-false _)
    ∙ any-collect same_capability same_capability_iff (λ c. covers c r) normalize_capability_grant
        (λ c. is_blank c.name) [] cs
    ∙ any-or-false _
    ∙ any-kept r cs h
