-- ===== src/Grants/Release/Laws.antt =====
-- The conditions and the sources of ResolveSecret, runtime/secret.go.
use fluxplane_dex.Prelude.{
  ℕ, ◌≤◌, String, ◌≡◌, ◌↔◌, refl, ap, sym, ◌∙◌, true, false, inl, inr, Option, none, some, List, [],
  ◌∷◌, ◌++◌, All, arith, ◌==◌, eq_iff, trim_space, append, Bool, Bool-cases,
}
use fluxplane_dex.Prelude.Outcome.{Outcome, ok, err, Outcome-cases, ok-injective, ◌>>=◌, >>=-eq-ok}
use fluxplane_dex.Prelude.Unique.{mem}
use fluxplane_dex.Files.{File, holds, absent, unreadable, malformed}
use fluxplane_dex.Maps.{Map, get_or}
use fluxplane_dex.Grants.{
  Grant, Grants, is_blank, normalize_instance, path_name, read_grant, check_grant,
  validate_grant_base, validate_grant,
}
use fluxplane_dex.Grants.Release.{
  SecretApi, SecretMaterial, load_stored_secret_ref, from_env, first_set, env_secret, for_purpose,
  resolve_secret,
}

read_grant-holds : (f : File Grant) (g : Grant) → read_grant f ≡ ok g → f ≡ holds g
read_grant-holds absent g h = cc
read_grant-holds (unreadable e) g h = cc
read_grant-holds (malformed e) g h = cc
read_grant-holds (holds r) g h = cc

check_grant-ok :
    (now : ℕ) (plugin instance_name : String) (r g : Grant)
    → check_grant now plugin instance_name r ≡ ok g
    → (r ≡ g) × (now ≤ r.expires_at) × (r.plugin ≡ plugin) × (r.instance_name ≡ instance_name)
unfolding check_grant
check_grant-ok now plugin instance_name r g h =
    let same = eq_iff r.plugin plugin in
    let same_instance = eq_iff r.instance_name instance_name in
    (ground arith, ground arith, ground (arith, same), ground (arith, same_instance))

module _ (grants : Grants) (now : ℕ) (plugin instance_name purpose token : String) where
  -- The grant is stored under the token and is for the purpose, now, of the plugin instance.
  pub record Allows (g : Grant) : Type 0 where
    pub has_token : is_blank (trim_space token) ≡ false
    pub stored : grants (path_name (trim_space token)) ≡ holds g
    pub in_time : now ≤ g.expires_at
    pub same_plugin : g.plugin ≡ trim_space plugin
    pub same_instance : g.instance_name ≡ normalize_instance instance_name
    pub names_purpose : mem ◌==◌ (trim_space purpose) g.purposes ≡ true

  validate_grant-Allows :
      (g : Grant) → validate_grant grants now plugin instance_name purpose token ≡ ok g → Allows g
  unfolding validate_grant validate_grant_base
  validate_grant-Allows g h =
      let path = path_name (trim_space token) in
      let (r, base, h') =
        >>=-eq-ok (validate_grant_base grants now plugin instance_name token) _ h in
      elim (Bool-cases (is_blank (trim_space token))) [
        | inl b ↦ absurd (ground arith)
        | inr b ↦
            let test : Grant → Outcome Grant =
              check_grant now (trim_space plugin) (normalize_instance instance_name) in
            let run : (read_grant (grants path) >>= test) ≡ ok r = rw b at base in
            let (q, reads, checks) = >>=-eq-ok (read_grant (grants path)) test run in
            let (same, in_time, owner, inst) = check_grant-ok now _ _ q r checks in
            let is_g : r ≡ g = ground arith in
            record {
              has_token = b;
              stored = read_grant-holds (grants path) q reads ∙ ap holds (same ∙ is_g);
              in_time = ground (arith, same, is_g);
              same_plugin = ground (arith, same, is_g);
              same_instance = ground (arith, same, is_g);
              names_purpose = ground (arith, is_g);
            }
      ]

  Allows-validate_grant :
      (g : Grant) → Allows g → validate_grant grants now plugin instance_name purpose token ≡ ok g
  unfolding validate_grant validate_grant_base check_grant
  Allows-validate_grant g a =
      rw (a.has_token, a.stored)
        (ground (
          arith,
          eq_iff g.plugin (trim_space plugin),
          eq_iff g.instance_name (normalize_instance instance_name),
        ))

module _ (api : SecretApi) where
  -- the variable has no value
  abbrev pub is_unset : (String → String) → String → Bool
  is_unset env key = is_blank (trim_space (env key))

  abbrev pub from_variable_of : (String → String) → String → String → SecretMaterial api
  from_variable_of env purpose key = record {
    kind = api.bearer_token;
    value = trim_space (env key);
    source = append "env:" key;
    purpose = purpose;
    ref = api.env_ref key;
  }

  -- Where released material comes from: the stored secret of the grant's own plugin instance, or, if
  -- there is none, the first variable with a value among those that the grant lists for the purpose.
  pub data IsFrom (env : String → String) (secrets : api.Store) (g : Grant) (purpose : String)
      (m : SecretMaterial api) : Type 0 where
    from_store :
        (kind : api.Kind) (value : String) (ref : api.Ref)
        → api.resolve secrets (api.plugin_ref g.plugin g.instance_name purpose)
          ≡ ok (some (kind, value, ref))
        → m ≡ record {
          kind = kind;
          value = value;
          source = "store";
          purpose = purpose;
          ref = api.normalize ref;
        }
        → IsFrom env secrets g purpose m
    from_variable :
        (before : List String) (key : String) (after : List String)
        → api.resolve secrets (api.plugin_ref g.plugin g.instance_name purpose) ≡ ok none
        → get_or [] (trim_space purpose) g.purpose_env ≡ before ++ key ∷ after
        → All (λ k. is_unset env k ≡ true) before
        → is_unset env key ≡ false
        → m ≡ from_variable_of env purpose key
        → IsFrom env secrets g purpose m

  -- What the loop over the variables finds.
  abbrev IsFirst : (String → String) → String → List String → Option (SecretMaterial api) → Type 0
  IsFirst env purpose keys none = All (λ k. is_unset env k ≡ true) keys
  IsFirst env purpose keys (some m) =
      (before : List String) × (key : String) × (after : List String) × (keys
        ≡ before ++ key ∷ after)
      × All (λ k. is_unset env k ≡ true) before
      × (is_unset env key ≡ false)
      × (for_purpose api purpose m ≡ from_variable_of env purpose key)

  IsFirst-cons :
      (env : String → String) (purpose k : String) (keys : List String)
      (o : Option (SecretMaterial api))
      → is_unset env k ≡ true
      → IsFirst env purpose keys o
      → IsFirst env purpose (k ∷ keys) o
  IsFirst-cons env purpose k keys none u h = (u, h)
  IsFirst-cons env purpose k keys (some m) u (before, key, after, split, h, set, same) =
      (k ∷ before, key, after, ap (λ ks. k ∷ ks) split, (u, h), set, same)

  first_set-IsFirst :
      (env : String → String) (purpose : String) (keys : List String)
      → IsFirst env purpose keys (first_set api env keys)
  unfolding first_set
  first_set-IsFirst env purpose [] = tt
  first_set-IsFirst env purpose (k ∷ ks) = elim (Bool-cases (is_unset env k)) [
    | inl unset ↦ rw unset (
        IsFirst-cons env purpose k ks (first_set api env ks) unset
          (first_set-IsFirst env purpose ks))
    | inr is_set ↦ rw is_set ([], k, ks, refl, tt, is_set, refl)
  ]

  first_set-first :
      (env : String → String) (before : List String) (key : String) (after : List String)
      → All (λ k. is_unset env k ≡ true) before
      → is_unset env key ≡ false
      → first_set api env (before ++ key ∷ after) ≡ some (from_env api key (trim_space (env key)))
  unfolding first_set
  first_set-first env [] key after h s = rw s refl
  first_set-first env (k ∷ ks) key after (u, h) s = rw u (first_set-first env ks key after h s)

  module _ (env : String → String) (secrets : api.Store) (grants : Grants) (now : ℕ)
      (plugin instance_name purpose token : String) (m : SecretMaterial api) where
    listed-IsFrom :
        (g : Grant) (keys : List String) (o : Option (SecretMaterial api))
        → api.resolve secrets (api.plugin_ref g.plugin g.instance_name purpose) ≡ ok none
        → get_or [] (trim_space purpose) g.purpose_env ≡ keys
        → IsFirst env purpose keys o
        → elim o [
          | some s ↦ ok (for_purpose api purpose s)
          | none ↦ err "secret material not found"
        ]
          ≡ ok m
        → IsFrom env secrets g purpose m
    listed-IsFrom g keys none r e i h = cc
    listed-IsFrom g keys (some s) r e (before, key, after, split, unset, is_set, same) h =
        from_variable before key after r (e ∙ split) unset is_set (sym (ok-injective h) ∙ same)

    resolve_secret-source :
        (g : Grant)
        → validate_grant grants now plugin instance_name purpose token ≡ ok g
        → resolve_secret api env secrets grants now plugin instance_name purpose token ≡ ok m
        → IsFrom env secrets g purpose m
    unfolding resolve_secret load_stored_secret_ref env_secret
    resolve_secret-source g v h =
        let ref = api.plugin_ref g.plugin g.instance_name purpose in
        let keys = get_or [] (trim_space purpose) g.purpose_env in
        elim (Outcome-cases (api.resolve secrets ref)) [
          | inr (e, r) ↦ absurd (ground arith)
          | inl (none, r) ↦
              listed-IsFrom g keys (first_set api env keys) r refl
                (first_set-IsFirst env purpose keys) (rw (v, r) at h)
          | inl (some (kind, value, at), r) ↦
              from_store kind value at r (sym (ok-injective (rw (v, r) at h)))
        ]

    env_secret-keys :
        (pe : Map (List String)) (keys : List String)
        → get_or [] (trim_space purpose) pe ≡ keys
        → env_secret api env pe purpose ≡ first_set api env keys
    unfolding env_secret
    env_secret-keys pe keys h = ap (first_set api env) h

    IsFrom-resolve_secret :
        (g : Grant)
        → validate_grant grants now plugin instance_name purpose token ≡ ok g
        → IsFrom env secrets g purpose m
        → resolve_secret api env secrets grants now plugin instance_name purpose token ≡ ok m
    unfolding resolve_secret load_stored_secret_ref
    IsFrom-resolve_secret g v (from_store kind value ref r e) = rw (v, r) (ap ok (sym e))
    IsFrom-resolve_secret g v (from_variable before key after r split unset is_set e) =
        let first = first_set-first env before key after unset is_set in
        let listed = env_secret-keys g.purpose_env (before ++ key ∷ after) split ∙ first in
        rw (v, r) (ground (arith, listed, e))

    -- Material is released exactly if the token shown is that of a stored grant which is not expired
    -- now, is for the plugin instance that asks, and names the purpose; and the material is the
    -- stored secret of the grant's own plugin instance, or, if there is none, the value of the first
    -- variable with a value among those that the grant lists for the purpose.
    pub resolve_secret-released :
        (resolve_secret api env secrets grants now plugin instance_name purpose token ≡ ok m) ↔ (
          (g : Grant) × Allows grants now plugin instance_name purpose token g
          × IsFrom env secrets g purpose m)
    unfolding resolve_secret
    resolve_secret-released = (
      λ h.
          let (g, v, h') =
            >>=-eq-ok (validate_grant grants now plugin instance_name purpose token) _ h in
          (
            g,
            validate_grant-Allows grants now plugin instance_name purpose token g v,
            resolve_secret-source g v h,
          ),
      λ r.
          IsFrom-resolve_secret r.0
            (Allows-validate_grant grants now plugin instance_name purpose token r.0 r.1) r.2,
    )
