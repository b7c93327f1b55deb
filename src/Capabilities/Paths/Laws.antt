-- ===== src/Capabilities/Paths/Laws.antt =====
-- Where the paths of blobs lie, ensureInside and resolveCreate in runtime/capabilities.go.
use mathlib.Core.Path.{subst}
use fluxplane_dex.Prelude.{
  String, ◌≡◌, refl, ◌∙◌, sym, Bool, true, false, not, ◌&&◌, ◌||◌, List, [], ◌∷◌, ◌++◌, ◌==◌, arith,
  if◌then◌else◌, Bool-cases, inl, inr, trim_space, has_prefix,
}
use fluxplane_dex.Prelude.Outcome.{Outcome, ok, err, is_ok, Outcome-cases, Gives, Gives-bind, ◌>>=◌}
use fluxplane_dex.Capabilities.Paths.{
  FilePath, elements, rel_path, real_root, found_or_error, found_or_parent, dir, enter, follow, ups,
  rel, ensure_inside, leaves, resolve_candidate, Real, found, not_exist, failing, resolve_create,
}

-- a path that is the root or lies below it
unfoldable pub is_inside : FilePath → FilePath → Bool
is_inside [] path = true
is_inside (n ∷ root) [] = false
is_inside (n ∷ root) (m ∷ path) = n == m && is_inside root path

-- the names of a clean path
abbrev pub is_name : String → Bool
is_name n = not (n == "" || (n == "." || n == ".."))

unfoldable pub is_clean : FilePath → Bool
is_clean [] = true
is_clean (n ∷ ns) = is_name n && is_clean ns

leaves-rel :
    (root path : FilePath)
    → is_clean path ≡ true
    → leaves (rel root path) ≡ not (is_inside root path)
unfolding rel is_inside is_clean ups
leaves-rel [] [] c = refl
leaves-rel [] (m ∷ path) c = ground arith
leaves-rel (n ∷ root) [] c = refl
leaves-rel (n ∷ root) (m ∷ path) c = ground (arith, leaves-rel root path)

-- ensureInside accepts a clean path exactly if it is the root or lies below it.
pub ensure_inside-is_inside :
    (root path : FilePath)
    → is_clean path ≡ true
    → is_ok (ensure_inside root path) ≡ is_inside root path
unfolding ensure_inside
ensure_inside-is_inside root path c = ground (arith, leaves-rel root path c)

dir-is_clean : (path : FilePath) → is_clean path ≡ true → is_clean (dir path) ≡ true
unfolding dir is_clean
dir-is_clean [] c = refl
dir-is_clean (n ∷ []) c = refl
dir-is_clean (n ∷ m ∷ ns) c = ground (arith, dir-is_clean (m ∷ ns))

push-is_clean :
    (path : FilePath) (n : String)
    → is_clean path ≡ true
    → is_name n ≡ true
    → is_clean (path ++ n ∷ []) ≡ true
unfolding is_clean
push-is_clean [] n c h = ground arith
push-is_clean (m ∷ path) n c h = ground (arith, push-is_clean path n)

enter-is_clean :
    (path : FilePath) (n : String) → is_clean path ≡ true → is_clean (enter path n) ≡ true
unfolding enter
enter-is_clean path n c = ground (arith, dir-is_clean path c, push-is_clean path n c)

follow-is_clean :
    (path : FilePath) (ns : List String) → is_clean path ≡ true → is_clean (follow path ns) ≡ true
unfolding follow
follow-is_clean path [] c = c
follow-is_clean path (n ∷ ns) c = follow-is_clean (enter path n) ns (enter-is_clean path n c)

ensure_inside-Gives :
    (root path : FilePath)
    → is_clean path ≡ true
    → Gives (λ _. is_inside root path ≡ true) (ensure_inside root path)
ensure_inside-Gives root path c = elim (Outcome-cases (ensure_inside root path)) [
  | inl o ↦ rw o.1 (sym (ensure_inside-is_inside root path c) ∙ rw o.1 refl)
  | inr e ↦ rw e.1 tt
]

-- a clean path that is the root or lies below it
abbrev pub IsPlaced : FilePath → FilePath → Type 0
IsPlaced root p = (is_clean p ≡ true) × (is_inside root p ≡ true)

resolve_candidate-Gives :
    (root : FilePath) (raw : String)
    → is_clean root ≡ true
    → Gives (IsPlaced root) (resolve_candidate root raw)
unfolding resolve_candidate
resolve_candidate-Gives root raw c = elim (Bool-cases (trim_space raw == "")) [
  | inl b ↦ rw b tt
  | inr b ↦ rw b (
      placed (if has_prefix (trim_space raw) "/" then [] else root)
        (start (has_prefix (trim_space raw) "/")) (elements (trim_space raw)))
]
  where
    start : (b : Bool) → is_clean (if b then [] else root) ≡ true
    start true = unfold is_clean in refl
    start false = c

    placed :
        (from : FilePath)
        → is_clean from ≡ true
        → (names : List String)
        → Gives
            (IsPlaced root)
            (ensure_inside root (follow from names) >>= λ _. ok (follow from names))
    placed from d names =
        let clean = follow-is_clean from names d in
        Gives-bind (λ _. is_inside root (follow from names) ≡ true) (IsPlaced root) _ _
          (ensure_inside-Gives root (follow from names) clean) (λ _ i. (clean, i))

module _ (eval_symlinks : FilePath → Real) where
  -- filepath.EvalSymlinks gives a clean path
  abbrev pub CleanReal : Real → Type 0
  CleanReal (found p) = is_clean p ≡ true
  CleanReal _ = Unit

  -- The path lies inside, and so does the directory that it is in: where that directory is there,
  -- the real one.
  abbrev pub ParentInside : FilePath → FilePath → Real → Type 0
  ParentInside root parent (found q) = is_inside root q ≡ true
  ParentInside root parent (not_exist e) = is_inside root parent ≡ true
  ParentInside root parent (failing e) = ⊥

  abbrev pub IsCreatable : FilePath → FilePath → Type 0
  IsCreatable root p = (is_inside root p ≡ true) × ParentInside root (dir p) (eval_symlinks (dir p))

  module _ (clean : (p : FilePath) → CleanReal (eval_symlinks p)) where
    found_or_error-Gives :
        (r : Real) → CleanReal r → Gives (λ p. is_clean p ≡ true) (found_or_error eval_symlinks r)
    found_or_error-Gives (found p) c = c
    found_or_error-Gives (not_exist e) c = tt
    found_or_error-Gives (failing e) c = tt

    real_root-Gives :
        (configured : Outcome FilePath)
        → Gives (λ r. is_clean r ≡ true) (real_root eval_symlinks configured)
    unfolding real_root
    real_root-Gives (ok p) = found_or_error-Gives (eval_symlinks p) (clean p)
    real_root-Gives (err e) = tt

    -- the root of a call that succeeds
    abbrev pub HasRoot : Outcome FilePath → (FilePath → Type 0) → Type 0
    HasRoot configured Q = (r : FilePath) × (real_root eval_symlinks configured ≡ ok r) × Q r

    abbrev IsRoot : Outcome FilePath → FilePath → Type 0
    IsRoot configured r = (real_root eval_symlinks configured ≡ ok r) × (is_clean r ≡ true)

    real_root-IsRoot :
        (configured : Outcome FilePath)
        → Gives (IsRoot configured) (real_root eval_symlinks configured)
    real_root-IsRoot configured = elim (Outcome-cases (real_root eval_symlinks configured)) [
      | inl o ↦
          rw o.1 (o.1, subst (Gives (λ r. is_clean r ≡ true)) o.1 (real_root-Gives configured))
      | inr e ↦ rw e.1 tt
    ]

    -- a clean path that is inside only if the parent is as it should be
    abbrev Leads : FilePath → FilePath → Real → FilePath → Type 0
    Leads root parent r q =
        (is_clean q ≡ true) × (is_inside root q ≡ true → ParentInside root parent r)

    found_or_parent-Gives :
        (root parent : FilePath) (r : Real)
        → is_clean parent ≡ true
        → CleanReal r
        → Gives (Leads root parent r) (found_or_parent eval_symlinks parent r)
    found_or_parent-Gives root parent (found q) p c = (c, λ i. i)
    found_or_parent-Gives root parent (not_exist e) p c = (p, λ i. i)
    found_or_parent-Gives root parent (failing e) p c = tt

    abbrev pub IsCreated : FilePath → FilePath × String → Type 0
    IsCreated root (p, text) = IsCreatable root p × (text ≡ rel_path root p)

    -- what resolveCreate returns, and what it has found out about it
    abbrev pub IsCreatedFrom : Outcome FilePath → FilePath × String → Type 0
    IsCreatedFrom configured out = HasRoot configured (λ r. IsCreated r out)

    pub resolve_create-Gives :
        (configured : Outcome FilePath) (raw : String)
        → Gives (IsCreatedFrom configured) (resolve_create eval_symlinks configured raw)
    unfolding resolve_create
    resolve_create-Gives configured raw =
        Gives-bind (IsRoot configured) (IsCreatedFrom configured)
          (real_root eval_symlinks configured) _ (real_root-IsRoot configured)
          (λ r at_root.
            Gives-bind (IsPlaced r) (IsCreatedFrom configured) (resolve_candidate r raw) _
              (resolve_candidate-Gives r raw at_root.1)
              (λ p placed.
                Gives-bind (Leads r (dir p) (eval_symlinks (dir p))) (IsCreatedFrom configured)
                  (found_or_parent eval_symlinks (dir p) (eval_symlinks (dir p))) _
                  (found_or_parent-Gives r (dir p) (eval_symlinks (dir p)) (dir-is_clean p placed.0)
                    (clean (dir p)))
                  (λ q leads.
                    Gives-bind (λ _. is_inside r q ≡ true) (IsCreatedFrom configured)
                      (ensure_inside r q) _ (ensure_inside-Gives r q leads.0)
                      (λ _ i. (r, at_root.0, ((placed.1, leads.1 i), refl))))))

    -- If filepath.EvalSymlinks gives clean paths and resolveCreate succeeds, then the path that it
    -- returns is the root or lies below it by its names, the directory of the path lies so by its
    -- real path, or by its names where there is no such directory, and the text is the path from
    -- the root.
    pub resolve_create-IsCreated :
        (configured : Outcome FilePath) (raw : String) (out : FilePath × String)
        → resolve_create eval_symlinks configured raw ≡ ok out
        → IsCreatedFrom configured out
    resolve_create-IsCreated configured raw out h =
        subst (Gives (IsCreatedFrom configured)) h (resolve_create-Gives configured raw)
