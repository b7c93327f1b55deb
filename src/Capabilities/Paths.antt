-- ===== src/Capabilities/Paths.antt =====
-- The paths of blobs, blobPath, ensureInside, relPath, resolveCandidate, resolveExisting,
-- resolveCreate and root in runtime/capabilities.go, with what they use of path/filepath on Unix: an
-- absolute clean path is the list of its names, so the empty list is "/".
pub mod Laws
use Prim.Native.String
use fluxplane_dex.Prelude.{
  String, Bool, true, false, ◌||◌, Option, none, some, List, [], ◌∷◌, ◌++◌, ◌==◌, if◌then◌else◌,
  trim_space, append, has_prefix,
}
use fluxplane_dex.Prelude.Outcome.{Outcome, ok, err, ◌>>=◌}
use fluxplane_dex.Prelude.Slices.{split_from, slash, drop_same}

abbrev pub FilePath : Type 0
FilePath = List String

-- filepath.Dir of an absolute path; that of "/" is "/"
unfoldable pub dir : FilePath → FilePath
dir [] = []
dir (n ∷ []) = []
dir (n ∷ m ∷ ns) = n ∷ dir (m ∷ ns)

-- filepath.Base, where "." stands for an empty text
unfoldable pub base : FilePath → String
base [] = "."
base (n ∷ []) = n
base (n ∷ m ∷ ns) = base (m ∷ ns)

-- one element of a text that is followed from a directory
unfoldable pub enter : FilePath → String → FilePath
unfolding dir
enter from name =
    if name == "" || name == "." then from else if name == ".." then dir from else from ++ name ∷ []

-- filepath.Join(from, filepath.Clean(text)) for the elements of a text
unfoldable pub follow : FilePath → List String → FilePath
unfolding enter
follow from [] = from
follow from (name ∷ names) = follow (enter from name) names

-- filepath.Rel of two absolute paths: the number of ".." and the names after them
unfoldable pub ups : FilePath → List String
ups [] = []
ups (n ∷ ns) = ".." ∷ ups ns

unfoldable pub rel : FilePath → FilePath → List String
unfolding ups
rel [] path = path
rel (n ∷ root) [] = ups (n ∷ root)
rel (n ∷ root) (m ∷ path) =
    let inner = rel root path in if n == m then inner else ups (n ∷ root) ++ m ∷ path

-- a relative path is ".." or starts with "../"
abbrev pub leaves : List String → Bool
leaves [] = false
leaves (n ∷ ns) = n == ".."

unfoldable pub ensure_inside : FilePath → FilePath → Outcome (Unit {0})
unfolding rel
ensure_inside root candidate =
    if leaves (rel root candidate) then err "blob path escapes workspace root" else ok tt

-- the text of a relative path
unfoldable pub rel_text : List String → String
rel_text [] = "."
rel_text (n ∷ []) = n
rel_text (n ∷ m ∷ ns) = append n (append "/" (rel_text (m ∷ ns)))

-- relPath
unfoldable pub rel_path : FilePath → FilePath → String
unfolding rel rel_text
rel_path root path = rel_text (rel root path)

abbrev workspace : String
workspace = "workspace:"

unfoldable pub blob_path : String → String → String
blob_path untrimmed path =
    let ref = trim_space untrimmed in
    if has_prefix ref workspace
    then trim_space (drop_same ref workspace)
    else if ref == ""
    then trim_space path
    else ref

abbrev pub elements : String → List String
elements text = split_from slash "" text

unfoldable pub resolve_candidate : FilePath → String → Outcome FilePath
unfolding follow ensure_inside
resolve_candidate root untrimmed =
    let raw = trim_space untrimmed in
    if raw == "" then err "blob path is empty" else (do
      let candidate = follow (if has_prefix raw "/" then [] else root) (elements raw)
      inside ← ensure_inside root candidate
      ok candidate)

-- what filepath.EvalSymlinks finds
pub data Real : Type 0 where
  found : FilePath → Real
  not_exist : String → Real
  failing : String → Real

module _ (eval_symlinks : FilePath → Real) where
  abbrev pub found_or_error : Real → Outcome FilePath
  found_or_error (found p) = ok p
  found_or_error (not_exist e) = err e
  found_or_error (failing e) = err e

  -- `root` after filepath.Abs, for the text of the field or else the working directory
  unfoldable pub real_root : Outcome FilePath → Outcome FilePath
  real_root root = do abs ← root; found_or_error (eval_symlinks abs)

  -- the path and its text relative to the root
  unfoldable pub resolve_existing : Outcome FilePath → String → Outcome (FilePath × String)
  unfolding resolve_candidate rel_path real_root
  resolve_existing configured raw = do
    root ← real_root configured
    candidate ← resolve_candidate root raw
    real ← found_or_error (eval_symlinks candidate)
    ok (real, rel_path root real)

  abbrev pub found_or_parent : FilePath → Real → Outcome FilePath
  found_or_parent parent (found p) = ok p
  found_or_parent parent (not_exist e) = ok parent
  found_or_parent parent (failing e) = err e

  unfoldable pub resolve_create : Outcome FilePath → String → Outcome (FilePath × String)
  unfolding resolve_candidate rel_path real_root dir ensure_inside
  resolve_create configured raw = do
    root ← real_root configured
    candidate ← resolve_candidate root raw
    real_parent ← found_or_parent (dir candidate) (eval_symlinks (dir candidate))
    inside ← ensure_inside root real_parent
    ok (candidate, rel_path root candidate)
