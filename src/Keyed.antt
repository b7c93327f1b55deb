-- ===== src/Keyed.antt =====
-- Lists of records with a key, as the registries of the package `runtime` hold them: the loops
-- `for i := range records { if records[i].ID == id { … } }`.
pub mod Laws
use fluxplane_dex.Prelude.{
  String, Bool, false, ◌||◌, Option, none, some, List, [], ◌∷◌, ◌==◌, if◌then◌else◌, ◌≡◌,
}

module _ {ℓ} {A : Type ℓ} (key : A → String) where
  -- the first record with the key
  unfoldable pub find : String → List A → Option A
  find k [] = none
  find k (x ∷ xs) = if key x == k then some x else find k xs

  -- the list with the first record with the key, if there is one, changed by `f`
  unfoldable pub change_first : String → (A → A) → List A → List A
  change_first k f [] = []
  change_first k f (x ∷ xs) = if key x == k then f x ∷ xs else x ∷ change_first k f xs

  -- the list without the records with the key
  unfoldable pub remove : String → List A → List A
  remove k [] = []
  remove k (x ∷ xs) = let rest = remove k xs in if key x == k then rest else x ∷ rest

  -- is there a record with the key
  unfoldable pub has : String → List A → Bool
  has k [] = false
  has k (x ∷ xs) = key x == k || has k xs

  -- No two records have one key.
  abbrev pub Distinct : List A → Type ℓ
  Distinct [] = Unit
  Distinct (x ∷ xs) = (find (key x) xs ≡ none) × Distinct xs
