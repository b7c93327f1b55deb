-- ===== src/Keyed/Laws.antt =====
-- Lemmas on the lists with keys, seen through `find`.
use mathlib.Core.Option
use mathlib.Core.Path.{subst}
use fluxplane_dex.Prelude.{
  String, ◌≡◌, refl, true, false, none, some, List, [], ◌∷◌, ◌++◌, arith, ◌==◌, eq_iff,
  if◌then◌else◌, ◌∙◌, All, Bool-cases, inl, inr,
}
use fluxplane_dex.Prelude.{str_lt_irrefl}
use fluxplane_dex.Prelude.Sorting.{sort, insert, by_key}
use fluxplane_dex.Keyed.{find, change_first, remove, has, Distinct}

module _ {ℓ} {A : Type ℓ} (key : A → String) where
  pub find-append :
      (j : String) (xs : List A) (y : A)
      → find key j (xs ++ y ∷ [])
        ≡ elim (find key j xs) [ some x ↦ some x | none ↦ if key y == j then some y else none ]
  unfolding find
  find-append j [] y = refl
  find-append j (x ∷ xs) y = ground (arith, find-append j xs y)

  pub key-find : (j : String) (xs : List A) (x : A) → find key j xs ≡ some x → key x ≡ j
  unfolding find
  key-find j [] x h = cc
  key-find j (y ∷ ys) x h = ground (arith, key-find j ys x, eq_iff (key y) j)

  pub find-remove :
      (k j : String) (xs : List A)
      → find key j (remove key k xs) ≡ (if k == j then none else find key j xs)
  unfolding find remove
  find-remove k j [] = ground arith
  find-remove k j (x ∷ xs) =
      ground (arith, find-remove k j xs, eq_iff (key x) k, eq_iff (key x) j, eq_iff k j)

  -- A change that keeps the key is an update of the map at that key.
  pub find-change_first :
      (k j : String) (f : A → A) (xs : List A)
      → ((x : A) → key x ≡ k → key (f x) ≡ k)
      → find key j (change_first key k f xs)
        ≡ (if k == j then Option.map f (find key j xs) else find key j xs)
  unfolding find change_first
  find-change_first k j f [] keeps = ground arith
  find-change_first k j f (x ∷ xs) keeps = ground (
    arith,
    keeps x,
    find-change_first k j f xs keeps,
    eq_iff (key x) k,
    eq_iff (key x) j,
    eq_iff (key (f x)) j,
    eq_iff k j,
  )

  pub has-find :
      (k : String) (xs : List A)
      → has key k xs ≡ elim (find key k xs) [ none ↦ false | some x ↦ true ]
  unfolding has find
  has-find k [] = refl
  has-find k (x ∷ xs) = ground (arith, has-find k xs)

  -- Sorting by the key does not change what a key finds: of records with one key, the first stays
  -- first.
  find-insert :
      (j : String) (x : A) (xs : List A)
      → find key j (insert (by_key key) x xs) ≡ (if key x == j then some x else find key j xs)
  unfolding find insert
  find-insert j x [] = refl
  find-insert j x (y ∷ ys) =
      ground (arith, find-insert j x ys, eq_iff (key x) j, eq_iff (key y) j, str_lt_irrefl j)

  pub find-sort : (j : String) (xs : List A) → find key j (sort (by_key key) xs) ≡ find key j xs
  unfolding find sort
  find-sort j [] = refl
  find-sort j (x ∷ xs) = ground (arith, find-insert j x (sort (by_key key) xs), find-sort j xs)

  Distinct-insert :
      (x : A) (xs : List A)
      → find key (key x) xs ≡ none
      → Distinct key xs
      → Distinct key (insert (by_key key) x xs)
  unfolding insert find
  Distinct-insert x [] n d = (refl, tt)
  Distinct-insert x (y ∷ ys) n (m, d) = ground (
    arith,
    Distinct-insert x ys,
    find-insert (key y) x ys,
    eq_iff (key y) (key x),
    eq_iff (key x) (key y),
  )

  pub Distinct-sort : (xs : List A) → Distinct key xs → Distinct key (sort (by_key key) xs)
  unfolding sort
  Distinct-sort [] d = tt
  Distinct-sort (x ∷ xs) (n, d) =
      Distinct-insert x (sort (by_key key) xs) (find-sort (key x) xs ∙ n) (Distinct-sort xs d)

  pub Distinct-append :
      (xs : List A) (y : A)
      → find key (key y) xs ≡ none
      → Distinct key xs
      → Distinct key (xs ++ y ∷ [])
  unfolding find
  Distinct-append [] y n d = (refl, tt)
  Distinct-append (x ∷ xs) y n (m, d) = ground (
    arith,
    Distinct-append xs y,
    find-append (key x) xs y,
    eq_iff (key y) (key x),
    eq_iff (key x) (key y),
  )

  pub Distinct-remove :
      (k : String) (xs : List A) → Distinct key xs → Distinct key (remove key k xs)
  unfolding remove
  Distinct-remove k [] d = tt
  Distinct-remove k (x ∷ xs) (n, d) = ground (arith, Distinct-remove k xs, find-remove k (key x) xs)

  pub Distinct-change_first :
      (k : String) (f : A → A) (xs : List A)
      → ((x : A) → key x ≡ k → key (f x) ≡ k)
      → Distinct key xs
      → Distinct key (change_first key k f xs)
  unfolding find change_first
  Distinct-change_first k f [] keeps d = tt
  Distinct-change_first k f (x ∷ xs) keeps (n, d) = ground (
    arith,
    keeps x,
    find-change_first k (key x) f xs keeps,
    Distinct-change_first k f xs keeps,
    eq_iff (key x) k,
    eq_iff k (key x),
  )

module _ {ℓ κ} {A : Type ℓ} (key : A → String) (P : A → Type κ) where
  pub All-change_first :
      (k : String) (f : A → A) (xs : List A)
      → ((x : A) → P x → P (f x))
      → All P xs
      → All P (change_first key k f xs)
  unfolding change_first
  All-change_first k f [] keeps h = tt
  All-change_first k f (x ∷ xs) keeps (p, h) = elim (Bool-cases (key x == k)) [
    | inl e ↦ rw e (keeps x p, h)
    | inr e ↦ rw e (p, All-change_first k f xs keeps h)
  ]

  pub All-remove : (k : String) (xs : List A) → All P xs → All P (remove key k xs)
  unfolding remove
  All-remove k [] h = tt
  All-remove k (x ∷ xs) (p, h) = elim (Bool-cases (key x == k)) [
    | inl e ↦ rw e (All-remove k xs h)
    | inr e ↦ rw e (p, All-remove k xs h)
  ]

  pub All-find : (k : String) (xs : List A) (x : A) → All P xs → find key k xs ≡ some x → P x
  unfolding find
  All-find k [] x h e = cc
  All-find k (y ∷ ys) x (p, h) e = elim (Bool-cases (key y == k)) [
    | inl t ↦ subst P (ground arith) p
    | inr t ↦ All-find k ys x h (rw t at e)
  ]
