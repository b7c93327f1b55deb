-- ===== src/Prelude/Unique.antt =====
-- The loop that the program writes wherever it cleans a list of values: each value is converted,
-- and kept unless it is to be skipped or is in the set `seen` of the values kept before.
use fluxplane_dex.Prelude.{
  ◌≡◌, refl, ◌↔◌, Bool, true, false, not, ◌&&◌, ◌||◌, List, [], ◌∷◌, map, arith, ap, Bool-cases,
  inl, inr, if◌then◌else◌, All, any,
}
use fluxplane_dex.Prelude.Sorting.{insert, sort}

module _ {ℓ} {B : Type ℓ} (eq : B → B → Bool) where
  -- is the value in the list
  unfoldable pub mem : B → List B → Bool
  mem v [] = false
  mem v (x ∷ xs) = eq x v || mem v xs

  abbrev pub IsUnique : List B → Type ℓ
  IsUnique [] = Unit
  IsUnique (x ∷ xs) = (mem x xs ≡ false) × IsUnique xs

  unfoldable pub collect {κ} : {A : Type κ} → (A → B) → (B → Bool) → List B → List A → List B
  collect f skip seen [] = []
  collect f skip seen (x ∷ xs) =
      let passed = collect f skip seen xs in
      let kept = f x ∷ collect f skip (f x ∷ seen) xs in
      if skip (f x) || mem (f x) seen then passed else kept

  module _ (eq_law : (a b : B) → (eq a b ≡ true) ↔ (a ≡ b)) where
    -- A value is kept exactly if it is converted from some element, is not skipped and was not seen.
    pub mem-collect {κ} :
        {A : Type κ} (f : A → B) (skip : B → Bool) (v : B) (seen : List B) (xs : List A)
        → mem v (collect f skip seen xs) ≡ mem v (map f xs) && not (skip v) && not (mem v seen)
    unfolding mem collect
    mem-collect f skip v seen [] = refl
    mem-collect f skip v seen (x ∷ xs) =
        ground (
          arith,
          mem-collect f skip v seen xs,
          mem-collect f skip v (f x ∷ seen) xs,
          eq_law (f x) v,
        )

    pub collect-IsUnique {κ} :
        {A : Type κ} (f : A → B) (skip : B → Bool) (seen : List B) (xs : List A)
        → IsUnique (collect f skip seen xs)
    unfolding mem collect
    collect-IsUnique f skip seen [] = tt
    collect-IsUnique f skip seen (x ∷ xs) = ground (
      arith,
      collect-IsUnique f skip seen xs,
      collect-IsUnique f skip (f x ∷ seen) xs,
      mem-collect f skip (f x) (f x ∷ seen) xs,
      eq_law (f x) (f x),
    )

    module _ (less : B → B → Bool) where
      mem-insert : (v x : B) (xs : List B) → mem v (insert less x xs) ≡ mem v (x ∷ xs)
      unfolding mem insert
      mem-insert v x [] = refl
      mem-insert v x (y ∷ ys) = ground (arith, mem-insert v x ys)

      pub mem-sort : (v : B) (xs : List B) → mem v (sort less xs) ≡ mem v xs
      unfolding mem sort
      mem-sort v [] = refl
      mem-sort v (x ∷ xs) = ground (arith, mem-insert v x (sort less xs), mem-sort v xs)

      insert-IsUnique :
          (x : B) (xs : List B) → mem x xs ≡ false → IsUnique xs → IsUnique (insert less x xs)
      unfolding mem insert
      insert-IsUnique x [] n u = (refl, tt)
      insert-IsUnique x (y ∷ ys) n (m, u) =
          ground (arith, insert-IsUnique x ys, mem-insert y x ys, eq_law x y, eq_law y x)

      pub sort-IsUnique : (xs : List B) → IsUnique xs → IsUnique (sort less xs)
      unfolding sort
      sort-IsUnique [] u = tt
      sort-IsUnique (x ∷ xs) (n, u) =
          ground (arith, insert-IsUnique x (sort less xs), mem-sort x xs, sort-IsUnique xs u)

  -- What is kept is converted from some element and not skipped.
  pub All-collect {κ μ} :
      {A : Type κ} (P : B → Type μ) (f : A → B) (skip : B → Bool) (seen : List B) (xs : List A)
      → ((x : A) → skip (f x) ≡ false → P (f x))
      → All P (collect f skip seen xs)
  unfolding collect
  All-collect P f skip seen [] h = tt
  All-collect P f skip seen (x ∷ xs) h = elim (Bool-cases (skip (f x))) [
    | inl s ↦ rw s (All-collect P f skip seen xs h)
    | inr s ↦ elim (Bool-cases (mem (f x) seen)) [
      | inl m ↦ rw (s, m) (All-collect P f skip seen xs h)
      | inr m ↦ rw (s, m) (h x s, All-collect P f skip (f x ∷ seen) xs h)
    ]
  ]

  module _ (eq_law : (a b : B) → (eq a b ≡ true) ↔ (a ≡ b)) where
    any_of_mem :
        (p : B → Bool) (v : B) (xs : List B) → mem v xs ≡ true → p v ≡ true → any p xs ≡ true
    unfolding mem
    any_of_mem p v [] m h = cc
    any_of_mem p v (x ∷ xs) m h = ground (arith, any_of_mem p v xs, eq_law x v)

    -- Some kept or seen value passes a test exactly if some seen value, or some value to be kept, does.
    pub any-collect {κ} :
        {A : Type κ} (p : B → Bool) (f : A → B) (skip : B → Bool) (seen : List B) (xs : List A)
        → any p (collect f skip seen xs) || any p seen
          ≡ any (λ x. not (skip (f x)) && p (f x)) xs || any p seen
    unfolding collect
    any-collect p f skip seen [] = refl
    any-collect p f skip seen (x ∷ xs) = ground (
      arith,
      any-collect p f skip seen xs,
      any-collect p f skip (f x ∷ seen) xs,
      any_of_mem p (f x) seen,
    )

    -- A list of values that the loop leaves as they are, without repetition, is left as it is.
    pub collect_of_IsUnique :
        (f : B → B) (skip : B → Bool) (seen xs : List B)
        → All (λ x. (f x ≡ x) × (skip x ≡ false) × (mem x seen ≡ false)) xs
        → IsUnique xs
        → collect f skip seen xs ≡ xs
    unfolding collect mem
    collect_of_IsUnique f skip seen [] h u = refl
    collect_of_IsUnique f skip seen (x ∷ xs) ((fx, sx, mx), h) (n, u) =
        rw (fx, sx, mx) (ap (◌∷◌ x) (collect_of_IsUnique f skip (x ∷ seen) xs (extend xs h n) u))
      where
        extend :
            (ys : List B)
            → All (λ y. (f y ≡ y) × (skip y ≡ false) × (mem y seen ≡ false)) ys
            → mem x ys ≡ false
            → All (λ y. (f y ≡ y) × (skip y ≡ false) × (mem y (x ∷ seen) ≡ false)) ys
        extend [] k m = tt
        extend (y ∷ ys) ((a, b, c), k) m =
            ((a, b, ground (arith, eq_law x y, eq_law y x)), extend ys k (ground arith))
