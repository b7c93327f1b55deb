-- ===== src/Prelude/Sorting.antt =====
-- `sort.SliceStable` by a `less` function, as a stable insertion sort. It also stands for
-- `sort.Slice`, which leaves the order of equals open: here they keep the order they had.
use mathlib.Core.List.{Perm}
use mathlib.Core.List.Perm
use fluxplane_dex.Prelude.{
  inl, inr, ◌∙◌, Bool-cases, String, str_lt, str_lt_asym, str_lt_cotrans, suc, ◌≡◌, refl, ap, Bool,
  true, false, List, [], ◌∷◌, arith, if◌then◌else◌, length, All,
}

-- What a `less` function of `sort` must satisfy: it is the strict part of a total preorder.
pub record IsLess {ℓ} {A : Type ℓ} (less : A → A → Bool) : Type ℓ where
  pub asym : (x y : A) → less x y ≡ true → less y x ≡ false
  pub cotrans : (x y z : A) → less y x ≡ false → less z y ≡ false → less z x ≡ false

module _ {ℓ} {A : Type ℓ} (less : A → A → Bool) where
  unfoldable pub insert : A → List A → List A
  insert x [] = x ∷ []
  insert x (y ∷ ys) = let rest = insert x ys in if less y x then y ∷ rest else x ∷ y ∷ ys

  unfoldable pub sort : List A → List A
  unfolding insert
  sort [] = []
  sort (x ∷ xs) = insert x (sort xs)

  -- No element is less than one before it.
  abbrev pub IsSorted : List A → Type ℓ
  IsSorted [] = Unit
  IsSorted (x ∷ xs) = All (λ y. less y x ≡ false) xs × IsSorted xs

  All-insert {κ} : (P : A → Type κ) (x : A) (xs : List A) → P x → All P xs → All P (insert x xs)
  unfolding insert
  All-insert P x [] p h = (p, tt)
  All-insert P x (y ∷ ys) p (q, h) = elim (Bool-cases (less y x)) [
    | inl e ↦ rw e (q, All-insert P x ys p h)
    | inr e ↦ rw e (p, (q, h))
  ]

  -- Sorting keeps what holds of every element.
  pub All-sort {κ} : (P : A → Type κ) (xs : List A) → All P xs → All P (sort xs)
  unfolding sort
  All-sort P [] h = tt
  All-sort P (x ∷ xs) (p, h) = All-insert P x (sort xs) p (All-sort P xs h)

  insert-perm : (x : A) (xs : List A) → Perm (insert x xs) (x ∷ xs)
  unfolding insert
  insert-perm x [] = Perm.rfl
  insert-perm x (y ∷ ys) = elim (Bool-cases (less y x)) [
    | inl e ↦ rw e (Perm.trans (Perm.cons y (insert-perm x ys)) (Perm.swap x y ys))
    | inr e ↦ rw e Perm.rfl
  ]

  pub sort-perm : (xs : List A) → Perm (sort xs) xs
  unfolding sort
  sort-perm [] = Perm.rfl
  sort-perm (x ∷ xs) = Perm.trans (insert-perm x (sort xs)) (Perm.cons x (sort-perm xs))

  length-insert : (x : A) (xs : List A) → length (insert x xs) ≡ suc (length xs)
  unfolding insert
  length-insert x [] = refl
  length-insert x (y ∷ ys) = ground (arith, length-insert x ys)

  pub length-sort : (xs : List A) → length (sort xs) ≡ length xs
  unfolding sort
  length-sort [] = refl
  length-sort (x ∷ xs) = length-insert x (sort xs) ∙ ap suc (length-sort xs)

  -- Sorting a sorted list changes nothing.
  insert_of_IsSorted : (x : A) (xs : List A) → All (λ y. less y x ≡ false) xs → insert x xs ≡ x ∷ xs
  unfolding insert
  insert_of_IsSorted x [] h = refl
  insert_of_IsSorted x (y ∷ ys) (p, h) = rw p

  pub sort_of_IsSorted : (xs : List A) → IsSorted xs → sort xs ≡ xs
  unfolding sort
  sort_of_IsSorted [] s = refl
  sort_of_IsSorted (x ∷ xs) (h, s) = rw (sort_of_IsSorted xs s) (insert_of_IsSorted x xs h)

  module _ (laws : IsLess less) where
    insert-IsSorted : (x : A) (xs : List A) → IsSorted xs → IsSorted (insert x xs)
    unfolding insert
    insert-IsSorted x [] h = (tt, tt)
    insert-IsSorted x (y ∷ ys) (h, s) = elim (Bool-cases (less y x)) [
      | inl e ↦
          rw e (All-insert (λ z. less z y ≡ false) x ys (laws.asym y x e) h, insert-IsSorted x ys s)
      | inr e ↦ rw e ((e, All-weaken x y e ys h), (h, s))
    ]
      where
        All-weaken :
            (x y : A)
            → less y x ≡ false
            → (zs : List A) → All (λ z. less z y ≡ false) zs
            → All (λ z. less z x ≡ false) zs
        All-weaken x y e [] h = tt
        All-weaken x y e (z ∷ zs) (p, h) = (laws.cotrans x y z e p, All-weaken x y e zs h)

    pub sort-IsSorted : (xs : List A) → IsSorted (sort xs)
    unfolding sort
    sort-IsSorted [] = tt
    sort-IsSorted (x ∷ xs) = insert-IsSorted x (sort xs) (sort-IsSorted xs)

-- The strict order of texts, applied to a key of each value.
abbrev pub by_key {ℓ} : {A : Type ℓ} → (A → String) → A → A → Bool
by_key key x y = str_lt (key x) (key y)

pub by_key-IsLess {ℓ} : {A : Type ℓ} (key : A → String) → IsLess (by_key key)
by_key-IsLess key = record {
  asym = λ x y. str_lt_asym (key x) (key y);
  cotrans = λ x y z. str_lt_cotrans (key x) (key y) (key z);
}

pub str_lt-IsLess : IsLess str_lt
str_lt-IsLess = record { asym = str_lt_asym; cotrans = str_lt_cotrans }
