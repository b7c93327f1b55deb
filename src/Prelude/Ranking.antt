-- ===== src/Prelude/Ranking.antt =====
-- The best answers of a search: sort.SliceStable and a cut at a limit, as runtime/index.go does at
-- the end of a search and of a lookup.
use mathlib.Core.List.{Perm}
use mathlib.Core.Path.{subst}
use fluxplane_dex.Prelude.{
  ℕ, zero, suc, ◌≤◌, ◌<◌, ◌≡◌, refl, Bool, false, List, [], ◌∷◌, ◌++◌, String, length, take, All,
  arith, ap, sym, ltb, nat_eq, ◌==◌, eq_iff, str_lt, str_lt_asym, str_lt_cotrans, str_lt_connected,
  if◌then◌else◌, All-take, length-take, true, ◌⊎◌, inl, inr, Bool-cases,
}
use fluxplane_dex.Prelude.Sorting.{IsLess, sort, IsSorted, sort-IsSorted, sort-perm, All-sort}

module _ {ℓ} {A : Type ℓ} where
  abbrev pub drop : ℕ → List A → List A
  drop zero xs = xs
  drop (suc n) [] = []
  drop (suc n) (x ∷ xs) = drop n xs

  take-drop : (n : ℕ) (xs : List A) → take n xs ++ drop n xs ≡ xs
  take-drop zero xs = refl
  take-drop (suc n) [] = refl
  take-drop (suc n) (x ∷ xs) = ap (λ ys. x ∷ ys) (take-drop n xs)

  All-drop {κ} : (P : A → Type κ) (n : ℕ) (xs : List A) → All P xs → All P (drop n xs)
  All-drop P zero xs h = h
  All-drop P (suc n) [] h = tt
  All-drop P (suc n) (x ∷ xs) (p, h) = All-drop P n xs h

  length-take_of_drop : (n : ℕ) (xs : List A) → 0 < length (drop n xs) → length (take n xs) ≡ n
  length-take_of_drop zero xs h = refl
  length-take_of_drop (suc n) [] h = absurd (omega (arith, h))
  length-take_of_drop (suc n) (x ∷ xs) h = ap suc (length-take_of_drop n xs h)

  All-imp {κ μ} :
      {P : A → Type κ} {Q : A → Type μ}
      → ((x : A) → P x → Q x)
      → (xs : List A) → All P xs
      → All Q xs
  All-imp h [] p = tt
  All-imp h (x ∷ xs) (p, ps) = (h x p, All-imp h xs ps)

  module _ (R : A → A → Type 0) where
    -- each element may stand before all later ones
    abbrev pub IsOrdered : List A → Type 0
    IsOrdered [] = Unit
    IsOrdered (x ∷ xs) = All (R x) xs × IsOrdered xs

    take-IsOrdered : (n : ℕ) (xs : List A) → IsOrdered xs → IsOrdered (take n xs)
    take-IsOrdered zero xs s = tt
    take-IsOrdered (suc n) [] s = tt
    take-IsOrdered (suc n) (x ∷ xs) (h, s) = (All-take (R x) n xs h, take-IsOrdered n xs s)

    take-best : (n : ℕ) (xs : List A) → IsOrdered xs → All (λ x. All (R x) (drop n xs)) (take n xs)
    take-best zero xs s = tt
    take-best (suc n) [] s = tt
    take-best (suc n) (x ∷ xs) (h, s) = (All-drop (R x) n xs h, take-best n xs s)

    -- The list `out` is in order, has at most `n` elements of `xs`, and misses some only if it has `n`
    -- that may all stand before the missing ones.
    pub record IsTop (n : ℕ) (xs out : List A) : Type ℓ where
      pub omitted : List A
      pub bounded : length out ≤ n
      pub ordered : IsOrdered out
      pub complete : Perm (out ++ omitted) xs
      pub full : 0 < length omitted → length out ≡ n
      pub best : All (λ x. All (R x) omitted) out

  module _ (less : A → A → Bool) where
    unfoldable pub top : ℕ → List A → List A
    unfolding sort
    top n xs = take n (sort less xs)

    IsSorted-IsOrdered :
        (R : A → A → Type 0)
        → ((x y : A) → less y x ≡ false → R x y)
        → (xs : List A) → IsSorted less xs
        → IsOrdered R xs
    IsSorted-IsOrdered R h [] s = tt
    IsSorted-IsOrdered R h (x ∷ xs) (b, s) = (All-imp (h x) xs b, IsSorted-IsOrdered R h xs s)

    pub top-IsTop :
        IsLess less
        → (R : A → A → Type 0) → ((x y : A) → less y x ≡ false → R x y)
        → (n : ℕ) (xs : List A) → IsTop R n xs (top n xs)
    unfolding top
    top-IsTop laws R h n xs =
        let ys = sort less xs in
        let ordered = IsSorted-IsOrdered R h ys (sort-IsSorted less laws xs) in
        record {
          omitted = drop n ys;
          bounded = omega (arith, length-take n ys);
          ordered = take-IsOrdered R n ys ordered;
          complete = subst (λ zs. Perm zs xs) (sym (take-drop n ys)) (sort-perm less xs);
          full = length-take_of_drop n ys;
          best = take-best R n ys ordered;
        }

    pub All-top {κ} : (P : A → Type κ) (n : ℕ) (xs : List A) → All P xs → All P (top n xs)
    unfolding top
    All-top P n xs h = All-take P n (sort less xs) (All-sort less P xs h)

  module _ (score : A → ℕ) (entity id : A → String) where
    -- the higher score first, then by entity and id
    unfoldable pub ranks_before : A → A → Bool
    ranks_before x y =
        if nat_eq (score x) (score y)
        then if entity x == entity y then str_lt (id x) (id y) else str_lt (entity x) (entity y)
        else ltb (score y) (score x)

    pub ranks_before-IsLess : IsLess ranks_before
    unfolding ranks_before
    ranks_before-IsLess = record {
      asym = λ x y h. ground (
        arith,
        eq_iff (entity x) (entity y),
        eq_iff (entity y) (entity x),
        str_lt_asym (id x) (id y),
        str_lt_asym (entity x) (entity y),
      );
      cotrans = λ x y z h k. ground (
        arith,
        eq_iff (entity x) (entity y),
        eq_iff (entity y) (entity x),
        eq_iff (entity z) (entity y),
        eq_iff (entity z) (entity x),
        str_lt_cotrans (id x) (id y) (id z),
        str_lt_cotrans (entity x) (entity y) (entity z),
        str_lt_connected (entity x) (entity y),
      );
    }

    -- The one may stand before the other: it has the higher score, or with the same score the smaller
    -- entity, or with the same entity an id that is not the greater.
    abbrev pub NotWorse : A → A → Type 0
    NotWorse x y =
        (score y < score x)
        ⊎ ((score x ≡ score y)
            × ((str_lt (entity x) (entity y) ≡ true)
                ⊎ ((entity x ≡ entity y) × (str_lt (id y) (id x) ≡ false))))

    pub ranks_before-NotWorse : (x y : A) → ranks_before y x ≡ false → NotWorse x y
    unfolding ranks_before
    ranks_before-NotWorse x y h = elim (Bool-cases (nat_eq (score y) (score x))) [
      | inr differ ↦ inl (ground arith)
      | inl same ↦ elim (Bool-cases (entity y == entity x)) [
        | inl e ↦
            let (at, _) = eq_iff (entity y) (entity x) in
            inr (ground arith, inr (sym (at e), ground arith))
        | inr e ↦ inr (
          ground arith,
          inl (
              ground (
                arith,
                eq_iff (entity x) (entity y),
                eq_iff (entity y) (entity x),
                str_lt_connected (entity x) (entity y),
                str_lt_connected (entity y) (entity x),
              )),
        )
      ]
    ]
