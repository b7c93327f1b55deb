-- ===== src/Prelude/Outcome.antt =====
-- Results of fallible code, with Go's error text as the error, and actions on one stored value:
-- what an action did before it failed stays done.
use mathlib.Core.Path.{◌≡◌, refl}
use mathlib.Core.Bool.{Bool, true, false}
use mathlib.Core.Logic.{◌⊎◌, inl, inr}
use Prim.Native.String.{String}

pub data Outcome {ℓ} (A : Type ℓ) : Type ℓ where
  ok : A → Outcome A
  err : String → Outcome A

module _ {ℓ κ} {A : Type ℓ} {B : Type κ} where
  infixl 5 ◌>>=◌
  abbrev pub ◌>>=◌ : Outcome A → (A → Outcome B) → Outcome B
  ok found >>= next = next found
  err why >>= next = err why

  -- What a chain that succeeds went through.
  pub >>=-eq-ok :
      (first : Outcome A) (next : A → Outcome B) {out : B} (succeeds : (first >>= next) ≡ ok out)
      → (found : A) × (first ≡ ok found) × (next found ≡ ok out)
  >>=-eq-ok (err why) next succeeds = cc
  >>=-eq-ok (ok found) next succeeds = (found, refl, succeeds)

pub ok-injective {ℓ} : {A : Type ℓ} {a b : A} → ok a ≡ ok b → a ≡ b
ok-injective h = cc

-- did the code succeed
abbrev pub is_ok {ℓ} : {A : Type ℓ} → Outcome A → Bool
is_ok (ok a) = true
is_ok (err e) = false

pub Outcome-cases {ℓ} :
    {A : Type ℓ} (m : Outcome A) → ((a : A) × (m ≡ ok a)) ⊎ ((e : String) × (m ≡ err e))
Outcome-cases (ok a) = inl (a, refl)
Outcome-cases (err e) = inr (e, refl)

-- What holds of the value, if there is one.
abbrev pub Gives {ℓ κ} : {A : Type ℓ} → (A → Type κ) → Outcome A → Type κ
Gives P (ok a) = P a
Gives P (err e) = Unit

pub Gives-bind {ℓ κ μ ν} :
    {A : Type ℓ} {B : Type κ} (P : A → Type μ) (Q : B → Type ν) (m : Outcome A) (k : A → Outcome B)
    → Gives P m
    → ((a : A) → P a → Gives Q (k a))
    → Gives Q (m >>= k)
Gives-bind P Q (ok a) k p h = h a p
Gives-bind P Q (err e) k p h = tt

pub Gives-after {ℓ κ ν} :
    {A : Type ℓ} {B : Type κ} (Q : B → Type ν) (m : Outcome A) (k : A → Outcome B)
    → ((a : A) → Gives Q (k a))
    → Gives Q (m >>= k)
Gives-after Q (ok a) k h = h a
Gives-after Q (err e) k h = tt

pub Gives-weaken {ℓ κ ν} :
    {A : Type ℓ} (P : A → Type κ) (Q : A → Type ν) (m : Outcome A)
    → Gives P m
    → ((a : A) → P a → Q a)
    → Gives Q m
Gives-weaken P Q (ok a) p h = h a p
Gives-weaken P Q (err e) p h = tt
