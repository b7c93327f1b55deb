-- ===== src/Jobs/Inputs/Bounds.antt =====
-- The range of BoundedIntFromInput of core/pluginbinding/index.go.
use fluxplane_dex.Prelude.{
  ℕ, zero, suc, ◌≤◌, String, ◌≡◌, arith, Bool-cases, inl, inr, if◌then◌else◌, ltb,
}
use fluxplane_dex.Prelude.Int.{ℤ, pos, negsuc}
use fluxplane_dex.Json.{Object}
use fluxplane_dex.Jobs.Inputs.{bounded, bounded_int_from_input, int_from_input}

clamp :
    (k m : ℕ)
    → (n : ℕ) × ((if ltb (suc m) (suc k) then pos (suc m) else pos (suc k)) ≡ pos (suc n)) × (n ≤ m)
clamp k m = elim (Bool-cases (ltb (suc m) (suc k))) [
  | inl e ↦ (m, rw e, omega arith)
  | inr e ↦ (k, rw e, ground arith)
]

bounded-range :
    (f m : ℕ) (value : ℤ)
    → (n : ℕ) × (bounded (pos (suc f)) (pos (suc m)) value ≡ pos (suc n)) × (n ≤ m)
bounded-range f m (pos zero) = clamp f m
bounded-range f m (pos (suc n)) = clamp n m
bounded-range f m (negsuc n) = clamp f m

-- With a positive fallback and a positive maximum, the integer read from any input lies between 1
-- and the maximum.
pub bounded_int_from_input-range :
    (input : Object) (key : String) (f m : ℕ)
    → (n : ℕ) × (bounded_int_from_input input key (pos (suc f)) (pos (suc m)) ≡ pos (suc n))
      × (n ≤ m)
unfolding bounded_int_from_input
bounded_int_from_input-range input key f m =
    bounded-range f m (int_from_input input key (pos (suc f)))
