-- ===== src/Prelude/Array.antt =====
-- A C array as a function of its index: writing one element, and sums over the first `n`.
use native.Mathlib.Decide.{dec_lt}
use sope.Prelude.{ℕ, zero, suc, ◌+◌, ◌≤◌, ◌<◌, ◌≡◌, refl, ap, ◌≢◌, arith, ◌==◌, if◌then◌else◌}

abbrev pub update {ℓ} : {A : Type ℓ} → (ℕ → A) → ℕ → A → ℕ → A
update f i a j = if i == j then a else f j

-- `f 0 + … + f (n - 1)`
unfoldable pub sum_below : ℕ → (ℕ → ℕ) → ℕ
sum_below zero f = 0
sum_below (suc n) f = f n + sum_below n f

-- Two arrays that differ at index `i` alone.
module _ (f g : ℕ → ℕ) (i : ℕ) (same : (j : ℕ) → j ≢ i → f j ≡ g j) where
  sum_below-eq : (n : ℕ) → n ≤ i → sum_below n f ≡ sum_below n g
  unfolding sum_below
  sum_below-eq zero h = refl
  sum_below-eq (suc n) h = omega (arith, same n (omega arith), sum_below-eq n (omega arith))

  pub sum_below-change : (n : ℕ) → i < n → sum_below n f + g i ≡ sum_below n g + f i
  unfolding sum_below
  sum_below-change zero h = elim h [ ]
  sum_below-change (suc n) h = elim (dec_lt i n) [
    | yes p ↦ omega (arith, same n (omega arith), sum_below-change n p)
    | no p ↦ omega (arith, ap f (last p), ap g (last p), sum_below-eq n (omega arith))
  ]
    where
      last : ¬ (i < n) → n ≡ i
      last p = omega arith
