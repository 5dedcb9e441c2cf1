-- ===== src/Prelude/Family.antt =====
-- Arrays and thread tables as families `ℕ → A`, with update at one index.
use Prim.Native.Nat.{ℕ, zero, suc, ◌+◌, ◌≤◌, ◌<◌}
use mathlib.Core.Path.{◌≡◌, refl}
use mathlib.Core.Logic.{◌≢◌}
use native.Mathlib.Omega.{arith}
use native.Mathlib.Decide.{ℕ_discrete}
use parallel_operations_tool.Prelude.Tests.{◌==◌, if◌then◌else◌}

abbrev pub update {ℓ} : {A : Type ℓ} → (ℕ → A) → ℕ → A → ℕ → A
update f i a j = if j == i then a else f j

module _ {ℓ} {A : Type ℓ} (f : ℕ → A) (i : ℕ) (a : A) where
  pub update_self : update f i a i ≡ a
  update_self = ground arith

  pub update_ne : (j : ℕ) → j ≢ i → update f i a j ≡ f j
  update_ne j h = ground arith

-- The weights of the first `n` members of a family, added up.
module _ {A : Type 0} (weight : A → ℕ) where
  unfoldable pub sum_of : ℕ → (ℕ → A) → ℕ
  sum_of zero f = 0
  sum_of (suc n) f = weight (f n) + sum_of n f

  sum_of-update_out :
      (n : ℕ) (f : ℕ → A) (i : ℕ) (a : A) → n ≤ i → sum_of n (update f i a) ≡ sum_of n f
  unfolding sum_of
  sum_of-update_out zero f i a h = refl
  sum_of-update_out (suc n) f i a h = ground (arith, sum_of-update_out n f i a)

  -- An update moves the sum by the change of one weight.
  pub sum_of-update :
      (n : ℕ) (f : ℕ → A) (i : ℕ) (a : A)
      → i < n
      → sum_of n (update f i a) + weight (f i) ≡ sum_of n f + weight a
  unfolding sum_of
  sum_of-update zero f i a h = absurd (omega arith)
  sum_of-update (suc n) f i a h = elim (ℕ_discrete i n) [
    | yes last ↦ ground (arith, sum_of-update_out n f i a)
    | no below ↦ ground (arith, sum_of-update n f i a)
  ]

  pub weight-le-sum_of : (n : ℕ) (f : ℕ → A) (i : ℕ) → i < n → weight (f i) ≤ sum_of n f
  unfolding sum_of
  weight-le-sum_of zero f i h = absurd (omega arith)
  weight-le-sum_of (suc n) f i h = elim (ℕ_discrete i n) [
    | yes last ↦ ground arith
    | no below ↦ omega (arith, weight-le-sum_of n f i (omega arith))
  ]

  -- Two members that both weigh are two in the sum.
  pub weights-le-sum_of :
      (n : ℕ) (f : ℕ → A) (i j : ℕ) → i < j → j < n → weight (f i) + weight (f j) ≤ sum_of n f
  unfolding sum_of
  weights-le-sum_of zero f i j h k = absurd (omega arith)
  weights-le-sum_of (suc n) f i j h k = elim (ℕ_discrete j n) [
    | yes last ↦ ground (arith, weight-le-sum_of n f i (omega arith))
    | no below ↦ omega (arith, weights-le-sum_of n f i j h (omega arith))
  ]

  pub sum_of-zero : (n : ℕ) (f : ℕ → A) → ((i : ℕ) → weight (f i) ≡ 0) → sum_of n f ≡ 0
  unfolding sum_of
  sum_of-zero zero f h = refl
  sum_of-zero (suc n) f h = omega (arith, h n, sum_of-zero n f h)

  -- A sum that is not zero has a member that weighs.
  pub sum_of-pos : (n : ℕ) (f : ℕ → A) → 0 < sum_of n f → (i : ℕ) × (i < n) × (0 < weight (f i))
  unfolding sum_of
  sum_of-pos zero f h = absurd (omega arith)
  sum_of-pos (suc n) f h = elim (ℕ_discrete (weight (f n)) 0) [
    | yes none_here ↦ let (i, lt, w) = sum_of-pos n f (omega arith) in (i, omega arith, w)
    | no here ↦ (n, omega arith, omega arith)
  ]

  pub sum_of-le : ((a : A) → weight a ≤ 1) → (n : ℕ) (f : ℕ → A) → sum_of n f ≤ n
  unfolding sum_of
  sum_of-le small zero f = omega arith
  sum_of-le small (suc n) f = omega (arith, small (f n), sum_of-le small n f)
