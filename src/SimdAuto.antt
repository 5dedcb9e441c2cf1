-- ===== src/SimdAuto.antt =====
-- include/pot/simd/simd_auto.h: a vector of `scalar_count` scalars in a plain array, the class, its
-- loads and stores, its reductions and its element access.
-- The scalar type is a parameter, and `none` stands for arithmetic that C++ leaves undefined, for a
-- failed assertion and for an access outside a buffer. A local `simd_auto res;` starts with
-- indeterminate lanes, which are the parameter `garbage`.
pub mod Fill
pub mod Arith
pub mod Compare
pub mod Maths
pub mod Lanewise
pub mod Relations
pub mod Folds
pub mod Buffers
pub mod Unsigned
mod Tests
use parallel_operations_tool.Prelude.{
  ℕ, zero, suc, ◌+◌, ◌-◌, Bool, ltb, if◌then◌else◌, Option, none, some, List, [], ◌∷◌, ◌>>=◌,
  update, get_elem?,
}

-- The operators of `scalar_type` that the class uses, each with the conversion of its result back
-- to `scalar_type`. `a > b` is `b < a`, and `a >= b` is `b <= a`.
pub record Scalar (A : Type 0) : Type 0 where
  pub cast : ℕ → A
  pub add : A → A → Option A
  pub sub : A → A → Option A
  pub mul : A → A → Option A
  pub div : A → A → Option A
  pub modulo : A → A → Option A
  pub bit_and : A → A → Option A
  pub bit_or : A → A → Option A
  pub bit_xor : A → A → Option A
  pub shift_left : A → A → Option A
  pub shift_right : A → A → Option A
  pub abs : A → Option A
  pub ne : A → A → Bool
  pub lt : A → A → Bool
  pub le : A → A → Bool

-- `m_value`.
abbrev pub Simd : Type 0 → Type 0
Simd A = ℕ → A

-- `for (size_t i = 0; i < scalar_count; ++i) res.m_value[i] = f(i);` from `i` on, with `rounds` left.
unfoldable pub fill : {A : Type 0} → (ℕ → Option A) → ℕ → ℕ → Simd A → Option (Simd A)
fill f i zero res = some res
fill f i (suc rounds) res = f i >>= (λ v. fill f (i + 1) rounds (update res i v))

-- `std::max` and `std::min`: the first argument unless the second is strictly beyond it.
abbrev pub std_max : {A : Type 0} → Scalar A → A → A → A
std_max s a b = if s.lt a b then b else a

abbrev pub std_min : {A : Type 0} → Scalar A → A → A → A
std_min s a b = if s.lt b a then b else a

module _ {A : Type 0} where
  -- The loops that fold the lanes from `i` on into an accumulator, with `rounds` left.
  unfoldable pub fold_from : (A → A → Option A) → Simd A → ℕ → ℕ → A → Option A
  fold_from f a i zero acc = some acc
  fold_from f a i (suc rounds) acc = f acc (a i) >>= fold_from f a (i + 1) rounds

  abbrev pub best_from : (A → A → A) → Simd A → ℕ → ℕ → A → A
  best_from pick a i zero best = best
  best_from pick a i (suc rounds) best = best_from pick a (i + 1) rounds (pick best (a i))

module _ {A : Type 0} (s : Scalar A) (scalar_count : ℕ) where
  -- `max()` and `min()` read lane 0 and loop from lane 1.
  unfoldable pub max_lane : Simd A → A
  max_lane a = best_from (std_max s) a 1 (scalar_count - 1) (a 0)

  unfoldable pub min_lane : Simd A → A
  min_lane a = best_from (std_min s) a 1 (scalar_count - 1) (a 0)

  unfoldable pub sum : Simd A → Option A
  sum a = fold_from s.add a 0 scalar_count (s.cast 0)

  unfoldable pub prod : Simd A → Option A
  prod a = fold_from s.mul a 0 scalar_count (s.cast 1)

  -- `operator[]` and `operator()`.
  unfoldable pub at : Simd A → ℕ → Option A
  at a index = if ltb index scalar_count then some (a index) else none

  -- The assignment through the reference that they return.
  unfoldable pub assign_at : Simd A → ℕ → A → Option (Simd A)
  assign_at a index v = if ltb index scalar_count then some (update a index v) else none

-- `*(ptr + i) = v` in a buffer.
abbrev pub write_at : {A : Type 0} → List A → ℕ → A → Option (List A)
write_at [] i v = none
write_at (x ∷ xs) zero v = some (v ∷ xs)
write_at (x ∷ xs) (suc i) v = write_at xs i v >>= (λ ys. some (x ∷ ys))

module _ {A : Type 0} (scalar_count : ℕ) where
  -- The loop of `store`, from `i` on, with `rounds` left.
  unfoldable pub store_from : Simd A → ℕ → ℕ → List A → Option (List A)
  store_from a i zero ptr = some ptr
  store_from a i (suc rounds) ptr = write_at ptr i (a i) >>= store_from a (i + 1) rounds

  unfoldable pub store : Simd A → List A → Option (List A)
  store a ptr = store_from a 0 scalar_count ptr

  unfoldable pub load : Simd A → List A → Option (Simd A)
  load a ptr = fill (get_elem? ptr) 0 scalar_count a

  module _ (garbage : Simd A) where
    -- The constructor that copies one value to every lane.
    unfoldable pub of_value : A → Option (Simd A)
    of_value value = fill (λ _. some value) 0 scalar_count garbage

    -- The constructor from one argument for each lane.
    unfoldable pub of_args : List A → Option (Simd A)
    of_args args = fill (get_elem? args) 0 scalar_count garbage

    unfoldable pub zeros : Scalar A → Option (Simd A)
    zeros s = of_value (s.cast 0)

    unfoldable pub ones : Scalar A → Option (Simd A)
    ones s = of_value (s.cast 1)
