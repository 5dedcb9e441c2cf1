-- ===== src/SimdAuto/Arith.antt =====
-- include/pot/simd/simd_auto.h: the operators that loop over the lanes of one or two vectors.
use parallel_operations_tool.Prelude.{ℕ, Option, some}
use parallel_operations_tool.SimdAuto.{Scalar, Simd, fill, std_max, std_min}

module _ {A : Type 0} (s : Scalar A) (scalar_count : ℕ) (garbage : Simd A) where
  unfoldable pub max_with : Simd A → Simd A → Option (Simd A)
  max_with a other = fill (λ i. some (std_max s (a i) (other i))) 0 scalar_count garbage

  unfoldable pub min_with : Simd A → Simd A → Option (Simd A)
  min_with a other = fill (λ i. some (std_min s (a i) (other i))) 0 scalar_count garbage

  unfoldable pub abs : Simd A → Option (Simd A)
  abs a = fill (λ i. s.abs (a i)) 0 scalar_count garbage

  unfoldable pub sqr : Simd A → Option (Simd A)
  sqr a = fill (λ i. s.mul (a i) (a i)) 0 scalar_count garbage

  unfoldable pub add : Simd A → Simd A → Option (Simd A)
  add a rhs = fill (λ i. s.add (a i) (rhs i)) 0 scalar_count garbage

  unfoldable pub sub : Simd A → Simd A → Option (Simd A)
  sub a rhs = fill (λ i. s.sub (a i) (rhs i)) 0 scalar_count garbage

  unfoldable pub mul : Simd A → Simd A → Option (Simd A)
  mul a rhs = fill (λ i. s.mul (a i) (rhs i)) 0 scalar_count garbage

  unfoldable pub div : Simd A → Simd A → Option (Simd A)
  div a rhs = fill (λ i. s.div (a i) (rhs i)) 0 scalar_count garbage

  unfoldable pub modulo : Simd A → Simd A → Option (Simd A)
  modulo a rhs = fill (λ i. s.modulo (a i) (rhs i)) 0 scalar_count garbage

  unfoldable pub bit_and : Simd A → Simd A → Option (Simd A)
  bit_and a rhs = fill (λ i. s.bit_and (a i) (rhs i)) 0 scalar_count garbage

  unfoldable pub bit_or : Simd A → Simd A → Option (Simd A)
  bit_or a rhs = fill (λ i. s.bit_or (a i) (rhs i)) 0 scalar_count garbage

  unfoldable pub bit_xor : Simd A → Simd A → Option (Simd A)
  bit_xor a rhs = fill (λ i. s.bit_xor (a i) (rhs i)) 0 scalar_count garbage

  -- The shifts take one scalar for every lane.
  unfoldable pub shift_left : Simd A → A → Option (Simd A)
  shift_left a rhs = fill (λ i. s.shift_left (a i) rhs) 0 scalar_count garbage

  unfoldable pub shift_right : Simd A → A → Option (Simd A)
  shift_right a rhs = fill (λ i. s.shift_right (a i) rhs) 0 scalar_count garbage
