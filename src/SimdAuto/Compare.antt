-- ===== src/SimdAuto/Compare.antt =====
-- include/pot/simd/simd_auto.h: the comparison operators, which return at the first lane that fails.
use parallel_operations_tool.Prelude.{ℕ, zero, suc, ◌+◌, Bool, true, false, not, if◌then◌else◌}
use parallel_operations_tool.SimdAuto.{Scalar, Simd}

-- `for (...) if (fails(i)) return false;` then `return true;`, from `i` on, with `rounds` left.
unfoldable pub unless_any : (ℕ → Bool) → ℕ → ℕ → Bool
unless_any fails i zero = true
unless_any fails i (suc rounds) = if fails i then false else unless_any fails (i + 1) rounds

module _ {A : Type 0} (s : Scalar A) (scalar_count : ℕ) where
  unfoldable pub equal_to : Simd A → Simd A → Bool
  equal_to a rhs = unless_any (λ i. s.ne (a i) (rhs i)) 0 scalar_count

  unfoldable pub not_equal_to : Simd A → Simd A → Bool
  not_equal_to a rhs = not (equal_to a rhs)

  -- `m_value[i] >= rhs.m_value[i]` fails `<`, and so on.
  unfoldable pub less : Simd A → Simd A → Bool
  less a rhs = unless_any (λ i. s.le (rhs i) (a i)) 0 scalar_count

  unfoldable pub less_equal : Simd A → Simd A → Bool
  less_equal a rhs = unless_any (λ i. s.lt (rhs i) (a i)) 0 scalar_count

  unfoldable pub greater : Simd A → Simd A → Bool
  greater a rhs = unless_any (λ i. s.le (a i) (rhs i)) 0 scalar_count

  unfoldable pub greater_equal : Simd A → Simd A → Bool
  greater_equal a rhs = unless_any (λ i. s.lt (a i) (rhs i)) 0 scalar_count
