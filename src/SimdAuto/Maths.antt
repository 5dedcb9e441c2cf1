-- ===== src/SimdAuto/Maths.antt =====
-- include/pot/simd/simd_auto.h: the functions of `<cmath>` on every lane.
use parallel_operations_tool.Prelude.{ℕ, Option, some}
use parallel_operations_tool.SimdAuto.{Simd, fill}

-- The functions of the standard library, on one scalar.
pub record Cmath (A : Type 0) : Type 0 where
  pub sqrt : A → A
  pub exp : A → A
  pub log : A → A
  pub log2 : A → A
  pub log10 : A → A
  pub sin : A → A
  pub cos : A → A
  pub tan : A → A
  pub asin : A → A
  pub acos : A → A
  pub atan : A → A
  pub sinh : A → A
  pub cosh : A → A
  pub tanh : A → A
  pub asinh : A → A
  pub acosh : A → A
  pub atanh : A → A
  pub ceil : A → A
  pub floor : A → A
  pub trunc : A → A
  pub round : A → A

module _ {A : Type 0} (std : Cmath A) (scalar_count : ℕ) (garbage : Simd A) where
  unfoldable pub sqrt : Simd A → Option (Simd A)
  sqrt a = fill (λ i. some (std.sqrt (a i))) 0 scalar_count garbage

  unfoldable pub exp : Simd A → Option (Simd A)
  exp a = fill (λ i. some (std.exp (a i))) 0 scalar_count garbage

  unfoldable pub log : Simd A → Option (Simd A)
  log a = fill (λ i. some (std.log (a i))) 0 scalar_count garbage

  unfoldable pub log2 : Simd A → Option (Simd A)
  log2 a = fill (λ i. some (std.log2 (a i))) 0 scalar_count garbage

  unfoldable pub log10 : Simd A → Option (Simd A)
  log10 a = fill (λ i. some (std.log10 (a i))) 0 scalar_count garbage

  unfoldable pub sin : Simd A → Option (Simd A)
  sin a = fill (λ i. some (std.sin (a i))) 0 scalar_count garbage

  unfoldable pub cos : Simd A → Option (Simd A)
  cos a = fill (λ i. some (std.cos (a i))) 0 scalar_count garbage

  unfoldable pub tan : Simd A → Option (Simd A)
  tan a = fill (λ i. some (std.tan (a i))) 0 scalar_count garbage

  unfoldable pub asin : Simd A → Option (Simd A)
  asin a = fill (λ i. some (std.asin (a i))) 0 scalar_count garbage

  unfoldable pub acos : Simd A → Option (Simd A)
  acos a = fill (λ i. some (std.acos (a i))) 0 scalar_count garbage

  unfoldable pub atan : Simd A → Option (Simd A)
  atan a = fill (λ i. some (std.atan (a i))) 0 scalar_count garbage

  unfoldable pub sinh : Simd A → Option (Simd A)
  sinh a = fill (λ i. some (std.sinh (a i))) 0 scalar_count garbage

  unfoldable pub cosh : Simd A → Option (Simd A)
  cosh a = fill (λ i. some (std.cosh (a i))) 0 scalar_count garbage

  unfoldable pub tanh : Simd A → Option (Simd A)
  tanh a = fill (λ i. some (std.tanh (a i))) 0 scalar_count garbage

  unfoldable pub asinh : Simd A → Option (Simd A)
  asinh a = fill (λ i. some (std.asinh (a i))) 0 scalar_count garbage

  unfoldable pub acosh : Simd A → Option (Simd A)
  acosh a = fill (λ i. some (std.acosh (a i))) 0 scalar_count garbage

  unfoldable pub atanh : Simd A → Option (Simd A)
  atanh a = fill (λ i. some (std.atanh (a i))) 0 scalar_count garbage

  unfoldable pub ceil : Simd A → Option (Simd A)
  ceil a = fill (λ i. some (std.ceil (a i))) 0 scalar_count garbage

  unfoldable pub floor : Simd A → Option (Simd A)
  floor a = fill (λ i. some (std.floor (a i))) 0 scalar_count garbage

  unfoldable pub trunc : Simd A → Option (Simd A)
  trunc a = fill (λ i. some (std.trunc (a i))) 0 scalar_count garbage

  unfoldable pub round : Simd A → Option (Simd A)
  round a = fill (λ i. some (std.round (a i))) 0 scalar_count garbage
