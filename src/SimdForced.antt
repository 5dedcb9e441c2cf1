-- ===== src/SimdForced.antt =====
-- include/pot/simd/simd_traits.h: the functions that compute one scalar out of a register by several
-- intrinsics, `max_scalar` and the `min` of one register, for SSE. The intrinsics are the compiler's,
-- and a parameter here.
pub mod Extrema
mod Tests
use parallel_operations_tool.Prelude.{ℕ}

-- `_mm_shuffle_ps(a, b, _MM_SHUFFLE(z, y, x, w))`, with the four lane numbers as arguments,
-- `_mm_shuffle_pd(a, b, _MM_SHUFFLE2(x, w))` and `_mm_shuffle_epi32(a, _MM_SHUFFLE(z, y, x, w))`;
-- the maximum and minimum of each pair of lanes; and the lowest lane.
pub record Ps (V A : Type 0) : Type 0 where
  pub shuffle_ps : V → V → ℕ → ℕ → ℕ → ℕ → V
  pub max_ps : V → V → V
  pub min_ps : V → V → V
  pub cvtss_f32 : V → A

pub record Pd (V A : Type 0) : Type 0 where
  pub shuffle_pd : V → V → ℕ → ℕ → V
  pub max_pd : V → V → V
  pub min_pd : V → V → V
  pub cvtsd_f64 : V → A

pub record Epi32 (V A : Type 0) : Type 0 where
  pub shuffle_epi32 : V → ℕ → ℕ → ℕ → ℕ → V
  pub max_epi32 : V → V → V
  pub min_epi32 : V → V → V
  pub cvtsi128_si32 : V → A

module _ {V A : Type 0} where
  -- The three branches of `max_scalar`, by the type of the register.
  unfoldable pub max_scalar_ps : Ps V A → V → A
  max_scalar_ps m a =
      let max1 = m.shuffle_ps a a 2 3 0 1 in
      let max2 = m.max_ps a max1 in
      let max3 = m.shuffle_ps max2 max2 1 0 3 2 in let max4 = m.max_ps max2 max3 in m.cvtss_f32 max4

  unfoldable pub max_scalar_pd : Pd V A → V → A
  max_scalar_pd m a =
      let max1 = m.shuffle_pd a a 0 1 in let max2 = m.max_pd a max1 in m.cvtsd_f64 max2

  unfoldable pub max_scalar_epi32 : Epi32 V A → V → A
  max_scalar_epi32 m a =
      let max1 = m.shuffle_epi32 a 2 3 0 1 in
      let max2 = m.max_epi32 a max1 in
      let max3 = m.shuffle_epi32 max2 1 0 3 2 in
      let max4 = m.max_epi32 max2 max3 in m.cvtsi128_si32 max4

  -- The three branches of `min` of one register.
  unfoldable pub min_scalar_ps : Ps V A → V → A
  min_scalar_ps m a =
      let min1 = m.shuffle_ps a a 2 3 0 1 in
      let min2 = m.min_ps a min1 in
      let min3 = m.shuffle_ps min2 min2 1 0 3 2 in let min4 = m.min_ps min2 min3 in m.cvtss_f32 min4

  unfoldable pub min_scalar_pd : Pd V A → V → A
  min_scalar_pd m a =
      let min1 = m.shuffle_pd a a 0 1 in let min2 = m.min_pd a min1 in m.cvtsd_f64 min2

  unfoldable pub min_scalar_epi32 : Epi32 V A → V → A
  min_scalar_epi32 m a =
      let min1 = m.shuffle_epi32 a 2 3 0 1 in
      let min2 = m.min_epi32 a min1 in
      let min3 = m.shuffle_epi32 min2 1 0 3 2 in
      let min4 = m.min_epi32 min2 min3 in m.cvtsi128_si32 min4
