-- ===== src/Reduce/Widths.antt =====
-- Bounds on the blocks of the reduction with registers.
use native.Mathlib.Nat.{div-mul-le_self}
use parallel_operations_tool.Prelude.{ℕ, ◌+◌, ◌*◌, ◌/◌, ◌≤◌, ◌<◌, ◌≡◌, max, arith, dec_lt}
use parallel_operations_tool.Reduce.Simd.{simd_block_count}

pub block-step : (c size idx : ℕ) → idx < c → idx * size + size ≤ c * size
block-step c size idx h = grind arith

pub mul-max-lt : (m c x y : ℕ) → c * x < m → c * y < m → c * max x y < m
mul-max-lt m c x y hx hy = elim (dec_lt x y) [
  | yes l ↦ let e : max x y ≡ y = omega arith in rw e hy
  | no l ↦ let e : max x y ≡ x = omega (arith, l) in rw e hx
]

pub le-mul-max : (m c x y : ℕ) → m ≤ c * y → m ≤ c * max x y
le-mul-max m c x y h = elim (dec_lt x y) [
  | yes l ↦ let e : max x y ≡ y = omega arith in rw e h
  | no l ↦ let e : max x y ≡ x = omega (arith, l) in rw e (grind arith)
]

mul_mono : (c d k : ℕ) → c ≤ d → c * k ≤ d * k
mul_mono c d k h = grind arith

pub count-widths : (sc threads n : ℕ) → simd_block_count sc threads n * sc ≤ max sc n
count-widths sc threads n =
    let c = simd_block_count sc threads n in
    elim (dec_lt 1 c) [
      | yes several ↦
          let few : c ≤ n / sc = omega arith in
          let whole = mul_mono c (n / sc) sc few in omega (arith, whole, div-mul-le_self n sc)
      | no one ↦
          let few : c ≤ 1 = omega (arith, one) in
          let whole = mul_mono c 1 sc few in omega (arith, whole)
    ]
