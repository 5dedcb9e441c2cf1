-- ===== src/SimdAuto/Tests.antt =====
-- Vectors of four 32-bit unsigned integers.
use parallel_operations_tool.Prelude.{
  ℕ, zero, suc, ◌≤◌, ◌<◌, ◌≡◌, ◌↔◌, refl, true, false, none, some, List, [], ◌∷◌, arith, length,
  get_elem?, max, min,
}
use parallel_operations_tool.SimdAuto.{
  Simd, Scalar, fill, fold_from, max_lane, min_lane, sum, load, store, std_max, std_min,
}
use parallel_operations_tool.SimdAuto.Arith
use parallel_operations_tool.SimdAuto.Compare.{
  unless_any, equal_to, not_equal_to, less, less_equal, greater, greater_equal,
}
use parallel_operations_tool.SimdAuto.Lanewise.{operators-Lanewise, Lanewise}
use parallel_operations_tool.SimdAuto.Relations.{comparisons_lem, AllLanes}
use parallel_operations_tool.SimdAuto.Buffers.{store-load, buffer-bounds}
use parallel_operations_tool.SimdAuto.Unsigned.{Bitwise, unsigned}

abbrev no_bits : Bitwise
no_bits = record { bits_and = min; bits_or = max; bits_xor = λ a b. 0 }

abbrev u32 : Scalar ℕ
u32 = unsigned no_bits 32

abbrev lanes : List ℕ → Simd ℕ
lanes [] i = 9
lanes (x ∷ xs) zero = x
lanes (x ∷ xs) (suc i) = lanes xs i

abbrev low : Simd ℕ
low = lanes (1 ∷ 2 ∷ 3 ∷ 4 ∷ [])

abbrev high : Simd ℕ
high = lanes (5 ∷ 2 ∷ 0 ∷ 7 ∷ [])

-- Neither vector is below the other: `<` is not the negation of `>=`.
less_test : less u32 4 low high ≡ false
unfolding less unless_any
less_test = refl

greater_equal_test : greater_equal u32 4 low high ≡ false
unfolding greater_equal unless_any
greater_equal_test = refl

max_lane_test : max_lane u32 4 high ≡ 7
unfolding max_lane
max_lane_test = refl

min_lane_test : min_lane u32 4 high ≡ 0
unfolding min_lane
min_lane_test = refl

sum_test : sum u32 4 (lanes (4294967295 ∷ 2 ∷ 3 ∷ 4 ∷ [])) ≡ some 8
unfolding sum fold_from
sum_test = refl

div_test : Arith.div u32 4 high low high ≡ none
unfolding Arith.div fill
div_test = refl

operators-Lanewise_example :
    Lanewise u32 4 high u32.add (Arith.add u32 4 high)
    × Lanewise u32 4 high u32.sub (Arith.sub u32 4 high)
    × Lanewise u32 4 high u32.mul (Arith.mul u32 4 high)
    × Lanewise u32 4 high u32.div (Arith.div u32 4 high)
    × Lanewise u32 4 high u32.modulo (Arith.modulo u32 4 high)
    × Lanewise u32 4 high u32.bit_and (Arith.bit_and u32 4 high)
    × Lanewise u32 4 high u32.bit_or (Arith.bit_or u32 4 high)
    × Lanewise u32 4 high u32.bit_xor (Arith.bit_xor u32 4 high)
    × Lanewise u32 4 high (λ a b. some (std_max u32 a b)) (Arith.max_with u32 4 high)
    × Lanewise u32 4 high (λ a b. some (std_min u32 a b)) (Arith.min_with u32 4 high)
operators-Lanewise_example = operators-Lanewise u32 4 high

comparisons_lem_example :
    AllLanes u32 4 u32.ne (equal_to u32 4)
    × ((a b : Simd ℕ)
        → (not_equal_to u32 4 a b ≡ true) ↔ ((j : ℕ) × (j < 4) × (u32.ne (a j) (b j) ≡ true)))
    × AllLanes u32 4 (λ x y. u32.le y x) (less u32 4)
    × AllLanes u32 4 (λ x y. u32.lt y x) (less_equal u32 4)
    × AllLanes u32 4 (λ x y. u32.le x y) (greater u32 4)
    × AllLanes u32 4 (λ x y. u32.lt x y) (greater_equal u32 4)
comparisons_lem_example = comparisons_lem u32 4

store-load_example :
    (r : Simd ℕ) × (out : List ℕ) × (load 2 low (6 ∷ 7 ∷ 8 ∷ []) ≡ some r)
    × (store 2 r (1 ∷ 2 ∷ 3 ∷ []) ≡ some out)
    × (length out ≡ 3)
    × ((j : ℕ) → j < 2 → get_elem? out j ≡ get_elem? (6 ∷ 7 ∷ 8 ∷ []) j)
    × ((j : ℕ) → 2 ≤ j → get_elem? out j ≡ get_elem? (1 ∷ 2 ∷ 3 ∷ []) j)
store-load_example = store-load 2 low (6 ∷ 7 ∷ 8 ∷ []) (1 ∷ 2 ∷ 3 ∷ []) (omega arith) (omega arith)

buffer-bounds_example :
    ((load 4 low (6 ∷ 7 ∷ []) ≡ none) ↔ (2 < 4)) × ((store 4 low (6 ∷ 7 ∷ []) ≡ none) ↔ (2 < 4))
buffer-bounds_example = buffer-bounds 4 low (6 ∷ 7 ∷ [])
