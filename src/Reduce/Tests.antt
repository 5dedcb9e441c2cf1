-- ===== src/Reduce/Tests.antt =====
-- The reductions at concrete inputs.
use native.Mathlib.Nat.{add_assoc, add_comm, add-zero}
use parallel_operations_tool.Prelude.{
  ℕ, zero, suc, ◌+◌, ◌*◌, ◌≡◌, ◌<◌, ◌↔◌, refl, none, some, [], ◌∷◌, arith,
}
use parallel_operations_tool.Schedule.{next, ended, here, there}
use parallel_operations_tool.Parfor.{parfor, chunk_size, num_chunks, chunks}
use parallel_operations_tool.Reduce.{Reduces, blocks, fill, block_sum, total_from, reduce_from}
use parallel_operations_tool.Reduce.Blocks.{reduce_correct}
use parallel_operations_tool.Reduce.Simd.{Register, ReducesSimd, simd_block_sum, vector_loop}
use parallel_operations_tool.Reduce.Simd
use parallel_operations_tool.Reduce.Operation.{Monoid, Lanewise}
use parallel_operations_tool.Reduce.Lanes.{reduce_simd_correct}

-- The dot product of 1, 2, 3, 4, 5 and 10, 11, 12, 13, 14 in two blocks of three.
abbrev left : ℕ → ℕ
left i = i + 1

abbrev right : ℕ → ℕ
right i = i + 10

two_blocks : parfor 2 none 0 2 ≡ some ((0, 1) ∷ (1, 2) ∷ [])
unfolding parfor chunk_size num_chunks chunks
two_blocks = refl

-- The second block is summed first.
backwards : Reduces ◌*◌ ◌+◌ 0 2 left right 5 190
unfolding fill block_sum total_from reduce_from
backwards =
    blocks ((0, 1) ∷ (1, 2) ∷ []) (1 ∷ 0 ∷ []) (omega arith) two_blocks
      (next (there here) (next here (ended refl))) refl

forwards : Reduces ◌*◌ ◌+◌ 0 2 left right 5 190
unfolding fill block_sum total_from reduce_from
forwards =
    blocks ((0, 1) ∷ (1, 2) ∷ []) (0 ∷ 1 ∷ []) (omega arith) two_blocks
      (next here (next (there here) (ended refl))) refl

reduce_correct_example :
    Reduces ◌*◌ ◌+◌ 0 2 left right 5 190 ↔ (190 ≡ reduce_from ◌*◌ ◌+◌ 0 left right 0 0 5)
reduce_correct_example =
    reduce_correct ◌*◌ ◌+◌ 0 left right (λ x y z. add_assoc x y z) (λ x. add-zero x) 2 5 190
      (omega arith) (omega arith) (omega arith)

-- Registers of two numbers.
abbrev pairs : Register (ℕ × ℕ) ℕ
pairs = record {
  zeros = (0, 0);
  add = λ x y. (x.0 + y.0, x.1 + y.1);
  storeu = λ x k. elim k [ zero ↦ x.0 | suc k ↦ x.1 ];
}

abbrev load_pair : (ℕ → ℕ) → ℕ × ℕ
load_pair p = (p 0, p 1)

abbrev times : ℕ × ℕ → ℕ × ℕ → ℕ × ℕ
times x y = (x.0 * y.0, x.1 * y.1)

add-Monoid : Monoid ◌+◌ 0
add-Monoid = record {
  assoc = λ x y z. add_assoc x y z;
  comm = λ x y. add_comm x y;
  identity_right = λ x. add-zero x;
}

pairs-Lanewise : Lanewise 2 pairs load_pair times ◌*◌ ◌+◌ 0
pairs-Lanewise = record { zeros_lane = zeros_at; add_lane = add_at; elem_lane = elem_at }
  where
    zeros_at : (k : ℕ) → k < 2 → pairs.storeu pairs.zeros k ≡ 0
    zeros_at zero l = refl
    zeros_at (suc k) l = refl

    add_at :
        (x y : ℕ × ℕ) (k : ℕ)
        → k < 2
        → pairs.storeu (pairs.add x y) k ≡ pairs.storeu x k + pairs.storeu y k
    add_at x y zero l = refl
    add_at x y (suc k) l = refl

    elem_at :
        (p q : ℕ → ℕ) (k : ℕ)
        → k < 2
        → pairs.storeu (times (load_pair p) (load_pair q)) k ≡ p k * q k
    elem_at p q zero l = refl
    elem_at p q (suc zero) l = refl
    elem_at p q (suc (suc k)) l = absurd (omega arith)

one_chunk : parfor 1 none 0 1 ≡ some ((0, 1) ∷ [])
unfolding parfor chunk_size num_chunks chunks
one_chunk = refl

-- Three elements on one thread: one register and one element that is left.
one_block : ReducesSimd 2 pairs load_pair times ◌*◌ ◌+◌ 0 left right 1 3 68
unfolding simd_block_sum vector_loop fill total_from reduce_from
one_block = Simd.blocks ((0, 1) ∷ []) (0 ∷ []) (omega arith) one_chunk (next here (ended refl)) refl

reduce_simd_correct_example : ◌≡◌ {A = ℕ} 68 (reduce_from ◌*◌ ◌+◌ 0 left right 0 0 3)
reduce_simd_correct_example =
    reduce_simd_correct 2 pairs load_pair times ◌*◌ ◌+◌ 0 left right add-Monoid pairs-Lanewise
      (omega arith) (omega arith) 1 3 (omega arith) (omega arith) one_block

-- A product of the sums of pairs: the lanes start at zero and are added up, whatever the reduction
-- is. Here 1 * 10, of an array of one element, comes out as 0.
product_test : simd_block_sum 2 pairs load_pair times ◌*◌ ◌*◌ 1 left right 2 1 0 ≡ 0
unfolding simd_block_sum vector_loop total_from reduce_from
product_test = refl
