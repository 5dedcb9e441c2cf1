-- ===== src/Reduce.antt =====
-- include/pot/algorithms/reduce.h, `elementwise_reduce`: a reduction split into blocks, one call of
-- a `parfor` to a block.
pub mod Widths
pub mod Operation
pub mod Split
pub mod Blocks
pub mod Simd
pub mod Lanes
pub mod Spans
mod Tests
use parallel_operations_tool.Prelude.{
  ℕ, zero, suc, ◌+◌, ◌-◌, ◌/◌, ◌%◌, ◌^◌, ◌≡◌, ◌≢◌, max, min, Option, none, some, List, [], ◌∷◌, map,
  update, add_size, mul_size,
}
use parallel_operations_tool.Schedule.{Runs}
use parallel_operations_tool.Parfor.{Chunk, parfor, calls}

abbrev pub block_count : ℕ → ℕ
block_count threads = max 1 threads

abbrev pub block_size : ℕ → ℕ → ℕ
block_size threads n = (n + block_count threads - 1) % 2 ^ 64 / block_count threads

-- `begin` and `end` of a block of `size` elements.
abbrev pub block_begin : ℕ → ℕ → ℕ
block_begin size idx = mul_size idx size

abbrev pub block_end : ℕ → ℕ → ℕ → ℕ
block_end size n idx = min n (add_size (block_begin size idx) size)

module _ {ℓ κ} {T : Type ℓ} {R : Type κ} (elem_op : T → T → R) (reduce_op : R → R → R)
    (identity : R) (a b : ℕ → T) where
  -- `m` rounds of `sum = reduce_op(sum, elem_op(a[i], b[i]))`, from `i` on.
  unfoldable pub reduce_from : R → ℕ → ℕ → R
  reduce_from sum i zero = sum
  reduce_from sum i (suc m) = reduce_from (reduce_op sum (elem_op (a i) (b i))) (i + 1) m

  -- What the call for one block writes into its slot.
  unfoldable pub block_sum : ℕ → ℕ → ℕ → R
  block_sum size n idx =
      reduce_from identity (block_begin size idx) (block_end size n idx - block_begin size idx)

-- The calls write the slots of `partial` in the order of the schedule.
unfoldable pub fill {κ} : {R : Type κ} → (ℕ → R) → List ℕ → (ℕ → R) → ℕ → R
fill block [] partial = partial
fill block (idx ∷ l) partial = fill block l (update partial idx (block idx))

-- `for (const R &v : partial) total = reduce_op(total, v)`: `m` slots, from `idx` on.
unfoldable pub total_from {κ} : {R : Type κ} → (R → R → R) → (ℕ → R) → R → ℕ → ℕ → R
total_from reduce_op partial total idx zero = total
total_from reduce_op partial total idx (suc m) =
    total_from reduce_op partial (reduce_op total (partial idx)) (idx + 1) m

-- The results that `elementwise_reduce` can return on `threads` threads: one to each schedule.
pub data Reduces {ℓ κ} {T : Type ℓ} {R : Type κ} (elem_op : T → T → R) (reduce_op : R → R → R)
    (identity : R) (threads : ℕ) (a b : ℕ → T) (n : ℕ) : R → Type κ where
  nothing : {r : R} → n ≡ 0 → r ≡ identity → Reduces elem_op reduce_op identity threads a b n r
  blocks :
      {r : R} (cs : List Chunk) (l : List ℕ)
      → n ≢ 0
      → parfor threads none 0 (block_count threads) ≡ some cs
      → Runs (map calls cs) l
      → r
        ≡ total_from reduce_op
            (fill
              (block_sum elem_op reduce_op identity a b (block_size threads n) n)
              l
              (λ _. identity))
            identity
            0
            (block_count threads)
      → Reduces elem_op reduce_op identity threads a b n r
