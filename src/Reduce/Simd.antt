-- ===== src/Reduce/Simd.antt =====
-- include/pot/algorithms/reduce.h, `elementwise_reduce_simd`: blocks that add up registers and then
-- reduce their lanes and the elements that are left.
use parallel_operations_tool.Prelude.{
  ℕ, zero, suc, ◌+◌, ◌-◌, ◌/◌, ◌%◌, ◌^◌, ◌≡◌, ◌≢◌, max, min, leb, if◌then◌else◌, none, some, List,
  map, add_size, mul_size,
}
use parallel_operations_tool.Schedule.{Runs}
use parallel_operations_tool.Parfor.{Chunk, parfor, calls}
use parallel_operations_tool.Reduce.{reduce_from, fill, total_from}

-- What the reduction uses of `simd_forced<R, ST>`, whose operations are the compiler's: its lanes as
-- `storeu` writes them, `zeros()` and `+=`.
pub record Register (V R : Type 0) : Type 0 where
  pub zeros : V
  pub add : V → V → V
  pub storeu : V → ℕ → R

-- `block_count` and `elems_per_block`.
abbrev pub simd_block_count : ℕ → ℕ → ℕ → ℕ
simd_block_count scalar_count threads n = min (max 1 threads) (max 1 (n / scalar_count))

abbrev pub elems_per_block : ℕ → ℕ → ℕ → ℕ
elems_per_block scalar_count threads n =
    let count = simd_block_count scalar_count threads n in
    max scalar_count ((n + count - 1) % 2 ^ 64 / count)

module _ {T R U V : Type 0} (scalar_count : ℕ) (register : Register V R) (loadu : (ℕ → T) → U)
    (simd_elem_op : U → U → V) (elem_op : T → T → R) (reduce_op : R → R → R) (identity : R)
    (a b : ℕ → T) where
  -- `for (; i + scalar_count <= end; i += scalar_count)`: the `i` and the `sum` at its end, on fuel.
  unfoldable pub vector_loop : ℕ → ℕ → ℕ → V → ℕ × V
  vector_loop end zero i sum = (i, sum)
  vector_loop end (suc fuel) i sum =
      let next = add_size i scalar_count in
      let va = loadu (λ k. a (i + k)) in
      let vb = loadu (λ k. b (i + k)) in
      let rest = vector_loop end fuel next (register.add sum (simd_elem_op va vb)) in
      if leb next end then rest else (i, sum)

  -- The lanes of the register and then the elements from `i` on.
  abbrev pub scalar_loops : ℕ → ℕ × V → R
  scalar_loops end (i, sum) =
      reduce_from elem_op reduce_op identity a b
        (total_from reduce_op (register.storeu sum) identity 0 scalar_count) i (end - i)

  -- What the call for one block of `size` elements writes into its slot. Each round of the loop of
  -- registers goes on by at least one element.
  unfoldable pub simd_block_sum : ℕ → ℕ → ℕ → R
  simd_block_sum size n idx =
      let begin = mul_size idx size in
      let end = min n (add_size begin size) in
      scalar_loops end (vector_loop end (end - begin) begin register.zeros)

  -- The results that `elementwise_reduce_simd` can return on `threads` threads.
  pub data ReducesSimd (threads n : ℕ) : R → Type 0 where
    nothing : {r : R} → n ≡ 0 → r ≡ identity → ReducesSimd threads n r
    blocks :
        {r : R} (cs : List Chunk) (l : List ℕ)
        → n ≢ 0
        → parfor threads none 0 (simd_block_count scalar_count threads n) ≡ some cs
        → Runs (map calls cs) l
        → r
          ≡ total_from reduce_op
              (fill (simd_block_sum (elems_per_block scalar_count threads n) n) l (λ _. identity))
              identity
              0
              (simd_block_count scalar_count threads n)
        → ReducesSimd threads n r
