-- ===== src/Reduce/Blocks.antt =====
-- The blocks add up to the sequential reduction, and the schedule does not matter.
use native.Mathlib.Nat.{lt-mul-div-succ, div-mul-le_self}
use parallel_operations_tool.Prelude.{
  ℕ, zero, suc, ◌+◌, ◌-◌, ◌*◌, ◌%◌, ◌^◌, ◌≤◌, ◌<◌, ◌≡◌, refl, ◌∙◌, sym, subst, ◌↔◌, map, arith,
  add_size,
}
use parallel_operations_tool.Schedule.{Runs-flatten, flatten}
use parallel_operations_tool.Parfor.{calls}
use parallel_operations_tool.Parfor.Cover.{parfor_total}
use parallel_operations_tool.Reduce.Split.{fill-total, part, reduce_from-none, blocks_total}
use parallel_operations_tool.Reduce.{
  block_count, block_size, block_begin, reduce_from, block_sum, Reduces, nothing, blocks,
}

-- The size of a block: enough for all elements, and no bound of a block wraps.
record Sized (threads n size : ℕ) : Type 0 where
  enough : n ≤ block_count threads * size
  little : block_count threads * size < n + block_count threads

block_size-Sized :
    (threads n : ℕ) → threads < 2 ^ 62 → n < 2 ^ 62 → Sized threads n (block_size threads n)
block_size-Sized threads n ht hn =
    let w : (n + block_count threads - 1) % 2 ^ 64 ≡ n + block_count threads - 1 = omega arith in
    rw w (record {
      enough = omega (
        arith,
        lt-mul-div-succ (n + block_count threads - 1) {b = block_count threads} (omega arith),
      );
      little = omega (arith, div-mul-le_self (n + block_count threads - 1) (block_count threads));
    })

block-step : (c size idx : ℕ) → idx < c → idx * size + size ≤ c * size
block-step c size idx h = grind arith

module _ {T R : Type 0} (elem_op : T → T → R) (reduce_op : R → R → R) (identity : R)
    (a b : ℕ → T) where
  abbrev block : ℕ → ℕ → ℕ → R
  block threads n = block_sum elem_op reduce_op identity a b (block_size threads n) n

  -- The result does not depend on the schedule, whatever the operations are: the slots are added
  -- in the order of the blocks.
  pub reduce_deterministic :
      (threads n : ℕ) {r r' : R}
      → threads < 2 ^ 62
      → Reduces elem_op reduce_op identity threads a b n r
      → Reduces elem_op reduce_op identity threads a b n r'
      → r ≡ r'
  reduce_deterministic threads n small (nothing z e) (nothing z' e') = e ∙ sym e'
  reduce_deterministic threads n small (nothing z e) (blocks cs l nz h runs e') = absurd (nz z)
  reduce_deterministic threads n small (blocks cs l nz h runs e) (nothing z' e') = absurd (nz z')
  reduce_deterministic threads n small (blocks cs l nz h runs e) (blocks cs' l' nz' h' runs' e') =
      e
      ∙ fill-total reduce_op identity (block threads n) threads (block_count threads) (omega arith)
          h runs
      ∙ sym (
          fill-total reduce_op identity (block threads n) threads (block_count threads)
            (omega arith) h' runs')
      ∙ sym e'

  -- With a thread to run on, the reduction returns.
  reduce_total :
      (threads n : ℕ)
      → 0 < threads
      → threads < 2 ^ 62
      → (r : R) × Reduces elem_op reduce_op identity threads a b n r
  reduce_total threads zero pos small = (identity, nothing refl refl)
  reduce_total threads (suc n) pos small =
      let (cs, e, few) =
        parfor_total threads 0 (block_count threads) pos (omega arith) (omega arith) in
      (_, blocks cs (flatten (map calls cs)) (omega arith) e (Runs-flatten (map calls cs)) refl)

  module _ (assoc : (x y z : R) → reduce_op (reduce_op x y) z ≡ reduce_op x (reduce_op y z))
      (identity_right : (x : R) → reduce_op x identity ≡ x) where
    abbrev from : R → ℕ → ℕ → R
    from = reduce_from elem_op reduce_op identity a b

    -- No bound of a block wraps.
    block-part :
        (threads n idx : ℕ)
        → threads < 2 ^ 62
        → n < 2 ^ 62
        → idx < block_count threads
        → block threads n idx
          ≡ part elem_op reduce_op identity a b assoc identity_right (block_size threads n) n idx
    unfolding block_sum
    block-part threads n idx ht hn h = rw (begins, ends) refl
      where
        size : ℕ
        size = block_size threads n

        below : idx * size + size < 2 ^ 63
        below = omega (
          arith,
          (block_size-Sized threads n ht hn).little,
          block-step (block_count threads) size idx h,
        )

        begins : block_begin size idx ≡ idx * size
        begins = omega (arith, below)

        ends : add_size (idx * size) size ≡ idx * size + size
        ends = omega (arith, below)

    -- What is returned is the sequential reduction, under every schedule.
    pub Reduces-sequential :
        (threads n : ℕ) {r : R}
        → threads < 2 ^ 62
        → n < 2 ^ 62
        → Reduces elem_op reduce_op identity threads a b n r
        → r ≡ from identity 0 n
    Reduces-sequential threads n ht hn (nothing z e) =
        e
        ∙ sym (reduce_from-none elem_op reduce_op identity a b assoc identity_right identity 0 n z)
    Reduces-sequential threads n ht hn (blocks cs l nz h runs e) =
        e
        ∙ fill-total reduce_op identity (block threads n) threads (block_count threads)
            (omega arith) h runs
        ∙ blocks_total elem_op reduce_op identity a b assoc identity_right (block_size threads n) n
            (block_count threads) (block threads n) (λ j lt. block-part threads n j ht hn lt)
            (block_size-Sized threads n ht hn).enough

    -- With an associative operation and its right identity, on at least one thread and fewer than
    -- 2 ^ 62, the sequential reduction of the fewer than 2 ^ 62 elements is a result, and the only one
    -- under all schedules.
    pub reduce_correct :
        (threads n : ℕ) (r : R)
        → 0 < threads
        → threads < 2 ^ 62
        → n < 2 ^ 62
        → Reduces elem_op reduce_op identity threads a b n r ↔ (r ≡ from identity 0 n)
    reduce_correct threads n r pos ht hn = (
      Reduces-sequential threads n ht hn,
      λ e.
          let (r', run) = reduce_total threads n pos ht in
          subst (Reduces elem_op reduce_op identity threads a b n)
            (Reduces-sequential threads n ht hn run ∙ sym e) run,
    )
