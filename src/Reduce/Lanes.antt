-- ===== src/Reduce/Lanes.antt =====
-- The reduction with registers is the sequential one, for an operation that the registers add with.
use native.Mathlib.Nat.{lt-mul-div-succ, div-mul-le_self}
use parallel_operations_tool.Prelude.{
  ℕ, zero, suc, ◌+◌, ◌-◌, ◌*◌, ◌/◌, ◌%◌, ◌^◌, ◌≤◌, ◌<◌, ◌≡◌, max, min, refl, ◌∙◌, sym, ap, inl, inr,
  true, Bool-cases, map, arith, leb, leb→le, add_size, mul_size,
}
use parallel_operations_tool.Schedule.{flatten, Runs-flatten}
use parallel_operations_tool.Parfor.{calls}
use parallel_operations_tool.Parfor.Cover.{parfor_total}
use parallel_operations_tool.Reduce.{reduce_from, total_from}
use parallel_operations_tool.Reduce.Split.{
  fill-total, part, reduce_from-none, blocks_total, reduce_from-append, join_parts, total_from-ext,
}
use parallel_operations_tool.Reduce.Simd.{
  Register, simd_block_count, elems_per_block, vector_loop, scalar_loops, simd_block_sum,
  ReducesSimd, nothing, blocks,
}
use parallel_operations_tool.Reduce.Operation.{Monoid, Lanewise, total-op, total-identity}
use parallel_operations_tool.Reduce.Widths.{block-step, mul-max-lt, le-mul-max, count-widths}

module _ {T R U V : Type 0} (scalar_count : ℕ) (register : Register V R) (loadu : (ℕ → T) → U)
    (simd_elem_op : U → U → V) (elem_op : T → T → R) (op : R → R → R) (identity : R) (a b : ℕ → T)
    (monoid : Monoid op identity)
    (lanes : Lanewise scalar_count register loadu simd_elem_op elem_op op identity)
    (pos : 0 < scalar_count) (few : scalar_count < 2 ^ 61) where
  abbrev from : R → ℕ → ℕ → R
  from = reduce_from elem_op op identity a b

  -- The lanes of a register, reduced.
  abbrev total : V → R
  total v = total_from op (register.storeu v) identity 0 scalar_count

  abbrev loaded : ℕ → V
  loaded i = simd_elem_op (loadu (λ k. a (i + k))) (loadu (λ k. b (i + k)))

  total-zeros : total register.zeros ≡ identity
  total-zeros =
      total_from-ext op _ (λ k. identity) identity 0 scalar_count
        (λ k _ l. lanes.zeros_lane k (omega arith))
      ∙ total-identity op identity monoid identity 0 scalar_count

  total-elems :
      (i k m : ℕ) (r : R)
      → total_from op (λ k. elem_op (a (i + k)) (b (i + k))) r k m ≡ from r (i + k) m
  unfolding total_from reduce_from
  total-elems i k zero r = refl
  total-elems i k (suc m) r =
      let e : i + (k + 1) ≡ i + k + 1 = omega arith in
      total-elems i (k + 1) m (op r (elem_op (a (i + k)) (b (i + k))))
      ∙ ap (λ j. from (op r (elem_op (a (i + k)) (b (i + k)))) j m) e

  total-add :
      (v : V) (i : ℕ)
      → total (register.add v (loaded i)) ≡ op (total v) (from identity i scalar_count)
  total-add v i =
      total_from-ext op _ (λ k. op (register.storeu v k) (elem_op (a (i + k)) (b (i + k)))) identity
        0 scalar_count
        (λ k _ l.
          lanes.add_lane v (loaded i) k (omega arith)
          ∙ ap (op (register.storeu v k)) (lanes.elem_lane _ _ k (omega arith)))
      ∙ ap
          (λ r.
            total_from op (λ k. op (register.storeu v k) (elem_op (a (i + k)) (b (i + k)))) r 0
              scalar_count)
          (sym (monoid.identity_right identity))
      ∙ total-op op identity monoid (register.storeu v) _ identity identity 0 scalar_count
      ∙ ap (op (total v)) (
          total-elems i 0 scalar_count identity
          ∙ ap (λ j. from identity j scalar_count) (omega arith))

  abbrev loop : ℕ → ℕ → ℕ → V → ℕ × V
  loop = vector_loop scalar_count register loadu simd_elem_op elem_op op identity a b

  -- What the loop of registers leaves, from `begin` to `i`.
  record Added (begin end : ℕ) (r : ℕ × V) : Type 0 where
    from_begin : begin ≤ r.0
    ends : r.0 ≤ max begin end
    added : total r.1 ≡ from identity begin (r.0 - begin)

  loop-Added :
      (begin end fuel i : ℕ) (v : V)
      → begin < 2 ^ 63
      → end < 2 ^ 63
      → Added begin end (i, v)
      → Added begin end (loop end fuel i v)
  unfolding vector_loop
  loop-Added begin end zero i v low small inv = inv
  loop-Added begin end (suc fuel) i v low small inv =
      elim (Bool-cases (leb (add_size i scalar_count) end)) [
        | inl e ↦ rw e (loop-Added begin end fuel (add_size i scalar_count) _ low small (round e))
        | inr e ↦ rw e inv
      ]
    where
      round :
          leb (add_size i scalar_count) end ≡ true
          → Added begin end (add_size i scalar_count, register.add v (loaded i))
      round e =
          let next : add_size i scalar_count ≡ i + scalar_count = omega (arith, inv.ends) in
          record {
            from_begin = omega (arith, inv.from_begin, next);
            ends = omega (arith, next, leb→le _ _ e);
            added =
                total-add v i
                ∙ ap (λ r. op r (from identity i scalar_count)) inv.added
                ∙ join_parts elem_op op identity a b monoid.assoc monoid.identity_right identity
                    begin (i - begin) i scalar_count _ (omega (arith, inv.from_begin))
                    (omega (arith, next, inv.from_begin));
          }

  -- A block's loops compute the reduction of its part.
  simd_block-part :
      (size n idx : ℕ)
      → idx * size + size < 2 ^ 63
      → simd_block_sum scalar_count register loadu simd_elem_op elem_op op identity a b size n idx
        ≡ part elem_op op identity a b monoid.assoc monoid.identity_right size n idx
  unfolding simd_block_sum
  simd_block-part size n idx below = rw (begins, ends) rest
    where
      begins : mul_size idx size ≡ idx * size
      begins = omega (arith, below)

      ends : add_size (idx * size) size ≡ idx * size + size
      ends = omega (arith, below)

      begin : ℕ
      begin = idx * size

      end : ℕ
      end = min n (idx * size + size)

      final : Added begin end (loop end (end - begin) begin register.zeros)
      final =
          loop-Added begin end (end - begin) begin register.zeros (omega arith) (omega arith)
            record {
              from_begin = omega arith;
              ends = omega arith;
              added =
                  total-zeros
                  ∙ sym (
                      reduce_from-none elem_op op identity a b monoid.assoc monoid.identity_right
                        identity begin (begin - begin) (omega arith));
            }

      rest :
          scalar_loops scalar_count register loadu simd_elem_op elem_op op identity a b end
            (loop end (end - begin) begin register.zeros)
          ≡ from identity begin (end - begin)
      rest =
          let r = loop end (end - begin) begin register.zeros in
          ap (λ s. from s (r.0) (end - r.0)) final.added
          ∙ reduce_from-append elem_op op identity a b monoid.assoc monoid.identity_right identity
              begin (r.0 - begin) (r.0) (end - r.0) (end - begin) (omega (arith, final.from_begin))
              (omega (arith, final.from_begin, final.ends))

  abbrev count : ℕ → ℕ → ℕ
  count = simd_block_count scalar_count

  abbrev size : ℕ → ℕ → ℕ
  size = elems_per_block scalar_count

  -- The blocks are enough for all elements, and no bound of a block wraps.
  record Sized (threads n : ℕ) : Type 0 where
    enough : n ≤ count threads n * size threads n
    little : count threads n * size threads n < 2 ^ 63

  size-Sized : (threads n : ℕ) → threads < 2 ^ 62 → n < 2 ^ 62 → Sized threads n
  size-Sized threads n ht hn =
      let c = count threads n in
      let w : (n + c - 1) % 2 ^ 64 ≡ n + c - 1 = omega arith in
      let s : size threads n ≡ max scalar_count ((n + c - 1) / c) =
        ap (λ k. max scalar_count (k / c)) w in
      let widths : c * scalar_count ≤ max scalar_count n = count-widths scalar_count threads n in
      let rounded = div-mul-le_self (n + c - 1) c in
      record {
        enough = rw s (
            le-mul-max n c scalar_count ((n + c - 1) / c)
              (omega (arith, lt-mul-div-succ (n + c - 1) {b = c} (omega arith))));
        little = rw s (
            mul-max-lt (2 ^ 63) c scalar_count ((n + c - 1) / c) (omega (arith, widths))
              (omega (arith, rounded)));
      }

  -- For an associative and commutative operation with its identity that the registers compute in
  -- their lanes, every schedule on any number of threads returns the sequential reduction of the
  -- `n` elements.
  pub reduce_simd_correct :
      (threads n : ℕ) {r : R}
      → threads < 2 ^ 62
      → n < 2 ^ 62
      → ReducesSimd scalar_count register loadu simd_elem_op elem_op op identity a b threads n r
      → r ≡ from identity 0 n
  reduce_simd_correct threads n ht hn (nothing z e) =
      e
      ∙ sym (
          reduce_from-none elem_op op identity a b monoid.assoc monoid.identity_right identity 0 n
            z)
  reduce_simd_correct threads n ht hn (blocks cs l nz h runs e) =
      e
      ∙ fill-total op identity _ threads (count threads n) (omega arith) h runs
      ∙ blocks_total elem_op op identity a b monoid.assoc monoid.identity_right (size threads n) n
          (count threads n) _
          (λ j lt.
            simd_block-part (size threads n) n j
              (omega (arith, sized.little, block-step (count threads n) (size threads n) j lt)))
          sized.enough
    where
      sized : Sized threads n
      sized = size-Sized threads n ht hn

  -- With a thread to run on, the reduction with registers returns.
  pub reduce_simd_total :
      (threads n : ℕ)
      → 0 < threads
      → threads < 2 ^ 62
      → (r : R) × ReducesSimd scalar_count register loadu simd_elem_op elem_op op identity a b
          threads n r
  reduce_simd_total threads zero some_thread small = (identity, nothing refl refl)
  reduce_simd_total threads (suc n) some_thread small =
      let (cs, e, _) =
        parfor_total threads 0 (count threads (suc n)) some_thread (omega arith) (omega arith) in
      (_, blocks cs (flatten (map calls cs)) (omega arith) e (Runs-flatten (map calls cs)) refl)
