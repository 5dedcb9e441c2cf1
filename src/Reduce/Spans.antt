-- ===== src/Reduce/Spans.antt =====
-- include/pot/algorithms/reduce.h: the overloads of `elementwise_reduce` and `elementwise_reduce_simd`
-- for spans and vectors, which compare the sizes first.
use parallel_operations_tool.Prelude.{
  ℕ, zero, suc, ◌+◌, ◌^◌, ◌<◌, ◌≡◌, ◌≢◌, refl, ◌∙◌, ap, Option, none, some, List, [], ◌∷◌, length,
  arith, ◌==◌, if◌then◌else◌,
}
use parallel_operations_tool.Reduce.{reduce_from, Reduces}
use parallel_operations_tool.Reduce.Blocks.{Reduces-sequential}
use parallel_operations_tool.Reduce.Simd.{Register, ReducesSimd}
use parallel_operations_tool.Reduce.Operation.{Monoid, Lanewise}
use parallel_operations_tool.Reduce.Lanes.{reduce_simd_correct}

-- What `data()` points to, with any values outside.
abbrev pub elements : {T : Type 0} → T → List T → ℕ → T
elements outside [] i = outside
elements outside (x ∷ xs) zero = x
elements outside (x ∷ xs) (suc i) = elements outside xs i

module _ {T R : Type 0} (elem_op : T → T → R) (reduce_op : R → R → R) (identity : R)
    (outside : T) where
  -- `none` is the exception for sizes that differ.
  pub data ReducesSpans (threads : ℕ) (a b : List T) : Option R → Type 0 where
    throws : length a ≢ length b → ReducesSpans threads a b none
    reduces :
        (r : R)
        → length a ≡ length b
        → Reduces elem_op reduce_op identity threads
            (elements outside a)
            (elements outside b)
            (length a)
            r
        → ReducesSpans threads a b (some r)

  -- The reduction of the pairs of elements, from left to right.
  abbrev pub reduce_pairs : R → List T → List T → R
  reduce_pairs acc (x ∷ xs) (y ∷ ys) = reduce_pairs (reduce_op acc (elem_op x y)) xs ys
  reduce_pairs acc xs ys = acc

  reduce_from-pairs :
      (a b : ℕ → T) (xs ys : List T) (acc : R) (i : ℕ)
      → length xs ≡ length ys
      → ((j : ℕ) → j < length xs → a (i + j) ≡ elements outside xs j)
      → ((j : ℕ) → j < length ys → b (i + j) ≡ elements outside ys j)
      → reduce_from elem_op reduce_op identity a b acc i (length xs) ≡ reduce_pairs acc xs ys
  unfolding reduce_from
  reduce_from-pairs a b [] [] acc i e ha hb = refl
  reduce_from-pairs a b [] (y ∷ ys) acc i e ha hb = absurd (omega arith)
  reduce_from-pairs a b (x ∷ xs) [] acc i e ha hb = absurd (omega arith)
  reduce_from-pairs a b (x ∷ xs) (y ∷ ys) acc i e ha hb =
      let first_a : a i ≡ x = ap a (omega arith) ∙ ha 0 (omega arith) in
      let first_b : b i ≡ y = ap b (omega arith) ∙ hb 0 (omega arith) in
      rw (← first_a, ← first_b)
        (reduce_from-pairs a b xs ys (reduce_op acc (elem_op (a i) (b i))) (i + 1) (omega arith)
          (λ j l. ap a (omega arith) ∙ ha (suc j) (omega arith))
          (λ j l. ap b (omega arith) ∙ hb (suc j) (omega arith)))

  -- With an associative operation and its right identity the overloads for spans and vectors throw
  -- when the sizes differ, and otherwise return the reduction of the pairs of elements from left to
  -- right, whatever the schedule; what lies behind the elements does not matter.
  spans_correct :
      ((x y z : R) → reduce_op (reduce_op x y) z ≡ reduce_op x (reduce_op y z))
      → ((x : R) → reduce_op x identity ≡ x)
      → (threads : ℕ) (a b : List T) {o : Option R} → threads < 2 ^ 62
      → length a < 2 ^ 62
      → ReducesSpans threads a b o
      → o ≡ (if length a == length b then some (reduce_pairs identity a b) else none)
  spans_correct assoc identity_right threads a b ht hn (throws ne) = ground arith
  spans_correct assoc identity_right threads a b ht hn (reduces r e runs) =
      let whole : r ≡ reduce_pairs identity a b =
        Reduces-sequential elem_op reduce_op identity _ _ assoc identity_right threads (length a) ht
          hn runs
        ∙ reduce_from-pairs _ _ a b identity 0 e (λ j l. ap (elements outside a) (omega arith))
            (λ j l. ap (elements outside b) (omega arith)) in
      ground arith

module _ {T R U V : Type 0} (scalar_count : ℕ) (register : Register V R) (loadu : (ℕ → T) → U)
    (simd_elem_op : U → U → V) (elem_op : T → T → R) (reduce_op : R → R → R) (identity : R)
    (outside : T) where
  -- The overloads of `elementwise_reduce_simd`; `none` is their exception.
  pub data ReducesSpansSimd (threads : ℕ) (a b : List T) : Option R → Type 0 where
    sizes_differ : length a ≢ length b → ReducesSpansSimd threads a b none
    sizes_equal :
        (r : R)
        → length a ≡ length b
        → ReducesSimd scalar_count register loadu simd_elem_op elem_op reduce_op identity
            (elements outside a)
            (elements outside b)
            threads
            (length a)
            r
        → ReducesSpansSimd threads a b (some r)

  -- With an associative and commutative operation that the registers compute in their lanes, with its
  -- identity, the overloads with registers throw when the sizes differ, and otherwise return the
  -- reduction of the pairs of elements from left to right, as the overloads without registers do.
  -- There are fewer than 2 ^ 62 threads and elements and fewer than 2 ^ 61 lanes.
  simd_spans_correct :
      Monoid reduce_op identity
      → Lanewise scalar_count register loadu simd_elem_op elem_op reduce_op identity
      → 0 < scalar_count
      → scalar_count < 2 ^ 61
      → (threads : ℕ) (a b : List T) {o : Option R} → threads < 2 ^ 62
      → length a < 2 ^ 62
      → ReducesSpansSimd threads a b o
      → o ≡ (
          if length a == length b
          then some (reduce_pairs elem_op reduce_op identity outside identity a b)
          else none)
  simd_spans_correct monoid lanes pos few threads a b ht hn (sizes_differ ne) = ground arith
  simd_spans_correct monoid lanes pos few threads a b ht hn (sizes_equal r e runs) =
      let whole : r ≡ reduce_pairs elem_op reduce_op identity outside identity a b =
        reduce_simd_correct scalar_count register loadu simd_elem_op elem_op reduce_op identity _ _
          monoid lanes pos few threads (length a) ht hn runs
        ∙ reduce_from-pairs elem_op reduce_op identity outside _ _ a b identity 0 e
            (λ j l. ap (elements outside a) (omega arith))
            (λ j l. ap (elements outside b) (omega arith)) in
      ground arith
