-- ===== src/Reduce/Operation.antt =====
-- The operation of a reduction, and what the registers do in their lanes.
use parallel_operations_tool.Prelude.{ℕ, zero, suc, ◌+◌, ◌<◌, ◌≡◌, refl, ◌∙◌, sym, ap}
use parallel_operations_tool.Reduce.{total_from}
use parallel_operations_tool.Reduce.Simd.{Register}

-- `reduce_op` is associative and commutative with the identity `identity`.
pub record Monoid {R : Type 0} (reduce_op : R → R → R) (identity : R) : Type 0 where
  pub assoc : (x y z : R) → reduce_op (reduce_op x y) z ≡ reduce_op x (reduce_op y z)
  pub comm : (x y : R) → reduce_op x y ≡ reduce_op y x
  pub identity_right : (x : R) → reduce_op x identity ≡ x

-- What the registers do in their lanes: `zeros()` and `+=` are `identity` and `reduce_op` there, and
-- the caller's operation on loaded registers is `elem_op`.
pub record Lanewise {T R U V : Type 0} (scalar_count : ℕ) (register : Register V R)
    (loadu : (ℕ → T) → U) (simd_elem_op : U → U → V) (elem_op : T → T → R) (reduce_op : R → R → R)
    (identity : R) : Type 0 where
  pub zeros_lane : (k : ℕ) → k < scalar_count → register.storeu register.zeros k ≡ identity
  pub add_lane :
      (x y : V) (k : ℕ)
      → k < scalar_count
      → register.storeu (register.add x y) k ≡ reduce_op (register.storeu x k) (register.storeu y k)
  pub elem_lane :
      (p q : ℕ → T) (k : ℕ)
      → k < scalar_count
      → register.storeu (simd_elem_op (loadu p) (loadu q)) k ≡ elem_op (p k) (q k)

module _ {R : Type 0} (op : R → R → R) (identity : R) (monoid : Monoid op identity) where
  pub interchange : (x y z w : R) → op (op x y) (op z w) ≡ op (op x z) (op y w)
  interchange x y z w =
      monoid.assoc x y (op z w)
      ∙ ap (op x)
          (sym (monoid.assoc y z w) ∙ ap (λ v. op v w) (monoid.comm y z) ∙ monoid.assoc z y w)
      ∙ sym (monoid.assoc x z (op y w))

  -- The totals of two families are the total of their sums.
  pub total-op :
      (p q : ℕ → R) (x y : R) (i m : ℕ)
      → total_from op (λ k. op (p k) (q k)) (op x y) i m
        ≡ op (total_from op p x i m) (total_from op q y i m)
  unfolding total_from
  total-op p q x y i zero = refl
  total-op p q x y i (suc m) =
      rw (interchange x y (p i) (q i)) (total-op p q (op x (p i)) (op y (q i)) (i + 1) m)

  pub total-identity : (x : R) (i m : ℕ) → total_from op (λ k. identity) x i m ≡ x
  unfolding total_from
  total-identity x i zero = refl
  total-identity x i (suc m) = rw (monoid.identity_right x) (total-identity x (i + 1) m)
