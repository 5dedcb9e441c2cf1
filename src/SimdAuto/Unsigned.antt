-- ===== src/SimdAuto/Unsigned.antt =====
-- The vectors of include/pot/simd/simd_auto.h over the unsigned integers of `w` bits, for the
-- widths that no integer promotion changes, 32 and 64.
use parallel_operations_tool.Prelude.{
  ℕ, zero, suc, ◌+◌, ◌-◌, ◌*◌, ◌/◌, ◌%◌, ◌^◌, ◌==◌, ◌≡◌, sym, ap, ◌∙◌, not, ltb, leb, if◌then◌else◌,
  none, some, arith, sum_of,
}
use native.Mathlib.Nat.{mod-add-mod, div-add-mod, add-mul-mod_self_right}
use parallel_operations_tool.SimdAuto.{Scalar, Simd, fold_from, sum, prod}

-- The bitwise operators are the machine's.
pub record Bitwise : Type 0 where
  pub bits_and : ℕ → ℕ → ℕ
  pub bits_or : ℕ → ℕ → ℕ
  pub bits_xor : ℕ → ℕ → ℕ

-- A shift by `w` or more and a division by zero are undefined, and `std::abs` has no overload.
abbrev pub unsigned : Bitwise → ℕ → Scalar ℕ
unsigned bits w = record {
  cast = λ k. k % 2 ^ w;
  add = λ a b. some ((a + b) % 2 ^ w);
  sub = λ a b. some ((a + 2 ^ w - b) % 2 ^ w);
  mul = λ a b. some (a * b % 2 ^ w);
  div = λ a b. if b == 0 then none else some (a / b);
  modulo = λ a b. if b == 0 then none else some (a % b);
  bit_and = λ a b. some (bits.bits_and a b);
  bit_or = λ a b. some (bits.bits_or a b);
  bit_xor = λ a b. some (bits.bits_xor a b);
  shift_left = λ a k. if ltb k w then some (a * 2 ^ k % 2 ^ w) else none;
  shift_right = λ a k. if ltb k w then some (a / 2 ^ k) else none;
  abs = λ a. none;
  ne = λ a b. not (a == b);
  lt = ltb;
  le = leb;
}

-- The product of the first `n` lanes.
abbrev pub product_of : ℕ → Simd ℕ → ℕ
product_of zero a = 1
product_of (suc n) a = a n * product_of n a

mod-mul-mod : (a b m : ℕ) → (a % m * b) % m ≡ a * b % m
mod-mul-mod a b m =
    let whole : a * b ≡ a % m * b + a / m * b * m =
      ap (λ x. x * b) (sym (div-add-mod a m)) ∙ regroup (a / m) (a % m) in
    sym (ap (λ x. x % m) whole ∙ add-mul-mod_self_right (a % m * b) (a / m * b) m)
  where
    regroup : (q r : ℕ) → (m * q + r) * b ≡ r * b + q * b * m
    regroup q r = grind arith

module _ (bits : Bitwise) (w : ℕ) (a : Simd ℕ) where
  abbrev total : ℕ → ℕ
  total i = sum_of (λ x. x) i a

  total-suc : (i : ℕ) → total (i + 1) ≡ total i + a i
  unfolding sum_of
  total-suc i = let e : i + 1 ≡ suc i = omega arith in ap total e ∙ omega arith

  product-suc : (i : ℕ) → product_of (i + 1) a ≡ product_of i a * a i
  product-suc i = let e : i + 1 ≡ suc i = omega arith in ap (λ k. product_of k a) e ∙ grind arith

  sum_from :
      (rounds i m : ℕ)
      → i + rounds ≡ m
      → fold_from (unsigned bits w).add a i rounds (total i % 2 ^ w) ≡ some (total m % 2 ^ w)
  unfolding fold_from
  sum_from zero i m e = let e' : i ≡ m = omega arith in ap (λ k. some (total k % 2 ^ w)) e'
  sum_from (suc rounds) i m e =
      rw (mod-add-mod (total i) (2 ^ w) (a i), sym (total-suc i))
        (sum_from rounds (i + 1) m (omega arith))

  product_from :
      (rounds i m : ℕ)
      → i + rounds ≡ m
      → fold_from (unsigned bits w).mul a i rounds (product_of i a % 2 ^ w)
        ≡ some (product_of m a % 2 ^ w)
  unfolding fold_from
  product_from zero i m e =
      let e' : i ≡ m = omega arith in ap (λ k. some (product_of k a % 2 ^ w)) e'
  product_from (suc rounds) i m e =
      rw (mod-mul-mod (product_of i a) (a i) (2 ^ w), sym (product-suc i))
        (product_from rounds (i + 1) m (omega arith))

  -- Over the unsigned integers of `w` bits `sum()` is the sum of the first `scalar_count` lanes,
  -- and `prod()` is their product, both modulo `2 ^ w`: each is always defined, and wraps as the
  -- scalar type does.
  pub sum_wraps :
      (n : ℕ)
      → (sum (unsigned bits w) n a ≡ some (sum_of (λ x. x) n a % 2 ^ w))
        × (prod (unsigned bits w) n a ≡ some (product_of n a % 2 ^ w))
  unfolding sum prod sum_of
  sum_wraps n = (sum_from n 0 n (omega arith), product_from n 0 n (omega arith))
