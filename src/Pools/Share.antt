-- ===== src/Pools/Share.antt =====
-- How many tasks each queue gets when they are dealt out one after the other.
use native.Mathlib.Nat.{
  mul-add-div, mul-add-mod_self_left, div-eq_of_lt, mod-eq_of_lt, div-add-mod, mod-lt,
}
use parallel_operations_tool.Prelude.{
  ℕ, ◌+◌, ◌*◌, ◌/◌, ◌%◌, ◌≤◌, ◌<◌, ◌≡◌, ◌≢◌, sym, ap, ◌∙◌, arith, ltb, if◌then◌else◌, dec_lt,
}

div-mod_unique : (n q r m : ℕ) → 0 < n → r < n → n * q + r ≡ m → (m / n ≡ q) × (m % n ≡ r)
div-mod_unique n q r m pos lt e = (
  ap (λ x. x / n) (sym e) ∙ mul-add-div pos q r ∙ ap (λ x. q + x) (div-eq_of_lt lt) ∙ omega arith,
  ap (λ x. x % n) (sym e) ∙ mul-add-mod_self_left n q r ∙ mod-eq_of_lt lt,
)

times-le : (c p q : ℕ) → p ≤ q → c * p ≤ c * q
times-le c p q h = grind arith

times-suc : (c p : ℕ) → c * (p + 1) ≡ c * p + c
times-suc c p = grind arith

-- How many of the numbers below `m` leave the remainder `i`.
abbrev pub share : ℕ → ℕ → ℕ → ℕ
share n m i = m / n + (if ltb i (m % n) then 1 else 0)

-- Going from `m` to `m + 1` gives one more to the remainder of `m`.
pub share_self : (n m : ℕ) → 0 < n → share n (m + 1) (m % n) ≡ m / n + 1
share_self n m pos = elim (dec_lt (m % n + 1) n) [
  | yes on ↦
      let (d, r) =
        div-mod_unique n (m / n) (m % n + 1) (m + 1) pos on (omega (arith, div-add-mod m n)) in
      ground (arith, d, r)
  | no wrap ↦
      let (d, r) =
        div-mod_unique n (m / n + 1) 0 (m + 1) pos pos
          (omega (arith, div-add-mod m n, mod-lt m pos, times-suc n (m / n))) in
      ground (arith, d, r)
]

pub share_other : (n m i : ℕ) → 0 < n → i < n → i ≢ m % n → share n (m + 1) i ≡ share n m i
share_other n m i pos hi ne = elim (dec_lt (m % n + 1) n) [
  | yes on ↦
      let (d, r) =
        div-mod_unique n (m / n) (m % n + 1) (m + 1) pos on (omega (arith, div-add-mod m n)) in
      ground (arith, d, r)
  | no wrap ↦
      let (d, r) =
        div-mod_unique n (m / n + 1) 0 (m + 1) pos pos
          (omega (arith, div-add-mod m n, mod-lt m pos, times-suc n (m / n))) in
      ground (arith, d, r, mod-lt m pos)
]

pub share_zero : (n i : ℕ) → 0 < n → share n 0 i ≡ 0
share_zero n i pos = ground (arith, div-eq_of_lt pos, mod-eq_of_lt pos)

-- A place among those that are filled is below the number of tasks of its queue.
pub place-lt : (n k m : ℕ) → k < m → k % n ≡ m % n → k / n < m / n
place-lt n k m lt e = elim (dec_lt (k / n) (m / n)) [
  | yes less ↦ less
  | no ge ↦
      absurd
        (omega (arith, div-add-mod k n, div-add-mod m n, times-le n (m / n) (k / n) (omega arith)))
]
