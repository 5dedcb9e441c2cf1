-- ===== src/SimdAuto/Relations.antt =====
-- The comparisons of include/pot/simd/simd_auto.h against their description lane by lane.
use parallel_operations_tool.Prelude.{
  ℕ, zero, suc, ◌+◌, ◌≤◌, ◌<◌, ◌≡◌, ◌↔◌, inl, inr, refl, sym, subst, ap, ◌∙◌, Bool, true, false,
  not, Bool-cases, if◌then◌else◌, arith, ℕ_discrete,
}
use parallel_operations_tool.SimdAuto.{Scalar, Simd}
use parallel_operations_tool.SimdAuto.Compare.{
  unless_any, equal_to, not_equal_to, less, less_equal, greater, greater_equal,
}

module _ (fails : ℕ → Bool) where
  unless_any-all :
      (rounds i : ℕ)
      → unless_any fails i rounds ≡ true
      → (j : ℕ) → i ≤ j
      → j < i + rounds
      → fails j ≡ false
  unfolding unless_any
  unless_any-all zero i h j l g = absurd (omega arith)
  unless_any-all (suc rounds) i h j l g = elim (Bool-cases (fails i)) [
    | inl e ↦ cc
    | inr e ↦
        let rest : unless_any fails (i + 1) rounds ≡ true =
          subst (λ b. (if b then false else unless_any fails (i + 1) rounds) ≡ true) e h in
        elim (ℕ_discrete i j) [
          | yes same ↦ ap fails (sym same) ∙ e
          | no later ↦ unless_any-all rounds (i + 1) rest j (omega (arith, later)) (omega arith)
        ]
  ]

  unless_any-some :
      (rounds i : ℕ)
      → unless_any fails i rounds ≡ false
      → (j : ℕ) × (i ≤ j) × (j < i + rounds) × (fails j ≡ true)
  unfolding unless_any
  unless_any-some zero i h = cc
  unless_any-some (suc rounds) i h = elim (Bool-cases (fails i)) [
    | inl e ↦ (i, omega arith, omega arith, e)
    | inr e ↦
        let rest : unless_any fails (i + 1) rounds ≡ false =
          subst (λ b. (if b then false else unless_any fails (i + 1) rounds) ≡ false) e h in
        let (j, l, g, f) = unless_any-some rounds (i + 1) rest in (j, omega arith, omega arith, f)
  ]

  -- The loop returns `true` when no lane fails, and `false` when one does.
  unless_any_iff :
      (n : ℕ)
      → ((unless_any fails 0 n ≡ true) ↔ ((j : ℕ) → j < n → fails j ≡ false))
        × ((unless_any fails 0 n ≡ false) ↔ ((j : ℕ) × (j < n) × (fails j ≡ true)))
  unless_any_iff n = (
    (λ h j l. unless_any-all n 0 h j (omega arith) (omega arith), all_pass),
    (λ h. let (j, _, l, f) = unless_any-some n 0 h in (j, omega arith, f), one_fails),
  )
    where
      all_pass : ((j : ℕ) → j < n → fails j ≡ false) → unless_any fails 0 n ≡ true
      all_pass h = elim (Bool-cases (unless_any fails 0 n)) [
        | inl e ↦ e
        | inr e ↦ let (j, _, l, f) = unless_any-some n 0 e in let p = h j (omega arith) in cc
      ]

      one_fails : (j : ℕ) × (j < n) × (fails j ≡ true) → unless_any fails 0 n ≡ false
      one_fails (j, l, f) = elim (Bool-cases (unless_any fails 0 n)) [
        | inl e ↦ let p = unless_any-all n 0 e j (omega arith) (omega arith) in cc
        | inr e ↦ e
      ]

module _ {A : Type 0} (s : Scalar A) (n : ℕ) where
  -- An operator is true when no pair of lanes fails, and false when one does.
  abbrev pub AllLanes : (A → A → Bool) → (Simd A → Simd A → Bool) → Type 0
  AllLanes fails op =
      (a b : Simd A)
      → ((op a b ≡ true) ↔ ((j : ℕ) → j < n → fails (a j) (b j) ≡ false))
        × ((op a b ≡ false) ↔ ((j : ℕ) × (j < n) × (fails (a j) (b j) ≡ true)))

  -- The operators `==`, `<`, `<=`, `>` and `>=` are true exactly when no one of the first
  -- `scalar_count` lanes satisfies the opposite scalar comparison, and false exactly when one does;
  -- `!=` is true exactly when two lanes differ.
  pub comparisons_lem :
      AllLanes s.ne (equal_to s n)
      × ((a b : Simd A)
          → (not_equal_to s n a b ≡ true) ↔ ((j : ℕ) × (j < n) × (s.ne (a j) (b j) ≡ true)))
      × AllLanes (λ x y. s.le y x) (less s n)
      × AllLanes (λ x y. s.lt y x) (less_equal s n)
      × AllLanes (λ x y. s.le x y) (greater s n)
      × AllLanes (λ x y. s.lt x y) (greater_equal s n)
  unfolding equal_to not_equal_to less less_equal greater greater_equal
  comparisons_lem = (
    λ a b. unless_any_iff _ n,
    λ a b. (λ h. (unless_any_iff _ n).1.0 (negated _ h), λ h. rw ((unless_any_iff _ n).1.1 h)),
    λ a b. unless_any_iff _ n,
    λ a b. unless_any_iff _ n,
    λ a b. unless_any_iff _ n,
    λ a b. unless_any_iff _ n,
  )
    where
      negated : (b : Bool) → not b ≡ true → b ≡ false
      negated true h = cc
      negated false h = refl
