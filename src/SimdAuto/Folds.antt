-- ===== src/SimdAuto/Folds.antt =====
-- The reductions of include/pot/simd/simd_auto.h: the largest and the smallest lane.
use parallel_operations_tool.Prelude.{
  ℕ, zero, suc, ◌+◌, ◌-◌, ◌≤◌, ◌<◌, ◌≡◌, refl, subst, ◌∙◌, ◌⊎◌, inl, inr, Bool, true, false,
  Bool-cases, if◌then◌else◌, arith, ℕ_discrete,
}
use parallel_operations_tool.SimdAuto.{Scalar, Simd, best_from, max_lane, min_lane}

-- `<` orders the scalars, as it does integers, and floating-point numbers without NaN.
pub record Ordered {A : Type 0} (lt : A → A → Bool) : Type 0 where
  pub asymmetric : (a b : A) → lt a b ≡ true → lt b a ≡ false
  pub chained : (a b c : A) → lt a b ≡ false → lt b c ≡ false → lt a c ≡ false

module _ {A : Type 0} (lt : A → A → Bool) (ordered : Ordered lt) where
  -- The lane that stays beats neither of the two that are compared.
  abbrev pick : A → A → A
  pick a b = if lt a b then b else a

  irreflexive : (a : A) → lt a a ≡ false
  irreflexive a = elim (Bool-cases (lt a a)) [ inl e ↦ ordered.asymmetric a a e | inr e ↦ e ]

  pick-lem :
      (a b : A)
      → (lt (pick a b) a ≡ false) × (lt (pick a b) b ≡ false) × ((pick a b ≡ a) ⊎ (pick a b ≡ b))
  pick-lem a b = elim (Bool-cases (lt a b)) [
    | inl e ↦ rw e (ordered.asymmetric a b e, irreflexive b, inr refl)
    | inr e ↦ rw (e, e) (irreflexive a, refl, inl refl)
  ]

  -- `m` is one of the lanes from `i` to `end` or the start value, and none of them beats it.
  record Best (a : Simd A) (i end : ℕ) (start m : A) : Type 0 where
    attained : (m ≡ start) ⊎ ((j : ℕ) × (i ≤ j) × (j < end) × (m ≡ a j))
    beats_start : lt m start ≡ false
    bounds : (j : ℕ) → i ≤ j → j < end → lt m (a j) ≡ false

  best_from-Best :
      (a : Simd A) (rounds i : ℕ) (start : A)
      → Best a i (i + rounds) start (best_from pick a i rounds start)
  best_from-Best a zero i start = record {
    attained = inl refl;
    beats_start = irreflexive start;
    bounds = λ j l g. absurd (omega arith);
  }
  best_from-Best a (suc rounds) i start =
      let (over_start, over_lane, which) = pick-lem start (a i) in
      let m = best_from pick a (i + 1) rounds (pick start (a i)) in
      let rest = best_from-Best a rounds (i + 1) (pick start (a i)) in
      record {
        attained = attained_here which rest.attained;
        beats_start = ordered.chained m (pick start (a i)) start rest.beats_start over_start;
        bounds = λ j l g. elim (ℕ_discrete i j) [
          | yes same ↦
              subst (λ k. lt m (a k) ≡ false) same
                (ordered.chained m (pick start (a i)) (a i) rest.beats_start over_lane)
          | no later ↦ rest.bounds j (omega (arith, later)) (omega arith)
        ];
      }
    where
      attained_here :
          {m p : A}
          → (p ≡ start) ⊎ (p ≡ a i)
          → (m ≡ p) ⊎ ((j : ℕ) × (i + 1 ≤ j) × (j < i + 1 + rounds) × (m ≡ a j))
          → (m ≡ start) ⊎ ((j : ℕ) × (i ≤ j) × (j < i + suc rounds) × (m ≡ a j))
      attained_here w (inr (j, l, g, e)) = inr (j, omega arith, omega arith, e)
      attained_here (inl w) (inl e) = inl (e ∙ w)
      attained_here (inr w) (inl e) = inr (i, omega arith, omega arith, e ∙ w)

  -- The loop over the lanes from 1 on, started from lane 0.
  all_lanes :
      (n : ℕ) (a : Simd A)
      → 0 < n
      → let m = best_from pick a 1 (n - 1) (a 0) in
        ((j : ℕ) × (j < n) × (m ≡ a j)) × ((j : ℕ) → j < n → lt m (a j) ≡ false)
  all_lanes n a pos =
      let b = best_from-Best a (n - 1) 1 (a 0) in
      (
        found b.attained,
        λ j l. elim (ℕ_discrete 0 j) [
          | yes first ↦
              subst (λ k. lt (best_from pick a 1 (n - 1) (a 0)) (a k) ≡ false) first b.beats_start
          | no later ↦ b.bounds j (omega (arith, later)) (omega arith)
        ],
      )
    where
      found :
          {m : A}
          → (m ≡ a 0) ⊎ ((j : ℕ) × (1 ≤ j) × (j < 1 + (n - 1)) × (m ≡ a j))
          → (j : ℕ) × (j < n) × (m ≡ a j)
      found (inl e) = (0, pos, e)
      found (inr (j, l, g, e)) = (j, omega arith, e)

module _ {A : Type 0} (s : Scalar A) (n : ℕ) (a : Simd A) where
  -- When `<` orders the scalars and the vector has a lane, `max()` returns the value of one of the
  -- lanes, and no lane is above it.
  pub max_lane-IsGreatest :
      Ordered s.lt
      → 0 < n
      → ((j : ℕ) × (j < n) × (max_lane s n a ≡ a j))
        × ((j : ℕ) → j < n → s.lt (max_lane s n a) (a j) ≡ false)
  unfolding max_lane
  max_lane-IsGreatest ordered pos = all_lanes s.lt ordered n a pos

  -- When `<` orders the scalars and the vector has a lane, `min()` returns the value of one of the
  -- lanes, and no lane is below it.
  pub min_lane-IsLeast :
      Ordered s.lt
      → 0 < n
      → ((j : ℕ) × (j < n) × (min_lane s n a ≡ a j))
        × ((j : ℕ) → j < n → s.lt (a j) (min_lane s n a) ≡ false)
  unfolding min_lane
  min_lane-IsLeast ordered pos = all_lanes (λ a b. s.lt b a) flipped n a pos
    where
      flipped : Ordered (λ a b. s.lt b a)
      flipped = record {
        asymmetric = λ a b h. ordered.asymmetric b a h;
        chained = λ a b c h k. ordered.chained c b a k h;
      }
