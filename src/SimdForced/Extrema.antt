-- ===== src/SimdForced/Extrema.antt =====
-- The largest and the smallest lane of an SSE register.
use parallel_operations_tool.Prelude.{
  ℕ, ◌<◌, ◌≡◌, ◌⊎◌, inl, inr, refl, sym, ap, ap₂, ◌∙◌, subst, Bool, false, Bool-cases,
  if◌then◌else◌, arith,
}
use parallel_operations_tool.SimdAuto.Folds.{Ordered}
use parallel_operations_tool.SimdForced.{
  Ps, Pd, Epi32, max_scalar_ps, max_scalar_pd, max_scalar_epi32, min_scalar_ps, min_scalar_pd,
  min_scalar_epi32,
}

module _ {A : Type 0} (lt : A → A → Bool) where
  -- `MAXPS` gives the first operand when it is greater, and the second one otherwise; `MINPS` gives
  -- the first one when it is less.
  abbrev pub greater : A → A → A
  greater a b = if lt b a then a else b

  abbrev pub lesser : A → A → A
  lesser a b = if lt a b then a else b

module _ {V A : Type 0} (lane : V → ℕ → A) (lt : A → A → Bool) where
  -- What the intrinsics do to the lanes.
  pub record PsLanes (m : Ps V A) : Type 0 where
    pub shuffle0 : (a : V) (z y x w : ℕ) → lane (m.shuffle_ps a a z y x w) 0 ≡ lane a w
    pub shuffle1 : (a : V) (z y x w : ℕ) → lane (m.shuffle_ps a a z y x w) 1 ≡ lane a x
    pub shuffle2 : (a : V) (z y x w : ℕ) → lane (m.shuffle_ps a a z y x w) 2 ≡ lane a y
    pub shuffle3 : (a : V) (z y x w : ℕ) → lane (m.shuffle_ps a a z y x w) 3 ≡ lane a z
    pub max_lanes :
        (a b : V) (k : ℕ) → k < 4 → lane (m.max_ps a b) k ≡ greater lt (lane a k) (lane b k)
    pub min_lanes :
        (a b : V) (k : ℕ) → k < 4 → lane (m.min_ps a b) k ≡ lesser lt (lane a k) (lane b k)
    pub first_lane : (a : V) → m.cvtss_f32 a ≡ lane a 0

  -- `max_scalar` by lanes: the larger of the pairs 0, 1 and 2, 3.
  max_scalar_ps-lanes :
      (m : Ps V A) (a : V)
      → PsLanes m
      → max_scalar_ps m a
        ≡ greater lt (greater lt (lane a 0) (lane a 1)) (greater lt (lane a 2) (lane a 3))
  unfolding max_scalar_ps
  max_scalar_ps-lanes m a laws =
      let max2 = m.max_ps a (m.shuffle_ps a a 2 3 0 1) in
      let low : lane max2 0 ≡ greater lt (lane a 0) (lane a 1) =
        laws.max_lanes _ _ 0 (omega arith) ∙ ap (greater lt (lane a 0)) (laws.shuffle0 a 2 3 0 1) in
      let high : lane max2 2 ≡ greater lt (lane a 2) (lane a 3) =
        laws.max_lanes _ _ 2 (omega arith) ∙ ap (greater lt (lane a 2)) (laws.shuffle2 a 2 3 0 1) in
      laws.first_lane _
      ∙ laws.max_lanes _ _ 0 (omega arith)
      ∙ ap₂ (greater lt) low (laws.shuffle0 max2 1 0 3 2 ∙ high)

  min_scalar_ps-lanes :
      (m : Ps V A) (a : V)
      → PsLanes m
      → min_scalar_ps m a
        ≡ lesser lt (lesser lt (lane a 0) (lane a 1)) (lesser lt (lane a 2) (lane a 3))
  unfolding min_scalar_ps
  min_scalar_ps-lanes m a laws =
      let min2 = m.min_ps a (m.shuffle_ps a a 2 3 0 1) in
      let low : lane min2 0 ≡ lesser lt (lane a 0) (lane a 1) =
        laws.min_lanes _ _ 0 (omega arith) ∙ ap (lesser lt (lane a 0)) (laws.shuffle0 a 2 3 0 1) in
      let high : lane min2 2 ≡ lesser lt (lane a 2) (lane a 3) =
        laws.min_lanes _ _ 2 (omega arith) ∙ ap (lesser lt (lane a 2)) (laws.shuffle2 a 2 3 0 1) in
      laws.first_lane _
      ∙ laws.min_lanes _ _ 0 (omega arith)
      ∙ ap₂ (lesser lt) low (laws.shuffle0 min2 1 0 3 2 ∙ high)

-- One of four values that none of them is beyond.
abbrev pub Extreme : {A : Type 0} → (A → A → Bool) → A → A → A → A → A → Type 0
Extreme beats m a b c d =
    ((m ≡ a) ⊎ (m ≡ b) ⊎ (m ≡ c) ⊎ (m ≡ d))
    × (beats m a ≡ false)
    × (beats m b ≡ false)
    × (beats m c ≡ false)
    × (beats m d ≡ false)

module _ {A : Type 0} (lt : A → A → Bool) (ordered : Ordered lt) where
  pick :
      (x y : A)
      → (lt (greater lt x y) x ≡ false)
        × (lt (greater lt x y) y ≡ false)
        × ((greater lt x y ≡ x) ⊎ (greater lt x y ≡ y))
  pick x y = elim (Bool-cases (lt y x)) [
    | inl e ↦ rw e (irreflexive x, ordered.asymmetric y x e, inl refl)
    | inr e ↦ rw e (e, irreflexive y, inr refl)
  ]
    where
      irreflexive : (a : A) → lt a a ≡ false
      irreflexive a = elim (Bool-cases (lt a a)) [ inl e ↦ ordered.asymmetric a a e | inr e ↦ e ]

  four : (a b c d : A) → Extreme lt (greater lt (greater lt a b) (greater lt c d)) a b c d
  four a b c d =
      let l = greater lt a b in
      let h = greater lt c d in
      let m = greater lt l h in
      let (ml, mh, which) = pick l h in
      let (la, lb, which_low) = pick a b in
      let (hc, hd, which_high) = pick c d in
      (
        attained which which_low which_high,
        ordered.chained m l a ml la,
        ordered.chained m l b ml lb,
        ordered.chained m h c mh hc,
        ordered.chained m h d mh hd,
      )
    where
      attained :
          {m l h : A}
          → (m ≡ l) ⊎ (m ≡ h)
          → (l ≡ a) ⊎ (l ≡ b)
          → (h ≡ c) ⊎ (h ≡ d)
          → (m ≡ a) ⊎ (m ≡ b) ⊎ (m ≡ c) ⊎ (m ≡ d)
      attained (inl e) (inl f) g = inl (e ∙ f)
      attained (inl e) (inr f) g = inr (inl (e ∙ f))
      attained (inr e) f (inl g) = inr (inr (inl (e ∙ g)))
      attained (inr e) f (inr g) = inr (inr (inr (e ∙ g)))

module _ {V A : Type 0} (lane : V → ℕ → A) (lt : A → A → Bool) (m : Ps V A)
    (laws : PsLanes lane lt m) (ordered : Ordered lt) where
  -- For an SSE register of four floats that `<` orders, with intrinsics that do in the lanes what the
  -- manual says, `max_scalar` and the `min` of the register are the value of one of the lanes, and no
  -- lane is above the one or below the other.
  pub ps-Extreme :
      (a : V)
      → Extreme lt (max_scalar_ps m a) (lane a 0) (lane a 1) (lane a 2) (lane a 3)
        × Extreme (λ x y. lt y x) (min_scalar_ps m a) (lane a 0) (lane a 1) (lane a 2) (lane a 3)
  ps-Extreme a = (
    subst (λ s. Extreme lt s (lane a 0) (lane a 1) (lane a 2) (lane a 3))
        (sym (max_scalar_ps-lanes lane lt m a laws)) (four lt ordered _ _ _ _),
    subst (λ s. Extreme (λ x y. lt y x) s (lane a 0) (lane a 1) (lane a 2) (lane a 3))
        (sym (min_scalar_ps-lanes lane lt m a laws)) (four (λ x y. lt y x) flipped _ _ _ _),
  )
    where
      flipped : Ordered (λ x y. lt y x)
      flipped = record {
        asymmetric = λ a b h. ordered.asymmetric b a h;
        chained = λ a b c h k. ordered.chained c b a k h;
      }

-- The intrinsics of `__m128i` as those of `__m128`.
abbrev pub as_ps : {V A : Type 0} → Epi32 V A → Ps V A
as_ps m = record {
  shuffle_ps = λ a b z y x w. m.shuffle_epi32 a z y x w;
  max_ps = m.max_epi32;
  min_ps = m.min_epi32;
  cvtss_f32 = m.cvtsi128_si32;
}

-- The same for an SSE register of four `int32_t`.
pub epi32-Extreme :
    {V A : Type 0} (lane : V → ℕ → A) (lt : A → A → Bool) (m : Epi32 V A)
    → PsLanes lane lt (as_ps m)
    → Ordered lt
    → (a : V)
    → Extreme lt (max_scalar_epi32 m a) (lane a 0) (lane a 1) (lane a 2) (lane a 3)
      × Extreme (λ x y. lt y x) (min_scalar_epi32 m a) (lane a 0) (lane a 1) (lane a 2) (lane a 3)
unfolding max_scalar_epi32 min_scalar_epi32 max_scalar_ps min_scalar_ps
epi32-Extreme lane lt m laws ordered a = ps-Extreme lane lt (as_ps m) laws ordered a

pub record PdLanes {V A : Type 0} (lane : V → ℕ → A) (lt : A → A → Bool) (m : Pd V A) : Type 0 where
  pub shuffle0 : (a : V) (x w : ℕ) → lane (m.shuffle_pd a a x w) 0 ≡ lane a w
  pub max0 : (a b : V) → lane (m.max_pd a b) 0 ≡ greater lt (lane a 0) (lane b 0)
  pub min0 : (a b : V) → lane (m.min_pd a b) 0 ≡ lesser lt (lane a 0) (lane b 0)
  pub first_lane : (a : V) → m.cvtsd_f64 a ≡ lane a 0

-- The same for the two doubles of an SSE register.
pub pd-Extreme :
    {V A : Type 0} (lane : V → ℕ → A) (lt : A → A → Bool) (m : Pd V A)
    → PdLanes lane lt m
    → (a : V)
    → (max_scalar_pd m a ≡ greater lt (lane a 0) (lane a 1))
      × (min_scalar_pd m a ≡ lesser lt (lane a 0) (lane a 1))
unfolding max_scalar_pd min_scalar_pd
pd-Extreme lane lt m laws a = (
  laws.first_lane _ ∙ laws.max0 _ _ ∙ ap (greater lt (lane a 0)) (laws.shuffle0 a 0 1),
  laws.first_lane _ ∙ laws.min0 _ _ ∙ ap (lesser lt (lane a 0)) (laws.shuffle0 a 0 1),
)
