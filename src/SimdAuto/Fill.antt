-- ===== src/SimdAuto/Fill.antt =====
-- The loop of include/pot/simd/simd_auto.h over the lanes, and what it leaves.
use parallel_operations_tool.Prelude.{
  ℕ, zero, suc, ◌+◌, ◌≤◌, ◌<◌, ◌≡◌, sym, subst, ap, ◌∙◌, fun_ext, ◌↔◌, ◌≢◌, ◌⊎◌, inl, inr, Option,
  none, some, arith, update, update_self, update_ne, ℕ_discrete, >>=-eq-some, ◌>>=◌, Option-cases,
}
use parallel_operations_tool.SimdAuto.{Simd, fill}

module _ {A : Type 0} (f : ℕ → Option A) where
  -- `r` has the lanes that `f` gives, and is as before outside them.
  abbrev pub Lanes : ℕ → Simd A → Simd A → Type 0
  Lanes n before r = (j : ℕ) → (j < n → f j ≡ some (r j)) × (n ≤ j → r j ≡ before j)

  fill-lanes :
      (rounds i : ℕ) (res : Simd A) {r : Simd A}
      → fill f i rounds res ≡ some r
      → (j : ℕ)
      → (i ≤ j → j < i + rounds → f j ≡ some (r j)) × ((j < i) ⊎ (i + rounds ≤ j) → r j ≡ res j)
  unfolding fill
  fill-lanes zero i res h j = (λ a b. absurd (omega arith), λ _. cc)
  fill-lanes (suc rounds) i res {r} h j =
      let (v, e, rest) = >>=-eq-some (f i) (λ v. fill f (i + 1) rounds (update res i v)) h in
      let (in_range, out) = fill-lanes rounds (i + 1) (update res i v) rest j in
      elim (ℕ_discrete j i) [
        | yes same ↦
            let here : r j ≡ v =
              out (inl (omega arith)) ∙ ap (update res i v) same ∙ update_self res i v in
            (λ a b. ap f same ∙ e ∙ ap some (sym here), λ o. absurd (outside o same))
        | no other ↦ (
          λ a b. in_range (omega (arith, other)) (omega arith),
          λ o. out (later o) ∙ update_ne res i v j other,
        )
      ]
    where
      outside : (j < i) ⊎ (i + suc rounds ≤ j) → j ≢ i
      outside (inl l) = omega arith
      outside (inr g) = omega arith

      later : (j < i) ⊎ (i + suc rounds ≤ j) → (j < i + 1) ⊎ (i + 1 + rounds ≤ j)
      later (inl l) = inl (omega arith)
      later (inr g) = inr (omega arith)

  fill_complete :
      (rounds i : ℕ) (res r : Simd A)
      → ((j : ℕ) → i ≤ j → j < i + rounds → f j ≡ some (r j))
      → ((j : ℕ) → (j < i) ⊎ (i + rounds ≤ j) → r j ≡ res j)
      → fill f i rounds res ≡ some r
  unfolding fill
  fill_complete zero i res r h out = ap some (fun_ext (λ j. sym (out j (outside j))))
    where
      outside : (j : ℕ) → (j < i) ⊎ (i + 0 ≤ j)
      outside j = ground arith
  fill_complete (suc rounds) i res r h out = rw (h i (omega arith) (omega arith)) (
      fill_complete rounds (i + 1) (update res i (r i)) r (λ j a b. h j (omega arith) (omega arith))
        (λ j o. elim (ℕ_discrete j i) [
          | yes same ↦ ap r same ∙ sym (ap (update res i (r i)) same ∙ update_self res i (r i))
          | no other ↦ out j (wider j o other) ∙ sym (update_ne res i (r i) j other)
        ]))
    where
      wider : (j : ℕ) → (j < i + 1) ⊎ (i + 1 + rounds ≤ j) → j ≢ i → (j < i) ⊎ (i + suc rounds ≤ j)
      wider j (inl l) other = inl (omega (arith, other))
      wider j (inr g) other = inr (omega arith)

  -- The loop gives `r` exactly when `r` is the vector described lane by lane.
  pub fill_iff : (n : ℕ) (before r : Simd A) → (fill f 0 n before ≡ some r) ↔ Lanes n before r
  fill_iff n before r = (
    λ h j.
        let (inside, out) = fill-lanes n 0 before h j in
        (λ l. inside (omega arith) (omega arith), λ g. out (inr (omega arith))),
    λ h. fill_complete n 0 before r (λ j _ l. (h j).0 (omega arith)) (λ j o. (h j).1 (beyond j o)),
  )
    where
      beyond : (j : ℕ) → (j < 0) ⊎ (0 + n ≤ j) → n ≤ j
      beyond j (inl l) = absurd (omega arith)
      beyond j (inr g) = omega arith

  fill_fails :
      (rounds i : ℕ) (res : Simd A)
      → fill f i rounds res ≡ none
      → (j : ℕ) × (i ≤ j) × (j < i + rounds) × (f j ≡ none)
  unfolding fill
  fill_fails zero i res h = cc
  fill_fails (suc rounds) i res h = elim (Option-cases (f i)) [
    | inl fails ↦ (i, omega arith, omega arith, fails)
    | inr (v, e) ↦
        let rest : fill f (i + 1) rounds (update res i v) ≡ none =
          subst (λ o. (o >>= (λ w. fill f (i + 1) rounds (update res i w))) ≡ none) e h in
        let (j, a, b, fails) = fill_fails rounds (i + 1) (update res i v) rest in
        (j, omega arith, omega arith, fails)
  ]

  -- The loop is undefined exactly when one lane is.
  pub fill-none_iff :
      (n : ℕ) (before : Simd A) → (fill f 0 n before ≡ none) ↔ ((j : ℕ) × (j < n) × (f j ≡ none))
  fill-none_iff n before = (
    λ h. let (j, _, l, fails) = fill_fails n 0 before h in (j, omega arith, fails),
    λ (j, l, fails). elim (Option-cases (fill f 0 n before)) [
      | inl e ↦ e
      | inr (r, e) ↦ absurd_lane (sym fails ∙ ((fill_iff n before r).0 e j).0 l)
    ],
  )
    where
      absurd_lane : {v : A} {o : Option (Simd A)} → none ≡ some v → o ≡ none
      absurd_lane h = cc
