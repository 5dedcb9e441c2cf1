-- ===== src/ThisThread/Laws.antt =====
-- What `set_params` sets, `get_params` gets.
use parallel_operations_tool.Prelude.{◌≡◌, ◌⊎◌, inl, inr, refl, ◌∙◌, true, false, Bool-cases, arith}
use parallel_operations_tool.ThisThread.{
  ℤ, pos, ltb_ℤ, eq_ℤ, minus_one, clamp, Os, is_policy, set_params, get_params,
}

-- What the manual says of the calls: asking for the priorities and setting `errno` leave the
-- parameters, setting them sets both or fails and sets neither, and they can be read.
pub record Documented {S : Type 0} (os : Os S) : Type 0 where
  pub params : S → ℤ × ℤ
  pub priority_min_keeps : (policy : ℤ) (s : S) → params (os.priority_min policy s).1 ≡ params s
  pub priority_max_keeps : (policy : ℤ) (s : S) → params (os.priority_max policy s).1 ≡ params s
  pub errno_keeps : (e : ℤ) (s : S) → params (os.set_errno e s) ≡ params s
  pub sets :
      (policy priority : ℤ) (s : S)
      → eq_ℤ (os.setschedparam policy priority s).0 (pos 0) ≡ true
      → params (os.setschedparam policy priority s).1 ≡ (policy, priority)
  pub fails :
      (policy priority : ℤ) (s : S)
      → eq_ℤ (os.setschedparam policy priority s).0 (pos 0) ≡ false
      → params (os.setschedparam policy priority s).1 ≡ params s
  pub gets : (s : S) → os.getschedparam s ≡ (params s, pos 0)

module _ {S : Type 0} (os : Os S) (doc : Documented os) where
  get_params-params : (s : S) → get_params os s ≡ (doc.params s, s)
  unfolding get_params
  get_params-params s = rw (doc.gets s)

  -- Every branch of `set_params`, by the parameters that it leaves.
  set_params-params :
      (policy priority : ℤ) (s : S)
      → (((set_params os policy priority s).0 ≡ true)
          × (doc.params (set_params os policy priority s).1 ≡ (
            policy,
            clamp priority
                (os.priority_min policy s).0
                (os.priority_max policy (os.priority_min policy s).1).0,
          )))
        ⊎ (((set_params os policy priority s).0 ≡ false)
            × (doc.params (set_params os policy priority s).1 ≡ doc.params s))
  unfolding set_params
  set_params-params policy priority s =
      let low = os.priority_min policy s in
      let high = os.priority_max policy low.1 in
      let cut = clamp priority low.0 high.0 in
      let done = os.setschedparam policy cut high.1 in
      let kept_low : doc.params low.1 ≡ doc.params s = doc.priority_min_keeps policy s in
      let kept_high : doc.params high.1 ≡ doc.params s =
        doc.priority_max_keeps policy low.1 ∙ kept_low in
      elim (Bool-cases (is_policy os policy)) [
        | inr other ↦ rw other (inr (refl, doc.errno_keeps os.einval s))
        | inl known ↦ rw known (elim (Bool-cases (eq_ℤ low.0 minus_one)) [
          | inl no_low ↦ rw no_low (inr (refl, kept_low))
          | inr has_low ↦ rw has_low (elim (Bool-cases (eq_ℤ high.0 minus_one)) [
            | inl no_high ↦ rw no_high (inr (refl, kept_high))
            | inr has_high ↦ rw has_high (elim (Bool-cases (eq_ℤ done.0 (pos 0))) [
              | inl set ↦ rw set (inl (refl, doc.sets policy cut high.1 set))
              | inr failed ↦ rw failed (
                  inr (
                    refl,
                    doc.errno_keeps done.0 done.1 ∙ doc.fails policy cut high.1 failed ∙ kept_high,
                  ))
            ])
          ])
        ])
      ]

  -- When `set_params` succeeds, `get_params` returns the policy with the priority cut to the bounds
  -- that the system has for it; when it does not, `get_params` returns what it returned before.
  pub set_params-get_params :
      (policy priority : ℤ) (s : S)
      → (((set_params os policy priority s).0 ≡ true)
          × ((get_params os (set_params os policy priority s).1).0 ≡ (
            policy,
            clamp priority
                (os.priority_min policy s).0
                (os.priority_max policy (os.priority_min policy s).1).0,
          )))
        ⊎ (((set_params os policy priority s).0 ≡ false)
            × ((get_params os (set_params os policy priority s).1).0 ≡ (get_params os s).0))
  set_params-get_params policy priority s =
      rw (get_params-params (set_params os policy priority s).1, get_params-params s)
        (set_params-params policy priority s)

-- A priority cut to bounds lies within them.
pub clamp_bounds :
    (v lo hi : ℤ)
    → ltb_ℤ hi lo ≡ false
    → (ltb_ℤ (clamp v lo hi) lo ≡ false) × (ltb_ℤ hi (clamp v lo hi) ≡ false)
clamp_bounds v lo hi h = ground arith
