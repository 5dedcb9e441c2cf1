-- ===== src/UniqueFunction/Once.antt =====
-- How often an object is called.
use parallel_operations_tool.Prelude.{
  ℕ, ◌+◌, ◌≤◌, ◌<◌, ◌==◌, ◌≡◌, inl, inr, refl, sym, ap, ◌∙◌, subst, if◌then◌else◌, Option, none,
  some, List, [], ◌∷◌, ◌++◌, arith, update, sum_of, sum_of-update, sum_of-zero, Bool-cases,
  Option-cases,
}
use parallel_operations_tool.UniqueFunction.{
  Callable, Event, executed, destroyed, empty, Op, construct, move_construct, move_assign, invoke,
  clear, run,
}
use parallel_operations_tool.UniqueFunction.Spec
use parallel_operations_tool.UniqueFunction.Spec.{dropped, handed_over}
use parallel_operations_tool.UniqueFunction.Owned.{nothing, joined, run_owned}

module _ (x : ℕ) where
  -- The calls of the object `x`, and its constructions.
  abbrev pub calls : List Event → ℕ
  calls [] = 0
  calls (executed c ∷ es) = (if c.name == x then 1 else 0) + calls es
  calls (destroyed c ∷ es) = calls es

  abbrev pub builds : List Op → ℕ
  builds [] = 0
  builds (construct i c ∷ ops) = (if c.name == x then 1 else 0) + builds ops
  builds (op ∷ ops) = builds ops

  abbrev pub weight : Option Callable → ℕ
  weight none = 0
  weight (some c) = if c.name == x then 1 else 0

  calls-append : (es fs : List Event) → calls (es ++ fs) ≡ calls es + calls fs
  calls-append [] fs = omega arith
  calls-append (executed c ∷ es) fs = omega (arith, calls-append es fs)
  calls-append (destroyed c ∷ es) fs = calls-append es fs

  calls-dropped : (o : Option Callable) → calls (dropped o) ≡ 0
  calls-dropped none = refl
  calls-dropped (some c) = ground arith

  -- The variables of an operation are among the first `n`.
  abbrev pub IsBelow : ℕ → Op → Type 0
  IsBelow n (construct i c) = i < n
  IsBelow n (move_construct dst src) = (dst < n) × (src < n)
  IsBelow n (move_assign dst src) = (dst < n) × (src < n)
  IsBelow n (invoke i) = i < n
  IsBelow n (clear i) = i < n

  abbrev pub AllBelow : ℕ → List Op → Type 0
  AllBelow n [] = Unit
  AllBelow n (op ∷ ops) = IsBelow n op × AllBelow n ops

  move-le :
      (n : ℕ) (owners : ℕ → Option Callable) (dst src : ℕ)
      → dst < n
      → src < n
      → sum_of weight n (handed_over owners dst src) ≤ sum_of weight n owners
  move-le n owners dst src hd hs = omega (
    arith,
    sum_of-update weight n owners src none hs,
    sum_of-update weight n (update owners src none) dst (owners src) hd,
  )

  -- The events and the owners that a step gives are those that the bound is about.
  bound_of :
      (n bound : ℕ) (step : Option (List Event × (ℕ → Option Callable)))
      (events events' : List Event) (after after' : ℕ → Option Callable)
      → step ≡ some (events, after)
      → step ≡ some (events', after')
      → calls events + sum_of weight n after ≤ bound
      → calls events' + sum_of weight n after' ≤ bound
  bound_of n bound step events events' after after' e e' le =
      let same_events : events ≡ events' = cc in
      let same_after : after ≡ after' = cc in
      subst (λ es. calls es + sum_of weight n after' ≤ bound) same_events
        (subst (λ os. calls events + sum_of weight n os ≤ bound) same_after le)

  -- A step calls objects that variables own, and each once.
  step-le :
      (n : ℕ) (owners after : ℕ → Option Callable) (op : Op) (events : List Event)
      → IsBelow n op
      → Spec.step owners op ≡ some (events, after)
      → calls events + sum_of weight n after ≤ builds (op ∷ []) + sum_of weight n owners
  unfolding Spec.step
  step-le n owners after (construct i c) events below e = elim (Option-cases (owners i)) [
    | inl free ↦
        bound_of n _ (Spec.step owners (construct i c)) [] events (update owners i (some c)) after
          (ground arith) e (omega (arith, sum_of-update weight n owners i (some c) below))
    | inr (d, taken) ↦ absurd (ground arith)
  ]
  step-le n owners after (move_construct dst src) events (hd, hs) e =
      elim (Option-cases (owners dst)) [
        | inl free ↦ elim (Bool-cases (dst == src)) [
          | inl same ↦ absurd (ground arith)
          | inr other ↦
              bound_of n _ (Spec.step owners (move_construct dst src)) [] events
                (handed_over owners dst src) after (rw (Spec.step, free, other) refl) e
                (omega (arith, move-le n owners dst src hd hs))
        ]
        | inr (d, taken) ↦ absurd (ground arith)
      ]
  step-le n owners after (move_assign dst src) events (hd, hs) e = elim (Bool-cases (dst == src)) [
    | inl same ↦
        bound_of n _ (Spec.step owners (move_assign dst src)) [] events owners after
          (rw (Spec.step, same) refl) e (omega arith)
    | inr other ↦
        bound_of n _ (Spec.step owners (move_assign dst src)) (dropped (owners dst)) events
          (handed_over owners dst src) after (rw (Spec.step, other) refl) e
          (omega (arith, move-le n owners dst src hd hs, calls-dropped (owners dst)))
  ]
  step-le n owners after (invoke i) events below e = elim (Option-cases (owners i)) [
    | inl free ↦ absurd (ground arith)
    | inr (c, held) ↦
        bound_of n _ (Spec.step owners (invoke i)) (executed c ∷ destroyed c ∷ []) events
          (update owners i none) after (ground arith) e
          (omega (arith, sum_of-update weight n owners i none below, ap weight held))
  ]
  step-le n owners after (clear i) events below e =
      bound_of n _ (Spec.step owners (clear i)) (dropped (owners i)) events (update owners i none)
        after refl e
        (omega (arith, sum_of-update weight n owners i none below, calls-dropped (owners i)))

  builds-cons : (op : Op) (ops : List Op) → builds (op ∷ ops) ≡ builds (op ∷ []) + builds ops
  builds-cons (construct i c) ops = omega arith
  builds-cons (move_construct dst src) ops = omega arith
  builds-cons (move_assign dst src) ops = omega arith
  builds-cons (invoke i) ops = omega arith
  builds-cons (clear i) ops = omega arith

  joined-some :
      (first events : List Event) (rest : Option (List Event))
      → joined first rest ≡ some events
      → (more : List Event) × (rest ≡ some more) × (events ≡ first ++ more)
  joined-some first events none h = absurd (ground arith)
  joined-some first events (some more) h = (more, refl, ground arith)

  -- A run of several operations, by what the first of them gives.
  run-cases :
      (owners : ℕ → Option Callable) (op : Op) (ops : List Op) (events : List Event)
      (r : Option (List Event × (ℕ → Option Callable)))
      → Spec.step owners op ≡ r
      → Spec.run owners (op ∷ ops) ≡ some events
      → (first : List Event) × (after : ℕ → Option Callable) × (more : List Event) × (Spec.step
            owners op
          ≡ some (first, after))
        × (Spec.run after ops ≡ some more)
        × (events ≡ first ++ more)
  unfolding Spec.run
  run-cases owners op ops events none e h = absurd (ground arith)
  run-cases owners op ops events (some (first, after)) e h =
      let one : Spec.run owners (op ∷ ops) ≡ joined first (Spec.run after ops) =
        rw (Spec.run, e) refl in
      let (more, e', split) = joined-some first events (Spec.run after ops) (sym one ∙ h) in
      (first, after, more, e, e', split)

  calls-run :
      (n : ℕ) (ops : List Op) (owners : ℕ → Option Callable) (events : List Event)
      → AllBelow n ops
      → Spec.run owners ops ≡ some events
      → calls events ≤ builds ops + sum_of weight n owners
  unfolding Spec.run
  calls-run n [] owners events below h =
      let none_left : events ≡ [] = cc in rw none_left (omega arith)
  calls-run n (op ∷ ops) owners events (b, bs) h =
      let (first, after, more, e, e', joined) =
        run-cases owners op ops events (Spec.step owners op) refl h in
      omega (
        arith,
        ap calls joined,
        calls-append first more,
        step-le n owners after op first b e,
        calls-run n ops after more bs e',
        builds-cons op ops,
      )

  -- In a program that starts with empty variables, `n` of them, an object is called at most as often
  -- as it was made into a function: once if it was made once, whatever moves there are.
  pub called_once :
      (n : ℕ) (ops : List Op) (events : List Event)
      → AllBelow n ops
      → run (λ i. empty) ops ≡ some events
      → calls events ≤ builds ops
  called_once n ops events below h = omega (
    arith,
    calls-run n ops (λ i. none) events below
        (sym (run_owned ops (λ i. empty) (λ i. none) (λ i. nothing refl)) ∙ h),
    sum_of-zero weight n (λ i. none) (λ i. refl),
  )
