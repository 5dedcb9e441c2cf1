-- ===== src/Pools/Kept.antt =====
-- What the executors with one queue do with the tasks that they accept.
use mathlib.Core.List.{Perm, perm_middle}
use mathlib.Core.List.Perm
use parallel_operations_tool.Prelude.{
  ℕ, ◌≡◌, refl, ap, ◌∙◌, subst, true, Option, none, some, List, [], ◌∷◌, ◌++◌, arith, append-nil,
  inl, inr, leb, Bool-cases,
}
use parallel_operations_tool.BoundedQueue
use parallel_operations_tool.Pools.{
  Global, Submitted, accepted, submit_global, shutdown_global, put_hot, put_bounded, put_first,
  put_last,
}
use parallel_operations_tool.Pools.History.{
  Event, ins, outs, rest, play-fifo, play-Perm, play-stopped, shutdown-tasks, shutdown-stop,
}
use parallel_operations_tool.Pools.Gq
use parallel_operations_tool.Pools.Gs
use parallel_operations_tool.Pools.GsHot
use parallel_operations_tool.Pools.Lfgq

module _ {T : Type 0} where
  -- What an accepted submission tells, by what `put` gives.
  submitted_by :
      (put : List T → Option (List T)) (p q : Global (List T)) (r : Option (List T))
      → put p.tasks ≡ r
      → submit_global put p ≡ accepted q
      → put p.tasks ≡ some q.tasks
  unfolding submit_global
  submitted_by put p q none e h = absurd (ground arith)
  submitted_by put p q (some l) e h = ground arith

  submit-accepted :
      (put : List T → Option (List T)) (p q : Global (List T))
      → submit_global put p ≡ accepted q
      → put p.tasks ≡ some q.tasks
  submit-accepted put p q h = submitted_by put p q (put p.tasks) refl h

  submit-stopped :
      (put : List T → Option (List T)) (p q : Global (List T))
      → p.stop ≡ true
      → submit_global put p ≡ accepted q
      → ⊥
  unfolding submit_global
  submit-stopped put p q e h = ground arith

  put_hot-Perm : (runs : ℕ) (t : T) (l r : List T) → put_hot runs t l ≡ some r → Perm r (t ∷ l)
  put_hot-Perm runs t l r h = elim (Bool-cases (leb runs 10)) [
    | inl hot ↦ subst (λ x. Perm x (t ∷ l)) (ground arith) (Perm.refl (t ∷ l))
    | inr cold ↦
        subst (λ x. Perm x (t ∷ l)) (ground arith)
          (subst (λ x. Perm (l ++ (t ∷ [])) (t ∷ x)) (append-nil l) (perm_middle l []))
  ]

  put_bounded-some : (t : T) (l r : List T) → put_bounded t l ≡ some r → r ≡ l ++ (t ∷ [])
  unfolding BoundedQueue.push
  put_bounded-some t l r h = ground arith

  -- `derived_execute` of the four executors as `play` takes it; only one looks at `run_count`.
  abbrev pub gq : Global (List T) → ℕ → T → Submitted (Global (List T))
  gq p runs func = Gq.derived_execute p func

  abbrev pub gs : Global (List T) → ℕ → T → Submitted (Global (List T))
  gs p runs func = Gs.derived_execute p func

  abbrev pub gs_hot : Global (List T) → ℕ → T → Submitted (Global (List T))
  gs_hot p runs func = GsHot.derived_execute p runs func

  abbrev pub lfgq : Global (List T) → ℕ → T → Submitted (Global (List T))
  lfgq p runs func = Lfgq.derived_execute p func

  -- The executor with one queue: over any sequence of submissions, rounds of workers and shutdowns,
  -- the tasks that ran and those left, one after the other, are those that were there and those
  -- accepted since, in order.
  gq_fifo :
      (p : Global (List T)) (es : List (Event T))
      → outs gq p es ++ rest gq p es ≡ p.tasks ++ ins gq p es
  unfolding Gq.derived_execute
  gq_fifo p es =
      play-fifo gq
        (λ p q runs func h.
          let e : some (p.tasks ++ (func ∷ [])) ≡ some q.tasks =
            submit-accepted (put_last func) p q h in
          cc)
        es p

  -- The same for the executor with one lock-free queue, which may turn a submission away when full.
  pub lfgq_fifo :
      (p : Global (List T)) (es : List (Event T))
      → outs lfgq p es ++ rest lfgq p es ≡ p.tasks ++ ins lfgq p es
  unfolding Lfgq.derived_execute
  lfgq_fifo p es =
      play-fifo lfgq
        (λ p q runs func h.
          put_bounded-some func p.tasks q.tasks (submit-accepted (put_bounded func) p q h))
        es p

  -- The executor with one stack loses no task and runs none twice.
  pub gs_kept :
      (p : Global (List T)) (es : List (Event T))
      → Perm (outs gs p es ++ rest gs p es) (p.tasks ++ ins gs p es)
  unfolding Gs.derived_execute
  gs_kept p es =
      play-Perm gs
        (λ p q runs func h.
          let e : some (func ∷ p.tasks) ≡ some q.tasks = submit-accepted (put_first func) p q h in
          subst (λ l. Perm l (func ∷ p.tasks)) (cc) (Perm.refl (func ∷ p.tasks)))
        es p

  -- The executor that puts coroutines with few runs first loses no task and runs none twice.
  pub gs_hot_kept :
      (p : Global (List T)) (es : List (Event T))
      → Perm (outs gs_hot p es ++ rest gs_hot p es) (p.tasks ++ ins gs_hot p es)
  unfolding GsHot.derived_execute
  gs_hot_kept p es =
      play-Perm gs_hot
        (λ p q runs func h.
          put_hot-Perm runs func p.tasks q.tasks (submit-accepted (put_hot runs func) p q h))
        es p

  -- After its shutdown the executor with one queue accepts nothing more, and what runs are the first
  -- of the tasks that were in the queue.
  pub gq-shutdown :
      (p : Global (List T)) (es : List (Event T))
      → (ins gq (Gq.shutdown p) es ≡ [])
        × (outs gq (Gq.shutdown p) es ++ rest gq (Gq.shutdown p) es ≡ p.tasks)
  unfolding Gq.derived_execute Gq.shutdown
  gq-shutdown p es =
      let none_in =
        play-stopped gq (λ p q runs func e h. submit-stopped (put_last func) p q e h) es
          (shutdown_global p) (shutdown-stop gq p) in
      (
        none_in,
        gq_fifo (shutdown_global p) es
            ∙ ap (λ l. (shutdown_global p).tasks ++ l) none_in
            ∙ append-nil (shutdown_global p).tasks
            ∙ shutdown-tasks gq p,
      )
