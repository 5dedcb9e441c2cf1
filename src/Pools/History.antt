-- ===== src/Pools/History.antt =====
-- What the executors with one queue run, over any sequence of submissions, rounds of workers and
-- shutdowns.
use mathlib.Core.List.{Perm, perm_middle}
use mathlib.Core.List.Perm
use parallel_operations_tool.Prelude.{
  ℕ, ◌≡◌, ◌⊎◌, inl, inr, refl, sym, ap, ◌∙◌, subst, Bool, true, false, List, [], ◌∷◌, ◌++◌, arith,
  append_assoc, append-nil,
}
use parallel_operations_tool.Pools.{
  Global, Submitted, accepted, stopped, no_thread, full, Turn, run, shutdown_global, turn_global,
  take_first,
}

pub data Event {ℓ} (T : Type ℓ) : Type ℓ where
  submit : (runs : ℕ) (func : T) → Event T
  work : (stop stop_again : Bool) → Event T
  close : Event T

abbrev pub ran {ℓ} : {T : Type ℓ} → Turn T → List T → List T
ran (run t) ts = t ∷ ts
ran what ts = ts

module _ {ℓ} {T : Type ℓ} where
  -- The tasks that are accepted, those that are run, both in order, and the executor behind it all.
  -- `execute` is `derived_execute`; `runs` is the `run_count` that comes with a submission.
  unfoldable pub play :
      (Global (List T) → ℕ → T → Submitted (Global (List T)))
      → Global (List T)
      → List (Event T)
      → List T × List T × Global (List T)
  play execute p [] = ([], [], p)
  play execute p (submit runs func ∷ es) = elim (execute p runs func) [
    | accepted q ↦ let (ins, outs, r) = play execute q es in (func ∷ ins, outs, r)
    | stopped ↦ play execute p es
    | no_thread ↦ play execute p es
    | full ↦ play execute p es
  ]
  play execute p (work stop stop_again ∷ es) =
      let (what, q) = turn_global take_first stop stop_again p in
      let (ins, outs, r) = play execute q es in (ins, ran what outs, r)
  play execute p (close ∷ es) = play execute (shutdown_global p) es

  module _ (execute : Global (List T) → ℕ → T → Submitted (Global (List T))) where
    abbrev pub ins : Global (List T) → List (Event T) → List T
    ins p es = (play execute p es).0

    abbrev pub outs : Global (List T) → List (Event T) → List T
    outs p es = (play execute p es).1

    abbrev pub rest : Global (List T) → List (Event T) → List T
    rest p es = (play execute p es).2.tasks

    play-submit :
        (p : Global (List T)) (runs : ℕ) (func : T) (es : List (Event T))
        (s : Submitted (Global (List T)))
        → execute p runs func ≡ s
        → ((q : Global (List T)) × (execute p runs func ≡ accepted q)
            × (play execute p (submit runs func ∷ es)
                ≡ (func ∷ (play execute q es).0, (play execute q es).1, (play execute q es).2)))
          ⊎ (play execute p (submit runs func ∷ es) ≡ play execute p es)
    unfolding play
    play-submit p runs func es (accepted q) e = inl (q, e, rw (play, e) refl)
    play-submit p runs func es stopped e = inr (rw (play, e) refl)
    play-submit p runs func es no_thread e = inr (rw (play, e) refl)
    play-submit p runs func es full e = inr (rw (play, e) refl)

    -- A round runs the first task, or leaves the queue as it is.
    turn-cases :
        (stop again : Bool) (p : Global (List T)) (tasks : List T)
        → p.tasks ≡ tasks
        → ((t : T) × (ts : List T) × (p.tasks ≡ t ∷ ts)
            × (turn_global take_first stop again p ≡ (run t, record p { tasks = ts })))
          ⊎ (((outs : List T) → ran (turn_global take_first stop again p).0 outs ≡ outs)
              × ((turn_global take_first stop again p).1.tasks ≡ p.tasks))
    unfolding turn_global take_first
    turn-cases true again p tasks e = inr ((λ l. refl), refl)
    turn-cases false true p [] e = inr ((λ l. ground arith), ground arith)
    turn-cases false false p [] e = inr ((λ l. ground arith), ground arith)
    turn-cases false again p (t ∷ ts) e = inl (t, ts, e, ground arith)

    play-work :
        (stop again : Bool) (p : Global (List T)) (es : List (Event T))
        → let q = (turn_global take_first stop again p).1 in
          (ins p (work stop again ∷ es) ≡ ins q es)
          × (outs p (work stop again ∷ es)
              ≡ ran (turn_global take_first stop again p).0 (outs q es))
          × (rest p (work stop again ∷ es) ≡ rest q es)
    unfolding play
    play-work stop again p es = (refl, refl, refl)

    pub shutdown-tasks : (p : Global (List T)) → (shutdown_global p).tasks ≡ p.tasks
    unfolding shutdown_global
    shutdown-tasks p = ground arith

    turn-stop :
        (stop again : Bool) (p : Global (List T))
        → (turn_global take_first stop again p).1.stop ≡ p.stop
    unfolding turn_global
    turn-stop stop again p = ground arith

    pub shutdown-stop : (p : Global (List T)) → (shutdown_global p).stop ≡ true
    unfolding shutdown_global
    shutdown-stop p = ground arith

    -- Tasks run in the order in which a queue takes them.
    pub play-fifo :
        ((p q : Global (List T)) (runs : ℕ) (func : T)
          → execute p runs func ≡ accepted q
          → q.tasks ≡ p.tasks ++ (func ∷ []))
        → (es : List (Event T)) (p : Global (List T)) → outs p es ++ rest p es ≡ p.tasks ++ ins p es
    unfolding play
    play-fifo law [] p = sym (append-nil p.tasks)
    play-fifo law (submit runs func ∷ es) p =
        elim (play-submit p runs func es (execute p runs func) refl) [
          | inl (q, e, r) ↦
              ap (λ x. x.1 ++ x.2.tasks) r
              ∙ play-fifo law es q
              ∙ ap (λ l. l ++ ins q es) (law p q runs func e)
              ∙ append_assoc p.tasks (func ∷ []) (ins q es)
              ∙ sym (ap (λ x. p.tasks ++ x.0) r)
          | inr r ↦
              ap (λ x. x.1 ++ x.2.tasks) r ∙ play-fifo law es p ∙ sym (ap (λ x. p.tasks ++ x.0) r)
        ]
    play-fifo law (work stop again ∷ es) p =
        let q = (turn_global take_first stop again p).1 in
        elim (turn-cases stop again p p.tasks refl) [
          | inl (t, ts, e, r) ↦
              ap (λ x. ran x.0 (outs x.1 es) ++ rest x.1 es) r
              ∙ ap (λ l. t ∷ l) (play-fifo law es (record p { tasks = ts }))
              ∙ ap (λ l. l ++ ins (record p { tasks = ts }) es) (sym e)
              ∙ ap (λ x. p.tasks ++ ins x.1 es) (sym r)
          | inr (idle, same) ↦
              ap (λ l. l ++ rest q es) (idle (outs q es))
              ∙ play-fifo law es q
              ∙ ap (λ l. l ++ ins q es) same
        ]
    play-fifo law (close ∷ es) p =
        play-fifo law es (shutdown_global p)
        ∙ ap (λ l. l ++ ins (shutdown_global p) es) (shutdown-tasks p)

    -- No task is lost or run twice, in whatever order they run.
    pub play-Perm :
        ((p q : Global (List T)) (runs : ℕ) (func : T)
          → execute p runs func ≡ accepted q
          → Perm q.tasks (func ∷ p.tasks))
        → (es : List (Event T)) (p : Global (List T))
        → Perm (outs p es ++ rest p es) (p.tasks ++ ins p es)
    unfolding play
    play-Perm law [] p = subst (λ l. Perm p.tasks l) (sym (append-nil p.tasks)) (Perm.refl p.tasks)
    play-Perm law (submit runs func ∷ es) p =
        elim (play-submit p runs func es (execute p runs func) refl) [
          | inl (q, e, r) ↦
              subst (λ x. Perm (x.1 ++ x.2.tasks) (p.tasks ++ x.0)) (sym r)
                (Perm.trans (play-Perm law es q) (
                  Perm.trans (Perm.append_right (ins q es) (law p q runs func e))
                    (Perm.symm (perm_middle p.tasks (ins q es)))))
          | inr r ↦
              subst (λ x. Perm (x.1 ++ x.2.tasks) (p.tasks ++ x.0)) (sym r) (play-Perm law es p)
        ]
    play-Perm law (work stop again ∷ es) p =
        let q = (turn_global take_first stop again p).1 in
        elim (turn-cases stop again p p.tasks refl) [
          | inl (t, ts, e, r) ↦
              subst (λ x. Perm (ran x.0 (outs x.1 es) ++ rest x.1 es) (p.tasks ++ ins x.1 es))
                (sym r)
                (subst
                  (λ l.
                    Perm
                      (t ∷ (outs (record p { tasks = ts }) es ++ rest (record p { tasks = ts }) es))
                      (l ++ ins (record p { tasks = ts }) es))
                  (sym e) (Perm.cons t (play-Perm law es (record p { tasks = ts }))))
          | inr (idle, same) ↦
              subst (λ l. Perm (l ++ rest q es) (p.tasks ++ ins q es)) (sym (idle (outs q es)))
                (subst (λ l. Perm (outs q es ++ rest q es) (l ++ ins q es)) same
                  (play-Perm law es q))
        ]
    play-Perm law (close ∷ es) p =
        subst
          (λ l.
            Perm (outs (shutdown_global p) es ++ rest (shutdown_global p) es)
              (l ++ ins (shutdown_global p) es))
          (shutdown-tasks p) (play-Perm law es (shutdown_global p))

    -- An executor that is told to stop takes no more tasks.
    pub play-stopped :
        ((p q : Global (List T)) (runs : ℕ) (func : T)
          → p.stop ≡ true
          → execute p runs func ≡ accepted q
          → ⊥)
        → (es : List (Event T)) (p : Global (List T)) → p.stop ≡ true
        → ins p es ≡ []
    unfolding play
    play-stopped law [] p e = refl
    play-stopped law (submit runs func ∷ es) p e =
        elim (play-submit p runs func es (execute p runs func) refl) [
          | inl (q, went, r) ↦ absurd (law p q runs func e went)
          | inr r ↦ ap (λ x. x.0) r ∙ play-stopped law es p e
        ]
    play-stopped law (work stop again ∷ es) p e =
        play-stopped law es (turn_global take_first stop again p).1 (turn-stop stop again p ∙ e)
    play-stopped law (close ∷ es) p e = play-stopped law es (shutdown_global p) (shutdown-stop p)
