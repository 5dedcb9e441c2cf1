-- ===== src/Executors/Run/Shutdown.antt =====
-- What becomes of the functions of `run` when a pool with one queue is shut down.
use parallel_operations_tool.Prelude.{
  ℕ, ◌+◌, ◌≤◌, ◌<◌, ◌≡◌, ◌≢◌, refl, sym, ap, ◌∙◌, Option, none, some, [], ◌∷◌, arith, ◌==◌,
  if◌then◌else◌, update, update_self, update_ne, sum_of, sum_of-update, sum_of-zero, ℕ_discrete,
}
use parallel_operations_tool.Schedule.{count, count-append}
use parallel_operations_tool.Executors
use parallel_operations_tool.Executors.Safety.{shutdown_drains}
use parallel_operations_tool.Executors.Run.{
  queue_executor, Calls, CallStep, move, take, call, finish, CallReach, queued, handed, System,
  Reach,
}
use parallel_operations_tool.Executors.Run.Once.{submits, calls, Reach-Inv}

-- Whether a worker has taken the task out and has not called it.
abbrev in_hand : ℕ → Option ℕ → ℕ
in_hand i none = 0
in_hand i (some t) = if t == i then 1 else 0

module _ (n : ℕ) where
  abbrev hands_with : ℕ → Calls ℕ → ℕ
  hands_with i s = sum_of (in_hand i) n s.hands

  record Held (s : Calls ℕ) : Type 0 where
    reached : Executors.Reach Executors.pool n s.queue
    busy : (j t : ℕ) → s.hands j ≡ some t → (j < n) × (s.queue.workers j ≡ Executors.running)
    counted : (i : ℕ) → count i s.queue.taken ≡ count i s.called + hands_with i s

  Step-Held : {s t : Calls ℕ} → Held s → CallStep Executors.pool n s t → Held t
  Step-Held inv (move u step same stays) = record {
    reached = Executors.later inv.reached step;
    busy = λ j t e. let (l, b) = inv.busy j t e in (l, stays j b);
    counted = λ i. ap (count i) same ∙ inv.counted i;
  }
  Step-Held {s} inv (take j t ts l e q) = record {
    reached = Executors.later inv.reached (Executors.take j t ts l e q);
    busy = λ k u h. elim (ℕ_discrete k j) [
      | yes same ↦ (omega (arith, same), grind arith)
      | no other ↦
          let (l', b) = inv.busy k u (sym (update_ne s.hands j (some t) k other) ∙ h) in
          (l', update_ne s.queue.workers j Executors.running k other ∙ b)
    ];
    counted = λ i. omega (
      arith,
      inv.counted i,
      count-append i s.queue.taken (t ∷ []),
      sum_of-update (in_hand i) n s.hands j (some t) l,
      ap (in_hand i) (free (s.hands j) refl),
      one i,
    );
  }
    where
      free : (h : Option ℕ) → s.hands j ≡ h → s.hands j ≡ none
      free none h = h
      free (some u) h =
          absurd
            (let running : Executors.awake ≡ Executors.running = sym e ∙ (inv.busy j u h).1 in cc)

      one : (i : ℕ) → count i (t ∷ []) ≡ in_hand i (some t)
      one i = ground arith
  Step-Held {s} inv (call j t e) = record {
    reached = inv.reached;
    busy = λ k u h. elim (ℕ_discrete k j) [
      | yes same ↦ absurd (
          let gone : none ≡ some u =
            sym (update_self s.hands j none) ∙ ap (update s.hands j none) (sym same) ∙ h in
          cc)
      | no other ↦ inv.busy k u (sym (update_ne s.hands j none k other) ∙ h)
    ];
    counted = λ i. omega (
      arith,
      inv.counted i,
      count-append i s.called (t ∷ []),
      sum_of-update (in_hand i) n s.hands j none (inv.busy j t e).0,
      ap (in_hand i) e,
      one i,
    );
  }
    where
      one : (i : ℕ) → count i (t ∷ []) ≡ in_hand i (some t)
      one i = ground arith
  Step-Held {s} inv (finish j l e empty) = record {
    reached = Executors.later inv.reached (Executors.finish j l e);
    busy = λ k u h.
        let (l', b) = inv.busy k u h in
        (
          l',
          update_ne s.queue.workers j Executors.awake k
                (λ same. let gone : none ≡ some u = sym empty ∙ ap s.hands (sym same) ∙ h in cc)
              ∙ b,
        );
    counted = inv.counted;
  }

  Reach-Held : {s : Calls ℕ} → CallReach Executors.pool n s → Held s
  Reach-Held CallReach.start = record {
    reached = Executors.start;
    busy = λ j t e. absurd cc;
    counted = λ i. omega (arith, sum_of-zero (in_hand i) n (λ j. none) (λ j. refl));
  }
  Reach-Held (CallReach.later r step) = Step-Held (Reach-Held r) step

  pub pool-fair :
      (s : Calls ℕ)
      → CallReach Executors.pool n s
      → (i : ℕ) → count i s.called ≤ count i s.queue.accepted
  pool-fair s r i =
      let inv = Reach-Held r in
      omega (
        arith,
        inv.counted i,
        ap (count i) (shutdown_drains n inv.reached).0,
        count-append i s.queue.taken s.queue.tasks,
      )

  -- When all workers have returned, no task is in a hand.
  returned-calls :
      {s : Calls ℕ}
      → Held s
      → ((j : ℕ) → j < n → s.queue.workers j ≡ Executors.returned)
      → (i : ℕ) → count i s.queue.taken ≡ count i s.called
  returned-calls {s} inv all i =
      omega
        (arith, inv.counted i, sum_of-zero (in_hand i) n s.hands (λ j. empty j (s.hands j) refl))
    where
      empty : (j : ℕ) (h : Option ℕ) → s.hands j ≡ h → in_hand i (s.hands j) ≡ 0
      empty j none h = ap (in_hand i) h
      empty j (some u) h = absurd (
          let (l, b) = inv.busy j u h in
          let running : Executors.returned ≡ Executors.running = sym (all j l) ∙ b in cc)

-- Once all workers of a pool with one queue have returned from `worker_loop` after a shutdown, no
-- coroutine is left suspended in the pool and no function of `run_detached` is left in it: the function
-- of each that the pool has accepted was called, once.
pub shutdown_calls_all :
    {A E : Type 0} (n : ℕ) {s : System A E (Calls ℕ)} (i : ℕ)
    → Reach (queue_executor ℕ Executors.pool n) s
    → 0 < n
    → ((j : ℕ) → j < n → s.executor.queue.workers j ≡ Executors.returned)
    → (s.runs i ≢ queued)
      × (s.runs i ≢ handed)
      × (count i s.executor.queue.accepted ≡ count i s.invoked)
      × (count i s.executor.queue.accepted ≤ 1)
shutdown_calls_all n {s} i r some_worker all =
    let inv = Reach-Inv (queue_executor ℕ Executors.pool n) (pool-fair n) r in
    let held : Held n s.executor = Reach-Held n inv.reached in
    let drained : count i s.executor.queue.accepted ≡ count i s.executor.called =
      ap (count i) ((shutdown_drains n held.reached).1 0 some_worker (all 0 some_worker))
      ∙ returned-calls n held all i in
    let both : submits (s.runs i) ≡ calls (s.runs i) =
      sym (inv.accepted i) ∙ drained ∙ inv.taken i in
    (
      λ q. ground arith,
      λ q. ground arith,
      drained ∙ inv.taken i ∙ sym (inv.invoked i),
      ground (arith, inv.accepted i),
    )
