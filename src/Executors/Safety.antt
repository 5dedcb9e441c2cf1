-- ===== src/Executors/Safety.antt =====
-- What holds in every state of the executors with one queue.
use parallel_operations_tool.Prelude.{
  ℕ, zero, suc, ◌<◌, ◌≡◌, ◌≢◌, ◌⊎◌, inl, inr, refl, sym, ap, ◌∙◌, subst, Bool, true, false, [], ◌∷◌,
  ◌++◌, append_assoc, append-nil, update, update_self, ℕ_discrete, arith,
}
use parallel_operations_tool.Executors.{
  Kind, pool, single, pushed, stopping, joining, Worker, starting, awake, asleep, running, returned,
  missed, System, Accepts, IsEnded, Step, push, refuse, notify_worker, notify_nobody, shutdown,
  shutdown_again, notify_all, join, begin, miss, wake, wait, leave, take, finish, first, Reach,
  start, later,
}

-- A worker that will look into the queue.
abbrev pub IsAwake : Worker → Type 0
IsAwake starting = Unit
IsAwake awake = Unit
IsAwake running = Unit
IsAwake _ = ⊥

worker_cases : (w : Worker) → w ≢ asleep → IsAwake w ⊎ IsEnded w
worker_cases starting ne = inl tt
worker_cases awake ne = inl tt
worker_cases asleep ne = absurd (ne refl)
worker_cases running ne = inl tt
worker_cases returned ne = inr tt
worker_cases missed ne = inr tt

abbrev pub SomeAwake : ℕ → (ℕ → Worker) → Type 0
SomeAwake n workers = (j : ℕ) × (j < n) × IsAwake (workers j)

abbrev pub AllEnded : ℕ → (ℕ → Worker) → Type 0
AllEnded n workers = (j : ℕ) → j < n → IsEnded (workers j)

-- When nobody is in `wait`, somebody is awake or all have ended.
search_awake :
    (n : ℕ) (workers : ℕ → Worker)
    → ((j : ℕ) → j < n → workers j ≢ asleep)
    → SomeAwake n workers ⊎ AllEnded n workers
search_awake zero workers nobody = inr (λ j l. absurd (omega arith))
search_awake (suc n) workers nobody = elim (worker_cases (workers n) (nobody n (omega arith))) [
  | inl here ↦ inl (n, omega arith, here)
  | inr ended ↦ elim (search_awake n workers (λ j l. nobody j (omega arith))) [
    | inl (j, l, a) ↦ inl (j, omega arith, a)
    | inr all ↦ inr (λ j l. elim (ℕ_discrete j n) [
      | yes last ↦ subst (λ k. IsEnded (workers k)) (sym last) ended
      | no below ↦ all j (omega (arith, below))
    ])
  ]
]

refused : {b : Bool} → b ≡ false → b ≡ true → ⊥
refused f h = cc

first_in_loop : (kind : Kind) → first kind ≢ returned
first_in_loop pool e = cc
first_in_loop single e = cc

first_awake : (kind : Kind) → first kind ≢ asleep
first_awake pool e = cc
first_awake single e = cc

module _ {T : Type 0} (kind : Kind) (n : ℕ) where
  abbrev pub InCall : System T → Type 0
  InCall s = (i : ℕ) × (s.submitters i ≡ pushed)

  record Inv (s : System T) : Type 0 where
    order : s.accepted ≡ s.taken ++ s.tasks
    attended : s.tasks ≢ [] → InCall s ⊎ SomeAwake n s.workers ⊎ AllEnded n s.workers
    notified : (k j : ℕ) → s.closers k ≡ joining → j < n → s.workers j ≢ asleep
    stopped : (k : ℕ) → s.closers k ≡ joining → s.stop ≡ true
    stopping_stopped : (k : ℕ) → s.closers k ≡ stopping → s.stop ≡ true
    left : (j : ℕ) → j < n → s.workers j ≡ returned → s.stop ≡ true
    drained : kind ≡ pool → (j : ℕ) → j < n → s.workers j ≡ returned → s.tasks ≡ []

  Step-Inv : {s t : System T} → Inv s → Step kind n s t → Inv t
  Step-Inv {s} inv (push i t e ok) = record {
    order = ground (arith, append_assoc s.taken s.tasks (t ∷ []));
    attended = λ _. inl (i, update_self s.submitters i pushed);
    notified = inv.notified;
    stopped = inv.stopped;
    stopping_stopped = inv.stopping_stopped;
    left = inv.left;
    drained = λ p m lm r. absurd (refused (subst (λ k. Accepts k s.stop) p ok) (inv.left m lm r));
  }
  Step-Inv inv (refuse i e k h) = ground arith
  Step-Inv {s} inv (notify_worker i j e l w) = record {
    order = inv.order;
    attended = λ _. inr (inl (j, l, subst IsAwake (sym (update_self s.workers j awake)) tt));
    notified = λ k m c lm. ground (arith, inv.notified k m c lm);
    stopped = inv.stopped;
    stopping_stopped = inv.stopping_stopped;
    left = λ m lm r. ground (arith, inv.left m lm);
    drained = λ p m lm r. ground (arith, inv.drained p m lm);
  }
  Step-Inv {s} inv (notify_nobody i e nobody) = record {
    order = inv.order;
    attended = λ _. inr (search_awake n s.workers nobody);
    notified = inv.notified;
    stopped = inv.stopped;
    stopping_stopped = inv.stopping_stopped;
    left = inv.left;
    drained = inv.drained;
  }
  Step-Inv inv (shutdown k e ok) = ground arith
  Step-Inv inv (shutdown_again k e p h) = ground arith
  Step-Inv inv (notify_all k e) = ground arith
  Step-Inv inv (join k e all) = ground arith
  Step-Inv inv (begin j l e) = ground arith
  Step-Inv {s} inv (miss j k l e c) = record {
    order = inv.order;
    attended = λ _. inr (
        search_awake n (update s.workers j missed) (λ m lm. ground (arith, inv.notified k m c lm)));
    notified = λ k m d lm. ground (arith, inv.notified k m d lm);
    stopped = inv.stopped;
    stopping_stopped = inv.stopping_stopped;
    left = λ m lm r. ground (arith, inv.left m lm);
    drained = λ p m lm r. ground (arith, inv.drained p m lm);
  }
  Step-Inv inv (wake j l e) = ground arith
  Step-Inv inv (wait j l e h q) = ground arith
  Step-Inv inv (leave j l e h q) = ground arith
  Step-Inv {s} inv (take j u us l e q) = record {
    order = ground (arith, append_assoc s.taken (u ∷ []) us);
    attended = λ _. inr (inl (j, l, subst IsAwake (sym (update_self s.workers j running)) tt));
    notified = λ k m c lm. ground (arith, inv.notified k m c lm);
    stopped = inv.stopped;
    stopping_stopped = inv.stopping_stopped;
    left = λ m lm r. ground (arith, inv.left m lm);
    drained = λ p m lm r. ground (arith, inv.drained p m lm);
  }
  Step-Inv inv (finish j l e) = ground arith

  Reach-Inv : {s : System T} → Reach kind n s → Inv s
  Reach-Inv start = record {
    order = refl;
    attended = λ ne. absurd (ne refl);
    notified = λ k j c l. first_awake kind;
    stopped = λ k c. cc;
    stopping_stopped = λ k c. cc;
    left = λ j l r. absurd (first_in_loop kind r);
    drained = λ p j l r. refl;
  }
  Reach-Inv (later r step) = Step-Inv (Reach-Inv r) step

  -- While there is a task in the queue, some call of `derived_execute` is before its `notify_one`, or
  -- some worker is going to look into the queue, or all workers have ended.
  pub queue_attended :
      {s : System T}
      → Reach kind n s
      → s.tasks ≢ []
      → InCall s ⊎ SomeAwake n s.workers ⊎ AllEnded n s.workers
  queue_attended r = (Reach-Inv r).attended

  -- Once `shutdown` has notified the workers and while it joins them, no worker is in `wait`.
  pub shutdown_wakes :
      {s : System T}
      → Reach kind n s
      → (k j : ℕ) → s.closers k ≡ joining
      → j < n
      → s.workers j ≢ asleep
  shutdown_wakes r = (Reach-Inv r).notified

-- The tasks of a pool are taken in the order in which they were accepted, and what is not taken is in
-- the queue. Once one worker has returned from `worker_loop`, every task that the pool has accepted
-- was taken: a shutdown runs the queue to its end.
pub shutdown_drains :
    {T : Type 0} (n : ℕ) {s : System T}
    → Reach pool n s
    → (s.accepted ≡ s.taken ++ s.tasks)
      × ((j : ℕ) → j < n → s.workers j ≡ returned → s.accepted ≡ s.taken)
shutdown_drains n {s} r =
    let inv = Reach-Inv pool n r in
    (
      inv.order,
      λ j l e. inv.order ∙ ap (λ ts. s.taken ++ ts) (inv.drained refl j l e) ∙ append-nil s.taken,
    )
