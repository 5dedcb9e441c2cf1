-- ===== src/Pools/Rounds.antt =====
-- Where the executor with a queue for each thread puts its tasks: one queue after the other.
use native.Mathlib.Nat.{mod-eq_of_lt, mod-lt}
use parallel_operations_tool.Prelude.{
  ℕ, ◌+◌, ◌-◌, ◌/◌, ◌%◌, ◌^◌, ◌<◌, ◌≡◌, ◌≢◌, refl, sym, ap, ap₂, ◌∙◌, false, List, [], ◌∷◌, ◌++◌,
  arith, add_size, subst, ℕ_discrete, length, get_elem?, length-snoc, get_elem?-snoc,
  get_elem?-append_left, append_assoc, append-nil,
}
use parallel_operations_tool.Pools.{
  Local, Submitted, accepted, stopped, no_thread, full, init_local, submit_local, next_queue,
  put_local,
}
use parallel_operations_tool.Pools.Lq.{init, derived_execute}
use parallel_operations_tool.Pools.Share.{share, share_self, share_other, share_zero, place-lt}

module _ {T : Type 0} where
  -- The submissions of a list of tasks, one after the other.
  unfoldable pub submit_all : Local (List T) → List T → Submitted (Local (List T))
  submit_all p [] = accepted p
  submit_all p (t ∷ ts) = elim (derived_execute p t) [
    | accepted q ↦ submit_all q ts
    | stopped ↦ stopped
    | no_thread ↦ no_thread
    | full ↦ full
  ]

  submit_all-accepted :
      (p q : Local (List T)) (t : T) (ts : List T)
      → derived_execute p t ≡ accepted q
      → submit_all p (t ∷ ts) ≡ submit_all q ts
  unfolding submit_all
  submit_all-accepted p q t ts e = rw (submit_all, e) refl

  -- The tasks `ts` are dealt out to `n` queues.
  pub record Dealt (n : ℕ) (ts : List T) (p : Local (List T)) : Type 0 where
    pub threads : p.threads ≡ n
    pub running : p.stop ≡ false
    pub next : p.next_thread_idx ≡ length ts
    pub size : (i : ℕ) → i < n → length (p.contexts i).tasks ≡ share n (length ts) i
    pub place :
        (k : ℕ) → k < length ts → get_elem? (p.contexts (k % n)).tasks (k / n) ≡ get_elem? ts k

  module _ (n : ℕ) (pos : 0 < n) where
    init-Dealt : Dealt n [] (init n)
    unfolding init init_local
    init-Dealt = record {
      threads = refl;
      running = refl;
      next = refl;
      size = λ i hi. sym (share_zero n i pos);
      place = λ k hk. absurd (omega arith);
    }

    module _ (ts : List T) (t : T) (p : Local (List T)) (d : Dealt n ts p)
        (small : length ts < 2 ^ 64 - 1) where
      open d use {threads, running, next, size, place}

      turn_of : next_queue p ≡ length ts % n
      turn_of = ap₂ (λ a b. a % b) next threads

      -- The queue whose turn it is, and the executor with the task at its end.
      abbrev old : List T
      old = (p.contexts (next_queue p)).tasks

      abbrev after : Local (List T)
      after = put_local p (old ++ (t ∷ []))

      execute_eq : derived_execute p t ≡ accepted after
      unfolding derived_execute submit_local
      execute_eq = ground (arith, threads, running)

      length-old : length old ≡ length ts / n
      length-old =
          ap (λ i. length (p.contexts i).tasks) turn_of
          ∙ size (length ts % n) (mod-lt (length ts) pos)
          ∙ ground arith

      tasks_self : (i : ℕ) → i ≡ length ts % n → (after.contexts i).tasks ≡ old ++ (t ∷ [])
      tasks_self i e = ground (arith, turn_of)

      tasks_other : (i : ℕ) → i ≢ length ts % n → (after.contexts i).tasks ≡ (p.contexts i).tasks
      tasks_other i ne = ground (arith, turn_of)

      size_after : (i : ℕ) → i < n → length (after.contexts i).tasks ≡ share n (length ts + 1) i
      size_after i hi = elim (ℕ_discrete i (length ts % n)) [
        | yes e ↦
            ap length (tasks_self i e)
            ∙ length-snoc old t
            ∙ ap (λ x. x + 1) length-old
            ∙ sym (share_self n (length ts) pos)
            ∙ ap (share n (length ts + 1)) (sym e)
        | no ne ↦
            ap length (tasks_other i ne) ∙ size i hi ∙ sym (share_other n (length ts) i pos hi ne)
      ]

      place_last :
          get_elem? (after.contexts (length ts % n)).tasks (length ts / n)
          ≡ get_elem? (ts ++ (t ∷ [])) (length ts)
      place_last =
          ap (λ l. get_elem? l (length ts / n)) (tasks_self (length ts % n) refl)
          ∙ get_elem?-snoc old t (length ts / n) (sym length-old)
          ∙ sym (get_elem?-snoc ts t (length ts) refl)

      place_before :
          (k : ℕ)
          → k < length ts
          → get_elem? (after.contexts (k % n)).tasks (k / n) ≡ get_elem? (ts ++ (t ∷ [])) k
      place_before k hk = elim (ℕ_discrete (k % n) (length ts % n)) [
        | yes e ↦
            let short = place-lt n k (length ts) hk e in
            ap (λ l. get_elem? l (k / n)) (tasks_self (k % n) e)
            ∙ get_elem?-append_left old (t ∷ []) (k / n) (omega (arith, length-old))
            ∙ ap (λ i. get_elem? (p.contexts i).tasks (k / n)) (turn_of ∙ sym e)
            ∙ place k hk
            ∙ sym (get_elem?-append_left ts (t ∷ []) k hk)
        | no ne ↦
            ap (λ l. get_elem? l (k / n)) (tasks_other (k % n) ne)
            ∙ place k hk
            ∙ sym (get_elem?-append_left ts (t ∷ []) k hk)
      ]

      derived_execute-Dealt : Dealt n (ts ++ (t ∷ [])) after
      derived_execute-Dealt = record {
        threads = threads;
        running = running;
        next = ap (λ x. add_size x 1) next ∙ mod-eq_of_lt (omega arith) ∙ sym (length-snoc ts t);
        size = λ i hi. size_after i hi ∙ ap (λ x. share n x i) (sym (length-snoc ts t));
        place = λ k hk. elim (ℕ_discrete k (length ts)) [
          | yes e ↦
              subst
                (λ j.
                  get_elem? (after.contexts (j % n)).tasks (j / n) ≡ get_elem? (ts ++ (t ∷ [])) j)
                (sym e) place_last
          | no ne ↦ place_before k (omega (arith, hk, length-snoc ts t))
        ];
      }

    submit_all-Dealt :
        (done ts : List T) (p : Local (List T))
        → Dealt n done p
        → length done + length ts < 2 ^ 64
        → (p' : Local (List T)) × (submit_all p ts ≡ accepted p') × Dealt n (done ++ ts) p'
    unfolding submit_all
    submit_all-Dealt done [] p d small =
        (p, refl, subst (λ l. Dealt n l p) (sym (append-nil done)) d)
    submit_all-Dealt done (t ∷ ts) p d small =
        let step = execute_eq done t p d (omega arith) in
        let (p', run, dealt) =
          submit_all-Dealt (done ++ (t ∷ [])) ts (after done t p d (omega arith))
            (derived_execute-Dealt done t p d (omega arith)) (omega (arith, length-snoc done t)) in
        (
          p',
          submit_all-accepted p _ t ts step ∙ run,
          subst (λ l. Dealt n l p') (append_assoc done (t ∷ []) ts) dealt,
        )

    -- On `n` threads, at least one, fewer than 2 ^ 64 submissions to a new executor are accepted.
    -- The queues get an equal share, the first of them one task more where it does not come out
    -- even, and the submission `k` is the task `k / n` of the queue `k % n`.
    round_robin :
        (ts : List T)
        → length ts < 2 ^ 64
        → (p : Local (List T)) × (submit_all (init n) ts ≡ accepted p)
          × ((i : ℕ) → i < n → length (p.contexts i).tasks ≡ share n (length ts) i)
          × ((k : ℕ)
              → k < length ts
              → get_elem? (p.contexts (k % n)).tasks (k / n) ≡ get_elem? ts k)
    round_robin ts small =
        let (p, run, dealt) = submit_all-Dealt [] ts (init n) init-Dealt (omega arith) in
        (p, run, dealt.size, dealt.place)
