-- ===== src/Executors/RoundRobin/Turns.antt =====
-- How the pools of Executors/RoundRobin.antt share their tasks out.
use parallel_operations_tool.Prelude.{
  ℕ, suc, ◌+◌, ◌%◌, ◌^◌, ◌<◌, ◌≡◌, ◌≢◌, ◌==◌, if◌then◌else◌, sum_of, sum_of-update, sum_of-zero,
  refl, sym, ap, ap₂, ◌∙◌, subst, arith, List, ◌∷◌, length, length-snoc, update, update_self,
  update_ne, ℕ_discrete,
}
use parallel_operations_tool.Schedule.{count}
use parallel_operations_tool.Executors.RoundRobin.{
  Submitter, outside, checked, chosen, calling, Thread, Pool, Step, check, refuse, submit, return,
  move, shutdown, Choose, choose, Reach, start, later, draw, turns,
}

-- A call that has drawn the index `j` and has not given its task to the thread.
abbrev pub bound_for : ℕ → Submitter → ℕ
bound_for j (chosen idx) = if idx == j then 1 else 0
bound_for j _ = 0

module _ {T S : Type 0} (thread : Thread T S) (n callers : ℕ) where
  abbrev pub under_way : ℕ → Pool S → ℕ
  under_way j s = sum_of (bound_for j) callers s.submitters

  record Inv (k : ℕ) (s : Pool S) : Type 0 where
    next : s.next_thread_idx ≡ k % 2 ^ 64
    drawn : k < 2 ^ 64 + 1 → s.choices ≡ turns thread n callers k
    spread : (j : ℕ) → count j s.submitted ≡ length (thread.accepted (s.threads j))
    reached : (j : ℕ) → thread.Reaches (s.threads j)
    known : (i : ℕ) → s.submitters i ≢ outside → i < callers
    shared : (j : ℕ) → count j s.choices ≡ count j s.submitted + under_way j s

  moved :
      (s : Pool S) (i : ℕ) (c : Submitter) (j : ℕ)
      → i < callers
      → sum_of (bound_for j) callers (update s.submitters i c) + bound_for j (s.submitters i)
        ≡ under_way j s + bound_for j c
  moved s i c j l = sum_of-update (bound_for j) callers s.submitters i c l

  Step-Inv : {k : ℕ} {s t : Pool S} → Inv k s → Step thread n callers s t → Inv k t
  Step-Inv {s = s} inv (check i l e h) = record {
    next = inv.next;
    drawn = inv.drawn;
    spread = inv.spread;
    reached = inv.reached;
    known = λ m q. grind (arith, inv.known m);
    shared = λ j. omega (arith, inv.shared j, moved s i checked j l, ap (bound_for j) e);
  }
  Step-Inv inv (refuse i e h) = inv
  Step-Inv {k} {s} inv (submit i j t u e free step put) = record {
    next = inv.next;
    drawn = inv.drawn;
    spread = λ m. elim (ℕ_discrete m j) [
      | yes same ↦
          let here : update s.threads j u m ≡ u =
            ap (update s.threads j u) same ∙ update_self s.threads j u in
          let one : count m (j ∷ s.submitted) ≡ count m s.submitted + 1 = ground arith in
          one
          ∙ ap (λ c. c + 1) (inv.spread m ∙ ap (λ x. length (thread.accepted (s.threads x))) same)
          ∙ sym (length-snoc (thread.accepted (s.threads j)) t)
          ∙ sym (ap length (ap thread.accepted here ∙ put))
      | no other ↦
          let none_here : count m (j ∷ s.submitted) ≡ count m s.submitted = ground (arith, other) in
          none_here
          ∙ inv.spread m
          ∙ ap (λ x. length (thread.accepted x)) (sym (update_ne s.threads j u m other))
    ];
    reached = λ m. elim (ℕ_discrete m j) [
      | yes same ↦
          subst thread.Reaches (sym (ap (update s.threads j u) same ∙ update_self s.threads j u))
            (thread.step-Reaches (s.threads j) u (inv.reached j) step)
      | no other ↦ subst thread.Reaches (sym (update_ne s.threads j u m other)) (inv.reached m)
    ];
    known = λ m q. grind (arith, inv.known m);
    shared = λ m.
        let one : count m (j ∷ s.submitted) ≡ count m s.submitted + bound_for m (chosen j) =
          ground arith in
        omega (
          arith,
          one,
          inv.shared m,
          moved s i (calling j) m (inv.known i (λ o. cc)),
          ap (bound_for m) e,
        );
  }
  Step-Inv {s = s} inv (return i j e free) = record {
    next = inv.next;
    drawn = inv.drawn;
    spread = inv.spread;
    reached = inv.reached;
    known = λ m q. grind (arith, inv.known m);
    shared = λ m.
        omega
          (arith, inv.shared m, moved s i outside m (inv.known i (λ o. cc)), ap (bound_for m) e);
  }
  Step-Inv {k} {s} inv (move j u l step same_tasks stops) = record {
    next = inv.next;
    drawn = inv.drawn;
    spread = λ m. elim (ℕ_discrete m j) [
      | yes same ↦
          inv.spread m
          ∙ ap (λ x. length (thread.accepted (s.threads x))) same
          ∙ sym (
              ap length (
                ap thread.accepted (ap (update s.threads j u) same ∙ update_self s.threads j u)
                ∙ same_tasks))
      | no other ↦
          inv.spread m
          ∙ ap (λ x. length (thread.accepted x)) (sym (update_ne s.threads j u m other))
    ];
    reached = λ m. elim (ℕ_discrete m j) [
      | yes same ↦
          subst thread.Reaches (sym (ap (update s.threads j u) same ∙ update_self s.threads j u))
            (thread.step-Reaches (s.threads j) u (inv.reached j) step)
      | no other ↦ subst thread.Reaches (sym (update_ne s.threads j u m other)) (inv.reached m)
    ];
    known = inv.known;
    shared = inv.shared;
  }
  Step-Inv inv (shutdown h) = record {
    next = inv.next;
    drawn = inv.drawn;
    spread = inv.spread;
    reached = inv.reached;
    known = inv.known;
    shared = inv.shared;
  }

  Choose-Inv : {k : ℕ} {s t : Pool S} → Inv k s → Choose thread n callers s t → Inv (suc k) t
  Choose-Inv {k} {s} inv (choose i e) = record {
    next = omega (arith, inv.next);
    drawn = λ l.
        let fits : s.next_thread_idx ≡ k = omega (arith, inv.next) in
        ap₂ (λ (x : ℕ) (xs : List ℕ). x ∷ xs) (ap (λ x. x % n) fits) (inv.drawn (omega arith));
    spread = inv.spread;
    reached = inv.reached;
    known = λ m q. grind (arith, inv.known m);
    shared = λ j.
        let idx = s.next_thread_idx % n in
        let one : count j (idx ∷ s.choices) ≡ count j s.choices + bound_for j (chosen idx) =
          ground arith in
        omega (
          arith,
          one,
          inv.shared j,
          moved s i (chosen idx) j (inv.known i (λ o. cc)),
          ap (bound_for j) e,
        );
  }

  Reach-Inv : {k : ℕ} {s : Pool S} → Reach thread n callers k s → Inv k s
  Reach-Inv start = record {
    next = refl;
    drawn = λ l. refl;
    spread = λ j. ap length (sym thread.start_empty);
    reached = λ j. thread.start-Reaches;
    known = λ i q. absurd (q refl);
    shared = λ j. omega (arith, sum_of-zero (bound_for j) callers (λ i. outside) (λ i. refl));
  }
  Reach-Inv (later r step) = Step-Inv (Reach-Inv r) step
  Reach-Inv (draw r step) = Choose-Inv (Reach-Inv r) step

  -- When k indices were drawn, fewer than 2 ^ 64, each thread of the pool has accepted as many tasks as
  -- there are numbers below k with its index as remainder by n, less the calls that have drawn its index
  -- and are before their push: the tasks go round the threads in turn. Each thread is in a state that a
  -- thread of its own reaches, so that what holds of those holds of the threads of the pool.
  pub indices_in_turn :
      (k : ℕ) {s : Pool S}
      → Reach thread n callers k s
      → k < 2 ^ 64
      → ((j : ℕ)
          → count j (turns thread n callers k)
            ≡ length (thread.accepted (s.threads j)) + under_way j s)
        × ((j : ℕ) → thread.Reaches (s.threads j))
  indices_in_turn k {s} r l =
      let inv = Reach-Inv r in
      (
        λ j.
            ap (count j) (sym (inv.drawn (omega arith)))
            ∙ inv.shared j
            ∙ ap (λ c. c + under_way j s) (inv.spread j),
        inv.reached,
      )
