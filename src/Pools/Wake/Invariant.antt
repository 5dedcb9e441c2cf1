-- ===== src/Pools/Wake/Invariant.antt =====
-- What holds between the queue, the notifier, the calls that are not done and the workers.
use native.Mathlib.Nat.{mod-eq_of_lt}
use parallel_operations_tool.Prelude.{
  ℕ, ◌+◌, ◌-◌, ◌^◌, ◌≤◌, ◌<◌, ◌≡◌, ◌≢◌, ◌⊎◌, inl, inr, refl, sym, ap, ◌∙◌, subst, List, [], ◌∷◌,
  arith, update, update_self, update_ne, add_size, ℕ_discrete,
}
use parallel_operations_tool.Pools.Wake.{
  Submitter, idle, pushed, added, Worker, reading, running, checking, waiting, blocked, System,
  put_submitter, put_worker, Step, push, notify_worker, notify_nobody, load, take, find_nothing,
  finish, block, go_on, Add, add, start_system, Reach, start, later, notified,
}

-- A worker that goes on by itself to look into the queue again.
abbrev pub IsAwake : ℕ → Worker → Type 0
IsAwake notifier (blocked seen) = ⊥
IsAwake notifier (waiting seen) = seen ≢ notifier
IsAwake notifier _ = Unit

-- A worker that has seen this value of the notifier and has since found the queue empty.
abbrev pub Misses : ℕ → Worker → Type 0
Misses notifier (blocked seen) = seen ≡ notifier
Misses notifier (waiting seen) = seen ≡ notifier
Misses notifier _ = ⊥

abbrev pub HasSeen : ℕ → Worker → Type 0
HasSeen notifier (checking seen) = seen ≤ notifier
HasSeen notifier (waiting seen) = seen ≤ notifier
HasSeen notifier (blocked seen) = seen ≤ notifier
HasSeen notifier _ = Unit

at_self : {A : Type 0} (f : ℕ → A) (j : ℕ) (c : A) (k : ℕ) → k ≡ j → update f j c k ≡ c
at_self f j c k e = ap (update f j c) e ∙ update_self f j c

HasSeen-suc : (v : ℕ) (w : Worker) → HasSeen v w → HasSeen (v + 1) w
HasSeen-suc v reading h = tt
HasSeen-suc v running h = tt
HasSeen-suc v (checking seen) h = omega arith
HasSeen-suc v (waiting seen) h = omega arith
HasSeen-suc v (blocked seen) h = omega arith

Misses-suc : (v : ℕ) (w : Worker) → HasSeen v w → Misses (v + 1) w → ⊥
Misses-suc v reading h m = m
Misses-suc v running h m = m
Misses-suc v (checking seen) h m = m
Misses-suc v (waiting seen) h m = omega arith
Misses-suc v (blocked seen) h m = omega arith

-- A worker is awake, misses the present value, or is blocked on another.
worker_cases :
    (v : ℕ) (w : Worker) → ((seen : ℕ) → w ≡ blocked seen → seen ≡ v) → IsAwake v w ⊎ Misses v w
worker_cases v reading h = inl tt
worker_cases v running h = inl tt
worker_cases v (checking seen) h = inl tt
worker_cases v (waiting seen) h = elim (ℕ_discrete seen v) [ yes e ↦ inr e | no ne ↦ inl ne ]
worker_cases v (blocked seen) h = inr (h seen refl)

module _ {T : Type 0} where
  -- A call of `derived_execute` has put its task into the queue and is not done.
  abbrev pub InCall : System T → Type 0
  InCall s = (i : ℕ) × (s.submitters i ≢ idle)

  abbrev pub SomeAwake : ℕ → System T → Type 0
  SomeAwake n s = (j : ℕ) × (j < n) × IsAwake s.notifier (s.workers j)

  pub record Inv (n : ℕ) (s : System T) : Type 0 where
    pub attended : s.tasks ≢ [] → InCall s ⊎ SomeAwake n s
    pub missed :
        (j : ℕ)
        → j < n
        → Misses s.notifier (s.workers j)
        → s.tasks ≢ []
        → (i : ℕ) × (s.submitters i ≡ pushed)
    pub seen : (j : ℕ) → j < n → HasSeen s.notifier (s.workers j)

  Inv-start : (n : ℕ) → Inv n start_system
  Inv-start n = record {
    attended = λ ne. absurd (ne refl);
    missed = λ j lt m ne. absurd (ne refl);
    seen = λ j lt. tt;
  }

  -- A worker's own step: what it has to show of its new place.
  worker-Inv :
      (n : ℕ) (s : System T) (j : ℕ) (c : Worker)
      → Inv n s
      → j < n
      → (s.tasks ≢ [] → IsAwake s.notifier c ⊎ ((i : ℕ) × (s.submitters i ≡ pushed)))
      → (Misses s.notifier c → s.tasks ≢ [] → (i : ℕ) × (s.submitters i ≡ pushed))
      → HasSeen s.notifier c
      → Inv n (put_worker s j c)
  worker-Inv n s j c inv lt awake miss has = record {
    attended = λ ne. elim (awake ne) [
      | inl here ↦ inr (j, lt, subst (IsAwake s.notifier) (sym (update_self s.workers j c)) here)
      | inr (i, e) ↦ inl (i, ground (arith, e))
    ];
    missed = λ k lk m ne. elim (ℕ_discrete k j) [
      | yes e ↦ miss (subst (Misses s.notifier) (at_self s.workers j c k e) m) ne
      | no other ↦
          inv.missed k lk (subst (Misses s.notifier) (update_ne s.workers j c k other) m) ne
    ];
    seen = λ k lk. elim (ℕ_discrete k j) [
      | yes e ↦ subst (HasSeen s.notifier) (sym (at_self s.workers j c k e)) has
      | no other ↦
          subst (HasSeen s.notifier) (sym (update_ne s.workers j c k other)) (inv.seen k lk)
    ];
  }

  -- A change of one submitter that is no longer before its `fetch_add` leaves those that are.
  still_pushed :
      (s : System T) (i : ℕ) (c : Submitter)
      → s.submitters i ≡ added
      → (k : ℕ) × (s.submitters k ≡ pushed)
      → (k : ℕ) × (update s.submitters i c k ≡ pushed)
  still_pushed s i c e (k, at) = (k, ground (arith, e, at))

  take-Inv :
      (n : ℕ) (s : System T) (j : ℕ) (t : T) (ts : List T)
      → Inv n s
      → j < n
      → s.tasks ≡ t ∷ ts
      → Inv n (record (put_worker s j running) { tasks = ts })
  take-Inv n s j t ts inv lt e =
      let was : s.tasks ≢ [] = λ none. cc in
      record {
        attended = λ ne.
            inr (j, lt, subst (IsAwake s.notifier) (sym (update_self s.workers j running)) tt);
        missed = λ k lk m ne. elim (ℕ_discrete k j) [
          | yes here ↦ absurd (subst (Misses s.notifier) (at_self s.workers j running k here) m)
          | no other ↦
              inv.missed k lk (subst (Misses s.notifier) (update_ne s.workers j running k other) m)
                was
        ];
        seen = (worker-Inv n s j running inv lt (λ ne. inl tt) (λ m. absurd m) tt).seen;
      }

  notify_worker-Inv :
      (n : ℕ) (s : System T) (i j : ℕ)
      → Inv n s
      → s.submitters i ≡ added
      → j < n
      → Inv n (put_worker (put_submitter s i idle) j reading)
  notify_worker-Inv n s i j inv e lt =
      let woken = worker-Inv n s j reading inv lt (λ ne. inl tt) (λ m. absurd m) tt in
      record {
        attended = λ ne.
            inr (j, lt, subst (IsAwake s.notifier) (sym (update_self s.workers j reading)) tt);
        missed = λ k lk m ne. still_pushed s i idle e (woken.missed k lk m ne);
        seen = woken.seen;
      }

  notify_nobody-Inv :
      (n : ℕ) (s : System T) (i : ℕ)
      → 0 < n
      → Inv n s
      → s.submitters i ≡ added
      → ((j seen : ℕ) → j < n → s.workers j ≡ blocked seen → seen ≡ s.notifier)
      → Inv n (put_submitter s i idle)
  notify_nobody-Inv n s i pos inv e none_waits = record {
    attended = λ ne. elim (worker_cases s.notifier (s.workers 0) (λ seen. none_waits 0 seen pos)) [
      | inl awake ↦ inr (0, pos, awake)
      | inr m ↦
          let (k, at) = still_pushed s i idle e (inv.missed 0 pos m ne) in
          inl (k, ground (arith, at))
    ];
    missed = λ k lk m ne. still_pushed s i idle e (inv.missed k lk m ne);
    seen = inv.seen;
  }

  Step-Inv : (n : ℕ) {s t : System T} → 0 < n → Step n s t → Inv n s → Inv n t
  Step-Inv n {s} pos (push i t e) inv = record {
    attended = λ ne. inl (i, ground arith);
    missed = λ k lk m ne. (i, update_self s.submitters i pushed);
    seen = inv.seen;
  }
  Step-Inv n {s} pos (notify_worker i j seen e lt w ne) inv = notify_worker-Inv n s i j inv e lt
  Step-Inv n {s} pos (notify_nobody i e h) inv = notify_nobody-Inv n s i pos inv e h
  Step-Inv n {s} pos (load j lt w) inv =
      worker-Inv n s j (checking s.notifier) inv lt (λ ne. inl tt) (λ m. absurd m) (omega arith)
  Step-Inv n {s} pos (take j seen t ts lt w e) inv = take-Inv n s j t ts inv lt e
  Step-Inv n {s} pos (find_nothing j seen lt w e) inv =
      worker-Inv n s j (waiting seen) inv lt (λ ne. absurd (ne e)) (λ m ne. absurd (ne e))
        (subst (HasSeen s.notifier) w (inv.seen j lt))
  Step-Inv n {s} pos (finish j lt w) inv =
      worker-Inv n s j reading inv lt (λ ne. inl tt) (λ m. absurd m) tt
  Step-Inv n {s} pos (block j seen lt w e) inv =
      let miss = inv.missed j lt (subst (Misses s.notifier) (sym w) e) in
      worker-Inv n s j (blocked seen) inv lt (λ ne. inr (miss ne)) (λ m. miss)
        (subst (HasSeen s.notifier) w (inv.seen j lt))
  Step-Inv n {s} pos (go_on j seen lt w ne) inv =
      worker-Inv n s j reading inv lt (λ ne. inl tt) (λ m. absurd m) tt

  Add-Inv :
      (n : ℕ) {s t : System T}
      → Add s t
      → Inv n s
      → s.notifier < 2 ^ 64 - 1
      → Inv n t × (t.notifier ≡ s.notifier + 1)
  Add-Inv n {s} (add i e) inv small =
      let next : add_size s.notifier 1 ≡ s.notifier + 1 = mod-eq_of_lt (omega arith) in
      (
        record {
          attended = λ ne. inl (i, ground arith);
          missed = λ k lk m ne. absurd (
              Misses-suc s.notifier (s.workers k) (inv.seen k lk)
                (subst (λ v. Misses v (s.workers k)) next m));
          seen = λ k lk.
              subst (λ v. HasSeen v (s.workers k)) (sym next)
                (HasSeen-suc s.notifier (s.workers k) (inv.seen k lk));
        },
        next,
      )

  Step-notifier : (n : ℕ) {s t : System T} → Step n s t → t.notifier ≡ s.notifier
  Step-notifier n (push i t e) = refl
  Step-notifier n (notify_worker i j seen e lt w ne) = refl
  Step-notifier n (notify_nobody i e h) = refl
  Step-notifier n (load j lt w) = refl
  Step-notifier n (take j seen t ts lt w e) = refl
  Step-notifier n (find_nothing j seen lt w e) = refl
  Step-notifier n (finish j lt w) = refl
  Step-notifier n (block j seen lt w e) = refl
  Step-notifier n (go_on j seen lt w ne) = refl

  pub Reach-Inv :
      (n k : ℕ) {s : System T} → 0 < n → Reach n k s → k < 2 ^ 64 → Inv n s × (s.notifier ≡ k)
  Reach-Inv n _ pos start small = (Inv-start n, refl)
  Reach-Inv n k pos (later r st) small =
      let (inv, e) = Reach-Inv n k pos r small in (Step-Inv n pos st inv, Step-notifier n st ∙ e)
  Reach-Inv n _ pos (notified {k} r st) small =
      let (inv, e) = Reach-Inv n k pos r (omega arith) in
      let (inv', e') = Add-Inv n st inv (omega arith) in (inv', e' ∙ ap (λ v. v + 1) e)
