-- ===== src/AsyncLock/Invariant.antt =====
-- One token: it is held by the coroutine in the critical section, by the one about to enter it, or
-- by the one that looks for a successor.
use parallel_operations_tool.Prelude.{
  ℕ, ◌+◌, ◌^◌, ◌≤◌, ◌<◌, ◌≡◌, min, refl, sym, List, [], ◌∷◌, ◌++◌, update, sum_of, sum_of-update,
  sum_of-zero, sum_of-le, weight-le-sum_of, arith, ◌==◌, if◌then◌else◌,
}
use parallel_operations_tool.BoundedQueue.{push-true, pop-some}
use parallel_operations_tool.LfQueue.{capacity}
use parallel_operations_tool.AsyncLock.{
  Waiter, waiter, resumed, AsyncLock, Pc, outside, enqueuing, waiting, scheduled, critical, handing,
  System, Step, suspend, acquire, contend, enqueue, yield_push, resume, leave, hand_over, dequeue,
  yield_pop, start_state, Reach, start, later,
}

-- Counted in `m_state`.
abbrev pub counted : Pc → ℕ
counted (enqueuing executor) = 1
counted waiting = 1
counted scheduled = 1
counted critical = 1
counted _ = 0

abbrev pub token : Pc → ℕ
token scheduled = 1
token critical = 1
token handing = 1
token _ = 0

abbrev pub waits : Pc → ℕ
waits waiting = 1
waits _ = 0

-- How often coroutine `i` stands in the queue.
abbrev pub entries : ℕ → List Waiter → ℕ
entries i [] = 0
entries i (w ∷ ws) = (if w.handle == i then 1 else 0) + entries i ws

entries-append :
    (i : ℕ) (xs : List Waiter) (w : Waiter)
    → entries i (xs ++ (w ∷ [])) ≡ entries i xs + (if w.handle == i then 1 else 0)
entries-append i [] w = omega arith
entries-append i (x ∷ xs) w = omega (arith, entries-append i xs w)

pub record Inv (n : ℕ) (lock : AsyncLock) (pc : ℕ → Pc) : Type 0 where
  pub state_sum : lock.state ≡ sum_of counted n pc
  pub one_token : sum_of token n pc ≡ min 1 lock.state
  pub queued : (i : ℕ) → entries i lock.queue ≡ waits (pc i)
  pub others : (i : ℕ) → n ≤ i → pc i ≡ outside

counted-le : (n : ℕ) (pc : ℕ → Pc) → sum_of counted n pc ≤ n
counted-le = sum_of-le counted (λ p. ground arith)

module _ (n : ℕ) (few : n < 2 ^ 31) {s : System} (inv : Inv n s.lock s.pc) where
  open inv use {state_sum, one_token, queued, others}

  -- A step that changes one coroutine and at most the count.
  move :
      (i : ℕ) (p : Pc) (state : ℕ) (runs : ℕ → ℕ)
      → i < n
      → state + counted (s.pc i) ≡ s.lock.state + counted p
      → min 1 state + token (s.pc i) ≡ min 1 s.lock.state + token p
      → waits p ≡ waits (s.pc i)
      → Inv n (record { state = state; queue = s.lock.queue; run_count = runs }) (update s.pc i p)
  move i p state runs lt c t w = record {
    state_sum = omega (arith, sum_of-update counted n s.pc i p lt);
    one_token = omega (arith, sum_of-update token n s.pc i p lt);
    queued = λ j. ground (arith, queued j);
    others = λ j le. ground (arith, others j);
  }

  small : s.lock.state < 2 ^ 31
  small = omega (arith, counted-le n s.pc)

  Step-Inv : {t : System} → Step n s t → Inv n t.lock t.pc
  Step-Inv (suspend i executor lt e) = move i _ _ _ lt (ground arith) (ground arith) (ground arith)
  Step-Inv (acquire i lt e z) = move i _ _ _ lt (ground arith) (ground arith) (ground arith)
  Step-Inv (contend i lt e z) =
      move i _ _ _ lt (ground (arith, small)) (ground (arith, small)) (ground arith)
  Step-Inv (enqueue i {executor} {queue} lt e q) = record {
    state_sum = ground (arith, sum_of-update counted n s.pc i waiting lt);
    one_token = ground (arith, sum_of-update token n s.pc i waiting lt);
    queued = λ j. ground (
      arith,
      queued j,
      push-true capacity s.lock.queue (waiter i executor) q,
      entries-append j s.lock.queue (waiter i executor),
    );
    others = λ j le. ground (arith, others j);
  }
  Step-Inv (yield_push i lt e q) = inv
  Step-Inv (resume i lt e) = move i _ _ _ lt (ground arith) (ground arith) (ground arith)
  Step-Inv (leave i lt e z) = move i _ _ _ lt (ground arith) (ground arith) (ground arith)
  Step-Inv (hand_over i lt e z) =
      move i _ _ _ lt (ground (arith, small, weight-le-sum_of counted n s.pc i lt))
        (ground (arith, small, weight-le-sum_of counted n s.pc i lt)) (ground arith)
  Step-Inv (dequeue i {w} {queue} lt e q) = record {
    state_sum = ground (
      arith,
      head,
      sum_of-update counted n s.pc i outside lt,
      sum_of-update counted n (update s.pc i outside) w.handle (resumed w.executor) inside,
    );
    one_token = ground (
      arith,
      head,
      sum_of-update token n s.pc i outside lt,
      sum_of-update token n (update s.pc i outside) w.handle (resumed w.executor) inside,
    );
    queued = λ j. ground (arith, head, popped, queued j);
    others = λ j le. ground (arith, head, inside, others j);
  }
    where
      popped : s.lock.queue ≡ w ∷ queue
      popped = pop-some s.lock.queue q

      head : s.pc w.handle ≡ waiting
      head = ground (arith, popped, queued w.handle)

      inside : w.handle < n
      inside = ground (arith, head, others w.handle)
  Step-Inv (yield_pop i lt e q) = inv

Inv-start : (n : ℕ) → Inv n start_state.lock start_state.pc
Inv-start n = record {
  state_sum = sym (sum_of-zero counted n (λ i. outside) (λ i. refl));
  one_token = sum_of-zero token n (λ i. outside) (λ i. refl);
  queued = λ i. refl;
  others = λ i le. refl;
}

pub Reach-Inv : {n : ℕ} {s : System} → n < 2 ^ 31 → Reach n s → Inv n s.lock s.pc
Reach-Inv {n} few start = Inv-start n
Reach-Inv {n} few (later r st) = Step-Inv n few (Reach-Inv few r) st
