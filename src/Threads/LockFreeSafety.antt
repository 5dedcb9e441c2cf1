-- ===== src/Threads/LockFreeSafety.antt =====
-- What holds in every state of the thread with the lock-free queue.
use parallel_operations_tool.Prelude.{
  ℕ, ◌≡◌, ◌≢◌, ◌⊎◌, inl, inr, refl, sym, ap, ◌∙◌, map, update, ◌==◌, Bool-cases, Bool, true, List,
  [], ◌∷◌, ◌++◌, append_assoc, update_self, arith,
}
use parallel_operations_tool.Threads.{announced, joined}
use parallel_operations_tool.Threads.LockFree.{
  Caller, idle, claiming, Entry, claimed, published, task_of, publish_by, IsUnready, publish,
  pushed, stored, waiting, asleep, exited, System, Step, push, store, notify, notify_vain,
  notify_nobody, request, store_all, notify_all, notify_all_vain, notify_all_nobody, join, pop,
  pop_nothing, find_stop, find_no_stop, clear, pop_again, pop_nothing_again, restore, block, go_on,
  finish, Reach, start, later,
}

module _ {T : Type 0} where
  -- A call of `run` has won its position and is before its store to `m_has_work`.
  abbrev pub SomePushed : System T → Type 0
  SomePushed s = (i : ℕ) × ((s.callers i ≡ claiming) ⊎ (s.callers i ≡ pushed))

  -- The callers of positions that are not published are in `push`.
  abbrev Claimed : (ℕ → Caller) → List (Entry T) → Type 0
  Claimed callers [] = Unit
  Claimed callers (claimed i t ∷ es) = (callers i ≡ claiming) × Claimed callers es
  Claimed callers (published t ∷ es) = Claimed callers es

  Claimed-update :
      (callers : ℕ → Caller) (i : ℕ) (c : Caller) (es : List (Entry T))
      → callers i ≢ claiming
      → Claimed callers es
      → Claimed (update callers i c) es
  Claimed-update callers i c [] ne h = tt
  Claimed-update callers i c (claimed j t ∷ es) ne (e, h) =
      (grind arith, Claimed-update callers i c es ne h)
  Claimed-update callers i c (published t ∷ es) ne h = Claimed-update callers i c es ne h

  Claimed-publish :
      (callers : ℕ → Caller) (i : ℕ) (es : List (Entry T))
      → Claimed callers es
      → Claimed (update callers i pushed) (publish_by i es)
  Claimed-publish callers i [] h = tt
  Claimed-publish callers i (claimed j t ∷ es) (e, h) = elim (Bool-cases (j == i)) [
    | inl own ↦ rw own (Claimed-publish callers i es h)
    | inr other ↦ rw other (ground arith, Claimed-publish callers i es h)
  ]
  Claimed-publish callers i (published t ∷ es) h = Claimed-publish callers i es h

  Claimed-snoc :
      (callers : ℕ → Caller) (i : ℕ) (t : T) (es : List (Entry T))
      → Claimed callers es
      → callers i ≡ claiming
      → Claimed callers (es ++ (claimed i t ∷ []))
  Claimed-snoc callers i t [] h e = (e, tt)
  Claimed-snoc callers i t (claimed j u ∷ es) (e', h) e = (e', Claimed-snoc callers i t es h e)
  Claimed-snoc callers i t (published u ∷ es) h e = Claimed-snoc callers i t es h e

  publish-tasks : (i : ℕ) (es : List (Entry T)) → map task_of (publish_by i es) ≡ map task_of es
  publish-tasks i [] = refl
  publish-tasks i (claimed j t ∷ es) = elim (Bool-cases (j == i)) [
    | inl own ↦ rw own (ap (λ l. t ∷ l) (publish-tasks i es))
    | inr other ↦ rw other (ap (λ l. t ∷ l) (publish-tasks i es))
  ]
  publish-tasks i (published t ∷ es) = ap (λ l. t ∷ l) (publish-tasks i es)

  snoc-tasks :
      (es : List (Entry T)) (i : ℕ) (t : T)
      → map task_of (es ++ (claimed i t ∷ [])) ≡ map task_of es ++ (t ∷ [])
  snoc-tasks [] i t = refl
  snoc-tasks (e ∷ es) i t = ap (λ l. task_of e ∷ l) (snoc-tasks es i t)

  -- A `pop` that finds nothing although positions are won has met a call that is in `push`.
  unready-SomePushed :
      (s : System T) (es : List (Entry T))
      → Claimed s.callers es
      → IsUnready es
      → es ≢ []
      → SomePushed s
  unready-SomePushed s [] h u ne = absurd (ne refl)
  unready-SomePushed s (claimed i t ∷ es) h u ne = (i, inl h.0)
  unready-SomePushed s (published t ∷ es) h u ne = absurd u

  -- A call is before its notification.
  abbrev pub SomeNotifies : System T → Type 0
  SomeNotifies s =
      ((i : ℕ) × (s.callers i ≡ stored))
      ⊎ ((k : ℕ) × (joins : Bool) × (s.stoppers k ≡ announced joins))

  record Inv (s : System T) : Type 0 where
    order : s.accepted ≡ s.taken ++ map task_of s.queue
    claimers : Claimed s.callers s.queue
    waiting_seen : s.worker ≡ waiting → s.queue ≢ [] → SomePushed s ⊎ (s.has_work ≡ true)
    asleep_seen : s.worker ≡ asleep → s.queue ≢ [] → SomePushed s ⊎ (s.has_work ≡ true)
    asleep_notified : s.worker ≡ asleep → s.has_work ≡ true → SomeNotifies s
    exit_stopped : s.worker ≡ exited → s.stop ≡ true
    join_exited : (k : ℕ) → s.stoppers k ≡ joined → s.worker ≡ exited

  Step-Inv : {s t : System T} → Inv s → Step s t → Inv t
  Step-Inv {s} inv (push i t e room) = record {
    order =
        ap (λ l. l ++ (t ∷ [])) inv.order
        ∙ append_assoc s.taken (map task_of s.queue) (t ∷ [])
        ∙ ap (λ l. s.taken ++ l) (sym (snoc-tasks s.queue i t));
    claimers =
        Claimed-snoc _ i t s.queue
          (Claimed-update s.callers i claiming s.queue (λ c. cc) inv.claimers)
          (update_self s.callers i claiming);
    waiting_seen = λ _ _. inl (i, inl (update_self s.callers i claiming));
    asleep_seen = λ _ _. inl (i, inl (update_self s.callers i claiming));
    asleep_notified = λ a h. ground (arith, inv.asleep_notified a h);
    exit_stopped = inv.exit_stopped;
    join_exited = inv.join_exited;
  }
  Step-Inv {s} inv (publish i e) = record {
    order = inv.order ∙ ap (λ l. s.taken ++ l) (sym (publish-tasks i s.queue));
    claimers = Claimed-publish s.callers i s.queue inv.claimers;
    waiting_seen = λ _ _. inl (i, inr (update_self s.callers i pushed));
    asleep_seen = λ _ _. inl (i, inr (update_self s.callers i pushed));
    asleep_notified = λ a h. ground (arith, inv.asleep_notified a h);
    exit_stopped = inv.exit_stopped;
    join_exited = inv.join_exited;
  }
  Step-Inv {s} inv (store i e) = record {
    order = inv.order;
    claimers = Claimed-update s.callers i stored s.queue (λ c. cc) inv.claimers;
    waiting_seen = λ _ _. inr refl;
    asleep_seen = λ _ _. inr refl;
    asleep_notified = λ _ _. inl (i, update_self s.callers i stored);
    exit_stopped = inv.exit_stopped;
    join_exited = inv.join_exited;
  }
  Step-Inv {s} inv (notify i e w h) =
      ground (arith, Claimed-update s.callers i idle s.queue (λ c. cc) inv.claimers)
  Step-Inv {s} inv (notify_vain i e w h) =
      ground (arith, Claimed-update s.callers i idle s.queue (λ c. cc) inv.claimers)
  Step-Inv {s} inv (notify_nobody i e w) =
      ground (arith, Claimed-update s.callers i idle s.queue (λ c. cc) inv.claimers)
  Step-Inv inv (request k joins e) = ground arith
  Step-Inv {s} inv (store_all k joins e) = record {
    order = inv.order;
    claimers = inv.claimers;
    waiting_seen = λ _ _. inr refl;
    asleep_seen = λ _ _. inr refl;
    asleep_notified = λ _ _. inr (k, joins, update_self s.stoppers k (announced joins));
    exit_stopped = inv.exit_stopped;
    join_exited = λ j h. inv.join_exited j (ground arith);
  }
  Step-Inv inv (notify_all k joins e w h) = ground arith
  Step-Inv inv (notify_all_vain k joins e w h) = ground arith
  Step-Inv inv (notify_all_nobody k joins e w) = ground arith
  Step-Inv inv (join k e w) = ground arith
  Step-Inv {s} inv (pop u us e q) = ground (arith, append_assoc s.taken (u ∷ []) (map task_of us))
  Step-Inv inv (pop_nothing e q) = ground arith
  Step-Inv inv (find_stop e h) = ground arith
  Step-Inv inv (find_no_stop e h) = ground arith
  Step-Inv inv (clear e) = ground arith
  Step-Inv {s} inv (pop_again u us e q) =
      ground (arith, append_assoc s.taken (u ∷ []) (map task_of us))
  Step-Inv {s} inv (pop_nothing_again e q) = record {
    order = inv.order;
    claimers = inv.claimers;
    waiting_seen = λ _ ne. inl (unready-SomePushed s s.queue inv.claimers q ne);
    asleep_seen = λ w ne. absurd cc;
    asleep_notified = λ w h. absurd cc;
    exit_stopped = λ w. absurd cc;
    join_exited = λ k h. absurd (let gone = inv.join_exited k h in cc);
  }
  Step-Inv inv (restore e) = ground arith
  Step-Inv inv (block e h) = ground arith
  Step-Inv inv (go_on e h) = ground arith
  Step-Inv inv (finish e) = ground arith

  Reach-Inv : {s : System T} → Reach s → Inv s
  Reach-Inv start = ground arith
  Reach-Inv (later r step) = Step-Inv (Reach-Inv r) step

  -- While the worker is blocked in `wait` and there is a task in the queue, published or not, some call of
  -- `run` is before its store to `m_has_work`, or `m_has_work` is true and some call is before its
  -- notification, which then ends the wait.
  pub blocked_notified :
      {s : System T}
      → Reach s
      → s.worker ≡ asleep
      → s.queue ≢ []
      → SomePushed s ⊎ ((s.has_work ≡ true) × SomeNotifies s)
  blocked_notified r a ne = elim ((Reach-Inv r).asleep_seen a ne) [
    | inl pushes ↦ inl pushes
    | inr h ↦ inr (h, (Reach-Inv r).asleep_notified a h)
  ]

  -- The worker takes the tasks in the order in which they were pushed, each once; what it has not
  -- taken is in the queue. It returns only after a request to stop, and `join` returns only after
  -- the worker.
  pub popped_in_turn :
      {s : System T}
      → Reach s
      → (s.accepted ≡ s.taken ++ map task_of s.queue)
        × (s.worker ≡ exited → s.stop ≡ true)
        × ((k : ℕ) → s.stoppers k ≡ joined → s.worker ≡ exited)
  popped_in_turn r = let inv = Reach-Inv r in (inv.order, inv.exit_stopped, inv.join_exited)
