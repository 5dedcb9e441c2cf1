-- ===== src/Pools/Stealing/Turns.antt =====
-- Rounds of the workers that steal.
use parallel_operations_tool.Prelude.{
  ℕ, ◌+◌, ◌-◌, ◌%◌, ◌<◌, ◌≡◌, ◌≢◌, ◌⊎◌, inl, inr, refl, ap, ◌∙◌, sym, Bool, true, false, Option,
  none, some, List, [], arith, subst,
}
use parallel_operations_tool.Pools.{Local, Turn, run, steal_seq, take_or}
use parallel_operations_tool.Pools.LqStealSeq
use parallel_operations_tool.Pools.LqStealNeighbor
use parallel_operations_tool.Pools.LqlfStealSeq
use parallel_operations_tool.Pools.Stealing.{
  TakesFront, steal_seq-TakesFront, steal_seq-none, take_or-TakesFront, take_or-none, turn-run,
  turn-idle, seq_idle,
}

module _ {T : Type 0} where
  -- A worker that steals from all the others runs the first task of some queue, and takes it out of
  -- that queue alone; the other queues, the notifiers and the flags stay as they are.
  seq_turn-TakesFront :
      (is_free : ℕ → Bool) (stop again : Bool) (i : ℕ) (p p' : Local (List T)) (t : T)
      → LqStealSeq.turn is_free stop again i p ≡ (run t, p')
      → TakesFront p t p'
  unfolding LqStealSeq.turn LqStealSeq.steal
  seq_turn-TakesFront is_free stop again i p p' t h =
      take_or-TakesFront (LqStealSeq.steal is_free) i p p' t
        (steal_seq-TakesFront is_free i 1 (p.queues - 1) p p' t)
        (turn-run (take_or (LqStealSeq.steal is_free)) stop again i p p' t h)

  -- The neighbours: what the loop over the two gives, by what the right one gives.
  neighbor_steal :
      (is_free : ℕ → Bool) (i : ℕ) (p q r : Local (List T)) (found got : Option T)
      → steal_seq is_free i 1 1 p ≡ (found, q)
      → LqStealNeighbor.steal is_free i p ≡ (got, r)
      → (steal_seq is_free i 1 1 p ≡ (got, r))
        ⊎ ((found ≡ none) × (steal_seq is_free (i + p.queues - 1) 0 1 p ≡ (got, r)))
  unfolding LqStealNeighbor.steal
  neighbor_steal is_free i p q r none got e h = inr (refl, ground arith)
  neighbor_steal is_free i p q r (some t) got e h = inl (ground arith)

  neighbor_steal-none :
      (is_free : ℕ → Bool) (i : ℕ) (p q r : Local (List T)) (found : Option T)
      → steal_seq is_free i 1 1 p ≡ (found, q)
      → LqStealNeighbor.steal is_free i p ≡ (none, r)
      → (found ≡ none) × (steal_seq is_free (i + p.queues - 1) 0 1 p ≡ (none, r))
  unfolding LqStealNeighbor.steal
  neighbor_steal-none is_free i p q r none e h = (refl, ground arith)
  neighbor_steal-none is_free i p q r (some t) e h = absurd (ground arith)

  -- The same for a worker that steals from its neighbours.
  pub neighbor_turn-TakesFront :
      (is_free : ℕ → Bool) (stop again : Bool) (i : ℕ) (p p' : Local (List T)) (t : T)
      → LqStealNeighbor.turn is_free stop again i p ≡ (run t, p')
      → TakesFront p t p'
  unfolding LqStealNeighbor.turn
  neighbor_turn-TakesFront is_free stop again i p p' t h =
      take_or-TakesFront (LqStealNeighbor.steal is_free) i p p' t
        (λ e. elim (neighbor_steal is_free i p _ p' _ (some t) refl e) [
          | inl right ↦ steal_seq-TakesFront is_free i 1 1 p p' t right
          | inr left ↦ steal_seq-TakesFront is_free (i + p.queues - 1) 0 1 p p' t left.1
        ])
        (turn-run (take_or (LqStealNeighbor.steal is_free)) stop again i p p' t h)

  -- A worker that steals from all the others goes to sleep or returns without a task only when its
  -- own queue is empty and so is every queue whose lock it got; then nothing has changed.
  pub seq_turn_idle :
      (is_free : ℕ → Bool) (again : Bool) (i : ℕ) (p p' : Local (List T)) (what : Turn T)
      → LqStealSeq.turn is_free false again i p ≡ (what, p')
      → ((t : T) → what ≢ run t)
      → i < p.queues
      → (p' ≡ p)
        × ((j : ℕ) → j < p.queues → (j ≡ i) ⊎ (is_free j ≡ true) → (p.contexts j).tasks ≡ [])
  unfolding LqStealSeq.turn LqStealSeq.steal
  seq_turn_idle is_free again i p p' what h idle hi =
      let take = take_or (LqStealSeq.steal is_free) in
      seq_idle (LqStealSeq.steal is_free) is_free i p p' refl
        (turn-idle take again i p p' what _ _ refl h idle) hi

  -- A worker of the lock-free executor that steals goes without a task only when all queues are empty.
  pub lock_free_turn_idle :
      (again : Bool) (i : ℕ) (p p' : Local (List T)) (what : Turn T)
      → LqlfStealSeq.turn false again i p ≡ (what, p')
      → ((t : T) → what ≢ run t)
      → i < p.queues
      → (p' ≡ p) × ((j : ℕ) → j < p.queues → (p.contexts j).tasks ≡ [])
  unfolding LqlfStealSeq.turn LqlfStealSeq.steal
  lock_free_turn_idle again i p p' what h idle hi =
      let take = take_or LqlfStealSeq.steal in
      let (same, empty) =
        seq_idle LqlfStealSeq.steal (λ j. true) i p p' refl
          (turn-idle take again i p p' what _ _ refl h idle) hi in
      (same, λ j hj. empty j hj (inr refl))

  -- A worker that steals from its neighbours goes without a task only when its own queue is empty
  -- and so are the next one and the one before, as far as it got their locks.
  pub neighbor_turn_idle :
      (is_free : ℕ → Bool) (again : Bool) (i : ℕ) (p p' : Local (List T)) (what : Turn T)
      → LqStealNeighbor.turn is_free false again i p ≡ (what, p')
      → ((t : T) → what ≢ run t)
      → 1 < p.queues
      → ((p.contexts i).tasks ≡ [])
        × ((j : ℕ)
            → (j ≡ (i + 1) % p.queues) ⊎ (j ≡ (i + p.queues - 1) % p.queues)
            → is_free j ≡ true
            → (p.contexts j).tasks ≡ [])
  unfolding LqStealNeighbor.turn
  neighbor_turn_idle is_free again i p p' what h idle more =
      let take = take_or (LqStealNeighbor.steal is_free) in
      let (own, others) =
        take_or-none (LqStealNeighbor.steal is_free) i p p'
          (turn-idle take again i p p' what _ _ refl h idle) in
      let stolen : LqStealNeighbor.steal is_free i p ≡ (none, p') = ground (arith, others) in
      let (no_right, left) = neighbor_steal-none is_free i p _ p' _ refl stolen in
      let right : steal_seq is_free i 1 1 p ≡ (none, (steal_seq is_free i 1 1 p).1) =
        ground (arith, no_right) in
      (
        own,
        λ j which free. elim which [
          | inl e ↦
              subst (λ x. (p.contexts x).tasks ≡ []) (sym e)
                ((steal_seq-none is_free i 1 1 p _ right).1 1 (omega arith) (omega arith)
                  (ap is_free (sym e) ∙ free))
          | inr e ↦
              let same : (i + p.queues - 1 + 0) % p.queues ≡ j =
                ap (λ x. x % p.queues) (omega arith) ∙ sym e in
              subst (λ x. (p.contexts x).tasks ≡ []) same
                ((steal_seq-none is_free (i + p.queues - 1) 0 1 p p' left).1 0 (omega arith)
                  (omega arith) (ap is_free same ∙ free))
        ],
      )
