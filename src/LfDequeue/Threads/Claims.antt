-- ===== src/LfDequeue/Threads/Claims.antt =====
-- The deque with stealers, seen as a list of the pushes whose elements are still in it.
use parallel_operations_tool.Prelude.{
  ℕ, ◌+◌, ◌-◌, ◌≤◌, ◌<◌, ◌≡◌, ◌≢◌, ◌⊎◌, inl, inr, refl, sym, none, ap, subst, some, [], ◌∷◌, ◌++◌,
  arith, ltb, if◌then◌else◌, update, update_self,
}
use parallel_operations_tool.Schedule.{count, count-append}
use parallel_operations_tool.Deque
use parallel_operations_tool.LfDequeue.Threads.{
  returned, started, found, won, leaving, loading, noting, keep_buffers, scan, pass_idle, notice,
  lower_least, delete, register, load_first, mark_idle, load_last, note, storing, deciding, armed,
  System, Step, load_top, enlarge, has_room, put, publish, lower, read_top, empty, win, lose,
  restore, take, trim, keep, begin, find, find_nothing, load_buffer, steal, fail, read, Reach,
  start, later,
}
use parallel_operations_tool.LfDequeue.Threads.Bounds.{
  limit-le-end, end_of, limit_of, Knows, Aims, Bounds, Reach-Bounds,
}
use parallel_operations_tool.LfDequeue.Threads.Items.{
  Reads-pushed, pops, pops_last, steals as steals_read,
}
use parallel_operations_tool.LfDequeue.Threads.Numbers.{
  numbers_from, numbers_from-pop_top, numbers_from-pop_bottom, numbers_from-push, pop_top-cons,
  pop_bottom-append,
}
use parallel_operations_tool.LfDequeue.Threads.Effects.{
  live, result, stolen, Effect, same, pushes, pops_top, pops_bottom, steals, reads, owner-Carries,
  stealer-Carries, begin-Carries,
}

module _ {A : Type 0} where
  module _ {s : System A} (inv : Bounds s) where
    publish-Effect :
        (x : A)
        → s.owner ≡ storing x
        → numbers_from (update s.numbers s.bottom s.pushed) s.top (s.bottom + 1 - s.top)
          ≡ Deque.push (live s) s.pushed
    unfolding Deque.push
    publish-Effect x e = rw e (
        numbers_from-push s.numbers s.top s.bottom s.pushed
          (subst (λ o. s.top ≤ limit_of o s.bottom) e inv.within))

    win-Effect :
        (b t : ℕ)
        → s.owner ≡ deciding b t
        → b ≡ t + 1
        → s.top ≡ t
        → Deque.pop_top (live s)
          ≡ (some (s.numbers t), numbers_from s.numbers (t + 1) (b - (t + 1)))
    win-Effect b t e h top = rw e (numbers_from-pop_top s.numbers s.top t b top (omega arith))

    take-Effect :
        (b t : ℕ)
        → s.owner ≡ deciding b t
        → t + 1 < b
        → Deque.pop_bottom (live s)
          ≡ (some (s.numbers (b - 1)), numbers_from s.numbers s.top (s.bottom - s.top))
    take-Effect b t e h =
        let known = subst (λ o. Knows o s.bottom s.top) e inv.knows in
        let room = subst (λ o. s.top ≤ limit_of o s.bottom) e inv.within in
        let below : s.top ≤ b - 1 = ground arith in
        rw (e, known.0) (numbers_from-pop_bottom s.numbers s.top b (b - 1) below (omega arith))

    steal-Effect :
        (i t a : ℕ)
        → s.stealers i ≡ armed t a
        → s.top ≡ t
        → Deque.pop_top (live s)
          ≡ (some (s.numbers t), numbers_from s.numbers (t + 1) (end_of s.owner s.bottom - (t + 1)))
    steal-Effect i t a e top =
        let aimed = subst (λ p. Aims p (limit_of s.owner s.bottom) s.top) e (inv.aims i) in
        let below : t < end_of s.owner s.bottom = grind (arith, limit-le-end s.owner s.bottom) in
        numbers_from-pop_top s.numbers s.top t (end_of s.owner s.bottom) top below

  Step-Effect :
      {blank : A} {s t : System A} → Reach blank s → Bounds s → Step blank s t → Effect s t
  Step-Effect {s = s} r inv (load_top x o e) =
      same (ground arith) refl refl (owner-Carries (inr ((o, e), refl)) refl)
  Step-Effect {s = s} r inv (enlarge x t e h) =
      same (ground arith) refl refl (owner-Carries (inl (sym (ap result e))) refl)
  Step-Effect {s = s} r inv (has_room x t e h) =
      same (ground arith) refl refl (owner-Carries (inl (sym (ap result e))) refl)
  Step-Effect {s = s} r inv (put x t e) =
      same (ground arith) refl refl (owner-Carries (inl (sym (ap result e))) refl)
  Step-Effect {s = s} r inv (publish x e) =
      pushes x e (publish-Effect inv x e) refl refl (update_self s.items s.pushed x) refl
  Step-Effect {s = s} r inv (lower o e) =
      same (ground arith) refl refl (owner-Carries (inr ((o, e), refl)) refl)
  Step-Effect {s = s} r inv (read_top b e) =
      same (ground arith) refl refl (owner-Carries (inl (sym (ap result e))) refl)
  Step-Effect {s = s} r inv (empty b t e h) =
      same (ground arith) refl refl (owner-Carries (inl (sym (ap result e))) refl)
  Step-Effect {s = s} r inv (win b t e h top) =
      pops_top (s.numbers t) (win-Effect inv b t e h top) refl refl
        (ap some (Reads-pushed r (pops_last b t e h top)))
  Step-Effect {s = s} r inv (lose b t e h other) =
      same (ground arith) refl refl (owner-Carries (inl (sym (ap result e))) refl)
  Step-Effect {s = s} r inv (restore b o e) =
      same (ground arith) refl refl (owner-Carries (inl (sym (ap result e))) refl)
  Step-Effect {s = s} r inv (take b t e h) =
      pops_bottom (s.numbers (b - 1)) (take-Effect inv b t e h) refl refl
        (ap some (Reads-pushed r (pops b t e h)))
  Step-Effect {s = s} r inv (trim b t o e h l) =
      same (ground arith) refl refl (owner-Carries (inl (sym (ap result e))) refl)
  Step-Effect {s = s} r inv (keep b t o e h) =
      same (ground arith) refl refl (owner-Carries (inl (sym (ap result e))) refl)
  Step-Effect {s = s} r inv (begin i o e known) =
      same refl refl refl (begin-Carries i o refl refl e)
  Step-Effect {s = s} r inv (find i t e h) =
      same refl refl refl (stealer-Carries i (found t) refl refl (sym (ap stolen e)))
  Step-Effect {s = s} r inv (find_nothing i t e h) =
      same refl refl refl (stealer-Carries i (leaving none) refl refl (sym (ap stolen e)))
  Step-Effect {s = s} r inv (load_buffer i t e) =
      same refl refl refl
        (stealer-Carries i (armed t s.active_buffer) refl refl (sym (ap stolen e)))
  Step-Effect {s = s} r inv (steal i t a e top) =
      steals i t a (s.numbers t) (steal-Effect inv i t a e top) refl refl
        (update_self s.stealers i (won t a (s.numbers t))) refl
  Step-Effect {s = s} r inv (fail i t a e other) =
      same refl refl refl (stealer-Carries i (leaving none) refl refl (sym (ap stolen e)))
  Step-Effect {s = s} r inv (read i t a j e) =
      reads i t a j _ e (update_self s.stealers i _)
        (λ first. Reads-pushed r (steals_read i t a j e first)) refl refl refl refl
  Step-Effect {s = s} r inv (keep_buffers o e none_left) =
      same (ground arith) refl refl (owner-Carries (inl (sym (ap result e))) refl)
  Step-Effect {s = s} r inv (scan u o e some_left) =
      same (ground arith) refl refl (owner-Carries (inl (sym (ap result e))) refl)
  Step-Effect {s = s} r inv (pass_idle k least o e idle_there) =
      same (ground arith) refl refl (owner-Carries (inl (sym (ap result e))) refl)
  Step-Effect {s = s} r inv (notice k least o e busy_there) =
      same (ground arith) refl refl (owner-Carries (inl (sym (ap result e))) refl)
  Step-Effect {s = s} r inv (lower_least k least o e) =
      same (ground arith) refl refl (owner-Carries (inl (sym (ap result e))) refl)
  Step-Effect {s = s} r inv (delete u least o e some_left) =
      same (ground arith) refl refl (owner-Carries (inl (sym (ap result e))) refl)
  Step-Effect {s = s} r inv register = same refl refl refl (owner-Carries (inl refl) refl)
  Step-Effect {s = s} r inv (load_first i e) =
      same refl refl refl (stealer-Carries i (started s.top) refl refl (sym (ap stolen e)))
  Step-Effect {s = s} r inv (mark_idle i o e) =
      same refl refl refl (stealer-Carries i (loading o) refl refl (sym (ap stolen e)))
  Step-Effect {s = s} r inv (load_last i o e) =
      same refl refl refl
        (stealer-Carries i (noting s.active_buffer o) refl refl (sym (ap stolen e)))
  Step-Effect {s = s} r inv (note i a o e) =
      same refl refl refl (stealer-Carries i (returned o) refl refl (sym (ap stolen e)))

  pub steps_refine : {blank : A} {s t : System A} → Reach blank s → Step blank s t → Effect s t
  steps_refine r step = Step-Effect r (Reach-Bounds r) step

  -- What the exchange and the test of `pop` find: a `pop` that returns nothing does so while there is
  -- no element.
  pub pop_empty :
      {blank : A} {s : System A} (b t : ℕ)
      → Reach blank s
      → s.owner ≡ deciding b t
      → (b ≤ t) ⊎ ((b ≡ t + 1) × (s.top ≢ t))
      → live s ≡ []
  pop_empty {s = s} b t r e nothing_found =
      let inv = Reach-Bounds r in
      let known = subst (λ o. Knows o s.bottom s.top) e inv.knows in
      let gone : b - s.top ≡ 0 = ground arith in rw (e, gone)

  Effect-count :
      {s t : System A} (j : ℕ)
      → Effect s t
      → count j s.claims + count j (live s) ≡ (if ltb j s.pushed then 1 else 0)
      → count j t.claims + count j (live t) ≡ (if ltb j t.pushed then 1 else 0)
  unfolding Deque.push
  Effect-count j (same l c p carried) h = rw (l, c, p) h
  Effect-count {s} j (pushes x e l c p items res) h =
      rw (l, c, p) (ground (arith, count-append j (live s) (s.pushed ∷ [])))
  Effect-count {s} {t} j (pops_top k l c p res) h =
      let front : live s ≡ k ∷ live t = pop_top-cons (live s) (live t) k l in
      rw (c, p) (ground (arith, ap (count j) front))
  Effect-count {s} {t} j (pops_bottom k l c p res) h =
      let back : live s ≡ live t ++ (k ∷ []) = pop_bottom-append (live s) (live t) k l in
      rw (c, p) (ground (arith, ap (count j) back, count-append j (live t) (k ∷ [])))
  Effect-count {s} {t} j (steals i u a k l c p e o) h =
      let front : live s ≡ k ∷ live t = pop_top-cons (live s) (live t) k l in
      rw (c, p) (ground (arith, ap (count j) front))
  Effect-count j (reads i u a k x e e' right l c p o) h = rw (l, c, p) h

  -- The number of each push is in the list or was taken out by one exchange or one `pop`, once; a number
  -- that was not given to a push is not there.
  taken_once :
      {blank : A} {s : System A} (j : ℕ)
      → Reach blank s
      → count j s.claims + count j (live s) ≡ (if ltb j s.pushed then 1 else 0)
  taken_once j start = ground arith
  taken_once j (later r step) = Effect-count j (steps_refine r step) (taken_once j r)

  -- A number that is at one end of the list was not taken out before.
  not_taken :
      {blank : A} {s : System A} (j : ℕ) (n : ℕ)
      → Reach blank s
      → count j (live s) ≡ n + 1
      → count j s.claims ≡ 0
  not_taken {s = s} j n r there = ground (arith, taken_once j r, there)

  Effect-result :
      {blank : A} {s t : System A} (x : A)
      → Reach blank s
      → Effect s t
      → result s.owner ≡ none
      → result t.owner ≡ some x
      → (j : ℕ) × (t.claims ≡ j ∷ s.claims) × (count j s.claims ≡ 0) × (x ≡ s.items j)
  Effect-result x r (same l c p carried) before after = elim (carried.owner) [
    | inl kept ↦ absurd cc
    | inr (begins, nothing_yet) ↦ absurd cc
  ]
  Effect-result x r (pushes y e l c p items res) before after = absurd cc
  Effect-result {s = s} {t = t} x r (pops_top j l c p res) before after =
      let front : live s ≡ j ∷ live t = pop_top-cons (live s) (live t) j l in
      (j, c, not_taken j (count j (live t)) r (ground (arith, ap (count j) front)), cc)
  Effect-result {s = s} {t = t} x r (pops_bottom j l c p res) before after =
      let back : live s ≡ live t ++ (j ∷ []) = pop_bottom-append (live s) (live t) j l in
      (
        j,
        c,
        not_taken j (count j (live t)) r
            (ground (arith, ap (count j) back, count-append j (live t) (j ∷ []))),
        cc,
      )
  Effect-result x r (steals i u a j l c p e o) before after = absurd cc
  Effect-result x r (reads i u a j y e e' right l c p o) before after = absurd cc

  -- However the owner and the stealers are interleaved, when a call of the owner gets the element that
  -- `pop` returns, it takes out the number of a push that no other call has taken out, and the element is
  -- the one that this push has put in.
  pub returns_pushed :
      {blank : A} {s t : System A} (x : A)
      → Reach blank s
      → Step blank s t
      → result s.owner ≡ none
      → result t.owner ≡ some x
      → (j : ℕ) × (t.claims ≡ j ∷ s.claims) × (count j s.claims ≡ 0) × (x ≡ s.items j)
  returns_pushed x r step before after = Effect-result x r (steps_refine r step) before after
