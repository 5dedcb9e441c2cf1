-- ===== src/LfDequeue/Threads/Items.antt =====
-- The owner and the stealers read what was pushed.
use parallel_operations_tool.Prelude.{ℕ, ◌+◌, ◌-◌, ◌≤◌, ◌<◌, ◌≡◌, subst, arith}
use parallel_operations_tool.LfDequeue.{size, get}
use parallel_operations_tool.LfDequeue.Buffers.{grow-Replaced, shrink-Replaced}
use parallel_operations_tool.LfDequeue.Threads.{
  reclaiming, keep_buffers, scan, pass_idle, notice, lower_least, delete, register, load_first,
  mark_idle, load_last, note, idle, putting, deciding, won, System, active, Step, load_top, enlarge,
  has_room, put, publish, lower, read_top, empty, win, lose, restore, take, trim, keep, begin, find,
  find_nothing, load_buffer, steal, fail, read, Reach, start, later,
}
use parallel_operations_tool.LfDequeue.Threads.Bounds.{limit-le-end, Bounds, Reach-Bounds}
use parallel_operations_tool.LfDequeue.Threads.Slots.{
  Room-suc, Right, Items, Knows-at, within-at, Room-at, numbered-at, replace-Items,
}
use parallel_operations_tool.LfDequeue.Threads.Writes.{put-Items, publish-Items}

module _ {A : Type 0} where
  Step-Items : (blank : A) {s t : System A} → Bounds s → Items s → Step blank s t → Items t
  Step-Items blank inv it (load_top x o e) = grind arith
  Step-Items blank {s} inv it (enlarge x t e h) =
      let places = Room-at inv it e in
      let new =
        grow-Replaced blank (active s) s.bottom t
          (omega (arith, Knows-at inv it e, within-at inv it e)) it.large places in
      replace-Items inv it _ s.bottom t (reclaiming (putting x t)) new (Knows-at inv it e)
        (omega arith) (ground arith) new.two_places tt
  Step-Items blank inv it (has_room x t e h) = grind arith
  Step-Items blank inv it (put x t e) = put-Items inv it x t e
  Step-Items blank inv it (publish x e) = publish-Items inv it x e
  Step-Items blank inv it (lower o e) = grind arith
  Step-Items blank inv it (read_top b e) = grind arith
  Step-Items blank inv it (empty b t e h) = grind arith
  Step-Items blank inv it (win b t e h same) = grind arith
  Step-Items blank inv it (lose b t e h other) = grind arith
  Step-Items blank inv it (restore b o e) = grind arith
  Step-Items blank inv it (take b t e h) = grind arith
  Step-Items blank {s} inv it (trim b t o e few many) =
      let known = Knows-at inv it e in
      let new = shrink-Replaced blank (active s) b t (omega arith) it.large few many in
      replace-Items inv it _ b t (reclaiming (idle o)) new known.1 (omega arith) (ground arith)
        (omega (arith, new.two_places)) tt
  Step-Items blank inv it (keep b t o e h) = grind arith
  Step-Items blank inv it (begin i o e known) = grind arith
  Step-Items blank inv it (find i t e h) = grind arith
  Step-Items blank inv it (find_nothing i t e h) = grind arith
  Step-Items blank {s} inv it (load_buffer i t e) = grind (arith, limit-le-end s.owner s.bottom)
  Step-Items blank {s} inv it (steal i t a e same) =
      grind (arith, Room-suc s.owner s.bottom s.top (size (active s)) it.room)
  Step-Items blank inv it (fail i t a e other) = grind arith
  Step-Items blank inv it (read i t a j e) = grind arith
  Step-Items blank inv it (keep_buffers o e none_left) = grind arith
  Step-Items blank inv it (scan u o e some_left) = grind arith
  Step-Items blank inv it (pass_idle k least o e idle_there) = grind arith
  Step-Items blank inv it (notice k least o e busy_there) = grind arith
  Step-Items blank inv it (lower_least k least o e) = grind arith
  Step-Items blank inv it (delete u least o e some_left) = grind arith
  Step-Items blank inv it register = grind arith
  Step-Items blank inv it (load_first i e) = grind arith
  Step-Items blank inv it (mark_idle i o e) = grind arith
  Step-Items blank inv it (load_last i o e) = grind arith
  Step-Items blank inv it (note i a o e) = grind arith

  Reach-Items : {blank : A} {s : System A} → Reach blank s → Items s
  Reach-Items start = grind arith
  Reach-Items {blank} (later r step) = Step-Items blank (Reach-Bounds r) (Reach-Items r) step

  -- The element that a call is about to return, with the number of the push that the call took out: of
  -- a `pop` with more than one element, of a `pop` that is about to win the exchange, and of a
  -- `pop_back` that has won it, while no other element has been taken from the top since.
  pub data Reads (s : System A) : A → ℕ → Type 0 where
    pops :
        (b t : ℕ)
        → s.owner ≡ deciding b t
        → t + 1 < b
        → Reads s (get (active s) (b - 1)) (s.numbers (b - 1))
    pops_last :
        (b t : ℕ)
        → s.owner ≡ deciding b t
        → b ≡ t + 1
        → s.top ≡ t
        → Reads s (get (active s) t) (s.numbers t)
    steals :
        (i t a j : ℕ) → s.stealers i ≡ won t a j → s.top ≤ t + 1 → Reads s (get (s.buffers a) t) j

  -- However the owner and the stealers are interleaved, `pop` returns what the push of the number that
  -- it takes out has pushed, and so does `pop_back` if it reads its element before another one is taken
  -- from the top.
  pub Reads-pushed :
      {blank : A} {s : System A} {x : A} {j : ℕ} → Reach blank s → Reads s x j → x ≡ s.items j
  Reads-pushed {s = s} r (pops b t e more) =
      let inv = Reach-Bounds r in
      let it = Reach-Items r in
      let below = within-at inv it e in
      (numbered-at inv it e (b - 1) (ground arith) (omega arith)).0
  Reads-pushed {s = s} r (pops_last b t e last top) =
      let inv = Reach-Bounds r in
      let it = Reach-Items r in (numbered-at inv it e t (omega arith) (omega arith)).0
  Reads-pushed {s = s} r (steals i t a j e first) =
      (subst (Right s) e ((Reach-Items r).right i)).2 first
