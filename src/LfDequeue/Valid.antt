-- ===== src/LfDequeue/Valid.antt =====
-- What the tests for room of include/pot/algorithms/lfdequeue.h leave of a valid deque.
use parallel_operations_tool.Prelude.{
  ◌+◌, ◌-◌, ◌≤◌, ◌<◌, ◌≡◌, refl, List, arith, leb, Bool-cases, inl, inr,
}
use parallel_operations_tool.LfDequeue.{
  grow, LfDequeue, size, resize, ensure_room, log_initial_size,
}
use parallel_operations_tool.LfDequeue.Buffers.{Replaced, grow-Replaced, window, window-ext}

module _ {A : Type 0} where
  -- The elements fit the active buffer with a place to spare, and it is not below the first size.
  pub record IsValid (q : LfDequeue A) : Type 0 where
    pub ordered : q.top ≤ q.bottom
    pub room : q.bottom - q.top < size q.active
    pub large : log_initial_size ≤ q.active.log_size

  abbrev pub contents : LfDequeue A → List A
  contents q = window q.active q.top (q.bottom - q.top)

  -- The test for room of `push` keeps the elements, and leaves two places.
  pub record Roomy (q r : LfDequeue A) : Type 0 where
    pub same_top : r.top ≡ q.top
    pub same_bottom : r.bottom ≡ q.bottom
    pub two_places : q.bottom - q.top + 1 < size r.active
    pub large : log_initial_size ≤ r.active.log_size
    pub same : contents r ≡ contents q

  pub ensure_room-Roomy : (blank : A) {q : LfDequeue A} → IsValid q → Roomy q (ensure_room blank q)
  unfolding ensure_room
  ensure_room-Roomy blank {q} v = elim (Bool-cases (leb (size q.active - 1) (q.bottom - q.top))) [
    | inl tight ↦ rw tight (record {
      same_top = refl;
      same_bottom = refl;
      two_places = grown.two_places;
      large = grown.large;
      same =
          window-ext (resize blank q.active q.bottom q.top grow) q.active q.top (q.bottom - q.top)
            (λ j lo hi. grown.kept j lo (omega (arith, v.ordered)));
    })
    | inr loose ↦ rw loose (record {
      same_top = refl;
      same_bottom = refl;
      two_places = ground arith;
      large = v.large;
      same = refl;
    })
  ]
    where
      grown : Replaced q.active (resize blank q.active q.bottom q.top grow) q.bottom q.top
      grown = grow-Replaced blank q.active q.bottom q.top v.ordered v.large v.room
