-- ===== src/LfDequeue/Threads/Writes.antt =====
-- The steps that write to the active buffer and publish an element keep what the places hold.
use parallel_operations_tool.Prelude.{
  ℕ, none, ◌+◌, ◌≤◌, ◌<◌, ◌≡◌, ap, subst, arith, update, update_self, update_ne, ℕ_discrete,
}
use parallel_operations_tool.LfDequeue.{size, get, put_item}
use parallel_operations_tool.LfDequeue.Buffers.{get-put_item_self, get-put_item_ne}
use parallel_operations_tool.LfDequeue.Threads.{
  busy, leaving, loading, noting, idle, putting, storing, Stealer, returned, started, found, armed,
  won, System, active,
}
use parallel_operations_tool.LfDequeue.Threads.Bounds.{limit_of, Aims, Bounds}
use parallel_operations_tool.LfDequeue.Threads.Slots.{
  Stored, Right, Items, Knows-at, within-at, Room-at, numbered-at,
}

module _ {A : Type 0} {s : System A} (inv : Bounds s) (it : Items s) where
  kept-put :
      (x : A) (a u : ℕ)
      → u < s.bottom
      → s.bottom < u + size (active s)
      → get (update s.buffers s.active_buffer (put_item (active s) s.bottom x) a) u
        ≡ get (s.buffers a) u
  kept-put x a u below near = elim (ℕ_discrete a s.active_buffer) [
    | yes e ↦
        rw (e, update_self s.buffers s.active_buffer (put_item (active s) s.bottom x))
          (get-put_item_ne (active s) s.bottom u x (omega arith) near (omega arith))
    | no other ↦
        ap (λ r. get r u)
          (update_ne s.buffers s.active_buffer (put_item (active s) s.bottom x) a other)
  ]

  pub put-Items :
      (x : A) (t : ℕ)
      → s.owner ≡ putting x t
      → Items (record s {
        buffers = update s.buffers s.active_buffer (put_item (active s) s.bottom x);
        owner = storing x;
      })
  put-Items x t e =
      let new = put_item (active s) s.bottom x in
      let here = update_self s.buffers s.active_buffer new in
      let places = Room-at inv it e in
      let le = Knows-at inv it e in
      let below = within-at inv it e in
      record {
        large = rw here it.large;
        room = rw here (omega arith);
        stored = rw here (get-put_item_self (active s) s.bottom x);
        numbered = λ i lo hi.
            rw (kept-put x s.active_buffer i hi (omega arith)) (numbered-at inv it e i lo hi);
        right = λ i.
            kept (s.stealers i) (it.right i)
              (subst (λ o. Aims (s.stealers i) (limit_of o s.bottom) s.top) e (inv.aims i))
              (omega arith) below;
      }
    where
      kept :
          (p : Stealer A)
          → Right s p
          → Aims p s.bottom s.top
          → s.bottom + 1 < s.top + size (active s)
          → s.top ≤ s.bottom
          → Right
              (record s {
                buffers = update s.buffers s.active_buffer (put_item (active s) s.bottom x);
                owner = storing x;
              })
              p
      kept (returned v) h aim room below = tt
      kept busy h aim room below = tt
      kept (leaving v) h aim room below = tt
      kept (loading v) h aim room below = tt
      kept (noting a v) h aim room below = tt
      kept (started u) h aim room below = tt
      kept (found u) h aim room below = tt
      kept (armed u a) (le, h) (now, aim) room below =
          (le, λ lo. rw (kept-put x a u (omega arith) (omega arith)) (h lo))
      kept (won u a j) (le, lt, h) aim room below =
          (le, lt, λ lo. rw (kept-put x a u (omega arith) (omega arith)) (h lo))

  pub publish-Items :
      (x : A)
      → s.owner ≡ storing x
      → Items (record s {
        bottom = s.bottom + 1;
        owner = idle none;
        pushed = s.pushed + 1;
        items = update s.items s.pushed x;
        numbers = update s.numbers s.bottom s.pushed;
      })
  publish-Items x e =
      let places = Room-at inv it e in
      let there : get (active s) s.bottom ≡ x =
        subst (λ o. Stored o (active s) s.bottom) e it.stored in
      record {
        large = it.large;
        room = omega arith;
        stored = tt;
        numbered = λ i lo hi. elim (ℕ_discrete i s.bottom) [
          | yes last ↦
              rw (last, update_self s.numbers s.bottom s.pushed, update_self s.items s.pushed x)
                (there, omega arith)
          | no before ↦
              let old = numbered-at inv it e i lo (omega arith) in
              rw
                (
                  update_ne s.numbers s.bottom s.pushed i before,
                  update_ne s.items s.pushed x (s.numbers i) (omega arith),
                )
                (old.0, omega arith)
        ];
        right = λ i.
            kept (s.stealers i) (it.right i)
              (subst (λ o. Aims (s.stealers i) (limit_of o s.bottom) s.top) e (inv.aims i));
      }
    where
      kept :
          (p : Stealer A)
          → Right s p
          → Aims p s.bottom s.top
          → Right
              (record s {
                bottom = s.bottom + 1;
                owner = idle none;
                pushed = s.pushed + 1;
                items = update s.items s.pushed x;
                numbers = update s.numbers s.bottom s.pushed;
              })
              p
      kept (returned v) h aim = tt
      kept busy h aim = tt
      kept (leaving v) h aim = tt
      kept (loading v) h aim = tt
      kept (noting a v) h aim = tt
      kept (started u) h aim = tt
      kept (found u) h aim = tt
      kept (armed u a) (le, h) (now, aim) = (
        le,
        λ lo.
            let (same, lt) = h lo in
            rw
              (
                update_ne s.numbers s.bottom s.pushed u (omega arith),
                update_ne s.items s.pushed x (s.numbers u) (omega arith),
              )
              (same, omega arith),
      )
      kept (won u a j) (le, lt, h) aim =
          (le, omega arith, λ lo. rw (update_ne s.items s.pushed x j (omega arith)) (h lo))
