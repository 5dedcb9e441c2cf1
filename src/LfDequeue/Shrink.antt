-- ===== src/LfDequeue/Shrink.antt =====
-- The smaller buffer that pop of include/pot/algorithms/lfdequeue.h moves the elements to.
use parallel_operations_tool.Prelude.{
  ℕ, ◌+◌, ◌-◌, ◌/◌, ◌^◌, ◌≤◌, ◌<◌, ◌≡◌, refl, arith, leb, ltb, ◌&&◌, Bool-cases, inl, inr,
}
use parallel_operations_tool.LfDequeue.{
  RingBuffer, shrink, LfDequeue, size, get, resize, shrink_buffer, log_initial_size, retire,
}
use parallel_operations_tool.LfDequeue.Buffers.{shrink-Replaced}
use parallel_operations_tool.LfDequeue.Valid.{IsValid}

module _ {A : Type 0} where
  -- A smaller buffer keeps the elements, and they fit it.
  pub record Shrunk (q r : LfDequeue A) : Type 0 where
    pub same_top : r.top ≡ q.top
    pub same_bottom : r.bottom ≡ q.bottom
    pub room : q.bottom - q.top < size r.active + 1
    pub large : log_initial_size ≤ r.active.log_size
    pub kept : (j : ℕ) → q.top ≤ j → j < q.bottom → get r.active j ≡ get q.active j

  module _ (blank : A) {q : LfDequeue A} (v : IsValid q) where
    abbrev smaller : RingBuffer A
    smaller = resize blank q.active q.bottom q.top shrink

    smaller-Shrunk :
        q.bottom - q.top ≤ size q.active / 3
        → 16 < q.bottom - q.top
        → Shrunk q (record q { active = smaller; unlinked = retire q.active q.unlinked })
    smaller-Shrunk few many =
        let new = shrink-Replaced blank q.active q.bottom q.top v.ordered v.large few many in
        record {
          same_top = refl;
          same_bottom = refl;
          room = omega (arith, new.two_places);
          large = new.large;
          kept = new.kept;
        }

  pub shrink_buffer-Shrunk :
      (blank : A) {q : LfDequeue A} → IsValid q → Shrunk q (shrink_buffer blank q)
  unfolding shrink_buffer
  shrink_buffer-Shrunk blank {q} v =
      elim (Bool-cases (
        leb (q.bottom - q.top) (size q.active / 3)
        && ltb (2 ^ log_initial_size) (q.bottom - q.top))) [
          | inl sparse ↦
              let few : q.bottom - q.top ≤ size q.active / 3 = ground arith in
              let many : 16 < q.bottom - q.top = ground arith in
              rw sparse (smaller-Shrunk blank v few many)
          | inr dense ↦ rw dense (record {
            same_top = refl;
            same_bottom = refl;
            room = omega (arith, v.room);
            large = v.large;
            kept = λ j lo hi. refl;
          })
        ]
