-- ===== src/LfDequeue/Threads/State.antt =====
-- The state of include/pot/algorithms/lfdequeue.h with its owner and its stealers.
use parallel_operations_tool.Prelude.{ℕ, Bool, ◌+◌, Option, none, some, List, update}
use parallel_operations_tool.LfDequeue.{RingBuffer}

-- The owner: outside, with what its last call returned; in `push`, with `t` loaded, with room, and
-- before the store to `bottom`; in `pop`, with `bottom` lowered, with `t` loaded, before `bottom` is
-- put back, and before the test for a buffer that is too large. `reclaiming o` is before `if (unlinked)`
-- and goes on with `o`; `scanning k least o` is in the loop of `reclaim_buffers`, with `k` tokens left and
-- the least number `least`, and `noticing k least o` there, with the token `k` found busy.
pub data Owner (A : Type 0) : Type 0 where
  idle : (o : Option A) → Owner A
  pushing putting : (x : A) (t : ℕ) → Owner A
  storing : (x : A) → Owner A
  lowered : (b : ℕ) → Owner A
  deciding : (b t : ℕ) → Owner A
  restoring : (b : ℕ) (o : Option A) → Owner A
  trimming : (b t : ℕ) (o : Option A) → Owner A
  reclaiming : Owner A → Owner A
  scanning noticing : (k least : ℕ) → Owner A → Owner A

-- A stealer: outside, with what its last call returned; in `pop_back`, with `t` loaded, with an
-- element found, with the buffer `a` loaded, and with the exchange won, for the push of number `j`;
-- then with its result, before the token is marked idle, before the load of the buffer `a`, and with it.
pub data Stealer (A : Type 0) : Type 0 where
  returned : (o : Option A) → Stealer A
  busy : Stealer A
  started found : (t : ℕ) → Stealer A
  armed : (t a : ℕ) → Stealer A
  won : (t a j : ℕ) → Stealer A
  leaving loading : (o : Option A) → Stealer A
  noting : (a : ℕ) (o : Option A) → Stealer A

-- The pushes are numbered from 0 on: `pushed` counts them, `items` has what they pushed, `numbers` the
-- number of the push that was the last one at an index, and `claims` the numbers that were taken out,
-- the last one first. The buffers below `unlinked` are deleted, and none is where it is null.
pub record System (A : Type 0) : Type 0 where
  pub top : ℕ
  pub bottom : ℕ
  pub active_buffer : ℕ
  pub buffers : ℕ → RingBuffer A
  pub unlinked : Option ℕ
  pub registered : ℕ
  pub was_idle : ℕ → Bool
  pub id_last_used : ℕ → ℕ
  pub owner : Owner A
  pub stealers : ℕ → Stealer A
  pub pushed : ℕ
  pub items : ℕ → A
  pub numbers : ℕ → ℕ
  pub claims : List ℕ

abbrev pub active : {A : Type 0} → System A → RingBuffer A
active s = s.buffers s.active_buffer

-- `unlinked ? unlinked : a`
abbrev pub first_unlinked : Option ℕ → ℕ → Option ℕ
first_unlinked none a = some a
first_unlinked (some u) a = some u

-- The resized buffer becomes the active one.
abbrev pub replace : {A : Type 0} → System A → RingBuffer A → System A
replace s r = record s {
  buffers = update s.buffers (s.active_buffer + 1) r;
  active_buffer = s.active_buffer + 1;
  unlinked = first_unlinked s.unlinked s.active_buffer;
}
