-- ===== src/LfDequeue/Threads.antt =====
-- include/pot/algorithms/lfdequeue.h: `push` and `pop` of the owner, with `reclaim_buffers`, and
-- `register_stealer` and `pop_back` of any number of stealers, a shared access at a time. Only the owner
-- writes `bottom`, `active_buffer`, `unlinked` and the segments, so its own reads of these are no
-- steps. A buffer is named by its `id`, a stealer by the number of its token.
pub mod Effects
pub mod Numbers
mod State
pub mod Bounds
pub mod Claims
pub mod Slots
pub mod Writes
pub mod Items
pub mod Reclaim
mod Tests
use parallel_operations_tool.Prelude.{
  ℕ, suc, min, max, Bool, true, false, ◌+◌, ◌-◌, ◌/◌, ◌^◌, ◌≤◌, ◌<◌, ◌≡◌, ◌≢◌, ◌⊎◌, Option, none,
  some, List, [], ◌∷◌, update,
}
use parallel_operations_tool.LfDequeue.{
  RingBuffer, grow, shrink, log_initial_size, size, get, put_item, resize,
}
pub use parallel_operations_tool.LfDequeue.Threads.State.{
  Owner, idle, pushing, putting, storing, lowered, deciding, restoring, trimming, reclaiming,
  scanning, noticing, Stealer, returned, busy, started, found, armed, won, leaving, loading, noting,
  System, active, first_unlinked, replace,
}

-- At 0 `lower` stores -1, which is below every `top`, as 0 is. `blank` is what `new T[…]` leaves.
-- `delete` is the loop over the buffers from `unlinked` on, whose numbers go up by one.
pub data Step {A : Type 0} (blank : A) (s : System A) : System A → Type 0 where
  load_top :
      (x : A) (o : Option A)
      → s.owner ≡ idle o
      → Step blank s (record s { owner = pushing x s.top })
  enlarge :
      (x : A) (t : ℕ)
      → s.owner ≡ pushing x t
      → size (active s) - 1 ≤ s.bottom - t
      → Step blank s (record (replace s (resize blank (active s) s.bottom t grow)) {
        owner = reclaiming (putting x t);
      })
  has_room :
      (x : A) (t : ℕ)
      → s.owner ≡ pushing x t
      → s.bottom - t < size (active s) - 1
      → Step blank s (record s { owner = reclaiming (putting x t) })
  put :
      (x : A) (t : ℕ)
      → s.owner ≡ putting x t
      → Step blank s (record s {
        buffers = update s.buffers s.active_buffer (put_item (active s) s.bottom x);
        owner = storing x;
      })
  publish :
      (x : A)
      → s.owner ≡ storing x
      → Step blank s (record s {
        bottom = s.bottom + 1;
        owner = idle none;
        pushed = s.pushed + 1;
        items = update s.items s.pushed x;
        numbers = update s.numbers s.bottom s.pushed;
      })
  lower :
      (o : Option A)
      → s.owner ≡ idle o
      → Step blank s (record s { bottom = s.bottom - 1; owner = lowered s.bottom })
  read_top : (b : ℕ) → s.owner ≡ lowered b → Step blank s (record s { owner = deciding b s.top })
  empty :
      (b t : ℕ)
      → s.owner ≡ deciding b t
      → b ≤ t
      → Step blank s (record s { bottom = b; owner = idle none })
  win :
      (b t : ℕ)
      → s.owner ≡ deciding b t
      → b ≡ t + 1
      → s.top ≡ t
      → Step blank s (record s {
        top = t + 1;
        owner = restoring b (some (get (active s) t));
        claims = s.numbers t ∷ s.claims;
      })
  lose :
      (b t : ℕ)
      → s.owner ≡ deciding b t
      → b ≡ t + 1
      → s.top ≢ t
      → Step blank s (record s { owner = restoring b none })
  restore :
      (b : ℕ) (o : Option A)
      → s.owner ≡ restoring b o
      → Step blank s (record s { bottom = b; owner = idle o })
  take :
      (b t : ℕ)
      → s.owner ≡ deciding b t
      → t + 1 < b
      → Step blank s (record s {
        owner = trimming b t (some (get (active s) (b - 1)));
        claims = s.numbers (b - 1) ∷ s.claims;
      })
  trim :
      (b t : ℕ) (o : Option A)
      → s.owner ≡ trimming b t o
      → b - t ≤ size (active s) / 3
      → 2 ^ log_initial_size < b - t
      → Step blank s
          (record (replace s (resize blank (active s) b t shrink)) { owner = reclaiming (idle o) })
  keep :
      (b t : ℕ) (o : Option A)
      → s.owner ≡ trimming b t o
      → (size (active s) / 3 < b - t) ⊎ (b - t ≤ 2 ^ log_initial_size)
      → Step blank s (record s { owner = reclaiming (idle o) })
  keep_buffers :
      (o : Owner A)
      → s.owner ≡ reclaiming o
      → s.unlinked ≡ none
      → Step blank s (record s { owner = o })
  scan :
      (u : ℕ) (o : Owner A)
      → s.owner ≡ reclaiming o
      → s.unlinked ≡ some u
      → Step blank s (record s { owner = scanning s.registered s.active_buffer o })
  pass_idle :
      (k least : ℕ) (o : Owner A)
      → s.owner ≡ scanning (suc k) least o
      → s.was_idle k ≡ true
      → Step blank s (record s { owner = scanning k least o })
  notice :
      (k least : ℕ) (o : Owner A)
      → s.owner ≡ scanning (suc k) least o
      → s.was_idle k ≡ false
      → Step blank s (record s { owner = noticing k least o })
  lower_least :
      (k least : ℕ) (o : Owner A)
      → s.owner ≡ noticing k least o
      → Step blank s (record s { owner = scanning k (min least (s.id_last_used k)) o })
  delete :
      (u least : ℕ) (o : Owner A)
      → s.owner ≡ scanning 0 least o
      → s.unlinked ≡ some u
      → Step blank s (record s { unlinked = some (max u least); owner = o })
  register : Step blank s (record s {
    registered = s.registered + 1;
    was_idle = update s.was_idle s.registered true;
    id_last_used = update s.id_last_used s.registered 0;
  })
  begin :
      (i : ℕ) (o : Option A)
      → s.stealers i ≡ returned o
      → i < s.registered
      → Step blank s
          (record s { stealers = update s.stealers i busy; was_idle = update s.was_idle i false })
  load_first :
      (i : ℕ)
      → s.stealers i ≡ busy
      → Step blank s (record s { stealers = update s.stealers i (started s.top) })
  find :
      (i t : ℕ)
      → s.stealers i ≡ started t
      → t < s.bottom
      → Step blank s (record s { stealers = update s.stealers i (found t) })
  find_nothing :
      (i t : ℕ)
      → s.stealers i ≡ started t
      → s.bottom ≤ t
      → Step blank s (record s { stealers = update s.stealers i (leaving none) })
  load_buffer :
      (i t : ℕ)
      → s.stealers i ≡ found t
      → Step blank s (record s { stealers = update s.stealers i (armed t s.active_buffer) })
  steal :
      (i t a : ℕ)
      → s.stealers i ≡ armed t a
      → s.top ≡ t
      → Step blank s (record s {
        top = t + 1;
        stealers = update s.stealers i (won t a (s.numbers t));
        claims = s.numbers t ∷ s.claims;
      })
  fail :
      (i t a : ℕ)
      → s.stealers i ≡ armed t a
      → s.top ≢ t
      → Step blank s (record s { stealers = update s.stealers i (leaving none) })
  read :
      (i t a j : ℕ)
      → s.stealers i ≡ won t a j
      → Step blank s
          (record s { stealers = update s.stealers i (leaving (some (get (s.buffers a) t))) })
  mark_idle :
      (i : ℕ) (o : Option A)
      → s.stealers i ≡ leaving o
      → Step blank s (record s {
        stealers = update s.stealers i (loading o);
        was_idle = update s.was_idle i true;
      })
  load_last :
      (i : ℕ) (o : Option A)
      → s.stealers i ≡ loading o
      → Step blank s (record s { stealers = update s.stealers i (noting s.active_buffer o) })
  note :
      (i a : ℕ) (o : Option A)
      → s.stealers i ≡ noting a o
      → Step blank s (record s {
        stealers = update s.stealers i (returned o);
        id_last_used = update s.id_last_used i a;
      })

-- A new deque, with nobody there.
abbrev pub start_system : {A : Type 0} → A → System A
start_system blank = record {
  top = 0;
  bottom = 0;
  active_buffer = 0;
  buffers = λ a. record { id = a; log_size = log_initial_size; segment = λ i. blank };
  unlinked = none;
  registered = 0;
  was_idle = λ i. true;
  id_last_used = λ i. 0;
  owner = idle none;
  stealers = λ i. returned none;
  pushed = 0;
  items = λ j. blank;
  numbers = λ i. 0;
  claims = [];
}

pub data Reach {A : Type 0} (blank : A) : System A → Type 0 where
  start : Reach blank (start_system blank)
  later : {s t : System A} → Reach blank s → Step blank s t → Reach blank t
