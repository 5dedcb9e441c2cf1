-- ===== src/LfDequeue.antt =====
-- include/pot/algorithms/lfdequeue.h: the work-stealing deque. Its owner pushes and pops at the
-- bottom, stealers pop at the top; each call here runs with no other call in between.
-- `long` values are never negative at rest, and stay below 2 ^ 63.
pub mod Shrink
pub mod Valid
pub mod Buffers
pub mod Refine
pub mod Reclaim
pub mod Threads
mod Tests
use parallel_operations_tool.Prelude.{
  ℕ, zero, suc, ◌+◌, ◌-◌, ◌/◌, ◌%◌, ◌^◌, min, ◌==◌, ltb, leb, if◌then◌else◌, Bool, true, false,
  ◌&&◌, Option, none, some, List, [], ◌∷◌, ◌++◌, update,
}

-- `ring_buffer`. Its `next` is the buffer after it in `LfDequeue.retired`, or the active one.
pub record RingBuffer {ℓ} (A : Type ℓ) : Type ℓ where
  pub id : ℕ
  pub log_size : ℕ
  pub segment : ℕ → A

-- `stealer_token`
pub record Token : Type 0 where
  pub id_last_used : ℕ
  pub was_idle : Bool

-- The argument `delta` of `resize`: 1 or -1.
pub data Delta : Type 0 where
  grow shrink : Delta

abbrev pub log_initial_size : ℕ
log_initial_size = 4

-- `unlinked` is null, or the first of the buffers that are not deleted: those in the list, oldest
-- first, and behind them the active one.
pub record LfDequeue {ℓ} (A : Type ℓ) : Type ℓ where
  pub top : ℕ
  pub bottom : ℕ
  pub active : RingBuffer A
  pub unlinked : Option (List (RingBuffer A))
  pub id_list : List Token

abbrev pub resized_log : ℕ → Delta → ℕ
resized_log n grow = n + 1
resized_log n shrink = n - 1

-- The least of `id` and the buffers that busy stealers used last.
unfoldable pub min_id : ℕ → List Token → ℕ
min_id id [] = id
min_id id (token ∷ tokens) =
    min_id (if token.was_idle then id else min id token.id_last_used) tokens

-- What a steal leaves in the token at `k` of the list.
unfoldable pub note_use : ℕ → ℕ → List Token → List Token
note_use id k [] = []
note_use id zero (token ∷ tokens) = record { id_last_used = id; was_idle = true } ∷ tokens
note_use id (suc k) (token ∷ tokens) = token ∷ note_use id k tokens

module _ {ℓ} {A : Type ℓ} where
  abbrev pub size : RingBuffer A → ℕ
  size r = 2 ^ r.log_size

  abbrev pub get : RingBuffer A → ℕ → A
  get r i = r.segment (i % size r)

  abbrev pub put_item : RingBuffer A → ℕ → A → RingBuffer A
  put_item r i x = record r { segment = update r.segment (i % size r) x }

  -- The loop of `resize`: `n` elements from `i` on.
  unfoldable pub copy_from : RingBuffer A → RingBuffer A → ℕ → ℕ → RingBuffer A
  copy_from old new i zero = new
  copy_from old new i (suc n) = copy_from old (put_item new i (get old i)) (i + 1) n

  -- `blank` is what `new T[…]` leaves in a segment.
  unfoldable pub resize : A → RingBuffer A → ℕ → ℕ → Delta → RingBuffer A
  resize blank r b t delta =
      copy_from r
        (record { id = r.id + 1; log_size = resized_log r.log_size delta; segment = λ i. blank }) t
        (b - t)

  unfoldable pub init : A → LfDequeue A
  init blank = record {
    top = 0;
    bottom = 0;
    active = record { id = 0; log_size = log_initial_size; segment = λ i. blank };
    unlinked = none;
    id_list = [];
  }

  -- `while (unlinked && unlinked->id < min_id)`: what is left. The active buffer's number is not
  -- below `min_id`, so the loop ends there at the latest.
  unfoldable pub drop_below : ℕ → List (RingBuffer A) → List (RingBuffer A)
  drop_below bound [] = []
  drop_below bound (r ∷ rs) = if ltb r.id bound then drop_below bound rs else r ∷ rs

  -- `if (unlinked) reclaim_buffers(a)`
  unfoldable pub reclaim_buffers :
      List Token → RingBuffer A → Option (List (RingBuffer A)) → Option (List (RingBuffer A))
  reclaim_buffers tokens new none = none
  reclaim_buffers tokens new (some retired) = some (drop_below (min_id new.id tokens) retired)

  -- `unlinked = unlinked ? unlinked : a`, where `a` is about to be replaced.
  abbrev pub retire : RingBuffer A → Option (List (RingBuffer A)) → Option (List (RingBuffer A))
  retire a none = some (a ∷ [])
  retire a (some retired) = some (retired ++ (a ∷ []))

  -- The active buffer and `unlinked` after the test for room of `push`.
  unfoldable pub ensure_room : A → LfDequeue A → LfDequeue A
  ensure_room blank q =
      if leb (size q.active - 1) (q.bottom - q.top)
      then record q {
        active = resize blank q.active q.bottom q.top grow;
        unlinked = retire q.active q.unlinked;
      }
      else q

  unfoldable pub push : A → LfDequeue A → A → LfDequeue A
  push blank q item =
      let r = ensure_room blank q in
      record r {
        unlinked = reclaim_buffers r.id_list r.active r.unlinked;
        active = put_item r.active r.bottom item;
        bottom = r.bottom + 1;
      }

  -- The buffers after the test of `pop` for a buffer that is too large.
  unfoldable pub shrink_buffer : A → LfDequeue A → LfDequeue A
  shrink_buffer blank q =
      if leb (q.bottom - q.top) (size q.active / 3) && ltb (2 ^ log_initial_size) (q.bottom - q.top)
      then record q {
        active = resize blank q.active q.bottom q.top shrink;
        unlinked = retire q.active q.unlinked;
      }
      else q

  -- `pop`: with no stealer about, the exchange on the last element succeeds.
  unfoldable pub pop : A → LfDequeue A → Option A × LfDequeue A
  pop blank q =
      if leb q.bottom q.top
      then (none, q)
      else if q.bottom - q.top == 1
      then (some (get q.active q.top), record q { top = q.top + 1 })
      else let r = shrink_buffer blank q in
        (
          some (get q.active (q.bottom - 1)),
          record r {
            unlinked = reclaim_buffers r.id_list r.active r.unlinked;
            bottom = r.bottom - 1;
          },
        )

  -- `register_stealer`: the token and the deque that holds it.
  unfoldable pub register_stealer : LfDequeue A → Token × LfDequeue A
  register_stealer q =
      let token : Token = record { id_last_used = 0; was_idle = true } in
      (token, record q { id_list = token ∷ q.id_list })

  -- `pop_back` by the stealer whose token stands at `k`.
  unfoldable pub pop_back : LfDequeue A → ℕ → Option A × LfDequeue A
  pop_back q k =
      let used = record q { id_list = note_use q.active.id k q.id_list } in
      if ltb q.top q.bottom
      then (some (get q.active q.top), record used { top = q.top + 1 })
      else (none, used)
