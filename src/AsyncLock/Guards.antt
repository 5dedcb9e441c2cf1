-- ===== src/AsyncLock/Guards.antt =====
-- include/pot/sync/async_lock.h: `scoped_lock_guard` and its moves. A guard is a variable, `none` is the
-- null `m_lock`, which a variable without a guard has as well.
use parallel_operations_tool.Prelude.{
  ℕ, ◌+◌, ◌<◌, ◌≡◌, refl, ap, Bool-cases, inl, inr, arith, Option, none, some, List, [], ◌∷◌, ◌==◌,
  if◌then◌else◌, update, sum_of, sum_of-update, sum_of-zero,
}
use parallel_operations_tool.Schedule.{count}

-- `acquired` records the locks of the guards that `await_resume` has made, and `unlocked` the calls of
-- `unlock`.
pub record Guards : Type 0 where
  pub guards : ℕ → Option ℕ
  pub acquired : List ℕ
  pub unlocked : List ℕ

abbrev pub put_guard : Guards → ℕ → Option ℕ → Guards
put_guard s this m_lock = record s { guards = update s.guards this m_lock }

abbrev pub add_call : Option ℕ → List ℕ → List ℕ
add_call none unlocked = unlocked
add_call (some lock) unlocked = lock ∷ unlocked

-- `if (m_lock) m_lock->unlock();`
abbrev pub unlock_held : Guards → Option ℕ → Guards
unlock_held s m_lock = record s { unlocked = add_call m_lock s.unlocked }

abbrev pub make_guard : Guards → ℕ → ℕ → Guards
make_guard s this lock = record (put_guard s this (some lock)) { acquired = lock ∷ s.acquired }

abbrev pub destroy_guard : Guards → ℕ → Guards
destroy_guard s this = put_guard (unlock_held s (s.guards this)) this none

-- `m_lock = other.m_lock; other.m_lock = nullptr;`
abbrev pub take_lock : Guards → ℕ → ℕ → Guards
take_lock s this other = put_guard (put_guard s this (s.guards other)) other none

abbrev pub assign_guard : Guards → ℕ → ℕ → Guards
assign_guard s this other =
    if this == other then s else take_lock (unlock_held s (s.guards this)) this other

-- The programs over `n` variables. A guard is made where there is none.
pub data Step (n : ℕ) (s : Guards) : Guards → Type 0 where
  make : (this lock : ℕ) → this < n → s.guards this ≡ none → Step n s (make_guard s this lock)
  destroy : (this : ℕ) → this < n → Step n s (destroy_guard s this)
  move_construct :
      (this other : ℕ)
      → this < n
      → other < n
      → s.guards this ≡ none
      → Step n s (take_lock s this other)
  move_assign : (this other : ℕ) → this < n → other < n → Step n s (assign_guard s this other)

abbrev pub no_guards : Guards
no_guards = record { guards = λ i. none; acquired = []; unlocked = [] }

pub data Reach (n : ℕ) : Guards → Type 0 where
  start : Reach n no_guards
  later : {s t : Guards} → Reach n s → Step n s t → Reach n t

-- Whether a guard holds the lock.
abbrev pub holds : ℕ → Option ℕ → ℕ
holds lock none = 0
holds lock (some l) = if l == lock then 1 else 0

abbrev pub holders : ℕ → ℕ → Guards → ℕ
holders n lock s = sum_of (holds lock) n s.guards

module _ (n lock : ℕ) where
  abbrev Balanced : Guards → Type 0
  Balanced s = count lock s.acquired ≡ count lock s.unlocked + holders n lock s

  put-holders :
      (s : Guards) (this : ℕ) (m : Option ℕ)
      → this < n
      → holders n lock (put_guard s this m) + holds lock (s.guards this)
        ≡ holders n lock s + holds lock m
  put-holders s this m l = sum_of-update (holds lock) n s.guards this m l

  unlocked-count :
      (s : Guards) (m : Option ℕ)
      → count lock (unlock_held s m).unlocked ≡ count lock s.unlocked + holds lock m
  unlocked-count s none = omega arith
  unlocked-count s (some l) = ground arith

  -- What the guard held before is held no more, and what it takes over is held once.
  take-holders :
      (s : Guards) (this other : ℕ)
      → this < n
      → other < n
      → holders n lock (take_lock s this other) + holds lock (s.guards this) ≡ holders n lock s
  take-holders s this other i j = omega (
    arith,
    put-holders s this (s.guards other) i,
    put-holders (put_guard s this (s.guards other)) other none j,
    ap (holds lock) held,
  )
    where
      held : update s.guards this (s.guards other) other ≡ s.guards other
      held = ground arith

  Step-Balanced : {s t : Guards} → Balanced s → Step n s t → Balanced t
  Step-Balanced {s} inv (make this l i e) = ground (arith, inv, e, put-holders s this (some l) i)
  Step-Balanced {s} inv (destroy this i) =
      omega (arith, inv, unlocked-count s (s.guards this), put-holders s this none i)
  Step-Balanced {s} inv (move_construct this other i j e) =
      omega (arith, inv, take-holders s this other i j, ap (holds lock) e)
  Step-Balanced {s} inv (move_assign this other i j) = elim (Bool-cases (this == other)) [
    | inl same ↦ rw same inv
    | inr differ ↦
        rw differ
          (omega (arith, inv, unlocked-count s (s.guards this), take-holders s this other i j))
  ]

  -- In every program with guards in `n` variables a lock was unlocked as often as guards were made for
  -- it, less the guards that hold it: moves neither unlock it twice nor lose it, and when no guard holds
  -- it any more, each of its guards has unlocked it once.
  pub guards_balanced :
      {s : Guards} → Reach n s → count lock s.acquired ≡ count lock s.unlocked + holders n lock s
  guards_balanced start = omega (arith, sum_of-zero (holds lock) n (λ i. none) (λ i. refl))
  guards_balanced (later r step) = Step-Balanced (guards_balanced r) step
