-- ===== src/Task.antt =====
-- include/pot/coroutines/task.h: the promise of a coroutine and its readers.
pub mod Ownership
pub mod Protocol
pub mod Invariant
pub mod Safety
pub mod Handles
pub mod Owned
pub mod Defined
mod Tests
mod HandleTests
use parallel_operations_tool.Prelude.{ℕ, ◌+◌, Bool, true, false, Option, none, some, if◌then◌else◌}

-- `m_data`: a monostate, a value, or an exception.
pub data Outcome (A E : Type 0) : Type 0 where
  nothing : Outcome A E
  value : A → Outcome A E
  exception : E → Outcome A E

-- `m_awaiter`: null, the sentinel 1, or the address of a coroutine.
pub data Slot : Type 0 where
  null : Slot
  sentinel : Slot
  waiting : (address : ℕ) → Slot

-- `basic_promise_type`. `steal` is empty, or calls `try_steal` of an executor.
pub record Promise (A E : Type 0) : Type 0 where
  pub ready : Bool
  pub awaiter : Slot
  pub outcome : Outcome A E
  pub run_count : ℕ
  pub steal : Option ℕ

-- What reading a promise comes to: `spins` is another round of `wait`, `sleeps` a blocked
-- `blocking_wait`, and the last two are exceptions of the standard library.
pub data Got (A E : Type 0) : Type 0 where
  returned : A → Got A E
  rethrown : E → Got A E
  spins sleeps bad_variant_access bad_function_call : Got A E

module _ {A E : Type 0} where
  unfoldable pub fresh : Promise A E
  fresh = record { ready = false; awaiter = null; outcome = nothing; run_count = 0; steal = none }

  unfoldable pub set_value : Promise A E → A → Promise A E
  set_value p v = record p { outcome = value v }

  unfoldable pub set_exception : Promise A E → E → Promise A E
  set_exception p e = record p { outcome = exception e }

  -- `rethrow_exception`, or `std::get<T>`.
  unfoldable pub read : Outcome A E → Got A E
  read nothing = bad_variant_access
  read (value v) = returned v
  read (exception e) = rethrown e

  -- `get`: one round of `wait`, which calls `steal` while the promise is not ready, and the read
  -- behind it. An empty `std::function` throws when it is called.
  unfoldable pub get : Promise A E → Got A E
  get p =
      if p.ready then read p.outcome else elim p.steal [ none ↦ bad_function_call | some e ↦ spins ]

  unfoldable pub blocking_get : Promise A E → Got A E
  blocking_get p = if p.ready then read p.outcome else sleeps

  -- `final_awaiter::await_suspend`: the exchange, which gives the coroutine to resume, and the store.
  unfoldable pub exchange : Promise A E → Slot × Promise A E
  exchange p = (p.awaiter, record p { awaiter = sentinel })

  unfoldable pub store_ready : Promise A E → Promise A E
  store_ready p = record p { ready = true }

  -- The compare-exchange of `task::await_suspend`: what it found, and the promise behind it.
  unfoldable pub try_await : Promise A E → ℕ → Slot × Promise A E
  try_await p address = elim p.awaiter [
    | null ↦ (null, record p { awaiter = waiting address })
    | sentinel ↦ (sentinel, p)
    | waiting other ↦ (waiting other, p)
  ]

  -- The store of `lazy_task::await_suspend`.
  unfoldable pub store_awaiter : Promise A E → ℕ → Promise A E
  store_awaiter p address = record p { awaiter = waiting address }

  -- `get(executor)`: the assignment to `meta.steal`, unless the pointer is null.
  unfoldable pub set_steal : Promise A E → Option ℕ → Promise A E
  set_steal p none = p
  set_steal p (some executor) = record p { steal = some executor }
