-- ===== src/Task/Protocol.antt =====
-- A coroutine that ends and a coroutine that awaits it, on two threads, a shared access at a time.
use parallel_operations_tool.Prelude.{ℕ, ◌≡◌, Bool, true, false, Option}
use parallel_operations_tool.Task.{
  Slot, null, sentinel, waiting, Promise, Got, fresh, set_value, set_exception, get, exchange,
  store_ready, try_await, store_awaiter,
}

-- `task` starts at once, `lazy_task` when it is awaited.
pub data Kind : Type 0 where
  eager lazy : Kind

-- The awaited coroutine. From `at_end` on it is suspended at its final suspension point, `done()` is
-- true, and what is left is `final_awaiter::await_suspend`.
pub data Callee : Type 0 where
  created : Callee
  running : Callee
  at_end : Callee
  exchanged : (prev : Slot) → Callee  -- before the store of `m_ready`
  stored : (prev : Slot) → Callee  -- before `m_ready.notify_all()`
  notified : (prev : Slot) → Callee  -- before the transfer to the awaiter, if there is one
  ended : Callee

-- How the awaiting coroutine came to go on.
pub data Way : Type 0 where
  found_done found_sentinel transferred : Way

pub data Caller (A E : Type 0) : Type 0 where
  awaiting : Caller A E  -- before `await_ready`
  suspending : Caller A E  -- before the compare-exchange of `await_suspend`
  suspended : Caller A E
  failed : Caller A E  -- `await_suspend` threw
  going_on : (way : Way) → Caller A E  -- in `await_resume`
  received : (way : Way) (got : Got A E) → Caller A E  -- and its guard has destroyed the frame

pub record System (A E : Type 0) : Type 0 where
  pub promise : Promise A E
  pub callee : Callee
  pub caller : Caller A E
  pub destroyed : Bool

-- `done() || is_ready()`
abbrev pub is_done : Callee → Bool
is_done created = false
is_done running = false
is_done _ = true

-- What `await_resume` does with one round of `get`: it may go round again.
abbrev pub settle : {A E : Type 0} → Way → Got A E → Caller A E
settle way Got.spins = going_on way
settle way got = received way got

abbrev pub is_settled : {A E : Type 0} → Got A E → Bool
is_settled Got.spins = false
is_settled got = true

-- The transfer resumes the awaiter that `prev` names; `noop_coroutine` resumes nobody.
abbrev pub transfer : {A E : Type 0} → Slot → Caller A E → Caller A E
transfer (waiting address) caller = going_on transferred
transfer slot caller = caller

-- What the result of the compare-exchange means for the awaiter.
abbrev pub after_exchange : {A E : Type 0} → Slot → Caller A E
after_exchange null = suspended
after_exchange sentinel = going_on found_sentinel
after_exchange (waiting address) = failed

-- One step of the two coroutines; `me` is the address of the awaiting one.
pub data Step {A E : Type 0} (kind : Kind) (me : ℕ) (s : System A E) : System A E → Type 0 where
  co_return :
      (v : A)
      → s.callee ≡ running
      → Step kind me s (record s { promise = set_value s.promise v; callee = at_end })
  throw :
      (e : E)
      → s.callee ≡ running
      → Step kind me s (record s { promise = set_exception s.promise e; callee = at_end })
  swap :
      s.callee ≡ at_end
      → Step kind me s
          (record s { promise = (exchange s.promise).1; callee = exchanged (exchange s.promise).0 })
  store :
      {prev : Slot}
      → s.callee ≡ exchanged prev
      → Step kind me s (record s { promise = store_ready s.promise; callee = stored prev })
  notify :
      {prev : Slot} → s.callee ≡ stored prev → Step kind me s (record s { callee = notified prev })
  resume :
      {prev : Slot}
      → s.callee ≡ notified prev
      → Step kind me s (record s { callee = ended; caller = transfer prev s.caller })
  -- `task::await_ready`
  find_done :
      kind ≡ eager
      → s.caller ≡ awaiting
      → is_done s.callee ≡ true
      → Step kind me s (record s { caller = going_on found_done })
  find_busy :
      kind ≡ eager
      → s.caller ≡ awaiting
      → is_done s.callee ≡ false
      → Step kind me s (record s { caller = suspending })
  -- `task::await_suspend`
  suspend :
      s.caller ≡ suspending
      → Step kind me s (record s {
        promise = (try_await s.promise me).1;
        caller = after_exchange (try_await s.promise me).0;
      })
  -- `lazy_task::await_suspend`: the store, and the transfer to the awaited coroutine
  start_lazy :
      kind ≡ lazy
      → s.caller ≡ awaiting
      → s.callee ≡ created
      → Step kind me s
          (record s { promise = store_awaiter s.promise me; callee = running; caller = suspended })
  refuse_lazy :
      kind ≡ lazy
      → s.caller ≡ awaiting
      → is_done s.callee ≡ true
      → Step kind me s (record s { caller = failed })
  -- `await_resume`: a round of `get`, and the destruction of the frame when it returns or throws
  read_result :
      {way : Way}
      → s.caller ≡ going_on way
      → Step kind me s
          (record s { caller = settle way (get s.promise); destroyed = is_settled (get s.promise) })

abbrev pub first_state : Kind → Callee
first_state eager = running
first_state lazy = created

abbrev pub start_state : {A E : Type 0} → Kind → Option ℕ → System A E
start_state kind steal = record {
  promise = record fresh { steal = steal };
  callee = first_state kind;
  caller = awaiting;
  destroyed = false;
}

-- The states from a promise just made, with or without a function to steal by.
pub data Reach {A E : Type 0} (kind : Kind) (me : ℕ) (steal : Option ℕ) : System A E → Type 0 where
  start : Reach kind me steal (start_state kind steal)
  later : {s t : System A E} → Reach kind me steal s → Step kind me s t → Reach kind me steal t
