-- ===== src/Task/Invariant.antt =====
-- What holds between the promise, the coroutine that ends and the one that awaits it.
use parallel_operations_tool.Prelude.{
  ℕ, ◌≡◌, ◌≢◌, ◌⊎◌, refl, Bool, true, false, Option, none, arith,
}
use parallel_operations_tool.Task.{
  nothing, Slot, null, sentinel, waiting, Promise, bad_function_call, fresh, set_value,
  set_exception, get, read, exchange, store_ready, try_await, store_awaiter,
}
use parallel_operations_tool.Task.Protocol.{
  Kind, eager, lazy, Callee, created, running, at_end, exchanged, stored, notified, ended,
  transferred, Caller, awaiting, suspended, going_on, received, System, Step, co_return, throw,
  swap, store, notify, resume, find_done, find_busy, suspend, start_lazy, refuse_lazy, read_result,
  start_state, Reach, start, later,
}

-- Only a lazy task has not started.
abbrev pub MadeBy : Kind → Callee → Type 0
MadeBy kind created = kind ≡ lazy
MadeBy kind callee = Unit

module _ {A E : Type 0} where
  -- What the awaiter has left in `m_awaiter`.
  abbrev pub expected : ℕ → Caller A E → Slot
  expected me suspended = waiting me
  expected me _ = null

  -- The awaiter has not gone on by a transfer.
  abbrev pub is_transferred : Caller A E → Bool
  is_transferred (going_on transferred) = true
  is_transferred (received transferred got) = true
  is_transferred _ = false

  abbrev pub goes_on : Caller A E → Bool
  goes_on (going_on way) = true
  goes_on (received way got) = true
  goes_on _ = false

  -- The promise at each place of the awaited coroutine.
  abbrev pub Fits : ℕ → Callee → Promise A E → Caller A E → Type 0
  Fits me created p caller = (p.ready ≡ false) × (p.awaiter ≡ null) × (caller ≡ awaiting)
  Fits me running p caller =
      (p.ready ≡ false) × (p.awaiter ≡ expected me caller) × (goes_on caller ≡ false)
  Fits me at_end p caller =
      (p.ready ≡ false)
      × (p.awaiter ≡ expected me caller)
      × (is_transferred caller ≡ false)
      × (p.outcome ≢ nothing)
  Fits me (exchanged prev) p caller =
      (p.ready ≡ false)
      × (p.awaiter ≡ sentinel)
      × (is_transferred caller ≡ false)
      × (p.outcome ≢ nothing)
      × (prev ≡ expected me caller)
  Fits me (stored prev) p caller =
      (p.ready ≡ true)
      × (p.awaiter ≡ sentinel)
      × (is_transferred caller ≡ false)
      × (p.outcome ≢ nothing)
      × (prev ≡ expected me caller)
  Fits me (notified prev) p caller =
      (p.ready ≡ true)
      × (p.awaiter ≡ sentinel)
      × (is_transferred caller ≡ false)
      × (p.outcome ≢ nothing)
      × (prev ≡ expected me caller)
  Fits me ended p caller =
      (p.ready ≡ true) × (p.awaiter ≡ sentinel) × (p.outcome ≢ nothing) × (caller ≢ suspended)

  -- What an awaiter that has its result knows of it.
  abbrev pub Settled : Option ℕ → Promise A E → Caller A E → Type 0
  Settled steal p (received transferred got) = got ≡ read p.outcome
  Settled steal p (received way got) =
      (got ≡ read p.outcome) ⊎ ((got ≡ bad_function_call) × (steal ≡ none))
  Settled steal p _ = Unit

  pub record Inv (kind : Kind) (me : ℕ) (steal : Option ℕ) (s : System A E) : Type 0 where
    pub fits : Fits me s.callee s.promise s.caller
    pub settled : Settled steal s.promise s.caller
    pub made : MadeBy kind s.callee
    pub thief : s.promise.steal ≡ steal

  Step-Inv :
      {kind : Kind} {me : ℕ} {steal : Option ℕ} {s t : System A E}
      → Step kind me s t
      → Inv kind me steal s
      → Inv kind me steal t
  unfolding set_value set_exception exchange store_ready try_await store_awaiter get read
  Step-Inv (co_return v e) inv = ground arith
  Step-Inv (throw x e) inv = ground arith
  Step-Inv (swap e) inv = ground arith
  Step-Inv (store e) inv = ground arith
  Step-Inv (notify e) inv = ground arith
  Step-Inv (resume e) inv = ground arith
  Step-Inv (find_done k e d) inv = ground arith
  Step-Inv (find_busy k e d) inv = ground arith
  Step-Inv (suspend e) inv = ground arith
  Step-Inv (start_lazy k e c) inv = ground arith
  Step-Inv (refuse_lazy k e d) inv = ground arith
  Step-Inv (read_result e) inv = ground arith

  Inv-start : (kind : Kind) (me : ℕ) (steal : Option ℕ) → Inv kind me steal (start_state kind steal)
  unfolding fresh
  Inv-start eager me steal = record {
    fits = (refl, refl, refl);
    settled = tt;
    made = tt;
    thief = refl;
  }
  Inv-start lazy me steal = record {
    fits = (refl, refl, refl);
    settled = tt;
    made = refl;
    thief = refl;
  }

  pub Reach-Inv :
      {kind : Kind} {me : ℕ} {steal : Option ℕ} {s : System A E}
      → Reach kind me steal s
      → Inv kind me steal s
  Reach-Inv {kind} {me} {steal} start = Inv-start kind me steal
  Reach-Inv (later r st) = Step-Inv st (Reach-Inv r)
