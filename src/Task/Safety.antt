-- ===== src/Task/Safety.antt =====
-- What a coroutine that awaits a task can rely on, however the two are interleaved.
use parallel_operations_tool.Prelude.{
  ℕ, inl, inr, subst, refl, ◌∙◌, ◌≡◌, ◌≢◌, ◌⊎◌, true, Option, none, arith,
}
use parallel_operations_tool.Task.{
  waiting, Outcome, nothing, value, exception, Got, returned, rethrown, bad_function_call, read,
  fresh, set_value, set_exception, exchange, store_ready, try_await, store_awaiter,
}
use parallel_operations_tool.Task.Protocol.{
  Kind, notified, ended, Way, transferred, suspended, received, System, Reach, start, later,
  co_return, throw, swap, store, notify, resume, find_done, find_busy, suspend, start_lazy,
  refuse_lazy, read_result,
}
use parallel_operations_tool.Task.Invariant.{Reach-Inv}

module _ {A E : Type 0} where
  -- What a reader of a coroutine that has ended so receives.
  abbrev pub Delivers : Outcome A E → Got A E → Type 0
  Delivers nothing got = ⊥
  Delivers (value v) got = got ≡ returned v
  Delivers (exception x) got = got ≡ rethrown x

  read-Delivers : (o : Outcome A E) (got : Got A E) → o ≢ nothing → got ≡ read o → Delivers o got
  unfolding read
  read-Delivers nothing got some_outcome e = some_outcome refl
  read-Delivers (value v) got some_outcome e = e
  read-Delivers (exception x) got some_outcome e = e

module _ {A E : Type 0} {kind : Kind} {me : ℕ} {steal : Option ℕ} where
  -- How the awaited coroutine has ended: by the `co_return` or the exception among its steps.
  abbrev pub ended_with : {s : System A E} → Reach kind me steal s → Outcome A E
  ended_with start = nothing
  ended_with (later r (co_return v e)) = value v
  ended_with (later r (throw x e)) = exception x
  ended_with (later r (swap e)) = ended_with r
  ended_with (later r (store e)) = ended_with r
  ended_with (later r (notify e)) = ended_with r
  ended_with (later r (resume e)) = ended_with r
  ended_with (later r (find_done k e d)) = ended_with r
  ended_with (later r (find_busy k e d)) = ended_with r
  ended_with (later r (suspend e)) = ended_with r
  ended_with (later r (start_lazy k e c)) = ended_with r
  ended_with (later r (refuse_lazy k e d)) = ended_with r
  ended_with (later r (read_result e)) = ended_with r

  outcome-ended_with :
      {s : System A E} (r : Reach kind me steal s) → s.promise.outcome ≡ ended_with r
  unfolding fresh set_value set_exception exchange store_ready try_await store_awaiter
  outcome-ended_with start = refl
  outcome-ended_with (later r (co_return v e)) = refl
  outcome-ended_with (later r (throw x e)) = refl
  outcome-ended_with (later r (swap e)) = outcome-ended_with r
  outcome-ended_with (later r (store e)) = outcome-ended_with r
  outcome-ended_with (later r (notify e)) = outcome-ended_with r
  outcome-ended_with (later r (resume e)) = outcome-ended_with r
  outcome-ended_with (later r (find_done k e d)) = outcome-ended_with r
  outcome-ended_with (later r (find_busy k e d)) = outcome-ended_with r
  outcome-ended_with (later r (suspend e)) = ground arith ∙ outcome-ended_with r
  outcome-ended_with (later r (start_lazy k e c)) = outcome-ended_with r
  outcome-ended_with (later r (refuse_lazy k e d)) = outcome-ended_with r
  outcome-ended_with (later r (read_result e)) = outcome-ended_with r

module _ {A E : Type 0} {kind : Kind} {me : ℕ} {steal : Option ℕ} {s : System A E}
    (r : Reach kind me steal s) where
  open (Reach-Inv r) use {fits, settled, thief}

  -- When the awaited coroutine has ended, the awaiter is not left suspended.
  pub no_lost_wakeup : s.callee ≡ ended → s.caller ≢ suspended
  no_lost_wakeup e = ground (arith, fits)

  -- A coroutine that the final awaiter is about to resume is the awaiter, it is suspended, and the
  -- result is ready: no coroutine is resumed twice or while it runs.
  transfer_valid :
      (address : ℕ)
      → s.callee ≡ notified (waiting address)
      → (address ≡ me) × (s.caller ≡ suspended) × (s.promise.ready ≡ true)
  transfer_valid address e = ground (arith, fits)

  -- An awaiter that was resumed by the transfer has the value or the exception that the awaited
  -- coroutine ended with, and that coroutine no longer touches its frame.
  transferred_result :
      (got : Got A E)
      → s.caller ≡ received transferred got
      → (got ≡ read s.promise.outcome) × (s.callee ≡ ended)
  transferred_result got e = ground (arith, fits, settled)

  -- An awaiter that has its result has the value or the exception that the awaited coroutine ended
  -- with, unless no function to steal by is set and the awaiter did not suspend: then it may have the
  -- exception of an empty `std::function` instead.
  pub received_result :
      (way : Way) (got : Got A E)
      → s.caller ≡ received way got
      → Delivers (ended_with r) got
        ⊎ ((got ≡ bad_function_call) × (steal ≡ none) × (way ≢ transferred))
  received_result way got e = elim read_or_threw [
    | inl same ↦ inl (
        subst (λ o. Delivers o got) (outcome-ended_with r)
          (read-Delivers s.promise.outcome got some_outcome same))
    | inr threw ↦ inr threw
  ]
    where
      some_outcome : s.promise.outcome ≢ nothing
      some_outcome = ground (arith, fits)

      read_or_threw :
          (got ≡ read s.promise.outcome)
          ⊎ ((got ≡ bad_function_call) × (steal ≡ none) × (way ≢ transferred))
      read_or_threw = ground (arith, fits, settled)
