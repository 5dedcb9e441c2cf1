-- ===== src/Executors/Run/Once.antt =====
-- The functions that `run` and `lazy_run` are given are called once.
use parallel_operations_tool.Prelude.{
  ℕ, ◌+◌, ◌≤◌, ◌≡◌, ◌≢◌, refl, ap, ◌∙◌, List, [], ◌∷◌, ◌++◌, arith, ◌==◌, if◌then◌else◌,
}
use parallel_operations_tool.Schedule.{count, count-append}
use parallel_operations_tool.Executors.Run.{
  Executor, Inline, InlineReach, enter, invoke, Run, absent, created, scheduling, queued, calling,
  waiting, broken, ended, awaited, handed, called, left, resumed, detach, leave, System, Step, run,
  lazy_run, await, submit, refuse, resume, return, return_task, await_task, work, Reach, start,
  later,
}

-- The tasks that the coroutine has handed over, the calls of its function, and its `run_count`.
module _ {A E : Type 0} where
  abbrev pub submits : Run A E → ℕ
  submits queued = 1
  submits calling = 1
  submits waiting = 1
  submits (ended o) = 1
  submits (awaited o) = 1
  submits handed = 1
  submits called = 1
  submits left = 1
  submits _ = 0

  abbrev pub calls : Run A E → ℕ
  calls calling = 1
  calls waiting = 1
  calls (ended o) = 1
  calls (awaited o) = 1
  calls called = 1
  calls left = 1
  calls _ = 0

  abbrev pub runs_of : Run A E → ℕ
  runs_of absent = 0
  runs_of created = 0
  runs_of scheduling = 0
  runs_of handed = 0
  runs_of called = 0
  runs_of left = 0
  runs_of waiting = 2
  runs_of (awaited o) = 2
  runs_of _ = 1

  -- A suspended coroutine is the only one with a task that was not taken.
  -- Resumed with a task that was not taken, it is suspended, and only its calls change.
  record Resumes (r : Run A E) : Type 0 where
    pub sound : resumed r ≢ broken
    submitted : submits (resumed r) ≡ submits r
    called_once : calls (resumed r) ≡ calls r + 1
    pub counted : runs_of (resumed r) ≡ runs_of r

  suspended-Resumes : (r : Run A E) → r ≢ broken → calls r + 1 ≤ submits r → Resumes r
  suspended-Resumes r sound h = record {
    sound = ground arith;
    submitted = ground arith;
    called_once = ground arith;
    counted = ground arith;
  }

-- A task is put behind others.
count-snoc :
    (xs ys : List ℕ) (m i : ℕ)
    → ys ≡ xs ++ (i ∷ [])
    → count m ys ≡ count m xs + (if i == m then 1 else 0)
count-snoc xs ys m i e = omega (arith, ap (count m) e, count-append m xs (i ∷ []))

-- An executor does not take a task more often than it has accepted it.
module _ {A E S : Type 0} (ex : Executor ℕ S)
    (fair : (s : S) → ex.Reaches s → (i : ℕ) → count i (ex.taken s) ≤ count i (ex.accepted s)) where
  pub record Inv (s : System A E S) : Type 0 where
    pub reached : ex.Reaches s.executor
    sound : (i : ℕ) → s.runs i ≢ broken
    pub accepted : (i : ℕ) → count i (ex.accepted s.executor) ≡ submits (s.runs i)
    pub taken : (i : ℕ) → count i (ex.taken s.executor) ≡ calls (s.runs i)
    pub invoked : (i : ℕ) → count i s.invoked ≡ calls (s.runs i)
    counted : (i : ℕ) → s.run_count i ≡ runs_of (s.runs i)

  Step-Inv : {s t : System A E S} → Inv s → Step ex s t → Inv t
  Step-Inv inv (run i e) = grind arith
  Step-Inv inv (lazy_run i e) = grind arith
  Step-Inv inv (await i e) = grind arith
  Step-Inv {s} inv (submit i u e step put same) = record {
    reached = ex.step-Reaches s.executor u inv.reached step;
    sound = grind arith;
    accepted = λ m. ground (arith, inv.accepted m, count-snoc _ _ m i put);
    taken = λ m. ground (arith, inv.taken m, ap (count m) same);
    invoked = λ m. ground (arith, inv.invoked m);
    counted = λ m. ground (arith, inv.counted m, inv.counted i);
  }
  Step-Inv inv (refuse i x e) = grind arith
  Step-Inv {s} inv (resume i u step same got) =
      let reached : ex.Reaches u = ex.step-Reaches s.executor u inv.reached step in
      let once : Resumes (s.runs i) = suspended-Resumes (s.runs i) (inv.sound i) (
        ground (
          arith,
          fair u reached i,
          count-snoc _ _ i i got,
          ap (count i) same,
          inv.accepted i,
          inv.taken i,
        )) in
      record {
        reached = reached;
        sound = λ m. ground (arith, inv.sound m, once.sound);
        accepted = λ m. ground (arith, inv.accepted m, ap (count m) same, once.submitted);
        taken = λ m. ground (arith, inv.taken m, count-snoc _ _ m i got, once.called_once);
        invoked = λ m. ground (arith, inv.invoked m, once.called_once);
        counted = λ m. ground (arith, inv.counted m, once.counted);
      }
  Step-Inv inv (return i o e) = grind arith
  Step-Inv inv (return_task i e) = grind arith
  Step-Inv inv (await_task i o e) = grind arith
  Step-Inv {s} inv (detach i u e step put same) = record {
    reached = ex.step-Reaches s.executor u inv.reached step;
    sound = grind arith;
    accepted = λ m. ground (arith, inv.accepted m, count-snoc _ _ m i put);
    taken = λ m. ground (arith, inv.taken m, ap (count m) same);
    invoked = λ m. ground (arith, inv.invoked m);
    counted = λ m. ground (arith, inv.counted m);
  }
  Step-Inv inv (leave i e) = grind arith
  Step-Inv {s} inv (work u step same_accepted same_taken) = record {
    reached = ex.step-Reaches s.executor u inv.reached step;
    sound = inv.sound;
    accepted = λ m. ap (count m) same_accepted ∙ inv.accepted m;
    taken = λ m. ap (count m) same_taken ∙ inv.taken m;
    invoked = inv.invoked;
    counted = inv.counted;
  }

  pub Reach-Inv : {s : System A E S} → Reach ex s → Inv s
  Reach-Inv start = record {
    reached = ex.start-Reaches;
    sound = λ i e. cc;
    accepted = λ i. ap (count i) ex.start_accepted;
    taken = λ i. ap (count i) ex.start_taken;
    invoked = λ i. refl;
    counted = λ i. refl;
  }
  Reach-Inv (later r step) = Step-Inv (Reach-Inv r) step

  -- On such an executor no coroutine of `run` or `lazy_run` is resumed where it is not suspended. Its
  -- function is called once from the time at which the executor resumes it, and not before, nor when the
  -- executor refuses it. It counts one run from the time at which it is handed to the executor, and one
  -- more from the time at which it awaits a task that its function has returned. A
  -- function of `run_detached` is called once from the time at which the executor takes it, and counts no
  -- run.
  pub run_once :
      {s : System A E S} (i : ℕ)
      → Reach ex s
      → (s.runs i ≢ broken)
        × (count i s.invoked ≡ calls (s.runs i))
        × (s.run_count i ≡ runs_of (s.runs i))
  run_once i r = let inv = Reach-Inv r in (inv.sound i, inv.invoked i, inv.counted i)

-- The calls that are about to invoke their task, and those that have.
inline-counts :
    {s : Inline ℕ}
    → InlineReach s
    → (i : ℕ) → count i s.accepted ≡ count i s.taken + count i s.pending
inline-counts InlineReach.start i = refl
inline-counts (InlineReach.later {s} r (enter t)) i =
    omega (arith, inline-counts r i, count-append i s.accepted (t ∷ []))
inline-counts (InlineReach.later {s} r (invoke t ts e)) i =
    omega (arith, inline-counts r i, count-append i s.taken (t ∷ []), ap (count i) e)

pub inline-fair : (s : Inline ℕ) → InlineReach s → (i : ℕ) → count i s.taken ≤ count i s.accepted
inline-fair s r i = omega (arith, inline-counts r i)
