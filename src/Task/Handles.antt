-- ===== src/Task/Handles.antt =====
-- include/pot/coroutines/task.h: the objects `task` and `lazy_task` and the coroutine frames that they
-- own. `none` stands for undefined behaviour: a null handle or a handle of a destroyed frame that is
-- used, and a frame that is destroyed while it runs.
use parallel_operations_tool.Prelude.{
  ℕ, Bool, true, false, ◌||◌, ◌==◌, if◌then◌else◌, Option, none, some, List, [], ◌∷◌, ◌>>=◌, update,
}
use parallel_operations_tool.Task.{
  Slot, null, sentinel, waiting, Promise, Got, spins, sleeps, get, blocking_get, try_await,
  store_awaiter, set_steal,
}

-- A frame is suspended, running (or handed to an executor), or at its final suspend point.
pub data Status : Type 0 where
  suspended running finished : Status

pub record Frame (A E : Type 0) : Type 0 where
  pub status : Status
  pub promise : Promise A E

-- The frames by their addresses, as far as they are there, and `m_handle` of each object, where `none`
-- is null.
pub record World (A E : Type 0) : Type 0 where
  pub frames : ℕ → Option (Frame A E)
  pub handles : ℕ → Option ℕ

-- What a call comes to: what `get` comes to, a `runtime_error`, and the results of the awaiter.
pub data Reply (A E : Type 0) : Type 0 where
  got : Got A E → Reply A E
  runtime_error done : Reply A E
  ready suspends : Bool → Reply A E
  transfer : ℕ → Reply A E

abbrev pub is_finished : Status → Bool
is_finished finished = true
is_finished _ = false

module _ {A E : Type 0} where
  abbrev pub put_frame : World A E → ℕ → Frame A E → World A E
  put_frame w f frame = record w { frames = update w.frames f (some frame) }

  -- `destroy()`.
  abbrev pub destroy_in : World A E → ℕ → Status → Option (World A E)
  destroy_in w f running = none
  destroy_in w f _ = some (record w { frames = update w.frames f none })

  abbrev pub destroy : World A E → ℕ → Option (Frame A E) → Option (World A E)
  destroy w f none = none
  destroy w f (some frame) = destroy_in w f frame.status

  abbrev pub reset_handle : World A E → ℕ → World A E
  reset_handle w i = record w { handles = update w.handles i none }

  -- `if (h) { h.destroy(); h = nullptr; }` of the guard; also the destructor, and the start of the
  -- assignment.
  abbrev pub release_handle : World A E → ℕ → Option ℕ → Option (World A E)
  release_handle w i none = some w
  release_handle w i (some f) = destroy w f (w.frames f) >>= (λ v. some (reset_handle v i))

  unfoldable pub release : World A E → ℕ → Option (World A E)
  release w i = release_handle w i (w.handles i)

  -- `m_handle(other.m_handle)` and `other.m_handle = {}`.
  abbrev pub take_handle : World A E → ℕ → ℕ → World A E
  take_handle w dst src = record w {
    handles = update (update w.handles dst (w.handles src)) src none;
  }

  unfoldable pub move_assign : World A E → ℕ → ℕ → Option (World A E)
  move_assign w this other =
      if this == other then some w else (release w this >>= (λ v. some (take_handle v this other)))

  -- `get` ends the life of the frame, by the guard, when it returns or throws; a wait does not end.
  abbrev pub guarded : World A E → ℕ → Got A E → Option (Reply A E × World A E)
  guarded w i spins = some (got spins, w)
  guarded w i sleeps = some (got sleeps, w)
  guarded w i g = release w i >>= (λ v. some (got g, v))

  -- The frame of a handle that is used.
  abbrev pub frame_of :
      World A E
      → Option ℕ
      → (ℕ → Frame A E → Option (Reply A E × World A E))
      → Option (Reply A E × World A E)
      → Option (Reply A E × World A E)
  frame_of w none use_frame on_null = on_null
  frame_of w (some f) use_frame on_null = w.frames f >>= use_frame f

  abbrev pub with_frame :
      World A E
      → ℕ
      → (ℕ → Frame A E → Option (Reply A E × World A E))
      → Option (Reply A E × World A E)
      → Option (Reply A E × World A E)
  with_frame w i use_frame on_null = frame_of w (w.handles i) use_frame on_null

  abbrev pub invalid : World A E → Option (Reply A E × World A E)
  invalid w = some (runtime_error, w)

  unfoldable pub await_ready : World A E → ℕ → Option (Reply A E × World A E)
  await_ready w i =
      with_frame w i (λ f frame. some (ready (is_finished frame.status || frame.promise.ready), w))
        (some (ready true, w))

  -- The result of the compare-exchange.
  abbrev pub awaited : Slot → Reply A E
  awaited null = suspends true
  awaited sentinel = suspends false
  awaited (waiting other) = runtime_error

  unfoldable pub await_suspend : World A E → ℕ → ℕ → Option (Reply A E × World A E)
  await_suspend w i next =
      with_frame w i
        (λ f frame.
          let (found, p) = try_await frame.promise next in
          some (awaited found, put_frame w f (record frame { promise = p })))
        (invalid w)

  -- `await_resume` of both classes: it does not look whether the handle is null.
  unfoldable pub await_resume : World A E → ℕ → Option (Reply A E × World A E)
  await_resume w i = with_frame w i (λ f frame. guarded w i (get frame.promise)) none

  unfoldable pub task_get : World A E → ℕ → Option ℕ → Option (Reply A E × World A E)
  task_get w i executor =
      with_frame w i
        (λ f frame.
          let p = set_steal frame.promise executor in
          guarded (put_frame w f (record frame { promise = p })) i (get p))
        (invalid w)

  unfoldable pub task_blocking_get : World A E → ℕ → Option (Reply A E × World A E)
  task_blocking_get w i =
      with_frame w i (λ f frame. guarded w i (blocking_get frame.promise)) (invalid w)

  -- `lazy_task`: the frame must not be at its end, and only a suspended one can be resumed.
  abbrev pub when_suspended :
      World A E → Status → Option (Reply A E × World A E) → Option (Reply A E × World A E)
  when_suspended w suspended go_on = go_on
  when_suspended w running go_on = none
  when_suspended w finished go_on = invalid w

  unfoldable pub lazy_await_suspend : World A E → ℕ → ℕ → Option (Reply A E × World A E)
  lazy_await_suspend w i next =
      with_frame w i
        (λ f frame. when_suspended w frame.status (
          some (
            transfer f,
            put_frame w f (record frame { promise = store_awaiter frame.promise next }),
          )))
        (invalid w)

  -- `resume` is what the coroutine does until it suspends again or ends, an argument.
  unfoldable pub lazy_get :
      World A E → ℕ → Option ℕ → (Frame A E → Frame A E) → Option (Reply A E × World A E)
  lazy_get w i executor resume =
      with_frame w i
        (λ f frame. when_suspended w frame.status (
          let after = resume (record frame { promise = set_steal frame.promise executor }) in
          guarded (put_frame w f after) i (get after.promise)))
        (invalid w)

  unfoldable pub lazy_blocking_get :
      World A E → ℕ → (Frame A E → Frame A E) → Option (Reply A E × World A E)
  lazy_blocking_get w i resume =
      with_frame w i
        (λ f frame. when_suspended w frame.status (
          let after = resume frame in guarded (put_frame w f after) i (blocking_get after.promise)))
        (invalid w)

  -- `get_return_object` of a new frame, `f`, in a new object.
  abbrev pub adopt : World A E → ℕ → ℕ → Frame A E → World A E
  adopt w i f frame = record (put_frame w f frame) { handles = update w.handles i (some f) }

-- The calls of the two classes on the objects of a program, and what the coroutines do in between.
pub data Call (A E : Type 0) : Type 0 where
  create : (i f : ℕ) → Frame A E → Call A E
  runs : (f : ℕ) → (Frame A E → Frame A E) → Call A E
  move_construct assign : (this other : ℕ) → Call A E
  drop ask_ready resume : (i : ℕ) → Call A E
  suspend lazy_suspend : (i next : ℕ) → Call A E
  get_task : (i : ℕ) → Option ℕ → Call A E
  get_lazy : (i : ℕ) → Option ℕ → (Frame A E → Frame A E) → Call A E
  block_task : (i : ℕ) → Call A E
  block_lazy : (i : ℕ) → (Frame A E → Frame A E) → Call A E

module _ {A E : Type 0} where
  -- An object or a frame is made where there is none; a frame that is gone does nothing.
  abbrev pub create_at :
      World A E → ℕ → ℕ → Frame A E → Option ℕ → Option (Frame A E) → Option (Reply A E × World A E)
  create_at w i f frame none none = some (done, adopt w i f frame)
  create_at w i f frame none (some there) = none
  create_at w i f frame (some g) there = none

  abbrev pub construct_at : World A E → ℕ → ℕ → Option ℕ → Option (Reply A E × World A E)
  construct_at w this other none = some (done, take_handle w this other)
  construct_at w this other (some g) = none

  abbrev pub run_frame :
      World A E → ℕ → (Frame A E → Frame A E) → Option (Frame A E) → Option (Reply A E × World A E)
  run_frame w f change none = some (done, w)
  run_frame w f change (some frame) = some (done, put_frame w f (change frame))

  unfoldable pub call : World A E → Call A E → Option (Reply A E × World A E)
  call w (create i f frame) = create_at w i f frame (w.handles i) (w.frames f)
  call w (runs f change) = run_frame w f change (w.frames f)
  call w (move_construct this other) = construct_at w this other (w.handles this)
  call w (assign this other) = move_assign w this other >>= (λ v. some (done, v))
  call w (drop i) = release w i >>= (λ v. some (done, v))
  call w (ask_ready i) = await_ready w i
  call w (resume i) = await_resume w i
  call w (suspend i next) = await_suspend w i next
  call w (lazy_suspend i next) = lazy_await_suspend w i next
  call w (get_task i executor) = task_get w i executor
  call w (get_lazy i executor change) = lazy_get w i executor change
  call w (block_task i) = task_blocking_get w i
  call w (block_lazy i change) = lazy_blocking_get w i change

  -- A program, from the start on, as far as it is defined.
  unfoldable pub run : World A E → List (Call A E) → Option (World A E)
  run w [] = some w
  run w (c ∷ cs) = call w c >>= (λ rv. run (rv.1) cs)

  abbrev pub no_objects : World A E
  no_objects = record { frames = λ f. none; handles = λ i. none }
