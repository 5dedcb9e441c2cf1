-- ===== src/Task/Owned.antt =====
-- Each coroutine frame has one owner, and is destroyed once.
use parallel_operations_tool.Prelude.{
  ℕ, ◌≡◌, inl, inr, refl, subst, Bool, ◌==◌, if◌then◌else◌, Option, none, some, Option-cases,
  Bool-cases, List, [], ◌∷◌, ◌>>=◌, >>=-eq-some,
}
use parallel_operations_tool.Task.{
  Got, spins, sleeps, returned, rethrown, bad_variant_access, bad_function_call,
}
use parallel_operations_tool.Task.Handles.{
  run, no_objects, done, Status, suspended, running, finished, Frame, World, Reply, got, release,
  take_handle, move_assign, guarded, Call, create, runs, move_construct, assign, drop, ask_ready,
  resume, suspend, lazy_suspend, get_task, get_lazy, block_task, block_lazy, call, frame_of,
  with_frame, invalid, when_suspended, await_ready, await_suspend, await_resume, task_get,
  task_blocking_get, lazy_await_suspend, lazy_get, lazy_blocking_get, create_at, construct_at,
  run_frame,
}
use parallel_operations_tool.Task.Ownership.{
  Owned, release-Owned, put_frame-Owned, take_handle-Owned, adopt-Owned,
}

module _ {A E : Type 0} where
  -- What a call on an object comes to: a property of each way it can end.
  with_frame_cases :
      (P : Reply A E × World A E → Type 0) (w : World A E) (i : ℕ)
      (use_frame : ℕ → Frame A E → Option (Reply A E × World A E))
      (on_null : Option (Reply A E × World A E))
      → ((f : ℕ) (frame : Frame A E) (rv : Reply A E × World A E)
          → w.handles i ≡ some f
          → w.frames f ≡ some frame
          → use_frame f frame ≡ some rv
          → P rv)
      → ((rv : Reply A E × World A E) → on_null ≡ some rv → P rv)
      → (rv : Reply A E × World A E) → with_frame w i use_frame on_null ≡ some rv
      → P rv
  with_frame_cases P w i use_frame on_null in_frame at_null rv e =
      elim (Option-cases (w.handles i)) [
        | inl null ↦ at_null rv (subst (λ h. frame_of w h use_frame on_null ≡ some rv) null e)
        | inr (f, owns) ↦
            let (frame, there, r) =
              >>=-eq-some (w.frames f) (use_frame f)
                (subst (λ h. frame_of w h use_frame on_null ≡ some rv) owns e) in
            in_frame f frame rv owns there r
      ]

  -- A call that ends in the world `v`.
  same-Owned :
      {r : Reply A E} (v : World A E) (rv : Reply A E × World A E)
      → Owned v
      → some (r, v) ≡ some rv
      → Owned (rv.1)
  same-Owned v rv o e = let same : v ≡ rv.1 = cc in subst Owned same o

  ended-Owned :
      (w : World A E) (i : ℕ) (g : Got A E) (rv : Reply A E × World A E)
      → Owned w
      → (release w i >>= (λ v. some (got g, v))) ≡ some rv
      → Owned (rv.1)
  ended-Owned w i g rv o e =
      let (v, r, s) = >>=-eq-some (release w i) (λ v. some (got g, v)) e in
      same-Owned v rv (release-Owned w i o r).0 s

  guarded-Owned :
      (w : World A E) (i : ℕ) (g : Got A E) (rv : Reply A E × World A E)
      → Owned w
      → guarded w i g ≡ some rv
      → Owned (rv.1)
  guarded-Owned w i spins rv o e = same-Owned w rv o e
  guarded-Owned w i sleeps rv o e = same-Owned w rv o e
  guarded-Owned w i (returned a) rv o e = ended-Owned w i (returned a) rv o e
  guarded-Owned w i (rethrown x) rv o e = ended-Owned w i (rethrown x) rv o e
  guarded-Owned w i bad_variant_access rv o e = ended-Owned w i bad_variant_access rv o e
  guarded-Owned w i bad_function_call rv o e = ended-Owned w i bad_function_call rv o e

  invalid-Owned :
      (w : World A E) (rv : Reply A E × World A E) → Owned w → invalid w ≡ some rv → Owned (rv.1)
  invalid-Owned w rv o e = same-Owned w rv o e

  suspended-Owned :
      (w : World A E) (status : Status) (go_on : Option (Reply A E × World A E))
      (rv : Reply A E × World A E)
      → Owned w
      → (go_on ≡ some rv → Owned (rv.1))
      → when_suspended w status go_on ≡ some rv
      → Owned (rv.1)
  suspended-Owned w suspended go_on rv o goes e = goes e
  suspended-Owned w running go_on rv o goes e = absurd cc
  suspended-Owned w finished go_on rv o goes e = invalid-Owned w rv o e

  move_assign-Owned :
      (w : World A E) (this other : ℕ) {v : World A E}
      → Owned w
      → move_assign w this other ≡ some v
      → Owned v
  unfolding move_assign
  move_assign-Owned w this other {v} o e = elim (Bool-cases (this == other)) [
    | inl same ↦
        let e' : some w ≡ some v = subst (λ b. branch b ≡ some v) same e in
        let s : w ≡ v = cc in subst Owned s o
    | inr differ ↦
        let (u, r, s) =
          >>=-eq-some (release w this) (λ u. some (take_handle u this other))
            (subst (λ b. branch b ≡ some v) differ e) in
        let (ou, null) = release-Owned w this o r in
        let s' : take_handle u this other ≡ v = cc in
        subst Owned s' (take_handle-Owned u this other ou null)
  ]
    where
      branch : Bool → Option (World A E)
      branch b = if b then some w else (release w this >>= (λ u. some (take_handle u this other)))

  -- A call that is defined keeps the ownership.
  pub call-Owned :
      (w : World A E) (c : Call A E) (rv : Reply A E × World A E)
      → Owned w
      → call w c ≡ some rv
      → Owned (rv.1)
  unfolding call await_ready await_suspend await_resume task_get task_blocking_get
      lazy_await_suspend lazy_get lazy_blocking_get move_assign
  call-Owned w (create i f frame) rv o e = created (w.handles i) (w.frames f) refl refl e
    where
      created :
          (h : Option ℕ) (there : Option (Frame A E))
          → w.handles i ≡ h
          → w.frames f ≡ there
          → create_at w i f frame h there ≡ some rv
          → Owned (rv.1)
      created none none null gone e = same-Owned _ rv (adopt-Owned w i f frame o null gone) e
      created none (some fr) null gone e = absurd cc
      created (some g) there null gone e = absurd cc
  call-Owned w (runs f change) rv o e = ran (w.frames f) refl e
    where
      ran :
          (there : Option (Frame A E))
          → w.frames f ≡ there
          → run_frame w f change there ≡ some rv
          → Owned (rv.1)
      ran none gone e = same-Owned w rv o e
      ran (some frame) there e = same-Owned _ rv (put_frame-Owned w f frame _ o there) e
  call-Owned w (move_construct this other) rv o e = moved (w.handles this) refl e
    where
      moved :
          (h : Option ℕ) → w.handles this ≡ h → construct_at w this other h ≡ some rv → Owned (rv.1)
      moved none null e = same-Owned _ rv (take_handle-Owned w this other o null) e
      moved (some g) owns e = absurd cc
  call-Owned w (assign this other) rv o e =
      let (v, r, s) = >>=-eq-some (move_assign w this other) (λ v. some (done, v)) e in
      same-Owned v rv (move_assign-Owned w this other o r) s
  call-Owned w (drop i) rv o e =
      let (v, r, s) = >>=-eq-some (release w i) (λ v. some (done, v)) e in
      same-Owned v rv (release-Owned w i o r).0 s
  call-Owned w (ask_ready i) rv o e =
      with_frame_cases (λ rv. Owned (rv.1)) w i _ _ (λ f frame rv owns there r. same-Owned w rv o r)
        (λ rv r. same-Owned w rv o r) rv e
  call-Owned w (resume i) rv o e =
      with_frame_cases (λ rv. Owned (rv.1)) w i _ _
        (λ f frame rv owns there r. guarded-Owned w i _ rv o r) (λ rv r. absurd cc) rv e
  call-Owned w (suspend i next) rv o e =
      with_frame_cases (λ rv. Owned (rv.1)) w i _ _
        (λ f frame rv owns there r. same-Owned _ rv (put_frame-Owned w f frame _ o there) r)
        (λ rv r. invalid-Owned w rv o r) rv e
  call-Owned w (lazy_suspend i next) rv o e =
      with_frame_cases (λ rv. Owned (rv.1)) w i _ _
        (λ f frame rv owns there r.
          suspended-Owned w frame.status _ rv o
            (λ s. same-Owned _ rv (put_frame-Owned w f frame _ o there) s) r)
        (λ rv r. invalid-Owned w rv o r) rv e
  call-Owned w (get_task i executor) rv o e =
      with_frame_cases (λ rv. Owned (rv.1)) w i _ _
        (λ f frame rv owns there r. guarded-Owned _ i _ rv (put_frame-Owned w f frame _ o there) r)
        (λ rv r. invalid-Owned w rv o r) rv e
  call-Owned w (get_lazy i executor change) rv o e =
      with_frame_cases (λ rv. Owned (rv.1)) w i _ _
        (λ f frame rv owns there r.
          suspended-Owned w frame.status _ rv o
            (λ s. guarded-Owned _ i _ rv (put_frame-Owned w f frame _ o there) s) r)
        (λ rv r. invalid-Owned w rv o r) rv e
  call-Owned w (block_task i) rv o e =
      with_frame_cases (λ rv. Owned (rv.1)) w i _ _
        (λ f frame rv owns there r. guarded-Owned w i _ rv o r) (λ rv r. invalid-Owned w rv o r) rv
        e
  call-Owned w (block_lazy i change) rv o e =
      with_frame_cases (λ rv. Owned (rv.1)) w i _ _
        (λ f frame rv owns there r.
          suspended-Owned w frame.status _ rv o
            (λ s. guarded-Owned _ i _ rv (put_frame-Owned w f frame _ o there) s) r)
        (λ rv r. invalid-Owned w rv o r) rv e

  pub no_objects-Owned : Owned {A = A} {E = E} no_objects
  no_objects-Owned = record {
    live = λ i f e. absurd cc;
    unique = λ i j f e e'. absurd cc;
    held = λ f frame e. absurd cc;
  }

  run-Owned :
      (w : World A E) (cs : List (Call A E)) {v : World A E} → Owned w → run w cs ≡ some v → Owned v
  unfolding run
  run-Owned w [] o e = let same = some_eq e in subst Owned same o
    where
      some_eq : {x y : World A E} → some x ≡ some y → x ≡ y
      some_eq e = cc
  run-Owned w (c ∷ cs) o e =
      let (rv, r, rest) = >>=-eq-some (call w c) (λ rv. run (rv.1) cs) e in
      run-Owned (rv.1) cs (call-Owned w c rv o r) rest

  -- At the end of every program that is defined, each handle of a task points to a frame that is
  -- there, no two handles to the same frame, and each frame has a handle: no frame is leaked, and
  -- none is left to two owners.
  pub one_owner : (cs : List (Call A E)) {w : World A E} → run no_objects cs ≡ some w → Owned w
  one_owner cs e = run-Owned no_objects cs no_objects-Owned e
