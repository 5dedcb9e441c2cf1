-- ===== src/Task/Ownership.antt =====
-- Who owns the frames, and what a release, a move and a new frame make of it.
use parallel_operations_tool.Prelude.{
  ℕ, ◌≡◌, ◌≢◌, ◌⊎◌, inl, inr, sym, subst, arith, none, some, Option-cases, ◌>>=◌, update,
  update_self, ℕ_discrete,
}
use parallel_operations_tool.Task.Handles.{
  Status, suspended, running, finished, Frame, World, put_frame, destroy_in, destroy, reset_handle,
  release_handle, release, take_handle, adopt,
}

module _ {A E : Type 0} where
  -- A handle points to a frame that is there, no two handles to the same one, and every frame has a
  -- handle.
  pub record Owned (w : World A E) : Type 0 where
    pub live : (i f : ℕ) → w.handles i ≡ some f → (frame : Frame A E) × (w.frames f ≡ some frame)
    pub unique : (i j f : ℕ) → w.handles i ≡ some f → w.handles j ≡ some f → i ≡ j
    pub held :
        (f : ℕ) (frame : Frame A E) → w.frames f ≡ some frame → (i : ℕ) × (w.handles i ≡ some f)

  -- Without the frame and the handle of an object.
  removed-Owned :
      (w : World A E) (i f : ℕ)
      → Owned w
      → w.handles i ≡ some f
      → Owned (record w { frames = update w.frames f none; handles = update w.handles i none })
  removed-Owned w i f o e = record {
    live = λ j g h. grind arith;
    unique = λ j k g h h'. grind arith;
    held = λ g frame h. grind arith;
  }

  -- What an object's release comes to.
  release_cases :
      (w : World A E) (i : ℕ) {v : World A E}
      → release w i ≡ some v
      → ((w.handles i ≡ none) × (v ≡ w))
        ⊎ ((f : ℕ) × (frame : Frame A E) × (w.handles i ≡ some f)
            × (w.frames f ≡ some frame)
            × (frame.status ≢ running)
            × (v ≡ record w { frames = update w.frames f none; handles = update w.handles i none }))
  unfolding release
  release_cases w i {v} e = elim (Option-cases (w.handles i)) [
    | inl null ↦
        let e' : some w ≡ some v = subst (λ h. release_handle w i h ≡ some v) null e in
        inl (null, cc)
    | inr (f, owns) ↦ elim (Option-cases (w.frames f)) [
      | inl gone ↦
          let e' = subst (λ h. release_handle w i h ≡ some v) owns e in
          let e'' : none ≡ some v =
            subst (λ fr. (destroy w f fr >>= (λ u. some (reset_handle u i))) ≡ some v) gone e' in
          absurd cc
      | inr (frame, there) ↦
          let e' = subst (λ h. release_handle w i h ≡ some v) owns e in
          let e'' =
            subst (λ fr. (destroy w f fr >>= (λ u. some (reset_handle u i))) ≡ some v) there e' in
          let (ne, r) = in_status f frame.status e'' in inr (f, frame, owns, there, ne, r)
    ]
  ]
    where
      in_status :
          (f : ℕ) (status : Status)
          → (destroy_in w f status >>= (λ u. some (reset_handle u i))) ≡ some v
          → (status ≢ running)
            × (v ≡ record w { frames = update w.frames f none; handles = update w.handles i none })
      in_status f suspended e = (λ s. cc, cc)
      in_status f running e = absurd cc
      in_status f finished e = (λ s. cc, cc)

  pub release-Owned :
      (w : World A E) (i : ℕ) {v : World A E}
      → Owned w
      → release w i ≡ some v
      → Owned v × (v.handles i ≡ none)
  release-Owned w i o e = elim (release_cases w i e) [
    | inl (null, same) ↦ subst (λ v. Owned v × (v.handles i ≡ none)) (sym same) (o, null)
    | inr (f, frame, owns, there, ne, r) ↦
        subst (λ v. Owned v × (v.handles i ≡ none)) (sym r)
          (removed-Owned w i f o owns, update_self w.handles i none)
  ]

  pub put_frame-Owned :
      (w : World A E) (f : ℕ) (frame new : Frame A E)
      → Owned w
      → w.frames f ≡ some frame
      → Owned (put_frame w f new)
  put_frame-Owned w f frame new o e = record {
    live = λ j g h. elim (ℕ_discrete g f) [
      | yes same ↦ (new, grind arith)
      | no other ↦ let (fr, q) = o.live j g h in (fr, grind arith)
    ];
    unique = λ j k g h h'. grind arith;
    held = λ g fr h. elim (ℕ_discrete g f) [
      | yes same ↦ let (j, q) = o.held f frame e in (j, grind arith)
      | no other ↦ o.held g fr (grind arith)
    ];
  }

  pub take_handle-Owned :
      (w : World A E) (dst src : ℕ) → Owned w → w.handles dst ≡ none → Owned (take_handle w dst src)
  take_handle-Owned w dst src o e = record {
    live = λ j g h. elim (ℕ_discrete j dst) [
      | yes same ↦ o.live src g (grind arith)
      | no other ↦ o.live j g (grind arith)
    ];
    unique = λ j k g h h'. grind arith;
    held = λ g fr h.
        let (i, q) = o.held g fr h in
        elim (ℕ_discrete i src) [ yes same ↦ (dst, grind arith) | no other ↦ (i, grind arith) ];
  }

  pub adopt-Owned :
      (w : World A E) (i f : ℕ) (frame : Frame A E)
      → Owned w
      → w.handles i ≡ none
      → w.frames f ≡ none
      → Owned (adopt w i f frame)
  adopt-Owned w i f frame o e z = record {
    live = λ j g h. elim (ℕ_discrete j i) [
      | yes same ↦ (frame, grind arith)
      | no other ↦ let (fr, q) = o.live j g (grind arith) in (fr, grind arith)
    ];
    unique = λ j k g h h'. grind arith;
    held = λ g fr h. elim (ℕ_discrete g f) [
      | yes same ↦ (i, grind arith)
      | no other ↦ let (k, q) = o.held g fr (grind arith) in (k, grind arith)
    ];
  }
