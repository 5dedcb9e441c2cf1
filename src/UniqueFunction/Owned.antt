-- ===== src/UniqueFunction/Owned.antt =====
-- The functions do what Spec.antt promises, for callables of every kind.
use parallel_operations_tool.Prelude.{
  ℕ, ◌==◌, ◌≡◌, ◌≢◌, ◌⊎◌, inl, inr, refl, sym, ap, ◌∙◌, subst, ◌&&◌, Option, none, some, List, [],
  ◌∷◌, ◌++◌, arith, update, update_self, update_ne, ℕ_discrete, Bool-cases,
}
use parallel_operations_tool.UniqueFunction.{
  Callable, bytes, Function, Event, executed, destroyed, make_vtable, build, from_callable,
  move_from, reset, call, moved, Op, construct, move_construct, move_assign, invoke, clear, step,
  run,
}
use parallel_operations_tool.UniqueFunction.Spec
use parallel_operations_tool.UniqueFunction.Spec.{dropped, handed_over}

-- The function owns this callable, or nothing.
pub data Holds (f : Function) : Option Callable → Type 0 where
  nothing : f.vtbl ≡ none → Holds f none
  callable : (c : Callable) → f.vtbl ≡ some (make_vtable c) → f.buffer ≡ build c → Holds f (some c)

from_callable-Holds : (c : Callable) → Holds (from_callable c) (some c)
from_callable-Holds c = callable c refl refl

move_from-Holds :
    (src dst : Function) (o : Option Callable)
    → Holds src o
    → Holds (move_from src dst).0 none × Holds (move_from src dst).1 o
unfolding move_from
move_from-Holds src dst _ (nothing e) = (nothing (ground arith), nothing (ground arith))
move_from-Holds src dst _ (callable c e b) =
    (nothing (ground arith), callable c (ground arith) (ground arith))

reset-Holds :
    (f : Function) (o : Option Callable)
    → Holds f o
    → (g : Function) × (reset f ≡ some (dropped o, g)) × Holds g none
unfolding reset
reset-Holds f _ (nothing e) = (f, ground arith, nothing e)
reset-Holds f _ (callable c e b) = elim (Bool-cases (c.trivial_destroy && c.inlinable)) [
  | inl trivial ↦ (record f { vtbl = none }, ground arith, nothing refl)
  | inr destructor ↦ (record { vtbl = none; buffer = bytes }, ground arith, nothing refl)
]

call-Holds :
    (f : Function) (c : Callable)
    → Holds f (some c)
    → (g : Function) × (call f ≡ some (executed c ∷ destroyed c ∷ [], g)) × Holds g none
unfolding call
call-Holds f _ (callable c e b) =
    (record { vtbl = none; buffer = bytes }, ground arith, nothing refl)

call-none : (f : Function) → Holds f none → call f ≡ none
unfolding call
call-none f (nothing e) = ground arith

abbrev pub AllHold : (ℕ → Function) → (ℕ → Option Callable) → Type 0
AllHold fs owners = (i : ℕ) → Holds (fs i) (owners i)

update-AllHold :
    (fs : ℕ → Function) (owners : ℕ → Option Callable) (i : ℕ) (f : Function) (o : Option Callable)
    → AllHold fs owners
    → Holds f o
    → AllHold (update fs i f) (update owners i o)
update-AllHold fs owners i f o all h j = elim (ℕ_discrete j i) [
  | yes here ↦
      subst (λ k. Holds (update fs i f k) (update owners i o k)) (sym here)
        (subst (λ g. Holds g (update owners i o i)) (sym (update_self fs i f))
          (subst (Holds f) (sym (update_self owners i o)) h))
  | no other ↦
      subst (λ g. Holds g (update owners i o j)) (sym (update_ne fs i f j other))
        (subst (Holds (fs j)) (sym (update_ne owners i o j other)) (all j))
]

moved-AllHold :
    (fs : ℕ → Function) (owners : ℕ → Option Callable) (dst src : ℕ)
    → AllHold fs owners
    → AllHold (moved fs dst src) (handed_over owners dst src)
moved-AllHold fs owners dst src all =
    let (from, to) = move_from-Holds (fs src) (fs dst) (owners src) (all src) in
    update-AllHold (update fs src (move_from (fs src) (fs dst)).0) (update owners src none) dst
      (move_from (fs src) (fs dst)).1 (owners src)
      (update-AllHold fs owners src (move_from (fs src) (fs dst)).0 none all from) to

-- Both fail, or both go on with the same events.
pub data Agrees
    : Option (List Event × (ℕ → Function))
      → Option (List Event × (ℕ → Option Callable))
      → Type 0 where
  both_fail : Agrees none none
  both_go :
      (events : List Event) {fs : ℕ → Function} {owners : ℕ → Option Callable}
      → AllHold fs owners
      → Agrees (some (events, fs)) (some (events, owners))

-- What a function owns, by its table.
owned :
    (f : Function) (o : Option Callable)
    → Holds f o
    → ((f.vtbl ≡ none) × (o ≡ none))
      ⊎ ((c : Callable) × (f.vtbl ≡ some (make_vtable c)) × (o ≡ some c))
owned f _ (nothing e) = inl (e, refl)
owned f _ (callable c e b) = inr (c, e, refl)

agree :
    {x : Option (List Event × (ℕ → Function))} {y : Option (List Event × (ℕ → Option Callable))}
    (x' : Option (List Event × (ℕ → Function))) (y' : Option (List Event × (ℕ → Option Callable)))
    → x ≡ x'
    → y ≡ y'
    → Agrees x' y'
    → Agrees x y
agree {x} {y} x' y' e e' h = subst (λ z. Agrees z y) (sym e) (subst (Agrees x') (sym e') h)

-- In a move to another variable, what the destination owned does not matter.
handed_over-drop :
    (owners : ℕ → Option Callable) (dst src j : ℕ)
    → dst ≢ src
    → handed_over (update owners dst none) dst src j ≡ handed_over owners dst src j
handed_over-drop owners dst src j ne = ground arith

step-Agrees :
    (fs : ℕ → Function) (owners : ℕ → Option Callable) (op : Op)
    → AllHold fs owners
    → Agrees (step fs op) (Spec.step owners op)
unfolding step Spec.step move_from
step-Agrees fs owners (construct i c) all = elim (owned (fs i) (owners i) (all i)) [
  | inl (e, e') ↦
      agree (some ([], update fs i (from_callable c))) (some ([], update owners i (some c)))
        (ground arith) (ground arith)
        (both_go []
          (update-AllHold fs owners i (from_callable c) (some c) all (from_callable-Holds c)))
  | inr (d, e, e') ↦ agree none none (ground arith) (ground arith) both_fail
]
step-Agrees fs owners (move_construct dst src) all = elim (owned (fs dst) (owners dst) (all dst)) [
  | inl (e, e') ↦ elim (Bool-cases (dst == src)) [
    | inl same ↦ agree none none (ground arith) (ground arith) both_fail
    | inr other ↦
        agree (some ([], moved fs dst src)) (some ([], handed_over owners dst src))
          (rw (step, e, other) refl) (rw (Spec.step, e', other) refl)
          (both_go [] (moved-AllHold fs owners dst src all))
  ]
  | inr (d, e, e') ↦ agree none none (ground arith) (ground arith) both_fail
]
step-Agrees fs owners (move_assign dst src) all = elim (Bool-cases (dst == src)) [
  | inl same ↦
      agree (some ([], fs)) (some ([], owners)) (rw (step, same) refl) (rw (Spec.step, same) refl)
        (both_go [] all)
  | inr other ↦
      let (g, e, h) = reset-Holds (fs dst) (owners dst) (all dst) in
      let dropped_dst = update-AllHold fs owners dst g none all h in
      agree (some (dropped (owners dst), moved (update fs dst g) dst src))
        (some (dropped (owners dst), handed_over owners dst src)) (rw (step, other, e) refl)
        (rw (Spec.step, other) refl)
        (both_go (dropped (owners dst)) (λ j.
          subst (Holds (moved (update fs dst g) dst src j))
            (handed_over-drop owners dst src j (ground arith))
            (moved-AllHold (update fs dst g) (update owners dst none) dst src dropped_dst j)))
]
step-Agrees fs owners (invoke i) all = elim (owned (fs i) (owners i) (all i)) [
  | inl (e, e') ↦
      agree none none (rw (step, call-none (fs i) (nothing e)) refl) (ground arith) both_fail
  | inr (c, e, e') ↦
      let (g, r, h) = call-Holds (fs i) c (subst (Holds (fs i)) e' (all i)) in
      agree (some (executed c ∷ destroyed c ∷ [], update fs i g))
        (some (executed c ∷ destroyed c ∷ [], update owners i none)) (rw (step, r) refl)
        (ground arith)
        (both_go (executed c ∷ destroyed c ∷ []) (update-AllHold fs owners i g none all h))
]
step-Agrees fs owners (clear i) all =
    let (g, e, h) = reset-Holds (fs i) (owners i) (all i) in
    agree (some (dropped (owners i), update fs i g))
      (some (dropped (owners i), update owners i none)) (rw (step, e) refl) refl
      (both_go (dropped (owners i)) (update-AllHold fs owners i g none all h))

-- What follows a step depends on its outcome only.
abbrev pub joined : List Event → Option (List Event) → Option (List Event)
joined events rest = elim rest [ none ↦ none | some more ↦ some (events ++ more) ]

run_cons :
    (fs : ℕ → Function) (owners : ℕ → Option Callable) (op : Op) (ops : List Op)
    {x : Option (List Event × (ℕ → Function))} {y : Option (List Event × (ℕ → Option Callable))}
    → step fs op ≡ x
    → Spec.step owners op ≡ y
    → Agrees x y
    → ((gs : ℕ → Function) (after : ℕ → Option Callable)
        → AllHold gs after
        → run gs ops ≡ Spec.run after ops)
    → run fs (op ∷ ops) ≡ Spec.run owners (op ∷ ops)
unfolding run Spec.run
run_cons fs owners op ops e e' both_fail rest = ground arith
run_cons fs owners op ops e e' (both_go events {fs = gs} {owners = after} all) rest =
    let left : run fs (op ∷ ops) ≡ joined events (run gs ops) = rw (run, e) refl in
    let right : Spec.run owners (op ∷ ops) ≡ joined events (Spec.run after ops) =
      rw (Spec.run, e') refl in
    left ∙ ap (joined events) (rest gs after all) ∙ sym right

-- No program tells the functions from variables that own a callable or nothing: it fails in both or
-- in neither, and every object is called and destroyed at the same time.
pub run_owned :
    (ops : List Op) (fs : ℕ → Function) (owners : ℕ → Option Callable)
    → AllHold fs owners
    → run fs ops ≡ Spec.run owners ops
unfolding run Spec.run
run_owned [] fs owners all = refl
run_owned (op ∷ ops) fs owners all =
    run_cons fs owners op ops refl refl (step-Agrees fs owners op all)
      (λ gs after h. run_owned ops gs after h)
