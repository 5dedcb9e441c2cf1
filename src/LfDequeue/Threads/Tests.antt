-- ===== src/LfDequeue/Threads/Tests.antt =====
-- The deque with stealers in particular interleavings.
use parallel_operations_tool.Prelude.{
  ℕ, ◌+◌, ◌-◌, ◌<◌, ◌≤◌, ◌≡◌, refl, ap, ◌∙◌, true, false, Option, none, some, List, [], ◌∷◌, arith,
  length, update, update_self,
}
use parallel_operations_tool.Schedule.{count}
use parallel_operations_tool.LfDequeue.{size, get, put_item}
use parallel_operations_tool.LfDequeue.Threads.{
  idle, deciding, lower, read_top, win, putting, returned, busy, started, found, armed, won,
  leaving, loading, noting, System, active, load_top, enlarge, has_room, put, publish, keep_buffers,
  scan, pass_idle, delete, register, begin, load_first, find, find_nothing, load_buffer, steal,
  mark_idle, load_last, start_system, Reach, start, later,
}
use parallel_operations_tool.LfDequeue.Threads.Claims.{returns_pushed}
use parallel_operations_tool.LfDequeue.Threads.Reclaim.{IsKept, used-IsKept}

-- After a `push` that finds room.
abbrev after_push : System ℕ → ℕ → System ℕ
after_push s x = record s {
  buffers = update s.buffers s.active_buffer (put_item (active s) s.bottom x);
  bottom = s.bottom + 1;
  owner = idle none;
  pushed = s.pushed + 1;
  items = update s.items s.pushed x;
  numbers = update s.numbers s.bottom s.pushed;
}

after_push-Reach :
    {s : System ℕ} {o : Option ℕ} (x : ℕ)
    → s.owner ≡ idle o
    → s.unlinked ≡ none
    → s.bottom - s.top < size (active s) - 1
    → Reach 0 s
    → Reach 0 (after_push s x)
after_push-Reach {s} {o} x e null room r =
    later
      (later
        (later (later (later r (load_top x o e)) (has_room x s.top refl room))
          (keep_buffers (putting x s.top) refl null))
        (put x s.top refl))
      (publish x refl)

-- A stealer in `pop_back`, before its exchange.
abbrev armed_at : System ℕ → ℕ → System ℕ
armed_at s i = record s {
  stealers =
      update (update (update (update s.stealers i busy) i (started s.top)) i (found s.top)) i
        (armed s.top s.active_buffer);
  was_idle = update s.was_idle i false;
}

armed_at-Reach :
    (s : System ℕ) (i : ℕ) (o : Option ℕ)
    → s.stealers i ≡ returned o
    → i < s.registered
    → s.top < s.bottom
    → Reach 0 s
    → Reach 0 (armed_at s i)
armed_at-Reach s i o e known some_left r =
    later
      (later (later (later r (begin i o e known)) (load_first i (update_self s.stealers i busy)))
        (find i s.top (update_self (update s.stealers i busy) i (started s.top)) some_left))
      (load_buffer i s.top
        (update_self (update (update s.stealers i busy) i (started s.top)) i (found s.top)))

-- With the exchange won, and the element not read.
abbrev after_steal : System ℕ → ℕ → System ℕ
after_steal s i = record (armed_at s i) {
  top = s.top + 1;
  stealers = update (armed_at s i).stealers i (won s.top s.active_buffer (s.numbers s.top));
  claims = s.numbers s.top ∷ s.claims;
}

after_steal-Reach :
    (s : System ℕ) (i : ℕ) (o : Option ℕ)
    → s.stealers i ≡ returned o
    → i < s.registered
    → s.top < s.bottom
    → Reach 0 s
    → Reach 0 (after_steal s i)
after_steal-Reach s i o e known some_left r = later (armed_at-Reach s i o e known some_left r) (
    steal i s.top s.active_buffer
      (update_self (update (update (update s.stealers i busy) i (started s.top)) i (found s.top)) i
        (armed s.top s.active_buffer))
      refl)

-- A new deque with two stealers.
abbrev two_stealers : System ℕ
two_stealers = record (start_system 0) {
  registered = 2;
  was_idle = update (update (λ i. true) 0 true) 1 true;
  id_last_used = update (update (λ i. 0) 0 0) 1 0;
}

two_stealers-Reach : Reach 0 two_stealers
two_stealers-Reach = later (later start register) register

abbrev one : System ℕ
one = after_push two_stealers 7

one-Reach : Reach 0 one
one-Reach = after_push-Reach {o = none} 7 refl refl (omega arith) two_stealers-Reach

before_steal-Reach : Reach 0 (armed_at one 0)
before_steal-Reach = armed_at-Reach one 0 none refl (omega arith) (omega arith) one-Reach

stolen-Reach : Reach 0 (after_steal one 0)
stolen-Reach = later before_steal-Reach (steal 0 0 0 refl refl)

-- The owner pops the only element: it is about to win the exchange.
last_one-Reach : Reach 0 (record one { bottom = 0; owner = deciding 1 0 })
last_one-Reach = later (later one-Reach (lower none refl)) (read_top 1 refl)

returns_pushed_example : (j : ℕ) × (0 ∷ [] ≡ j ∷ []) × (count j [] ≡ 0) × (7 ≡ one.items j)
returns_pushed_example = returns_pushed 7 last_one-Reach (win 1 0 refl refl refl) refl refl

used-IsKept_example : IsKept (after_steal one 0).unlinked 0 × IsKept (after_steal one 0).unlinked 0
used-IsKept_example = used-IsKept 0 0 stolen-Reach refl

abbrev fill : List ℕ → System ℕ → System ℕ
fill [] s = s
fill (x ∷ xs) s = fill xs (after_push s x)

fill-Reach :
    (xs : List ℕ) (s : System ℕ)
    → s.owner ≡ idle none
    → s.unlinked ≡ none
    → size (active s) ≡ 16
    → s.bottom - s.top + length xs < 16
    → s.top ≤ s.bottom
    → Reach 0 s
    → (Reach 0 (fill xs s)) × (size (active (fill xs s)) ≡ 16)
fill-Reach [] s e null full room le r = (r, full)
fill-Reach (x ∷ xs) s e null full room le r =
    fill-Reach xs (after_push s x) refl null
      (ap size (update_self s.buffers s.active_buffer (put_item (active s) s.bottom x)) ∙ full)
      (omega arith) (omega arith) (after_push-Reach {o = none} x e null (omega arith) r)

abbrev firsts : List ℕ
firsts = 10 ∷ 11 ∷ 12 ∷ 13 ∷ 14 ∷ 15 ∷ 16 ∷ 17 ∷ 18 ∷ 19 ∷ 20 ∷ 21 ∷ 22 ∷ 23 ∷ 24 ∷ []

-- Fifteen elements fill the first buffer. Two stealers take one each, and two pushes use the places
-- again, before the first stealer reads what it has taken: it gets the element of the last push.
abbrev fifteen : System ℕ
fifteen = fill firsts two_stealers

abbrev overtaken : System ℕ
overtaken = after_push (after_push (after_steal (after_steal fifteen 0) 1) 25) 26

overtaken-Reach : Reach 0 overtaken
overtaken-Reach =
    let (filled, full) =
      fill-Reach firsts two_stealers refl refl refl (omega arith) (omega arith)
        two_stealers-Reach in
    (fill-Reach (25 ∷ 26 ∷ []) (after_steal (after_steal fifteen 0) 1) refl refl full (omega arith)
      (omega arith)
      (after_steal-Reach (after_steal fifteen 0) 1 none refl (omega arith) (omega arith)
        (after_steal-Reach fifteen 0 none refl (omega arith) (omega arith) filled))).0

late_read :
    (overtaken.stealers 0 ≡ won 0 0 0)
    × (get (overtaken.buffers 0) 0 ≡ 26)
    × (overtaken.items 0 ≡ 10)
late_read = (refl, refl, refl)

-- A stealer finds nothing, marks its token idle and loads the first buffer. The owner then pushes
-- sixteen elements, and deletes that buffer before the stealer reads its number.
abbrev leaving_late : System ℕ
leaving_late = record two_stealers {
  stealers =
      update
        (update
          (update (update (update (λ i. returned none) 0 busy) 0 (started 0)) 0 (leaving none)) 0
          (loading none))
        0 (noting 0 none);
  was_idle = update (update two_stealers.was_idle 0 false) 0 true;
}

leaving_late-Reach : Reach 0 leaving_late
leaving_late-Reach =
    later
      (later
        (later
          (later (later two_stealers-Reach (begin 0 none refl (omega arith))) (load_first 0 refl))
          (find_nothing 0 0 refl (omega arith)))
        (mark_idle 0 none refl))
      (load_last 0 none refl)

record Deleted : Type 0 where
  last : System ℕ
  reach : Reach 0 last
  late : last.stealers 0 ≡ noting 0 none
  gone : last.unlinked ≡ some 1

deleted : Deleted
deleted =
    let (filled, full) =
      fill-Reach firsts leaving_late refl refl refl (omega arith) (omega arith)
        leaving_late-Reach in
    let grown = later (later filled (load_top 25 none refl)) (enlarge 25 0 refl (omega arith)) in
    let scanned =
      later
        (later (later grown (scan 0 (putting 25 0) refl refl))
          (pass_idle 1 1 (putting 25 0) refl refl))
        (pass_idle 0 1 (putting 25 0) refl refl) in
    record {
      last = _;
      reach = later scanned (delete 0 1 (putting 25 0) refl refl);
      late = refl;
      gone = refl;
    }
