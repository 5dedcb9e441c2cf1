-- ===== src/Pools/Tests.antt =====
-- Small executors on which the theorems apply.
use parallel_operations_tool.Prelude.{
  ℕ, ◌≡◌, refl, true, false, List, [], ◌∷◌, arith, update, if◌then◌else◌, ◌==◌,
}
use parallel_operations_tool.Pools.{
  Global, Local, run, wait, init_global, init_local, submit_global, turn_global, turn_local,
  shutdown_global, take_or, take_first, steal_seq,
}
use parallel_operations_tool.Pools.Gq
use parallel_operations_tool.Pools.GsHot
use parallel_operations_tool.Pools.Gpq
use parallel_operations_tool.Pools.LqStealSeq
use parallel_operations_tool.Pools.LqStealNeighbor
use parallel_operations_tool.Pools.LqlfStealSeq
use parallel_operations_tool.Pools.Priority.{Numbered}
use parallel_operations_tool.Pools.History.{Event, submit, work, close, play, outs, rest}
use parallel_operations_tool.Pools.Kept.{gq, gs_hot}
use parallel_operations_tool.Pools.Wake.{
  idle, pushed, added, reading, running, checking, waiting, blocked, System, push, notify_nobody,
  load, take, find_nothing, finish, block, add, Reach, start, later, notified,
}
use parallel_operations_tool.Pools.Wake.Safety.{asleep_empty}

abbrev letters : List ℕ
letters = 10 ∷ 11 ∷ 12 ∷ 13 ∷ 14 ∷ []

-- Queue 2 of three holds two tasks.
abbrev uneven : Local (List ℕ)
uneven = record {
  contexts = λ i. record { tasks = if i == 2 then 7 ∷ 8 ∷ [] else []; notifier = 1 };
  queues = 3;
  next_thread_idx = 0;
  stop = false;
  threads = 3;
}

abbrev empty_queues : Local (List ℕ)
empty_queues = init_local [] 3

steals :
    LqStealSeq.turn (λ j. true) false false 0 uneven
    ≡ (run 7, (LqStealSeq.turn (λ j. true) false false 0 uneven).1)
unfolding LqStealSeq.turn LqStealSeq.steal turn_local take_or steal_seq
steals = refl

locked : LqStealSeq.turn (λ j. false) false false 0 uneven ≡ (wait 1, uneven)
unfolding LqStealSeq.turn LqStealSeq.steal turn_local take_or steal_seq
locked = refl

lock_free_waits : LqlfStealSeq.turn false false 0 empty_queues ≡ (wait 0, empty_queues)
unfolding LqlfStealSeq.turn LqlfStealSeq.steal turn_local take_or steal_seq init_local
lock_free_waits = refl

-- Two locked neighbours are passed over, and the worker sleeps although queue 2 has tasks.
neighbors_locked : LqStealNeighbor.turn (λ j. j == 1) false false 0 uneven ≡ (wait 1, uneven)
unfolding LqStealNeighbor.turn LqStealNeighbor.steal turn_local take_or steal_seq
neighbors_locked = refl

-- The coroutines 20 and 21 came with one run, 22 with none.
abbrev ranked : Global (Gpq.WorkPqueue ℕ)
ranked = record {
  tasks = record {
    items =
        record { func = 22; priority = 0; sequence = 2 }
        ∷ record { func = 21; priority = 1; sequence = 1 }
        ∷ record { func = 20; priority = 1; sequence = 0 }
        ∷ [];
    seq_counter = 3;
  };
  notifier = 3;
  stop = false;
  threads = 2;
}

ranked-Numbered : Numbered ranked.tasks
ranked-Numbered = record {
  below = (omega arith, (omega arith, (omega arith, tt)));
  distinct = (((λ e. omega arith), ((λ e. omega arith), tt)), (((λ e. omega arith), tt), (tt, tt)));
}

runs_least : Gpq.turn false false ranked ≡ (run 22, (Gpq.turn false false ranked).1)
unfolding Gpq.turn turn_global Gpq.take_item Gpq.take_top
runs_least = refl

abbrev events : List (Event ℕ)
events =
    submit 0 10
    ∷ submit 20 11
    ∷ submit 3 12
    ∷ work false false
    ∷ close
    ∷ submit 0 13
    ∷ work false false
    ∷ []

-- 10 runs first, then 11; 12 is left, and 13 is refused.
fifo_run : (outs gq (Gq.init 2) events ≡ 10 ∷ 11 ∷ []) × (rest gq (Gq.init 2) events ≡ 12 ∷ [])
unfolding play Gq.init Gq.derived_execute init_global submit_global turn_global take_first
    shutdown_global
fifo_run = (refl, refl)

-- 12 and then 10 go before 11, which has run twenty times.
hot_run : outs gs_hot (GsHot.init 2) events ≡ 12 ∷ 10 ∷ []
unfolding play GsHot.init GsHot.derived_execute init_global submit_global turn_global take_first
    shutdown_global
hot_run = refl

-- Thread 5 has put a task and moved the notifier; the one worker has not looked yet.
abbrev handed_in : System ℕ
handed_in = record {
  tasks = 10 ∷ [];
  notifier = 1;
  submitters = update (update (λ i. idle) 5 pushed) 5 added;
  workers = λ j. reading;
}

handed_in-Reach : Reach 1 1 handed_in
handed_in-Reach = notified (later start (push 5 10 refl)) (add 5 refl)

-- The call is over, and the worker has run the task and is blocked.
abbrev asleep : System ℕ
asleep = record {
  tasks = [];
  notifier = 1;
  submitters = update (update (update (λ i. idle) 5 pushed) 5 added) 5 idle;
  workers =
      update
        (update
          (update (update (update (update (λ j. reading) 0 (checking 1)) 0 running) 0 reading) 0
            (checking 1))
          0 (waiting 1))
        0 (blocked 1);
}

asleep-Reach : Reach 1 1 asleep
asleep-Reach =
    later
      (later
        (later
          (later
            (later
              (later (later handed_in-Reach (notify_nobody 5 refl (λ j seen lt e. cc)))
                (load 0 (omega arith) refl))
              (take 0 1 10 [] (omega arith) refl refl))
            (finish 0 (omega arith) refl))
          (load 0 (omega arith) refl))
        (find_nothing 0 1 (omega arith) refl refl))
      (block 0 1 (omega arith) refl refl)

asleep_empty_example : asleep.tasks ≡ []
asleep_empty_example =
    asleep_empty 1 1 asleep (omega arith) asleep-Reach (omega arith) (λ i. ground arith)
      (λ j lt. (1, ground arith))
