-- ===== src/Concurrency/Tests.antt =====
-- Runs of critical_concurrency at fixed inputs.
use system_programming_uiuc.Prelude.{◌≡◌, ◌+◌, ◌≤◌, refl, true, arith}
use system_programming_uiuc.Prelude.{◌*◌}
use system_programming_uiuc.Concurrency.Barrier
use system_programming_uiuc.Concurrency.Barrier.Rounds.{Awaited, barrier_rounds}
use system_programming_uiuc.Concurrency.Monitor.{
  System, fresh, Reach, start, later, enter, block, finish, waiting,
}
use system_programming_uiuc.Prelude.{ℕ, Bool, Option, none, some, List, ◌++◌, ◌<◌, ◌≢◌, length}
use system_programming_uiuc.Prelude.Outcome.{done}
use system_programming_uiuc.Concurrency.Queue.{
  Heap, Queue, Reply, push, pull, queue_create, queue_destroy, queue_ready, queue_body, push_body,
  pull_body, link, link_tail,
}
use system_programming_uiuc.Concurrency.Queue.Ordered.{Fresh, puts, takes}
use system_programming_uiuc.Concurrency.Queue.Shared.{
  queue_monitor, queue_fifo, queue_returns, queue_destroy-frees, queue_sleepers,
}
use system_programming_uiuc.Concurrency.Semamore.{
  wait, post, semm_init, semm_ready, semm_body, count, semamore, semm_counts, semm_sleepers,
}

abbrev one_of_two : System semamore
one_of_two = fresh semamore (semm_init 1 2)

-- Two threads: 0 comes first and waits, 1 completes the round, 0 leaves.
round_done :
    (s : Barrier.System) × Barrier.Reach (Barrier.fresh 2) s × (s.arrivals < Barrier.unsigned_word)
unfolding Barrier.fresh Barrier.barrier_init Barrier.must_wait Barrier.arrived_early
    Barrier.arrived_last Barrier.same_stage Barrier.roused
round_done = (
  _,
  Barrier.later
      (Barrier.later (Barrier.later Barrier.start (Barrier.come 0 refl refl))
        (Barrier.complete 1 refl refl))
      (Barrier.leave 0 0 refl refl),
  omega arith,
)

barrier_rounds_example :
    Awaited 2 round_done.0.arrivals round_done.0.left
    × (round_done.0.arrivals ≡ 2 * round_done.0.barrier.times_used + round_done.0.barrier.count)
    × (round_done.0.barrier.count < 2)
    × ((i round : ℕ)
        → round_done.0.pc i ≡ Barrier.asleep round
        → round ≡ round_done.0.barrier.times_used)
barrier_rounds_example = barrier_rounds 2 (omega arith) (omega arith) round_done.1 round_done.2

-- Thread 0 takes the only value; thread 1 comes after it and sleeps.
taken : (s : System semamore) × Reach semamore one_of_two s × (s.pc 1 ≡ waiting wait)
unfolding semm_init semm_ready semm_body
taken = (
  _,
  later
      (later
        (later (later start (enter 0 wait refl))
          (finish 0 wait (semm_init 0 2) true tt refl refl refl))
        (enter 1 wait refl))
      (block 1 wait refl refl),
  refl,
)

semm_counts_example :
    (taken.0.shared.value + count wait taken.0.log ≡ 1 + count post taken.0.log)
    × (taken.0.shared.value ≤ 2)
    × (count wait taken.0.log ≤ 1 + count post taken.0.log)
semm_counts_example = semm_counts 1 2 (omega arith) (omega arith) taken.1

semm_sleepers_example :
    (taken.0.pc 1 ≡ waiting wait → taken.0.shared.value ≡ 0)
    × (taken.0.pc 1 ≡ waiting post → taken.0.shared.value ≡ taken.0.shared.max_val)
semm_sleepers_example = semm_sleepers 1 2 taken.1 1

-- An allocator with two places.
abbrev two_places : Heap → Option ℕ
two_places h = elim (h 1) [ none ↦ some 1 | some n ↦ elim (h 2) [ none ↦ some 2 | some k ↦ none ] ]

two_places-Fresh : Fresh two_places
two_places-Fresh h a e = ground arith

abbrev bounded : System (queue_monitor two_places)
bounded = fresh (queue_monitor two_places) (queue_create 1)

-- Thread 0 pushes 7, thread 1 pulls it; thread 2 comes too late and sleeps.
served :
    (s : System (queue_monitor two_places)) × Reach (queue_monitor two_places) bounded s
    × (s.pc 2 ≡ waiting pull)
    × (queue_ready (push 4) s.shared ≡ true)
unfolding queue_create queue_ready queue_body push_body pull_body link link_tail
served = (
  _,
  later
      (later
        (later
          (later
            (later (later start (enter 0 (push 7) refl))
              (finish 0 (push 7) _ true _ refl refl refl))
            (enter 1 pull refl))
          (finish 1 pull _ true _ refl refl refl))
        (enter 2 pull refl))
      (block 2 pull refl refl),
  refl,
  refl,
)

queue_fifo_example :
    (xs : List ℕ) × (puts served.0.log ≡ takes served.0.log ++ xs)
    × (served.0.shared.size ≡ length xs)
    × (0 < 1 → served.0.shared.size ≤ 1)
queue_fifo_example = queue_fifo two_places 1 two_places-Fresh served.1

queue_returns_example :
    (q' : Queue) × (b : Bool) × (r : Reply) × (queue_body two_places (push 4) served.0.shared
      ≡ done (q', b, r))
queue_returns_example = queue_returns two_places 1 two_places-Fresh served.1 (push 4) served.3

queue_sleepers_example :
    (served.0.pc 2 ≡ waiting pull → served.0.shared.size ≡ 0)
    × (served.0.pc 3 ≡ waiting (push 4)
        → (0 < served.0.shared.max_size) × (served.0.shared.size ≡ served.0.shared.max_size))
    × (served.0.pc 2 ≡ waiting pull → served.0.pc 3 ≢ waiting (push 4))
queue_sleepers_example = queue_sleepers two_places 1 served.1 2 3 4

queue_destroy-frees_example :
    (q' : Queue) × (queue_destroy served.0.shared ≡ done q')
    × ((a : ℕ) → q'.heap a ≡ none)
    × (q'.head ≡ none)
    × (q'.size ≡ 0)
queue_destroy-frees_example = queue_destroy-frees two_places 1 two_places-Fresh served.1
