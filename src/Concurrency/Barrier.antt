-- ===== src/Concurrency/Barrier.antt =====
-- critical_concurrency/barrier.c: a barrier that a fixed number of threads use again and again.
-- From lock or wake-up to unlock or wait is one step. The returned value, which the code reads
-- after it has unlocked, is left out.
pub mod Counts
pub mod Rounds
use system_programming_uiuc.Prelude.{
  ℕ, ◌+◌, ◌%◌, ◌^◌, ◌≡◌, Bool, true, false, List, [], ◌∷◌, ltb, ◌==◌,
}
use system_programming_uiuc.Concurrency.Monitor.{update}

abbrev pub unsigned_word : ℕ
unsigned_word = 2 ^ 32

pub record Barrier : Type 0 where
  pub count : ℕ
  pub n_threads : ℕ
  pub times_used : ℕ

unfoldable pub barrier_init : ℕ → Barrier
barrier_init num_threads = record { count = 0; n_threads = num_threads; times_used = 0 }

-- `barrier->count++` and its test: does the thread have to wait?
unfoldable pub must_wait : Barrier → Bool
must_wait b = ltb ((b.count + 1) % unsigned_word) b.n_threads

-- The barrier behind the branches of the `if`, for a thread that has just come.
unfoldable pub arrived_early : Barrier → Barrier
arrived_early b = record b { count = (b.count + 1) % unsigned_word }

unfoldable pub arrived_last : Barrier → Barrier
arrived_last b = record b { count = 0; times_used = (b.times_used + 1) % unsigned_word }

-- The test of the `while` loop for a thread that keeps `stage`.
unfoldable pub same_stage : ℕ → Barrier → Bool
same_stage stage b = stage == b.times_used

-- Outside of `barrier_wait`, asleep with a stage, or awake in front of the test.
pub data Pc : Type 0 where
  outside : Pc
  asleep : ℕ → Pc
  awake : ℕ → Pc

unfoldable pub roused : Pc → Pc
roused outside = outside
roused (asleep stage) = awake stage
roused (awake stage) = awake stage

-- With the threads: how many calls have come, and each call that left, with its round.
pub record System : Type 0 where
  pub barrier : Barrier
  pub pc : ℕ → Pc
  pub arrivals : ℕ
  pub left : List (ℕ × ℕ)

unfoldable pub fresh : ℕ → System
fresh n = record { barrier = barrier_init n; pc = λ i. outside; arrivals = 0; left = [] }

-- The steps of `barrier_wait`.
pub data Step (s : System) : System → Type 0 where
  come :
      (i : ℕ)
      → s.pc i ≡ outside
      → must_wait s.barrier ≡ true
      → Step s (record s {
        barrier = arrived_early s.barrier;
        pc = update s.pc i (asleep s.barrier.times_used);
        arrivals = s.arrivals + 1;
      })
  complete :
      (i : ℕ)
      → s.pc i ≡ outside
      → must_wait s.barrier ≡ false
      → Step s (record {
        barrier = arrived_last s.barrier;
        pc = λ j. roused (s.pc j);
        arrivals = s.arrivals + 1;
        left = (i, s.barrier.times_used) ∷ s.left;
      })
  spurious :
      (i stage : ℕ) → s.pc i ≡ asleep stage → Step s (record s { pc = update s.pc i (awake stage) })
  again :
      (i stage : ℕ)
      → s.pc i ≡ awake stage
      → same_stage stage s.barrier ≡ true
      → Step s (record s { pc = update s.pc i (asleep stage) })
  leave :
      (i stage : ℕ)
      → s.pc i ≡ awake stage
      → same_stage stage s.barrier ≡ false
      → Step s (record s { pc = update s.pc i outside; left = (i, stage) ∷ s.left })

pub data Reach (s : System) : System → Type 0 where
  start : Reach s s
  later : {t u : System} → Reach s t → Step t u → Reach s u
