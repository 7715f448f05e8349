-- ===== src/Scheduler.antt =====
-- savvy_scheduler/libscheduler.c: the order of jobs under each scheme.
-- `double` is a parameter with its tests `<` and `==`; a job is its `job_info`.
pub mod Orders
mod Tests
use system_programming_uiuc.Prelude.{ℕ, Bool, if◌then◌else◌}

-- The answers -1, 0 and 1 of a comparison.
pub data Sign : Type 0 where
  below same above : Sign

pub data Scheme : Type 0 where
  fcfs pri ppri psrtf rr sjf : Scheme

module _ (Double : Type 0) where
  pub record JobInfo : Type 0 where
    pub id : ℕ
    pub arrival_time : Double
    pub priority : Double
    pub remaining_time : Double
    pub recent_execution_time : Double
    pub run_time : Double
    pub start_time : Double

-- The tests of C on doubles.
pub record DoubleTests (Double : Type 0) : Type 0 where
  pub lt : Double → Double → Bool
  pub eq : Double → Double → Bool

module _ {Double : Type 0} (d : DoubleTests Double) where
  -- `if (x < y) return -1; else if (x > y) return 1; else if (x == y) return tie; return 0;`
  unfoldable pub compare_then : Double → Double → Sign → Sign
  compare_then x y tie =
      if d.lt x y then below else if d.lt y x then above else if d.eq x y then tie else same

  unfoldable pub comparer_fcfs : JobInfo Double → JobInfo Double → Sign
  unfolding compare_then
  comparer_fcfs a b = compare_then a.arrival_time b.arrival_time same

  unfoldable pub break_tie : JobInfo Double → JobInfo Double → Sign
  break_tie a b = comparer_fcfs a b

  unfoldable pub comparer_pri : JobInfo Double → JobInfo Double → Sign
  comparer_pri a b = compare_then a.priority b.priority (break_tie a b)

  unfoldable pub comparer_ppri : JobInfo Double → JobInfo Double → Sign
  comparer_ppri a b = comparer_pri a b

  unfoldable pub comparer_psrtf : JobInfo Double → JobInfo Double → Sign
  comparer_psrtf a b = compare_then a.remaining_time b.remaining_time (break_tie a b)

  unfoldable pub comparer_rr : JobInfo Double → JobInfo Double → Sign
  comparer_rr a b = compare_then a.recent_execution_time b.recent_execution_time (break_tie a b)

  unfoldable pub comparer_sjf : JobInfo Double → JobInfo Double → Sign
  comparer_sjf a b = compare_then a.remaining_time b.remaining_time (break_tie a b)

  -- The function that `scheduler_start_up` gives to the priority queue.
  unfoldable pub comparision_func : Scheme → JobInfo Double → JobInfo Double → Sign
  comparision_func fcfs = comparer_fcfs
  comparision_func pri = comparer_pri
  comparision_func ppri = comparer_ppri
  comparision_func psrtf = comparer_psrtf
  comparision_func rr = comparer_rr
  comparision_func sjf = comparer_sjf
