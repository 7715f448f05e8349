-- ===== src/Scheduler/Tests.antt =====
-- Runs of savvy_scheduler at fixed inputs, with times that are natural numbers.
use system_programming_uiuc.Prelude.{ℕ, ◌≡◌, ◌↔◌, true, false, arith, ltb, ◌==◌}
use system_programming_uiuc.Scheduler.{below, above, pri, JobInfo, DoubleTests, comparision_func}
use system_programming_uiuc.Scheduler.Orders.{IsOrdered, Before, comparision_func-Before}

abbrev whole : DoubleTests ℕ
whole = record { lt = ltb; eq = λ x y. x == y }

whole-asym : (x y : ℕ) → ltb x y ≡ true → ltb y x ≡ false
whole-asym x y h = ground arith

whole_trans : (x y z : ℕ) → ltb x y ≡ false → ltb y z ≡ false → ltb x z ≡ false
whole_trans x y z h k = ground arith

whole-equal : (x y : ℕ) → ltb x y ≡ false → ltb y x ≡ false → (x == y) ≡ true
whole-equal x y h k = ground arith

whole-IsOrdered : IsOrdered whole
whole-IsOrdered = record {
  asym = λ x y h. whole-asym x y h;
  trans = λ x y z h k. whole_trans x y z h k;
  equal = λ x y h k. whole-equal x y h k;
}

abbrev job : ℕ → ℕ → JobInfo ℕ
job arrival priority = record {
  id = arrival;
  arrival_time = arrival;
  priority = priority;
  remaining_time = 5;
  recent_execution_time = 0;
  run_time = 5;
  start_time = 0;
}

comparision_func-Before_example :
    ((comparision_func whole pri (job 2 1) (job 1 3) ≡ below)
      ↔ Before whole pri (job 2 1) (job 1 3))
    × ((comparision_func whole pri (job 2 1) (job 1 3) ≡ above)
        ↔ Before whole pri (job 1 3) (job 2 1))
comparision_func-Before_example =
    comparision_func-Before whole whole-IsOrdered pri (job 2 1) (job 1 3)
