-- ===== src/Scheduler/Orders.antt =====
-- savvy_scheduler/libscheduler.c: the comparison functions are total preorders.
use system_programming_uiuc.Prelude.{◌≡◌, ◌⊎◌, ◌↔◌, refl, sym, ap, ◌∙◌, true, false, arith}
use system_programming_uiuc.Scheduler.{
  Sign, below, same, above, Scheme, fcfs, pri, ppri, psrtf, rr, sjf, JobInfo, DoubleTests,
  compare_then, comparer_fcfs, break_tie, comparer_pri, comparer_ppri, comparer_psrtf, comparer_rr,
  comparer_sjf, comparision_func,
}

-- What IEEE 754 says of `<` and `==` on numbers that are not NaN.
pub record IsOrdered {Double : Type 0} (d : DoubleTests Double) : Type 0 where
  pub asym : (x y : Double) → d.lt x y ≡ true → d.lt y x ≡ false
  pub trans : (x y z : Double) → d.lt x y ≡ false → d.lt y z ≡ false → d.lt x z ≡ false
  pub equal : (x y : Double) → d.lt x y ≡ false → d.lt y x ≡ false → d.eq x y ≡ true

unfoldable pub opposite : Sign → Sign
opposite below = above
opposite same = same
opposite above = below

-- What each scheme orders by.
unfoldable pub key : {Double : Type 0} → Scheme → JobInfo Double → Double
key fcfs a = a.arrival_time
key pri a = a.priority
key ppri a = a.priority
key psrtf a = a.remaining_time
key rr a = a.recent_execution_time
key sjf a = a.remaining_time

compare_then-again :
    {Double : Type 0} (d : DoubleTests Double) (x y : Double)
    → compare_then d x y same ≡ compare_then d x y (compare_then d x y same)
unfolding compare_then
compare_then-again d x y = ground arith

abbrev pub Earlier : {Double : Type 0} → DoubleTests Double → (x y u v : Double) → Type 0
Earlier d x y u v =
    (d.lt x y ≡ true) ⊎ ((d.lt x y ≡ false) × (d.lt y x ≡ false) × (d.lt u v ≡ true))

-- The first job comes before the second one.
abbrev pub Before :
    {Double : Type 0} → DoubleTests Double → Scheme → JobInfo Double → JobInfo Double → Type 0
Before d s a b = Earlier d (key s a) (key s b) a.arrival_time b.arrival_time

module _ {Double : Type 0} (d : DoubleTests Double) (o : IsOrdered d) where
  compare_then-opposite :
      (x y : Double) (tie tie' : Sign)
      → tie' ≡ opposite tie
      → compare_then d y x tie' ≡ opposite (compare_then d x y tie)
  unfolding compare_then opposite
  compare_then-opposite x y tie tie' e =
      ground (arith, o.asym x y, o.asym y x, o.equal x y, o.equal y x)

  comparer_fcfs-opposite :
      (a b : JobInfo Double) → comparer_fcfs d b a ≡ opposite (comparer_fcfs d a b)
  unfolding comparer_fcfs opposite
  comparer_fcfs-opposite a b = compare_then-opposite a.arrival_time b.arrival_time same same refl

  -- Every scheme but FCFS looks at one key and then at the arrival.
  comparision_func-key :
      (s : Scheme) (a b : JobInfo Double)
      → comparision_func d s a b ≡ compare_then d (key s a) (key s b) (comparer_fcfs d a b)
  unfolding comparision_func comparer_fcfs comparer_pri comparer_ppri comparer_psrtf comparer_rr
      comparer_sjf break_tie key
  comparision_func-key fcfs a b = compare_then-again d a.arrival_time b.arrival_time
  comparision_func-key pri a b = refl
  comparision_func-key ppri a b = refl
  comparision_func-key psrtf a b = refl
  comparision_func-key rr a b = refl
  comparision_func-key sjf a b = refl

  -- For numbers without NaN, under every scheme: swapping the jobs turns the answer around.
  pub comparision_func-opposite :
      (s : Scheme) (a b : JobInfo Double)
      → comparision_func d s b a ≡ opposite (comparision_func d s a b)
  comparision_func-opposite s a b =
      comparision_func-key s b a
      ∙ compare_then-opposite (key s a) (key s b) _ _ (comparer_fcfs-opposite a b)
      ∙ ap opposite (sym (comparision_func-key s a b))

  -- The order of C's tests: the smaller key, and at keys neither of which is smaller the earlier
  -- arrival.
  compare_then-Earlier :
      (x y u v : Double)
      → (compare_then d x y (compare_then d u v same) ≡ below) ↔ Earlier d x y u v
  unfolding compare_then
  compare_then-Earlier x y u v = ground (arith, o.asym x y, o.asym y x, o.equal x y)

  below-Before :
      (s : Scheme) (a b : JobInfo Double) → (comparision_func d s a b ≡ below) ↔ Before d s a b
  unfolding comparer_fcfs
  below-Before s a b =
      let e = comparision_func-key s a b in
      let i = compare_then-Earlier (key s a) (key s b) a.arrival_time b.arrival_time in
      (λ h. i.0 (sym e ∙ h), λ h. e ∙ i.1 h)

  -- For numbers without NaN, under every scheme the comparison is -1 exactly if the first job has
  -- the smaller key, or neither key is smaller and it arrived earlier, and 1 exactly if that holds of
  -- the second job.
  pub comparision_func-Before :
      (s : Scheme) (a b : JobInfo Double)
      → ((comparision_func d s a b ≡ below) ↔ Before d s a b)
        × ((comparision_func d s a b ≡ above) ↔ Before d s b a)
  unfolding opposite
  comparision_func-Before s a b = (
    below-Before s a b,
    (
      λ h. (below-Before s b a).0 (comparision_func-opposite s a b ∙ ap opposite h),
      λ h. comparision_func-opposite s b a ∙ ap opposite ((below-Before s b a).1 h),
    ),
  )
