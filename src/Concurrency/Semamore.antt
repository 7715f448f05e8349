-- ===== src/Concurrency/Semamore.antt =====
-- critical_concurrency/semamore.c: a counting semaphore with a largest value.
-- `value` and `max_val` are of type `int`, and stand as the 32 bits of their two's complement.
use system_programming_uiuc.Prelude.{
  ℕ, ◌+◌, ◌-◌, ◌%◌, ◌^◌, ◌≤◌, ◌<◌, ◌≡◌, refl, Bool, true, false, not, List, [], ◌∷◌, arith, ◌==◌,
}
use system_programming_uiuc.Prelude.Outcome.{Outcome, done}
use system_programming_uiuc.Concurrency.Monitor.{
  Monitor, System, fresh, Reach, Reach-Asleep, Reach-invariant, Asleep, idle, waiting,
}

abbrev pub int_word : ℕ
int_word = 2 ^ 32

pub record Semamore : Type 0 where
  pub value : ℕ
  pub max_val : ℕ

pub data Op : Type 0 where
  wait post : Op

unfoldable pub semm_init : ℕ → ℕ → Semamore
semm_init value max_val = record { value = value; max_val = max_val }

-- The negated tests of the `while` loops in `semm_wait` and `semm_post`.
unfoldable pub semm_ready : Op → Semamore → Bool
semm_ready wait s = not (s.value == 0)
semm_ready post s = not (s.value == s.max_val)

-- What `semm_wait` and `semm_post` do behind the loop; both broadcast.
unfoldable pub semm_body : Op → Semamore → Outcome (Semamore × Bool × Unit {0})
semm_body wait s = done (record s { value = (s.value + int_word - 1) % int_word }, true, tt)
semm_body post s = done (record s { value = (s.value + 1) % int_word }, true, tt)

pub semm_quiet :
    (o : Op) (s s' : Semamore) (r : Unit {0}) → semm_body o s ≡ done (s', false, r) → s' ≡ s
unfolding semm_body
semm_quiet wait s s' r h = cc
semm_quiet post s s' r h = cc

abbrev pub semamore : Monitor
semamore = record {
  State = Semamore;
  Op = Op;
  Reply = Unit {0};
  ready = semm_ready;
  body = semm_body;
  quiet = semm_quiet;
}

-- How often an operation has finished.
unfoldable pub count : Op → List (Op × Unit {0}) → ℕ
count o [] = 0
count wait ((wait, _) ∷ l) = count wait l + 1
count wait ((post, _) ∷ l) = count wait l
count post ((wait, _) ∷ l) = count post l
count post ((post, _) ∷ l) = count post l + 1

abbrev Balanced : ℕ → ℕ → Semamore → List (Op × Unit {0}) → Type 0
Balanced value max_val s log =
    (s.value + count wait log ≡ value + count post log)
    × (s.value ≤ max_val)
    × (s.max_val ≡ max_val)
    × (max_val < 2 ^ 31)

body-Balanced :
    (value max_val : ℕ) (o : Op) (s s' : Semamore) (b : Bool) (r : Unit {0})
    (log : List (Op × Unit {0}))
    → semm_ready o s ≡ true
    → semm_body o s ≡ done (s', b, r)
    → Balanced value max_val s log
    → Balanced value max_val s' ((o, r) ∷ log)
unfolding semm_ready semm_body count
body-Balanced value max_val wait s s' b r log g e inv = ground arith
body-Balanced value max_val post s s' b r log g e inv = ground arith

-- For a first value of at least 0 and at most `max_val`: in every interleaving of any number of
-- threads the value is the first value plus the posts less the waits that have finished, it never
-- passes `max_val`, and no wait has finished without a value to take.
pub semm_counts :
    (value max_val : ℕ) {s : System semamore}
    → value ≤ max_val
    → max_val < 2 ^ 31
    → Reach semamore (fresh semamore (semm_init value max_val)) s
    → (s.shared.value + count wait s.log ≡ value + count post s.log)
      × (s.shared.value ≤ max_val)
      × (count wait s.log ≤ value + count post s.log)
unfolding semm_init count
semm_counts value max_val small int r =
    let inv =
      Reach-invariant semamore (Balanced value max_val) (body-Balanced value max_val) r
        (refl, small, refl, int) in
    (inv.0, inv.1, omega (arith, inv.0))

idle-not_waiting : {P : Type 0} (o : Op) → idle ≡ waiting o → P
idle-not_waiting o h = cc

wait-blocked : (s : Semamore) → semm_ready wait s ≡ false → s.value ≡ 0
unfolding semm_ready
wait-blocked s h = ground arith

post-blocked : (s : Semamore) → semm_ready post s ≡ false → s.value ≡ s.max_val
unfolding semm_ready
post-blocked s h = ground arith

-- No wake-up is lost: in every reachable state a thread that sleeps in `semm_wait` finds the value
-- at 0, and one that sleeps in `semm_post` finds it at `max_val`.
pub semm_sleepers :
    (value max_val : ℕ) {s : System semamore}
    → Reach semamore (fresh semamore (semm_init value max_val)) s
    → (i : ℕ)
    → (s.pc i ≡ waiting wait → s.shared.value ≡ 0)
      × (s.pc i ≡ waiting post → s.shared.value ≡ s.shared.max_val)
semm_sleepers value max_val {s} r i =
    let asleep : Asleep semamore s = Reach-Asleep semamore r (λ j o h. idle-not_waiting o h) in
    (λ h. wait-blocked s.shared (asleep i wait h), λ h. post-blocked s.shared (asleep i post h))
