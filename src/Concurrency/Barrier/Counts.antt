-- ===== src/Concurrency/Barrier/Counts.antt =====
-- critical_concurrency/barrier.c: the arithmetic and the tests of single steps.
use system_programming_uiuc.Prelude.{
  ℕ, ◌+◌, ◌*◌, ◌%◌, ◌≤◌, ◌<◌, ◌≡◌, ◌⊎◌, inl, inr, ap, ◌∙◌, true, false, List, [], ◌∷◌, arith,
}
use native.Mathlib.Nat.{mul-add, mul-one, le-mul_of_pos_right, mul_comm}
use system_programming_uiuc.Concurrency.Monitor.{update}
use system_programming_uiuc.Concurrency.Barrier.{
  unsigned_word, Barrier, must_wait, same_stage, Pc, outside, asleep, awake, roused, System,
}

-- Each call that left was in a round before `times`.
unfoldable pub Behind : ℕ → List (ℕ × ℕ) → Type 0
Behind times [] = Unit
Behind times ((i, round) ∷ l) = (round < times) × Behind times l

pub record Counted (n : ℕ) (s : System) : Type 0 where
  pub same_n : s.barrier.n_threads ≡ n
  pub small : s.barrier.count < n
  pub total : s.arrivals ≡ n * s.barrier.times_used + s.barrier.count
  pub behind : Behind s.barrier.times_used s.left
  pub sleeping : (i k : ℕ) → s.pc i ≡ asleep k → k ≡ s.barrier.times_used
  pub woken : (i k : ℕ) → s.pc i ≡ awake k → k ≤ s.barrier.times_used

pub Behind-suc : (times : ℕ) (l : List (ℕ × ℕ)) → Behind times l → Behind (times + 1) l
unfolding Behind
Behind-suc times [] b = tt
Behind-suc times ((i, k) ∷ l) b = (omega (arith, b.0), Behind-suc times l b.1)

pub update-asleep :
    (pc : ℕ → Pc) (i : ℕ) (p : Pc) (j k : ℕ)
    → update pc i p j ≡ asleep k
    → (p ≡ asleep k) ⊎ (pc j ≡ asleep k)
update-asleep pc i p j k h = ground arith

pub update-awake :
    (pc : ℕ → Pc) (i : ℕ) (p : Pc) (j k : ℕ)
    → update pc i p j ≡ awake k
    → (p ≡ awake k) ⊎ (pc j ≡ awake k)
update-awake pc i p j k h = ground arith

pub roused-asleep : (p : Pc) (k : ℕ) → roused p ≡ asleep k → ⊥
unfolding roused
roused-asleep outside k h = cc
roused-asleep (asleep j) k h = cc
roused-asleep (awake j) k h = cc

pub awake-inj : {j k : ℕ} → awake j ≡ awake k → j ≡ k
awake-inj h = cc

pub asleep-inj : {j k : ℕ} → asleep j ≡ asleep k → j ≡ k
asleep-inj h = cc

pub asleep-not_awake : {P : Type 0} {j k : ℕ} → asleep j ≡ awake k → P
asleep-not_awake h = cc

pub awake-not_asleep : {P : Type 0} {j k : ℕ} → awake j ≡ asleep k → P
awake-not_asleep h = cc

pub outside-not_asleep : {P : Type 0} {k : ℕ} → outside ≡ asleep k → P
outside-not_asleep h = cc

pub outside-not_awake : {P : Type 0} {k : ℕ} → outside ≡ awake k → P
outside-not_awake h = cc

pub roused-awake : (p : Pc) (k : ℕ) → roused p ≡ awake k → (p ≡ asleep k) ⊎ (p ≡ awake k)
unfolding roused
roused-awake outside k h = cc
roused-awake (asleep j) k h = inl (ap asleep (awake-inj h))
roused-awake (awake j) k h = inr (h)

-- The arithmetic of a call that comes, while the counts do not wrap.
pub early-count :
    (n : ℕ) (b : Barrier)
    → n < unsigned_word
    → b.n_threads ≡ n
    → b.count < n
    → must_wait b ≡ true
    → ((b.count + 1) % unsigned_word ≡ b.count + 1) × (b.count + 1 < n)
unfolding must_wait
early-count n b fits same small h = ground arith

pub last-count :
    (n : ℕ) (b : Barrier)
    → n < unsigned_word
    → b.n_threads ≡ n
    → b.count < n
    → must_wait b ≡ false
    → b.count + 1 ≡ n
unfolding must_wait
last-count n b fits same small h = ground arith

pub last-times :
    (n arrivals : ℕ) (b : Barrier)
    → 0 < n
    → arrivals ≡ n * b.times_used + b.count
    → b.count + 1 ≡ n
    → arrivals + 1 < unsigned_word
    → ((b.times_used + 1) % unsigned_word ≡ b.times_used + 1)
      × (arrivals + 1 ≡ n * (b.times_used + 1) + 0)
last-times n arrivals b positive total full fits =
    let grown : n * (b.times_used + 1) ≡ n * b.times_used + n =
      mul-add n b.times_used 1 ∙ ap (λ (k : ℕ). n * b.times_used + k) (mul-one n) in
    let more : b.times_used + 1 ≤ (b.times_used + 1) * n =
      le-mul_of_pos_right (b.times_used + 1) positive in
    let turned = mul_comm (b.times_used + 1) n in
    (omega (arith, grown, more, turned), omega (arith, grown))

pub stays-test : (k : ℕ) (b : Barrier) → same_stage k b ≡ true → k ≡ b.times_used
unfolding same_stage
stays-test k b h = ground arith

pub leaves-test :
    (k : ℕ) (b : Barrier) → same_stage k b ≡ false → k ≤ b.times_used → k < b.times_used
unfolding same_stage
leaves-test k b h le = ground arith
