-- ===== src/Concurrency/Barrier/Rounds.antt =====
-- critical_concurrency/barrier.c: what holds in every interleaving.
use system_programming_uiuc.Prelude.{
  ℕ, ◌+◌, ◌*◌, ◌≤◌, ◌<◌, ◌≡◌, inl, inr, refl, sym, ap, subst, ◌∙◌, List, [], ◌∷◌, arith,
}
use native.Mathlib.Nat.{mul-zero, mul-le-mul_left}
use system_programming_uiuc.Concurrency.Barrier.{
  unsigned_word, barrier_init, arrived_early, arrived_last, outside, asleep, awake, System, fresh,
  Step, come, complete, spurious, again, leave, Reach, start, later,
}
use system_programming_uiuc.Concurrency.Barrier.Counts.{
  Behind, Counted, Behind-suc, update-asleep, update-awake, roused-asleep, awake-inj, asleep-inj,
  asleep-not_awake, awake-not_asleep, outside-not_asleep, outside-not_awake, roused-awake,
  early-count, last-count, last-times, stays-test, leaves-test,
}

Step-Counted :
    (n : ℕ) {s t : System}
    → 0 < n
    → n < unsigned_word
    → Step s t
    → t.arrivals < unsigned_word
    → Counted n s
    → Counted n t
unfolding arrived_early arrived_last Behind
Step-Counted n {s} positive fits (come i at wait) few inv =
    let (plus, still) = early-count n s.barrier fits inv.same_n inv.small wait in
    record {
      same_n = inv.same_n;
      small = omega (arith, plus, still);
      total = omega (arith, plus, inv.total);
      behind = inv.behind;
      sleeping = λ j k h. elim (update-asleep s.pc i (asleep s.barrier.times_used) j k h) [
        | inl new ↦ sym (asleep-inj new)
        | inr old ↦ inv.sleeping j k old
      ];
      woken = λ j k h. elim (update-awake s.pc i (asleep s.barrier.times_used) j k h) [
        | inl new ↦ asleep-not_awake new
        | inr old ↦ inv.woken j k old
      ];
    }
Step-Counted n {s} positive fits (complete i at last) few inv =
    let full = last-count n s.barrier fits inv.same_n inv.small last in
    let (plus, counts) = last-times n s.arrivals s.barrier positive inv.total full few in
    record {
      same_n = inv.same_n;
      small = positive;
      total = counts ∙ ap (λ (k : ℕ). n * k + 0) (sym plus);
      behind =
          subst (λ k. (s.barrier.times_used < k) × Behind k s.left) (sym plus)
            (omega arith, Behind-suc s.barrier.times_used s.left inv.behind);
      sleeping = λ j k h. elim (roused-asleep (s.pc j) k h) [ ];
      woken = λ j k h. elim (roused-awake (s.pc j) k h) [
        | inl slept ↦ omega (arith, plus, inv.sleeping j k slept)
        | inr up ↦ omega (arith, plus, inv.woken j k up)
      ];
    }
Step-Counted n {s} positive fits (spurious i k₀ at) few inv = record {
  same_n = inv.same_n;
  small = inv.small;
  total = inv.total;
  behind = inv.behind;
  sleeping = λ j k h. elim (update-asleep s.pc i (awake k₀) j k h) [
    | inl new ↦ awake-not_asleep new
    | inr old ↦ inv.sleeping j k old
  ];
  woken = λ j k h. elim (update-awake s.pc i (awake k₀) j k h) [
    | inl new ↦ omega (arith, awake-inj new, inv.sleeping i k₀ at)
    | inr old ↦ inv.woken j k old
  ];
}
Step-Counted n {s} positive fits (again i k₀ at same) few inv = record {
  same_n = inv.same_n;
  small = inv.small;
  total = inv.total;
  behind = inv.behind;
  sleeping = λ j k h. elim (update-asleep s.pc i (asleep k₀) j k h) [
    | inl new ↦ sym (asleep-inj new) ∙ stays-test k₀ s.barrier same
    | inr old ↦ inv.sleeping j k old
  ];
  woken = λ j k h. elim (update-awake s.pc i (asleep k₀) j k h) [
    | inl new ↦ asleep-not_awake new
    | inr old ↦ inv.woken j k old
  ];
}
Step-Counted n {s} positive fits (leave i k₀ at other) few inv = record {
  same_n = inv.same_n;
  small = inv.small;
  total = inv.total;
  behind = (leaves-test k₀ s.barrier other (inv.woken i k₀ at), inv.behind);
  sleeping = λ j k h. elim (update-asleep s.pc i (outside) j k h) [
    | inl new ↦ outside-not_asleep new
    | inr old ↦ inv.sleeping j k old
  ];
  woken = λ j k h. elim (update-awake s.pc i (outside) j k h) [
    | inl new ↦ outside-not_awake new
    | inr old ↦ inv.woken j k old
  ];
}

few-before : {s t : System} → Step s t → t.arrivals < unsigned_word → s.arrivals < unsigned_word
few-before (come i at wait) few = omega arith
few-before (complete i at last) few = omega arith
few-before (spurious i k at) few = few
few-before (again i k at same) few = few
few-before (leave i k at other) few = few

fresh-Counted : (n : ℕ) → 0 < n → Counted n (fresh n)
unfolding fresh barrier_init Behind
fresh-Counted n positive = record {
  same_n = refl;
  small = positive;
  total = sym (ap (λ (k : ℕ). k + 0) (mul-zero n));
  behind = tt;
  sleeping = λ i k h. outside-not_asleep h;
  woken = λ i k h. outside-not_awake h;
}

Reach-Counted :
    (n : ℕ) {s : System}
    → 0 < n
    → n < unsigned_word
    → Reach (fresh n) s
    → s.arrivals < unsigned_word
    → Counted n s
Reach-Counted n positive fits start few = fresh-Counted n positive
Reach-Counted n positive fits (later r st) few =
    Step-Counted n positive fits st few (Reach-Counted n positive fits r (few-before st few))

-- Each call that left waited until all calls of its round had come.
unfoldable pub Awaited : ℕ → ℕ → List (ℕ × ℕ) → Type 0
Awaited n arrivals [] = Unit
Awaited n arrivals ((i, round) ∷ l) = (n * (round + 1) ≤ arrivals) × Awaited n arrivals l

Behind-Awaited :
    (n times arrivals : ℕ) (l : List (ℕ × ℕ))
    → n * times ≤ arrivals
    → Behind times l
    → Awaited n arrivals l
unfolding Behind Awaited
Behind-Awaited n times arrivals [] le b = tt
Behind-Awaited n times arrivals ((i, k) ∷ l) le b =
    let most : n * (k + 1) ≤ n * times = mul-le-mul_left n (omega (arith, b.0)) in
    (omega (arith, most), Behind-Awaited n times arrivals l le b.1)

-- With `n` from 1 on and fewer than 2 ^ 32 arrivals in all, in every interleaving: a call that left
-- `barrier_wait` in some round did so after all `n` calls of that round had come; the counters are
-- the quotient and the rest of the arrivals by `n`; and no thread of a finished round is asleep.
pub barrier_rounds :
    (n : ℕ) {s : System}
    → 0 < n
    → n < unsigned_word
    → Reach (fresh n) s
    → s.arrivals < unsigned_word
    → Awaited n s.arrivals s.left
      × (s.arrivals ≡ n * s.barrier.times_used + s.barrier.count)
      × (s.barrier.count < n)
      × ((i round : ℕ) → s.pc i ≡ asleep round → round ≡ s.barrier.times_used)
barrier_rounds n {s} positive fits r few =
    let inv = Reach-Counted n positive fits r few in
    (
      Behind-Awaited n s.barrier.times_used s.arrivals s.left (omega (arith, inv.total)) inv.behind,
      inv.total,
      inv.small,
      inv.sleeping,
    )
