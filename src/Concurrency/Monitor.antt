-- ===== src/Concurrency/Monitor.antt =====
-- critical_concurrency/queue.c and semamore.c: the pattern that their operations share.
-- An operation locks the mutex, waits on the one condition variable while its guard fails, runs
-- its body, broadcasts, and unlocks. From lock or wake-up to unlock or wait nothing comes between,
-- so each such stretch is one step of the system. A thread that no step picks does not move.
pub use system_programming_uiuc.Prelude.{update}
use system_programming_uiuc.Prelude.{
  ℕ, ◌≡◌, sym, ap, ◌∙◌, ◌⊎◌, inl, inr, Bool, true, false, List, [], ◌∷◌, arith, if◌then◌else◌,
}
use system_programming_uiuc.Prelude.Outcome.{Outcome, done}

pub record Monitor : Type 1 where
  pub State : Type 0
  pub Op : Type 0
  pub Reply : Type 0
  -- The negated test of the `while` loop around `pthread_cond_wait`.
  pub ready : Op → State → Bool
  -- The rest of the critical section: the new state, whether it broadcasts, and what it returns.
  pub body : Op → State → Outcome (State × Bool × Reply)
  pub quiet : (o : Op) (s s' : State) (r : Reply) → body o s ≡ done (s', false, r) → s' ≡ s

-- Where a thread stands in an operation.
pub data Pc (Op : Type 0) : Type 0 where
  idle : Pc Op
  trying : Op → Pc Op
  waiting : Op → Pc Op

-- `pthread_cond_broadcast`: every thread that waits goes on to test its guard again.
abbrev pub woken : {Op : Type 0} → Pc Op → Pc Op
woken idle = idle
woken (trying o) = trying o
woken (waiting o) = trying o

abbrev pub wake : {Op : Type 0} → Bool → (ℕ → Pc Op) → ℕ → Pc Op
wake b pc j = if b then woken (pc j) else pc j

module _ (m : Monitor) where
  open m use {State, Op, Reply, ready, body, quiet}

  -- The shared state, the threads, and the finished operations with their replies, newest first.
  pub record System : Type 0 where
    pub shared : State
    pub pc : ℕ → Pc Op
    pub log : List (Op × Reply)

  abbrev pub fresh : State → System
  fresh s = record { shared = s; pc = λ i. idle; log = [] }

  pub data Step (s : System) : System → Type 0 where
    enter : (i : ℕ) (o : Op) → s.pc i ≡ idle → Step s (record s { pc = update s.pc i (trying o) })
    block :
        (i : ℕ) (o : Op)
        → s.pc i ≡ trying o
        → ready o s.shared ≡ false
        → Step s (record s { pc = update s.pc i (waiting o) })
    spurious :
        (i : ℕ) (o : Op) → s.pc i ≡ waiting o → Step s (record s { pc = update s.pc i (trying o) })
    finish :
        (i : ℕ) (o : Op) (shared' : State) (b : Bool) (r : Reply)
        → s.pc i ≡ trying o
        → ready o s.shared ≡ true
        → body o s.shared ≡ done (shared', b, r)
        → Step s
            (record { shared = shared'; pc = wake b (update s.pc i idle); log = (o, r) ∷ s.log })

  pub data Reach (s : System) : System → Type 0 where
    start : Reach s s
    later : {t u : System} → Reach s t → Step t u → Reach s u

  -- Every thread that waits does so because its guard fails now.
  abbrev pub Asleep : System → Type 0
  Asleep s = (i : ℕ) (o : Op) → s.pc i ≡ waiting o → ready o s.shared ≡ false

  wake-quiet :
      (i : ℕ) (pc : ℕ → Pc Op) (b : Bool) (j : ℕ) (o : Op)
      → wake b (update pc i idle) j ≡ waiting o
      → (b ≡ false) × (pc j ≡ waiting o)
  wake-quiet i pc b j o h = ground arith

  -- The cases of one thread's move: the mover does not wait, or its guard has just failed.
  update-trying :
      (pc : ℕ → Pc Op) (i : ℕ) (o p : Op) (j : ℕ)
      → update pc i (trying o) j ≡ waiting p
      → pc j ≡ waiting p
  update-trying pc i o p j h = ground arith

  update-waiting :
      (pc : ℕ → Pc Op) (i : ℕ) (o p : Op) (j : ℕ)
      → update pc i (waiting o) j ≡ waiting p
      → (o ≡ p) ⊎ (pc j ≡ waiting p)
  update-waiting pc i o p j h = ground arith

  Step-Asleep : {s t : System} → Step s t → Asleep s → Asleep t
  Step-Asleep {s} (enter i o at) a j p h = a j p (update-trying s.pc i o p j h)
  Step-Asleep {s} (block i o at g) a j p h = elim (update-waiting s.pc i o p j h) [
    | inl same ↦ ap (λ q. ready q s.shared) (sym same) ∙ g
    | inr old ↦ a j p old
  ]
  Step-Asleep {s} (spurious i o at) a j p h = a j p (update-trying s.pc i o p j h)
  Step-Asleep {s} (finish i o shared' b r at g e) a j p h =
      let (silent, old) = wake-quiet i s.pc b j p h in
      let same : shared' ≡ s.shared =
        quiet o s.shared shared' r (e ∙ ap (λ c. done (shared', c, r)) silent) in
      ap (λ q. ready p q) same ∙ a j p old

  pub Reach-Asleep : {s t : System} → Reach s t → Asleep s → Asleep t
  Reach-Asleep start a = a
  Reach-Asleep (later r st) a = Step-Asleep st (Reach-Asleep r a)

  -- An invariant of the shared state and the log that every body keeps holds throughout.
  pub Reach-invariant :
      (P : State → List (Op × Reply) → Type 0)
      → ((o : Op) (s s' : State) (b : Bool) (r : Reply) (log : List (Op × Reply))
          → ready o s ≡ true
          → body o s ≡ done (s', b, r)
          → P s log
          → P s' ((o, r) ∷ log))
      → {s t : System} → Reach s t
      → P s.shared s.log
      → P t.shared t.log
  Reach-invariant P keep start p = p
  Reach-invariant P keep (later r (enter i o at)) p = Reach-invariant P keep r p
  Reach-invariant P keep (later r (block i o at g)) p = Reach-invariant P keep r p
  Reach-invariant P keep (later r (spurious i o at)) p = Reach-invariant P keep r p
  Reach-invariant P keep (later {t} r (finish i o s' b reply at g e)) p =
      keep o t.shared s' b reply t.log g e (Reach-invariant P keep r p)
