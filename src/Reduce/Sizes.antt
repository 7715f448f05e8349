-- ===== src/Reduce/Sizes.antt =====
-- teaching_threads/par_reduce.c: the parts of thread_size make up the list.
use native.Mathlib.Nat.{suc-mul, div-add-mod', mod-lt, mul_comm, le-div_iff_mul-le}
use system_programming_uiuc.Prelude.{
  ℕ, zero, suc, ◌+◌, ◌-◌, ◌*◌, ◌/◌, ◌%◌, ◌≤◌, ◌<◌, ◌≡◌, refl, ap, ◌∙◌, List, [], ◌∷◌, ◌++◌, arith,
  ltb, if◌then◌else◌, replicate, dec_lt, lt→ltb,
}
use system_programming_uiuc.Prelude.Outcome.{done}
use system_programming_uiuc.Reduce.{size_loop, thread_size}

unfoldable pub total : List ℕ → ℕ
total [] = 0
total (n ∷ sizes) = n + total sizes

-- No size after a 0 is more than 0.
unfoldable pub ZeroOnly : List ℕ → Type 0
ZeroOnly [] = Unit
ZeroOnly (n ∷ sizes) = (n ≡ 0) × ZeroOnly sizes

unfoldable pub ZerosLast : List ℕ → Type 0
unfolding ZeroOnly
ZerosLast [] = Unit
ZerosLast (zero ∷ sizes) = ZeroOnly sizes
ZerosLast (suc n ∷ sizes) = ZerosLast sizes

no_pos : 0 < 0 → ⊥
no_pos h = omega (arith, h)

ZerosLast-pos : (n : ℕ) (sizes : List ℕ) → 0 < n → ZerosLast sizes → ZerosLast (n ∷ sizes)
unfolding ZerosLast
ZerosLast-pos zero sizes pos rest = elim (no_pos pos) [ ]
ZerosLast-pos (suc n) sizes pos rest = rest

zeros-ZeroOnly : (k : ℕ) → ZeroOnly (replicate k 0)
unfolding ZeroOnly
zeros-ZeroOnly zero = tt
zeros-ZeroOnly (suc k) = (refl, zeros-ZeroOnly k)

zeros-ZerosLast : (k : ℕ) → ZerosLast (replicate k 0)
unfolding ZerosLast
zeros-ZerosLast zero = tt
zeros-ZerosLast (suc k) = zeros-ZeroOnly k

ones-ZerosLast : (m k : ℕ) → ZerosLast (replicate m 1 ++ replicate k 0)
ones-ZerosLast zero k = zeros-ZerosLast k
ones-ZerosLast (suc m) k = ZerosLast-pos 1 _ (omega arith) (ones-ZerosLast m k)

total-zeros : (k : ℕ) → total (replicate k 0) ≡ 0
unfolding total
total-zeros zero = refl
total-zeros (suc k) = omega (arith, total-zeros k)

total-ones : (m k : ℕ) → total (replicate m 1 ++ replicate k 0) ≡ m
unfolding total
total-ones zero k = total-zeros k
total-ones (suc m) k = omega (arith, total-ones m k)

size_loop-ZerosLast : (q r i rounds : ℕ) → 0 < q → ZerosLast (size_loop q r i rounds)
unfolding size_loop ZerosLast
size_loop-ZerosLast q r i zero pos = tt
size_loop-ZerosLast q r i (suc rounds) pos =
    ZerosLast-pos (if ltb i r then q + 1 else q) (size_loop q r (i + 1) rounds) (ground (arith))
      (size_loop-ZerosLast q r (i + 1) rounds pos)

total-size_loop :
    (q r i rounds : ℕ) → r ≤ i + rounds → total (size_loop q r i rounds) ≡ rounds * q + (r - i)
unfolding size_loop total
total-size_loop q r i zero le = omega (arith, le)
total-size_loop q r i (suc rounds) le =
    let rest = total-size_loop q r (i + 1) rounds (omega (arith, le)) in
    let more = suc-mul rounds q in ground arith

quotient_pos : (len n : ℕ) → suc n ≤ len → 0 < len / suc n
quotient_pos len n le = (le-div_iff_mul-le (omega arith)).1 (omega (arith, le))

-- For one thread or more there are sizes, whose total is that of the list, with no 0 in front of
-- another size.
pub thread_size-Parts :
    (len n : ℕ)
    → (sizes : List ℕ) × (thread_size len (suc n) ≡ done sizes)
      × (total sizes ≡ len)
      × ZerosLast sizes
unfolding thread_size
thread_size-Parts len n = elim (dec_lt len (suc n)) [
  | yes less ↦ (
    replicate len 1 ++ replicate (suc n - len) 0,
    rw (lt→ltb len (suc n) less, thread_size) refl,
    total-ones len (suc n - len),
    ones-ZerosLast len (suc n - len),
  )
  | no more ↦
      let q = len / suc n in
      let r = len % suc n in
      let parts = div-add-mod' len (suc n) in
      let below = mod-lt len {m = suc n} (omega arith) in
      let all = total-size_loop q r 0 (suc n) (omega (arith, below)) in
      (
        size_loop q r 0 (suc n),
        ground (arith),
        all ∙ ap (λ (k : ℕ). k + (r - 0)) (mul_comm (suc n) q) ∙ omega (arith, parts),
        size_loop-ZerosLast q r 0 (suc n) (quotient_pos len n (omega (arith, more))),
      )
]
