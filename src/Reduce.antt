-- ===== src/Reduce.antt =====
-- teaching_threads/par_reduce.c: a list reduced by threads, each with a part of it.
-- `reduce` of reducers.h is not in the repository: it is a parameter, with the operation and the base
-- case that the callers hand over. The calls of malloc and calloc succeed.
pub mod Sizes
pub mod Whole
mod Tests
use system_programming_uiuc.Prelude.{
  ℕ, zero, suc, ◌+◌, ◌-◌, ◌/◌, ◌%◌, true, false, Option, none, some, List, [], ◌∷◌, ◌++◌, ltb,
  if◌then◌else◌, length, replicate, take, drop,
}
use system_programming_uiuc.Prelude.Outcome.{Outcome, done, fault, ◌>>=◌}

-- The second loop of `thread_size`, from entry `i` on, for the rounds that are left.
unfoldable pub size_loop : ℕ → ℕ → ℕ → ℕ → List ℕ
size_loop len_thread remainder i zero = []
size_loop len_thread remainder i (suc rounds) =
    (if ltb i remainder then len_thread + 1 else len_thread)
    ∷ size_loop len_thread remainder (i + 1) rounds

-- A division by 0 is a fault.
unfoldable pub thread_size : ℕ → ℕ → Outcome (List ℕ)
unfolding size_loop
thread_size list_len zero = fault
thread_size list_len (suc n) = elim (ltb list_len (suc n)) [
  | true ↦ done (replicate list_len 1 ++ replicate (suc n - list_len) 0)
  | false ↦ done (size_loop (list_len / suc n) (list_len % suc n) 0 (suc n))
]

-- The entries of `data`; `none` is one that is not set.
unfoldable pub data_loop {ℓ} : {A : Type ℓ} → List A → ℕ → List ℕ → List (Option (List A))
data_loop list start [] = []
data_loop list start (zero ∷ sizes) = none ∷ data_loop list start sizes
data_loop list start (suc n ∷ sizes) =
    some (take (suc n) (drop start list)) ∷ data_loop list (start + suc n) sizes

-- `num`
unfoldable pub count_data {ℓ} : {A : Type ℓ} → List (Option A) → ℕ
count_data [] = 0
count_data (none ∷ entries) = count_data entries
count_data (some d ∷ entries) = suc (count_data entries)

-- The results of the first `num` entries: each thread has its own, and they are joined in order.
unfoldable pub retvals {ℓ} :
    {A : Type ℓ} → (List A → A) → ℕ → List (Option (List A)) → Outcome (List A)
retvals reduce zero entries = done []
retvals reduce (suc num) [] = fault
retvals reduce (suc num) (none ∷ entries) = fault
retvals reduce (suc num) (some d ∷ entries) =
    retvals reduce num entries >>= λ rest. done (reduce d ∷ rest)

unfoldable pub par_reduce {ℓ} : {A : Type ℓ} → (List A → A) → List A → ℕ → Outcome A
unfolding thread_size data_loop count_data retvals
par_reduce reduce list num_threads = thread_size (length list) num_threads >>= λ sizes.
    let entries = data_loop list 0 sizes in
    retvals reduce (count_data entries) entries >>= λ results. done (reduce results)
