-- ===== src/Reduce/Tests.antt =====
-- teaching_threads/par_reduce.c: sums.
use system_programming_uiuc.Prelude.{ℕ, ◌+◌, ◌≡◌, refl, List, [], ◌∷◌, arith}
use system_programming_uiuc.Prelude.Outcome.{done}
use system_programming_uiuc.Reduce.{par_reduce}
use system_programming_uiuc.Reduce.Whole.{folded, Folds, par_reduce-reduce}

abbrev sum : List ℕ → ℕ
sum = folded ◌+◌ 0

sum-Folds : Folds sum ◌+◌ 0
unfolding Folds
sum-Folds = (λ xs. refl, λ a b c. omega arith, λ a. omega arith, λ a. omega arith)

par_reduce-reduce_example :
    par_reduce sum (1 ∷ 2 ∷ 3 ∷ 4 ∷ 5 ∷ []) 3 ≡ done (sum (1 ∷ 2 ∷ 3 ∷ 4 ∷ 5 ∷ []))
par_reduce-reduce_example = par_reduce-reduce sum ◌+◌ 0 (1 ∷ 2 ∷ 3 ∷ 4 ∷ 5 ∷ []) 2 sum-Folds
