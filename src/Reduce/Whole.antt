-- ===== src/Reduce/Whole.antt =====
-- teaching_threads/par_reduce.c: the threads' results make up the result of the whole list.
use system_programming_uiuc.Prelude.{
  ℕ, zero, suc, ◌+◌, ◌≤◌, ◌≡◌, refl, sym, ap, ◌∙◌, none, List, [], ◌∷◌, ◌++◌, arith, length, take,
  drop, take-append-drop,
}
use system_programming_uiuc.Prelude.Outcome.{Outcome, done, ◌>>=◌}
use system_programming_uiuc.Reduce.{data_loop, count_data, retvals, par_reduce}
use system_programming_uiuc.Reduce.Sizes.{total, ZeroOnly, ZerosLast, thread_size-Parts}

none_below : {n : ℕ} → suc n ≤ 0 → ⊥
none_below h = omega (arith, h)

no_zero : {n : ℕ} → suc n ≡ 0 → ⊥
no_zero h = omega (arith, h)

zero_sum : (m : ℕ) → m ≡ 0 + m
zero_sum m = omega arith

suc_sum : (n m : ℕ) → suc (n + m) ≡ suc n + m
suc_sum n m = omega arith

-- The list folded from the left.
unfoldable pub folded {ℓ} : {A : Type ℓ} → (A → A → A) → A → List A → A
folded f a [] = a
folded f a (x ∷ xs) = folded f (f a x) xs

-- `reduce` is the fold with an operation that is associative and to which the base case is neutral.
unfoldable pub Folds {ℓ} : {A : Type ℓ} → (List A → A) → (A → A → A) → A → Type ℓ
Folds {A = A} reduce f base =
    ((xs : List A) → reduce xs ≡ folded f base xs)
    × ((a b c : A) → f (f a b) c ≡ f a (f b c))
    × ((a : A) → f base a ≡ a)
    × ((a : A) → f a base ≡ a)

module _ {ℓ} {A : Type ℓ} (reduce : List A → A) (f : A → A → A) (base : A)
    (folds : Folds reduce f base) where
  folded-from : (a : A) (xs : List A) → folded f a xs ≡ f a (folded f base xs)
  unfolding folded Folds
  folded-from a [] = sym (folds.3 a)
  folded-from a (x ∷ xs) =
      folded-from (f a x) xs
      ∙ folds.1 a x _
      ∙ ap (f a) (sym (folded-from x xs) ∙ ap (λ b. folded f b xs) (sym (folds.2 x)))

  reduce-cons : (x : A) (xs : List A) → reduce (x ∷ xs) ≡ f x (reduce xs)
  unfolding folded Folds
  reduce-cons x xs =
      folds.0 (x ∷ xs)
      ∙ ap (λ b. folded f b xs) (folds.2 x)
      ∙ folded-from x xs
      ∙ ap (f x) (sym (folds.0 xs))

  reduce-append : (xs ys : List A) → reduce (xs ++ ys) ≡ f (reduce xs) (reduce ys)
  unfolding folded Folds
  reduce-append [] ys = sym (ap (λ a. f a (reduce ys)) (folds.0 []) ∙ folds.2 (reduce ys))
  reduce-append (x ∷ xs) ys =
      reduce-cons x (xs ++ ys)
      ∙ ap (f x) (reduce-append xs ys)
      ∙ sym (folds.1 x (reduce xs) (reduce ys))
      ∙ ap (λ a. f a (reduce ys)) (sym (reduce-cons x xs))

  drop-all : (n : ℕ) (xs : List A) → length xs ≤ n → drop n xs ≡ []
  drop-all zero [] le = refl
  drop-all (suc n) [] le = refl
  drop-all zero (x ∷ xs) le = elim (none_below le) [ ]
  drop-all (suc n) (x ∷ xs) le = drop-all n xs (omega (arith, le))

  drop-drop : (n m : ℕ) (xs : List A) → drop m (drop n xs) ≡ drop (n + m) xs
  drop-drop zero m xs = ap (λ (k : ℕ). drop k xs) (zero_sum m)
  drop-drop (suc n) m [] = drop-all m [] (omega arith) ∙ sym (drop-all (suc n + m) [] (omega arith))
  drop-drop (suc n) m (x ∷ xs) = drop-drop n m xs ∙ ap (λ (k : ℕ). drop k (x ∷ xs)) (suc_sum n m)

  -- Entries of size 0 are not set.
  none_set :
      (list : List A) (start : ℕ) (sizes : List ℕ)
      → ZeroOnly sizes
      → count_data (data_loop list start sizes) ≡ 0
  unfolding count_data data_loop ZeroOnly
  none_set list start [] zeros = refl
  none_set list start (zero ∷ sizes) zeros = none_set list start sizes zeros.1
  none_set list start (suc n ∷ sizes) zeros = elim (no_zero zeros.0) [ ]

  total-ZeroOnly : (sizes : List ℕ) → ZeroOnly sizes → total sizes ≡ 0
  unfolding total ZeroOnly
  total-ZeroOnly [] zeros = refl
  total-ZeroOnly (n ∷ sizes) zeros = omega (arith, zeros.0, total-ZeroOnly sizes zeros.1)

  -- The results of the parts from `start` on.
  retvals-whole :
      (list : List A) (start : ℕ) (sizes : List ℕ)
      → ZerosLast sizes
      → start + total sizes ≡ length list
      → (rs : List A) × (retvals reduce
            (count_data (data_loop list start sizes))
            (data_loop list start sizes)
          ≡ done rs)
        × (reduce rs ≡ reduce (drop start list))
  unfolding retvals count_data data_loop ZerosLast total
  retvals-whole list start [] last all =
      ([], refl, ap reduce (sym (drop-all start list (omega (arith, all)))))
  retvals-whole list start (zero ∷ sizes) last all = (
    [],
    ap (λ (k : ℕ). retvals reduce k (none ∷ data_loop list start sizes))
        (none_set list start sizes last),
    ap reduce (sym (drop-all start list (omega (arith, all, total-ZeroOnly sizes last)))),
  )
  retvals-whole list start (suc n ∷ sizes) last all =
      let (rs, run, same) = retvals-whole list (start + suc n) sizes last (omega (arith, all)) in
      let part = take (suc n) (drop start list) in
      (
        reduce part ∷ rs,
        ap (λ (o : Outcome (List A)). o >>= λ rest. done (reduce part ∷ rest)) run,
        reduce-cons (reduce part) rs
            ∙ ap (f (reduce part)) (same ∙ ap reduce (sym (drop-drop start (suc n) list)))
            ∙ sym (reduce-append part (drop (suc n) (drop start list)))
            ∙ ap reduce (take-append-drop (suc n) (drop start list)),
      )

-- With `reduce` the fold with an associative operation and its neutral element, `par_reduce` on one
-- thread or more returns what `reduce` of the whole list returns, however many threads there are.
pub par_reduce-reduce {ℓ} :
    {A : Type ℓ} (reduce : List A → A) (f : A → A → A) (base : A) (list : List A) (n : ℕ)
    → Folds reduce f base
    → par_reduce reduce list (suc n) ≡ done (reduce list)
unfolding par_reduce
par_reduce-reduce reduce f base list n folds =
    let (sizes, parts, all, last) = thread_size-Parts (length list) n in
    let (rs, run, same) =
      retvals-whole reduce f base folds list 0 sizes last (omega (arith, all)) in
    ap
      (λ (o : Outcome (List ℕ)). o >>= λ sizes.
        retvals reduce (count_data (data_loop list 0 sizes)) (data_loop list 0 sizes) >>= λ results.
        done (reduce results))
      parts
    ∙ ap (λ (o : Outcome (List _)). o >>= λ results. done (reduce results)) run
    ∙ ap done same
