-- ===== src/Dd/Limited.antt =====
-- deepfried_dd/dd.c: a copy of a number of blocks.
use system_programming_uiuc.Prelude.{
  ◌%◌, ◌^◌, ℕ, zero, suc, ◌+◌, ◌-◌, ◌^◌, ◌*◌, ◌≡◌, ◌<◌, ◌≤◌, refl, sym, ap, subst, ◌∙◌, List, [],
  ◌∷◌, ◌++◌, length, take, drop, eq-true, eq-false, length-take, length-drop, append-nil,
  append_assoc, ℕ_discrete, dec_lt, arith,
}
use system_programming_uiuc.Prelude.Outcome.{done}
use system_programming_uiuc.Dd.{
  Copy, start, int_word, pass_on, count_full, count_partial, limit_reached, is_whole, copy_loop,
}
use system_programming_uiuc.Dd.Copied.{
  is_whole-full, is_whole-partial, read_some, no_bytes, later_short,
}

take_none : (n : ℕ) (xs : List ℕ) → xs ≡ [] → take n xs ≡ []
take_none zero xs h = refl
take_none (suc n) [] h = refl
take_none (suc n) (x ∷ xs) h = cc

take_append : (n m : ℕ) (xs : List ℕ) → take (n + m) xs ≡ take n xs ++ take m (drop n xs)
take_append zero m xs = ap (λ k. take k xs) (omega arith)
take_append (suc n) m [] = take_none (suc n + m) [] refl ∙ sym (take_none m [] refl)
take_append (suc n) m (x ∷ xs) =
    ap (λ k. take k (x ∷ xs)) (suc_add n m) ∙ ap (λ ys. x ∷ ys) (take_append n m xs)
  where
    suc_add : (n m : ℕ) → suc n + m ≡ suc (n + m)
    suc_add n m = omega arith

blocks : (k b : ℕ) → suc k * b ≡ b + k * b
blocks k b = omega arith

one_block : (k b : ℕ) → k ≡ 0 → b ≡ suc k * b
one_block k b none_left = subst (λ n. b ≡ suc n * b) (sym none_left) (omega arith)

-- When all that is left is shorter than a block, more blocks change nothing.
take_short : (n m : ℕ) (xs : List ℕ) → length xs ≤ n → take (n + m) xs ≡ take n xs
take_short n m xs low =
    take_append n m xs
    ∙ ap (λ ys. take n xs ++ ys)
        (take_none m (drop n xs) (no_bytes (drop n xs) (length-drop n xs ∙ omega arith)))
    ∙ append-nil (take n xs)

module _ (fwrite : ℕ → ℕ → ℕ) (b c : ℕ) where
  loop_limited :
      (rounds k : ℕ) (s : Copy)
      → 0 < b
      → b < 2 ^ 31
      → ((n m : ℕ) → fwrite n m ≡ m)
      → s.blocks_copied + suc k ≡ c
      → c < 2 ^ 31
      → length s.input < rounds
      → (s' : Copy) × (copy_loop fwrite c b rounds s ≡ done s')
        × (s'.output ≡ s.output ++ take (suc k * b) s.input)
  unfolding copy_loop limit_reached count_partial count_full pass_on
  loop_limited zero k s pos small writes limit int enough = absurd (omega arith)
  loop_limited (suc rounds) k s pos small writes limit int enough =
      let len = length-take b s.input in
      let size = length (take b s.input) in
      elim (ℕ_discrete (length s.input) 0) [
        | yes empty ↦
            let none_read : size ≡ 0 = omega arith in
            (
              s,
              rw (eq-true size 0 none_read, copy_loop) refl,
              sym (
                  ap (λ xs. s.output ++ xs) (take_none (suc k * b) s.input (no_bytes s.input empty))
                  ∙ append-nil s.output),
            )
        | no more ↦
            let read = eq-false size 0 (read_some b s.input pos more) in
            let wrote = eq-true (fwrite s.blocks_copied size) size (writes s.blocks_copied size) in
            let next : (s.blocks_copied + 1) % int_word ≡ s.blocks_copied + 1 = omega arith in
            elim (ℕ_discrete c (s.blocks_copied + 1)) [
              | yes last ↦
                  let one = one_block k b (omega arith) in
                  (
                    count_full (pass_on b s),
                    rw
                        (
                          read,
                          wrote,
                          eq-true c ((s.blocks_copied + 1) % int_word) (last ∙ sym next),
                          copy_loop,
                        )
                        refl,
                    ap (λ n. s.output ++ take n s.input) one,
                  )
              | no later ↦
                  let on = eq-false c ((s.blocks_copied + 1) % int_word) (λ h. later (h ∙ next)) in
                  elim (dec_lt (length s.input) b) [
                    | yes few ↦
                        let part = is_whole-partial b size small (omega arith) in
                        (
                          count_partial (pass_on b s),
                          rw (read, wrote, on, part, copy_loop) refl,
                          ap (λ xs. s.output ++ xs)
                              (sym (take_short b (k * b) s.input (omega arith))
                                ∙ ap (λ n. take n s.input) (sym (blocks k b))),
                        )
                    | no many ↦
                        let n : size ≡ b = omega arith in
                        let all = ap (is_whole b) n ∙ is_whole-full b small in
                        let (s', e, out) =
                          loop_limited rounds (k - 1) (count_full (pass_on b s)) pos small writes
                            (omega arith) int (later_short fwrite b rounds s pos more enough) in
                        let fewer : suc (k - 1) ≡ k = omega arith in
                        (
                          s',
                          rw (read, wrote, on, all, copy_loop) e,
                          out
                              ∙ append_assoc s.output (take b s.input)
                                  (take (suc (k - 1) * b) (drop b s.input))
                              ∙ ap
                                  (λ m.
                                    s.output ++ (take b s.input ++ take (m * b) (drop b s.input)))
                                  fewer
                              ∙ ap (λ xs. s.output ++ xs) (sym (take_append b (k * b) s.input))
                              ∙ ap (λ m. s.output ++ take m s.input) (sym (blocks k b)),
                        )
                  ]
            ]
      ]

-- With a limit above 0 and below 2 ^ 31 on the blocks, of at least one byte and fewer than 2 ^ 31,
-- and when every fwrite takes what it is given, the copy ends, and the output is what so many blocks
-- of the input hold.
pub copy_loop-limited :
    (fwrite : ℕ → ℕ → ℕ) (b c : ℕ) (bytes : List ℕ)
    → 0 < b
    → b < 2 ^ 31
    → 0 < c
    → c < 2 ^ 31
    → ((k n : ℕ) → fwrite k n ≡ n)
    → (s : Copy) × (copy_loop fwrite c b (suc (length bytes)) (start bytes) ≡ done s)
      × (s.output ≡ take (c * b) bytes)
copy_loop-limited fwrite b c bytes pos small limit int writes =
    let (s, e, out) =
      loop_limited fwrite b c (suc (length bytes)) (c - 1) (start bytes) pos small writes
        (omega arith) int (omega arith) in
    (s, e, out ∙ ap (λ n. take (n * b) bytes) (omega arith))
