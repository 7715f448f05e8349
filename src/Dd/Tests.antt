-- ===== src/Dd/Tests.antt =====
-- Runs of the copy loop of deepfried_dd/dd.c, and the hypotheses of its theorems at concrete values.
use system_programming_uiuc.Prelude.{
  ℕ, ◌+◌, ◌*◌, ◌≡◌, ◌<◌, refl, List, [], ◌∷◌, if◌then◌else◌, ◌==◌, arith,
}
use system_programming_uiuc.Prelude.Outcome.{done, abort}
use system_programming_uiuc.Dd.{
  Copy, start, no_limit, copy_loop, pass_on, count_full, limit_reached, is_whole,
}
use system_programming_uiuc.Dd.Copied.{copy_loop-whole}
use system_programming_uiuc.Dd.Limited.{copy_loop-limited}

abbrev takes_all : ℕ → ℕ → ℕ
takes_all k n = n

abbrev five : List ℕ
five = 10 ∷ 11 ∷ 12 ∷ 13 ∷ 14 ∷ []

-- A last block that is not full counts as full when it is the one that the limit asks for.
limit_counts_full :
    copy_loop takes_all 3 2 6 (start five)
    ≡ done (record {
      input = [];
      output = five;
      blocks_copied = 3;
      full_blocks_in = 3;
      full_blocks_out = 3;
      partial_blocks_in = 0;
      partial_blocks_out = 0;
      total_bytes_copied = 5;
    })
unfolding copy_loop pass_on count_full limit_reached is_whole
limit_counts_full = refl

refused_write : copy_loop (λ k n. 1) no_limit 2 6 (start five) ≡ abort
unfolding copy_loop
refused_write = refl

copy_loop-whole_example :
    (s : Copy) × (copy_loop takes_all no_limit 2 6 (start five) ≡ done s)
    × (s.output ≡ five)
    × (s.total_bytes_copied ≡ 5)
    × (rest : ℕ) × (5 ≡ s.full_blocks_in * 2 + rest)
    × (rest < 2)
    × (s.partial_blocks_in ≡ (if rest == 0 then 0 else 1))
    × (s.full_blocks_out ≡ s.full_blocks_in)
    × (s.partial_blocks_out ≡ s.partial_blocks_in)
copy_loop-whole_example =
    copy_loop-whole takes_all 2 five (omega arith) (omega arith) (λ k n. refl) (omega arith)

copy_loop-limited_example :
    (s : Copy) × (copy_loop takes_all 2 2 6 (start five) ≡ done s)
    × (s.output ≡ 10 ∷ 11 ∷ 12 ∷ 13 ∷ [])
copy_loop-limited_example =
    copy_loop-limited takes_all 2 2 five (omega arith) (omega arith) (omega arith) (omega arith)
      (λ k n. refl)
