-- ===== src/Dd/Copied.antt =====
-- deepfried_dd/dd.c: a copy without a limit on the blocks.
use system_programming_uiuc.Prelude.{
  ◌-◌, ℕ, zero, suc, ◌+◌, ◌%◌, ◌^◌, ◌*◌, ◌≡◌, ◌<◌, ◌≤◌, ◌≢◌, refl, sym, ap, ◌∙◌, true, false, List,
  [], ◌∷◌, ◌++◌, length, take, drop, ◌==◌, lt→ltb, eq-true, eq-false, if◌then◌else◌, length-take,
  length-drop, take-append-drop, append-nil, append_assoc, ℕ_discrete, dec_lt, arith,
}
use system_programming_uiuc.Prelude.Outcome.{done}
use system_programming_uiuc.Dd.{
  Copy, start, size_word, int_word, no_limit, pass_on, count_full, count_partial, limit_reached,
  is_whole, copy_loop,
}

mod_small : (b : ℕ) → b < 2 ^ 31 → b % 2 ^ 32 ≡ b
mod_small b small = omega arith

mod_twice : (a n m : ℕ) → ((a + n) % 2 ^ 64 + m) % 2 ^ 64 ≡ (a + (n + m)) % 2 ^ 64
mod_twice a n m = omega arith

pub is_whole-full : (b : ℕ) → b < 2 ^ 31 → is_whole b b ≡ true
unfolding is_whole
is_whole-full b small = rw (mod_small b small, lt→ltb b (2 ^ 31) small, eq-true b b refl) refl

pub is_whole-partial : (b n : ℕ) → b < 2 ^ 31 → n < b → is_whole b n ≡ false
unfolding is_whole
is_whole-partial b n small low =
    rw (mod_small b small, lt→ltb b (2 ^ 31) small, eq-false b n (λ h. absurd (omega arith))) refl

-- What is not empty is read.
pub read_some : (b : ℕ) (xs : List ℕ) → 0 < b → length xs ≢ 0 → length (take b xs) ≢ 0
read_some b xs pos full h = let len = length-take b xs in absurd (full (omega arith))

pub no_bytes : (xs : List ℕ) → length xs ≡ 0 → xs ≡ []
no_bytes [] h = refl
no_bytes (x ∷ xs) h = absurd (omega arith)

-- What the loop adds to the files and counters of `s` when it copies all that is left.
pub record Copies (b : ℕ) (s s' : Copy) : Type 0 where
  pub output : s'.output ≡ s.output ++ s.input
  pub total : s'.total_bytes_copied ≡ (s.total_bytes_copied + length s.input) % size_word
  pub full : ℕ
  pub rest : ℕ
  pub bytes : length s.input ≡ full * b + rest
  pub low : rest < b
  pub full_in : s'.full_blocks_in ≡ s.full_blocks_in + full
  pub full_out : s'.full_blocks_out ≡ s.full_blocks_out + full
  pub partial_in : s'.partial_blocks_in ≡ s.partial_blocks_in + (if rest == 0 then 0 else 1)
  pub partial_out : s'.partial_blocks_out ≡ s.partial_blocks_out + (if rest == 0 then 0 else 1)

one_marked : (n : ℕ) → n ≢ 0 → ◌≡◌ {A = ℕ} (if n == 0 then 0 else 1) 1
one_marked n full = ap (λ t. if t then 0 else 1) (eq-false n 0 full)

module _ (fwrite : ℕ → ℕ → ℕ) (b : ℕ) where
  ended : (s : Copy) → 0 < b → s.total_bytes_copied < size_word → length s.input ≡ 0 → Copies b s s
  ended s pos fits empty = record {
    output = sym (ap (λ xs. s.output ++ xs) (no_bytes s.input empty) ∙ append-nil s.output);
    total = omega arith;
    full = 0;
    rest = 0;
    bytes = omega arith;
    low = pos;
    full_in = omega arith;
    full_out = omega arith;
    partial_in = omega arith;
    partial_out = omega arith;
  }

  last :
      (s : Copy)
      → length s.input ≢ 0
      → length s.input < b
      → Copies b s (count_partial (pass_on b s))
  unfolding count_partial pass_on
  last s full low =
      let left = no_bytes (drop b s.input) (length-drop b s.input ∙ omega arith) in
      let all =
        sym (append-nil (take b s.input))
        ∙ ap (λ xs. take b s.input ++ xs) (sym left)
        ∙ take-append-drop b s.input in
      record {
        output = ap (λ xs. s.output ++ xs) all;
        total = ap (λ xs. (s.total_bytes_copied + length xs) % size_word) all;
        full = 0;
        rest = length s.input;
        bytes = omega arith;
        low = low;
        full_in = omega arith;
        full_out = omega arith;
        partial_in = ap (λ n. s.partial_blocks_in + n) (sym (one_marked (length s.input) full));
        partial_out = ap (λ n. s.partial_blocks_out + n) (sym (one_marked (length s.input) full));
      }

  one_more :
      (s s' : Copy) → b ≤ length s.input → Copies b (count_full (pass_on b s)) s' → Copies b s s'
  unfolding count_full pass_on
  one_more s s' much c =
      let taken = length-take b s.input in
      let left = length-drop b s.input in
      let len = c.bytes in
      record {
        output =
            c.output
            ∙ append_assoc s.output (take b s.input) (drop b s.input)
            ∙ ap (λ xs. s.output ++ xs) (take-append-drop b s.input);
        total =
            c.total
            ∙ mod_twice s.total_bytes_copied (length (take b s.input)) (length (drop b s.input))
            ∙ ap (λ n. (s.total_bytes_copied + n) % size_word) (omega arith);
        full = suc c.full;
        rest = c.rest;
        bytes = omega arith;
        low = c.low;
        full_in = let h = c.full_in in omega arith;
        full_out = let h = c.full_out in omega arith;
        partial_in = c.partial_in;
        partial_out = c.partial_out;
      }

  later_fits : (s : Copy) → (count_full (pass_on b s)).total_bytes_copied < size_word
  unfolding count_full pass_on
  later_fits s = omega arith

  pub later_short :
      (rounds : ℕ) (s : Copy)
      → 0 < b
      → length s.input ≢ 0
      → length s.input < suc rounds
      → length (count_full (pass_on b s)).input < rounds
  unfolding count_full pass_on
  later_short rounds s pos more enough = let left = length-drop b s.input in omega arith

  loop_empty :
      (rounds : ℕ) (s : Copy)
      → length s.input ≡ 0
      → copy_loop fwrite no_limit b (suc rounds) s ≡ done s
  unfolding copy_loop
  loop_empty rounds s empty =
      let len = length-take b s.input in
      let none_read : length (take b s.input) ≡ 0 = omega arith in
      rw (eq-true (length (take b s.input)) 0 none_read, copy_loop) refl

  -- With at most `k` blocks left, and a count that stays an `int` for so many.
  loop-Copies :
      (rounds k : ℕ) (s : Copy)
      → 0 < b
      → b < 2 ^ 31
      → ((n m : ℕ) → fwrite n m ≡ m)
      → s.total_bytes_copied < size_word
      → length s.input < rounds
      → s.blocks_copied + k < 2 ^ 31
      → length s.input ≤ k * b
      → (s' : Copy) × (copy_loop fwrite no_limit b rounds s ≡ done s') × Copies b s s'
  unfolding copy_loop limit_reached count_partial count_full pass_on
  loop-Copies zero k s pos small writes fits enough int left = absurd (omega arith)
  loop-Copies (suc rounds) zero s pos small writes fits enough int left =
      (s, loop_empty rounds s (omega arith), ended s pos fits (omega arith))
  loop-Copies (suc rounds) (suc k) s pos small writes fits enough int left =
      let len = length-take b s.input in
      let rest = length-drop b s.input in
      let size = length (take b s.input) in
      elim (ℕ_discrete (length s.input) 0) [
        | yes empty ↦ (s, loop_empty rounds s empty, ended s pos fits empty)
        | no more ↦
            let read = eq-false size 0 (read_some b s.input pos more) in
            let wrote = eq-true (fwrite s.blocks_copied size) size (writes s.blocks_copied size) in
            let on =
              eq-false no_limit ((s.blocks_copied + 1) % int_word) (λ h. absurd (omega arith)) in
            elim (dec_lt (length s.input) b) [
              | yes few ↦
                  let part = is_whole-partial b size small (omega arith) in
                  (
                    count_partial (pass_on b s),
                    rw (read, wrote, on, part, copy_loop) refl,
                    last s more few,
                  )
              | no many ↦
                  let n : size ≡ b = omega arith in
                  let all = ap (is_whole b) n ∙ is_whole-full b small in
                  let (s', e, c) =
                    loop-Copies rounds k (count_full (pass_on b s)) pos small writes (later_fits s)
                      (later_short rounds s pos more enough) (omega arith) (omega arith) in
                  (s', rw (read, wrote, on, all, copy_loop) e, one_more s s' (omega arith) c)
            ]
      ]

-- Without a limit on the blocks (copy_block is -1), with blocks of at least one byte and fewer than
-- 2 ^ 31, an input of at most 2 ^ 31 - 1 blocks, and when every fwrite takes what it is given, the
-- copy ends; the output is the input, the total its length modulo 2 ^ 64, and the counts of full and
-- of partial blocks, the same for input and output, are the quotient of that length by the block
-- size, and 1 if there is a remainder, else 0.
pub copy_loop-whole :
    (fwrite : ℕ → ℕ → ℕ) (b : ℕ) (bytes : List ℕ)
    → 0 < b
    → b < 2 ^ 31
    → ((k n : ℕ) → fwrite k n ≡ n)
    → length bytes ≤ (2 ^ 31 - 1) * b
    → (s : Copy) × (copy_loop fwrite no_limit b (suc (length bytes)) (start bytes) ≡ done s)
      × (s.output ≡ bytes)
      × (s.total_bytes_copied ≡ length bytes % size_word)
      × (rest : ℕ) × (length bytes ≡ s.full_blocks_in * b + rest)
      × (rest < b)
      × (s.partial_blocks_in ≡ (if rest == 0 then 0 else 1))
      × (s.full_blocks_out ≡ s.full_blocks_in)
      × (s.partial_blocks_out ≡ s.partial_blocks_in)
copy_loop-whole fwrite b bytes pos small writes blocks =
    let (s, e, c) =
      loop-Copies fwrite b (suc (length bytes)) (2 ^ 31 - 1) (start bytes) pos small writes
        (omega arith) (omega arith) (omega arith) blocks in
    let full_in : s.full_blocks_in ≡ c.full = (let h = c.full_in in omega arith) in
    let full_out : s.full_blocks_out ≡ c.full = (let h = c.full_out in omega arith) in
    let partial_in : s.partial_blocks_in ≡ (if c.rest == 0 then 0 else 1) =
      (let h = c.partial_in in omega arith) in
    let partial_out : s.partial_blocks_out ≡ (if c.rest == 0 then 0 else 1) =
      (let h = c.partial_out in omega arith) in
    (
      s,
      e,
      c.output,
      c.total ∙ ap (λ n. n % size_word) (omega arith),
      c.rest,
      c.bytes ∙ ap (λ n. n * b + c.rest) (sym full_in),
      c.low,
      partial_in,
      full_out ∙ sym full_in,
      partial_out ∙ sym partial_in,
    )
