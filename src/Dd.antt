-- ===== src/Dd.antt =====
-- deepfried_dd/dd.c: the loop that copies the blocks, and the counts of the report. `fread` gives as
-- much of what is left of the input as it is asked for; what `fwrite` answers is an argument, by the
-- number of blocks before it and the bytes that it is given.
mod Copied
mod Limited
mod Tests
use system_programming_uiuc.Prelude.{
  ◌-◌, ℕ, zero, suc, ◌+◌, ◌%◌, ◌^◌, Bool, true, false, List, [], ◌++◌, length, take, drop, ltb,
  ◌==◌, ◌&&◌,
}
use system_programming_uiuc.Prelude.Outcome.{Outcome, done, abort, no_fuel}

-- `copy_block` and `blocks_copied` are of type `int`, and stand as the 32 bits of their two's complement.
abbrev pub int_word : ℕ
int_word = 2 ^ 32

-- The value -1 of `copy_block`.
abbrev pub no_limit : ℕ
no_limit = int_word - 1

abbrev pub size_word : ℕ
size_word = 2 ^ 64

-- The files and the counters.
pub record Copy : Type 0 where
  pub input : List ℕ
  pub output : List ℕ
  pub blocks_copied : ℕ
  pub full_blocks_in : ℕ
  pub full_blocks_out : ℕ
  pub partial_blocks_in : ℕ
  pub partial_blocks_out : ℕ
  pub total_bytes_copied : ℕ

abbrev pub start : List ℕ → Copy
start bytes = record {
  input = bytes;
  output = [];
  blocks_copied = 0;
  full_blocks_in = 0;
  full_blocks_out = 0;
  partial_blocks_in = 0;
  partial_blocks_out = 0;
  total_bytes_copied = 0;
}

-- `fread`, `fwrite` of all that was read, and the two counters behind it.
unfoldable pub pass_on : ℕ → Copy → Copy
pass_on block_size s = record s {
  input = drop block_size s.input;
  output = s.output ++ take block_size s.input;
  blocks_copied = (s.blocks_copied + 1) % int_word;
  total_bytes_copied = (s.total_bytes_copied + length (take block_size s.input)) % size_word;
}

unfoldable pub count_full : Copy → Copy
count_full s = record s {
  full_blocks_in = s.full_blocks_in + 1;
  full_blocks_out = s.full_blocks_out + 1;
}

unfoldable pub count_partial : Copy → Copy
count_partial s = record s {
  partial_blocks_in = s.partial_blocks_in + 1;
  partial_blocks_out = s.partial_blocks_out + 1;
}

-- `copy_block == blocks_copied`
unfoldable pub limit_reached : ℕ → ℕ → Bool
limit_reached copy_block blocks_copied = copy_block == blocks_copied

-- `(int) block_size == byte_read`.
unfoldable pub is_whole : ℕ → ℕ → Bool
is_whole block_size byte_read =
    ltb (block_size % 2 ^ 32) (2 ^ 31) && (block_size % 2 ^ 32 == byte_read)

module _ (fwrite : ℕ → ℕ → ℕ) (copy_block : ℕ) (block_size : ℕ) where
  unfoldable pub copy_loop : ℕ → Copy → Outcome Copy
  copy_loop zero s = no_fuel
  copy_loop (suc rounds) s =
      let byte_read = length (take block_size s.input) in
      let next = pass_on block_size s in
      elim (byte_read == 0) [
        | true ↦ done s
        | false ↦ elim (fwrite s.blocks_copied byte_read == byte_read) [
          | false ↦ abort
          | true ↦ elim (limit_reached copy_block next.blocks_copied) [
            | true ↦ done (count_full next)
            | false ↦ elim (is_whole block_size byte_read) [
              | false ↦ done (count_partial next)
              | true ↦ copy_loop rounds (count_full next)
            ]
          ]
        ]
      ]
