-- ===== src/Memcheck/Tests.antt =====
-- mini_memcheck/mini_memcheck.c: the theorems at concrete states. `meta_data` takes 32 bytes here.
use system_programming_uiuc.Prelude.{ℕ, ◌+◌, ◌-◌, ◌%◌, ◌≡◌, refl, none, some, [], ◌∷◌, arith}
use system_programming_uiuc.Prelude.Outcome.{fault}
use system_programming_uiuc.Memcheck.{
  word, Entry, Memcheck, find, mini_malloc, meta_of, mini_free, mini_realloc, resized, read_block,
  allocated,
}
use system_programming_uiuc.Memcheck.Totals.{
  live, IsValid, Keeps, mini_realloc-IsValid, mini_free-IsValid,
}
use system_programming_uiuc.Memcheck.Misuse.{
  malloc_call, free_call, Reach, start, later, leak_report,
}

abbrev meta : ℕ
meta = 32

-- An allocator that answers one address.
abbrev answer : ℕ → ℕ → ℕ
answer a n = a

abbrev empty : Memcheck
empty = record {
  head = [];
  total_memory_requested = 0;
  total_memory_freed = 0;
  invalid_addresses = 0;
}

abbrev block : Entry
block = record { address = 1000; request_size = 24; filename = 1; instruction = 2 }

abbrev one_block : Memcheck
one_block = record empty { head = block ∷ []; total_memory_requested = 24 }

one_block-IsValid : IsValid one_block
unfolding find
one_block-IsValid = record { bounded = omega arith; balanced = refl; distinct = (refl, tt) }

found : find (meta_of meta 1032) one_block.head ≡ some block
unfolding find
found = refl

fresh : find (answer 2000 (24 + meta)) one_block.head ≡ none
unfolding find
fresh = refl

-- The C library moves the block, and what follows reads the old one.
moved : mini_realloc meta (answer 2000) (λ p n. 3000) 1032 100 5 6 one_block ≡ fault
unfolding mini_realloc find resized read_block allocated
moved = refl

mini_realloc-IsValid_example :
    Keeps (mini_realloc meta (answer 2000) (λ p n. p) 1032 100 5 6 one_block)
mini_realloc-IsValid_example =
    mini_realloc-IsValid meta (answer 2000) (λ p n. p) 1032 100 5 6 one_block-IsValid (omega arith)
      fresh

mini_free-IsValid_example : IsValid (mini_free meta 1032 one_block)
mini_free-IsValid_example = mini_free-IsValid meta 1032 one_block-IsValid

-- One more block, and the first one freed.
abbrev after : Memcheck
after = mini_free meta 1032 (mini_malloc meta (answer 2000) 50 1 2 one_block).1

steps : Reach meta one_block after
steps = later (later start (malloc_call (answer 2000) 50 1 2 fresh)) (free_call 1032)

leak_report_example :
    (after.total_memory_requested + word - after.total_memory_freed % word) % word
    ≡ live after.head % word
leak_report_example = leak_report meta one_block-IsValid steps

leaked : live after.head ≡ 50
unfolding mini_free mini_malloc
leaked = refl
