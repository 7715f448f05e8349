-- ===== src/Malloc/Calls.antt =====
-- malloc/alloc.c: malloc, calloc, free and realloc.
use system_programming_uiuc.Prelude.{
  ℕ, ◌+◌, ◌-◌, ◌*◌, ◌%◌, true, false, ◌&&◌, Option, none, some, ltb, leb, ◌==◌, if◌then◌else◌,
}
use system_programming_uiuc.Prelude.Outcome.{Outcome, done, fault, ◌>>=◌}
use system_programming_uiuc.Malloc.{
  word, meta_size, search_class, free_class, Arena, get_index, header, put, set_free, removeblock,
  addblock, first_fit, best_fit,
}
use system_programming_uiuc.Malloc.Blocks.{
  behind, block_splitting, combine_next, Grants, sbrk, give_back, block_coalescing,
}

-- What a call returns.
abbrev pub Answer : Type 0
Answer = Option ℕ × Arena

-- `memset(p, 0, n)` and `memcpy(to, from, n)`
unfoldable pub memset_zero : ℕ → ℕ → Arena → Arena
memset_zero p n a = record a { bytes = λ q. if leb p q && ltb q (p + n) then 0 else a.bytes q }

unfoldable pub memcpy : ℕ → ℕ → ℕ → Arena → Arena
memcpy to from n a = record a {
  bytes = λ q. if leb to q && ltb q (to + n) then a.bytes (from + (q - to)) else a.bytes q;
}

-- `if (freeList_head[index] != NULL) new = …`
unfoldable pub pick : ℕ → Arena → Outcome (Option ℕ)
unfolding first_fit best_fit
pick size a = elim (a.heads (get_index size)) [
  | none ↦ done none
  | some h ↦ if leb search_class (get_index size) then best_fit size a else first_fit size a
]

-- A block of the free list is used again.
unfoldable pub reuse : ℕ → ℕ → Arena → Outcome Answer
unfolding removeblock set_free block_splitting behind
reuse new size a = removeblock (some new) a >>= λ a'. set_free new false a' >>= λ a''.
    block_splitting (some new) size a'' >>= λ a'''. done (some (behind new 0), a''')

-- The header of a new block: a fault if it does not lie below the break.
unfoldable pub first_header : ℕ → ℕ → Arena → Outcome Answer
unfolding put behind
first_header new size a = elim (leb (new + meta_size) a.brk) [
  | true ↦ done (
    some (behind new 0),
    put new (record { size = size; is_free = false; next = none; prev = none }) a,
  )
  | false ↦ fault
]

-- The header of a payload, `(meta*) ptr - 1`.
abbrev pub meta_of : ℕ → ℕ
meta_of ptr = (ptr + word - meta_size) % word

-- `realloc` to a size that the block already has room for.
unfoldable pub shrink_block : ℕ → ℕ → ℕ → Arena → Outcome Answer
unfolding block_splitting set_free
shrink_block ptr cur size a = block_splitting (some cur) size a >>= λ a'.
    set_free cur false a' >>= λ a''. done (some ptr, a'')

module _ (grants : Grants) where
  unfoldable pub extend : ℕ → Arena → Outcome Answer
  unfolding sbrk first_header
  extend size a =
      let (new, a') = sbrk grants ((meta_size + size) % word) a in
      elim new [ none ↦ done (none, a') | some p ↦ first_header p size a' ]

  -- Large requests first give memory back: class 16 each time, class 15 each seventh time.
  unfoldable pub tidy : ℕ → Arena → Outcome Arena
  unfolding block_coalescing
  tidy index a = elim (index == 16) [
    | true ↦ block_coalescing grants 16 a
    | false ↦ elim (index == 15) [
      | false ↦ done a
      | true ↦ elim (ltb 6 (a.defrag + 1)) [
        | true ↦ block_coalescing grants 15 (record a { defrag = a.defrag + 1 }) >>= λ a'.
            done (record a' { defrag = 0 })
        | false ↦ done (record a { defrag = a.defrag + 1 })
      ]
    ]
  ]

  unfoldable pub malloc : ℕ → Arena → Outcome Answer
  unfolding tidy pick reuse extend get_index
  malloc size a = elim (size == 0) [
    | true ↦ done (none, a)
    | false ↦ tidy (get_index size) a >>= λ a'.
        pick size a' >>= λ new. elim new [ some p ↦ reuse p size a' | none ↦ extend size a' ]
  ]

  unfoldable pub calloc : ℕ → ℕ → Arena → Outcome Answer
  unfolding malloc memset_zero
  calloc num size a = malloc (num * size % word) a >>= λ r.
      done (elim r.0 [ none ↦ r | some p ↦ (some p, memset_zero p (num * size % word) r.1) ])

  -- The end of `free`: a large last block goes back to the system, any other into its list.
  unfoldable pub retire : ℕ → ℕ → Arena → Outcome Arena
  unfolding header give_back set_free addblock get_index
  retire ptr cur a = header cur a >>= λ m.
      elim (ltb free_class (get_index m.size) && leb a.brk ((ptr + m.size) % word)) [
        | true ↦ give_back grants cur a
        | false ↦ set_free cur true a >>= λ a'. addblock (some cur) a'
      ]

  unfoldable pub free_block : ℕ → Arena → Outcome Arena
  unfolding header combine_next retire
  free_block ptr a = header (meta_of ptr) a >>= λ m. elim m.is_free [
    | true ↦ done a
    | false ↦ combine_next (meta_of ptr) a >>= λ a'. retire ptr (meta_of ptr) a'
  ]

  unfoldable pub free : Option ℕ → Arena → Outcome Arena
  unfolding free_block
  free none a = done a
  free (some ptr) a = elim (leb a.brk ptr) [ true ↦ done a | false ↦ free_block ptr a ]

  -- `realloc` where the block has to move: the copy has the size of the combined old block.
  unfoldable pub move_block : ℕ → ℕ → ℕ → Arena → Outcome Answer
  unfolding malloc memcpy free header
  move_block ptr cur size a = malloc size a >>= λ r. elim r.0 [
    | none ↦ done (none, r.1)
    | some new_ptr ↦ header cur r.1 >>= λ m.
        free (some ptr) (memcpy new_ptr ptr m.size r.1) >>= λ a'. done (some new_ptr, a')
  ]

  unfoldable pub grow_block : ℕ → ℕ → ℕ → Arena → Outcome Answer
  unfolding combine_next header set_free move_block
  grow_block ptr cur size a = combine_next cur a >>= λ a'. header cur a' >>= λ m.
      elim (leb size m.size) [
        | true ↦ set_free cur false a' >>= λ a''. done (some ptr, a'')
        | false ↦ move_block ptr cur size a'
      ]

  unfoldable pub realloc : Option ℕ → ℕ → Arena → Outcome Answer
  unfolding malloc free shrink_block grow_block header
  realloc none size a = malloc size a
  realloc (some ptr) size a = elim (size == 0) [
    | true ↦ free (some ptr) a >>= λ a'. done (none, a')
    | false ↦ header (meta_of ptr) a >>= λ m. elim (leb size m.size) [
      | true ↦ shrink_block ptr (meta_of ptr) size a
      | false ↦ grow_block ptr (meta_of ptr) size a
    ]
  ]
