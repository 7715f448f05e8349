-- ===== src/Malloc/Blocks.antt =====
-- malloc/alloc.c: splitting, combining and coalescing of blocks, and the program break.
use system_programming_uiuc.Prelude.{
  ℕ, zero, suc, ◌+◌, ◌-◌, ◌%◌, Bool, true, false, not, Option, none, some, ltb, leb, ◌==◌,
  if◌then◌else◌,
}
use system_programming_uiuc.Prelude.Outcome.{Outcome, done, no_fuel, ◌>>=◌}
use system_programming_uiuc.Malloc.{
  word, meta_size, split_rest, Meta, Arena, header, put, set_free, removeblock, addblock,
}

-- `(char*) cur + sizeof(meta) + n`
unfoldable pub behind : ℕ → ℕ → ℕ
behind cur n = (cur + meta_size + n) % word

-- `new->size = …; new->free = 1` at an address that had no header of its own.
unfoldable pub new_header : ℕ → ℕ → Arena → Arena
unfolding put
new_header new size a =
    put new
      (elim (a.headers new) [
        | none ↦ record { size = size; is_free = true; next = none; prev = none }
        | some m ↦ record m { size = size; is_free = true }
      ])
      a

unfoldable pub set_size : ℕ → ℕ → Arena → Outcome Arena
unfolding header put
set_size p size a = header p a >>= λ m. done (put p (record m { size = size }) a)

-- `block_splitting` behind its guards.
unfoldable pub split_at : ℕ → ℕ → Meta → Arena → Outcome Arena
unfolding behind new_header addblock set_size
split_at cur size m a =
    addblock (some (behind cur size))
      (new_header (behind cur size) ((m.size + word - size + word - meta_size) % word) a)
    >>= λ a'. set_size cur size a'

unfoldable pub block_splitting : Option ℕ → ℕ → Arena → Outcome Arena
unfolding header split_at
block_splitting none size a = done a
block_splitting (some cur) size a = header cur a >>= λ m. elim (not m.is_free) [
  | true ↦ done a
  | false ↦ elim (ltb (meta_size + split_rest) ((m.size + word - size) % word)) [
    | true ↦ split_at cur size m a
    | false ↦ done a
  ]
]

-- `next` is free: it leaves its list and becomes a part of `cur`.
unfoldable pub absorb : ℕ → ℕ → Arena → Outcome Arena
unfolding header removeblock set_free set_size
absorb cur next a = removeblock (some next) a >>= λ a'. set_free next false a' >>= λ a''.
    header next a'' >>= λ n.
    header cur a'' >>= λ m. set_size cur ((m.size + meta_size + n.size) % word) a''

-- `next` is read only if it lies below the break.
unfoldable pub combine_next : ℕ → Arena → Outcome Arena
unfolding header behind absorb
combine_next cur a = header cur a >>= λ m. elim (ltb (behind cur m.size) a.brk) [
  | false ↦ done a
  | true ↦ header (behind cur m.size) a >>= λ n. elim n.is_free [
    | true ↦ absorb cur (behind cur m.size) a
    | false ↦ done a
  ]
]

-- Whether the system moves the break from here to there.
abbrev pub Grants : Type 0
Grants = ℕ → ℕ → Bool

module _ (grants : Grants) where
  -- `sbrk(n)`, with `n` as a word: -k is 2 ^ 64 - k. The answer is the old break, or `none` for -1.
  unfoldable pub sbrk : ℕ → Arena → Option ℕ × Arena
  sbrk n a =
      if n == 0
      then (some a.brk, a)
      else if grants a.brk ((a.brk + n) % word)
      then (some a.brk, record a { brk = (a.brk + n) % word })
      else (none, a)

  -- `sbrk(0 - (cur->size + sizeof(meta)))`, its answer dropped.
  unfoldable pub give_back : ℕ → Arena → Outcome Arena
  unfolding header sbrk
  give_back cur a =
      header cur a >>= λ m. done (sbrk ((word - (m.size + meta_size) % word) % word) a).1

  -- The block ends at the break.
  unfoldable pub at_end : ℕ → Arena → Outcome Bool
  unfolding header behind
  at_end cur a = header cur a >>= λ m. done (leb a.brk (behind cur m.size))

  unfoldable pub drop_last : ℕ → Arena → Outcome Arena
  unfolding removeblock set_free give_back
  drop_last cur a =
      removeblock (some cur) a >>= λ a'. set_free cur false a' >>= λ a''. give_back cur a''

  unfoldable pub combine_free : ℕ → Arena → Outcome Arena
  unfolding header combine_next
  combine_free cur a =
      header cur a >>= λ m. elim m.is_free [ true ↦ combine_next cur a | false ↦ done a ]

  -- The loop of `block_coalescing`.
  unfoldable pub coalesce_from : ℕ → Option ℕ → Arena → Outcome Arena
  unfolding header combine_free at_end drop_last
  coalesce_from fuel none a = done a
  coalesce_from zero (some cur) a = no_fuel
  coalesce_from (suc fuel) (some cur) a = combine_free cur a >>= λ a'. at_end cur a' >>= λ last.
      elim last [
        | true ↦ drop_last cur a'
        | false ↦ header cur a' >>= λ m. coalesce_from fuel m.next a'
      ]

  unfoldable pub block_coalescing : ℕ → Arena → Outcome Arena
  unfolding coalesce_from
  block_coalescing index a = coalesce_from (a.brk + 1) (a.heads index) a
