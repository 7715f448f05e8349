-- ===== src/Memcheck.antt =====
-- mini_memcheck/mini_memcheck.c: an allocator that records every live block, counts bytes, and
-- notices frees and reallocations of addresses that it does not know.
-- The list behind `head` is a list of entries in the order of the `next` links; an entry carries
-- the address of its `meta_data`. `sizeof(meta_data)` is the parameter `meta_size`, since the header
-- that declares it is not in the repository. What the C library's `malloc` and `realloc` answer is
-- an argument: the address of the block for the number of bytes asked for, 0 for `NULL`. The bytes
-- behind a `meta_data` are not modelled.
pub mod Totals
pub mod Misuse
mod Tests
use system_programming_uiuc.Prelude.{
  ℕ, ◌+◌, ◌-◌, ◌*◌, ◌%◌, ◌^◌, ◌&&◌, ◌||◌, not, Bool, Option, none, some, List, [], ◌∷◌, leb, ◌==◌,
  if◌then◌else◌,
}
use system_programming_uiuc.Prelude.Outcome.{Outcome, done, fault, ◌>>=◌}

abbrev pub word : ℕ
word = 2 ^ 64

-- `meta_data`, with the address at which it stands.
pub record Entry : Type 0 where
  pub address : ℕ
  pub request_size : ℕ
  pub filename : ℕ
  pub instruction : ℕ

-- The global variables.
pub record Memcheck : Type 0 where
  pub head : List Entry
  pub total_memory_requested : ℕ
  pub total_memory_freed : ℕ
  pub invalid_addresses : ℕ

-- The walk from `head` to the entry at an address.
pub find : ℕ → List Entry → Option Entry
find a [] = none
find a (e ∷ es) = if e.address == a then some e else find a es

-- The list without that entry: `head`, or the `next` of the entry before it, is set past it.
pub unlink : ℕ → List Entry → List Entry
unlink a [] = []
unlink a (e ∷ es) = if e.address == a then es else e ∷ unlink a es

-- The list with that entry's fields written anew.
pub rewrite : ℕ → Entry → List Entry → List Entry
rewrite a new [] = []
rewrite a new (e ∷ es) = if e.address == a then new ∷ es else e ∷ rewrite a new es

-- The entry `cur` and the totals for its new size.
pub resize_entry : Entry → ℕ → ℕ → ℕ → Memcheck → Memcheck
unfolding rewrite
resize_entry cur request_size filename instruction s = record s {
  head =
      rewrite cur.address
        (record cur { request_size = request_size; filename = filename; instruction = instruction })
        s.head;
  total_memory_requested =
      if leb cur.request_size request_size
      then (s.total_memory_requested + (request_size - cur.request_size)) % word
      else s.total_memory_requested;
  total_memory_freed =
      if leb cur.request_size request_size
      then s.total_memory_freed
      else (s.total_memory_freed + (cur.request_size - request_size)) % word;
}

-- Whether the C library still has the block at an address given out, once `realloc` has made `new`
-- of `cur`: a block that it moves is freed.
pub allocated : ℕ → ℕ → ℕ → Bool
allocated cur new address = not (address == cur) || new == cur

-- A read of a `meta_data`.
pub read_block : (ℕ → Bool) → Entry → Outcome Entry
read_block given_out cur = if given_out cur.address then done cur else fault

-- `previous->next = new; new->next = cur->next; free(cur);`, where `previous` is NULL for the block at
-- `head`, and `cur` has to be a block that is given out.
pub relink : (ℕ → Bool) → Entry → ℕ → List Entry → Outcome (List Entry)
unfolding read_block rewrite
relink given_out cur new [] = fault
relink given_out cur new (e ∷ es) =
    if e.address == cur.address
    then fault
    else (read_block given_out cur >>= λ old.
        done (e ∷ rewrite old.address (record old { address = new }) es))

module _ (meta_size : ℕ) where
  -- A `meta_data` for `size` bytes at `address` is linked in front, and the total is raised.
  record_block : ℕ → ℕ → ℕ → ℕ → Memcheck → ℕ × Memcheck
  record_block address size filename instruction s = (
    (address + meta_size) % word,
    record s {
      head =
          record {
            address = address;
            request_size = size;
            filename = filename;
            instruction = instruction;
          }
          ∷ s.head;
      total_memory_requested = (s.total_memory_requested + size) % word;
    },
  )

  pub mini_malloc : (ℕ → ℕ) → ℕ → ℕ → ℕ → Memcheck → ℕ × Memcheck
  unfolding record_block
  mini_malloc malloc request_size filename instruction s =
      let mem : ℕ = malloc ((request_size + meta_size) % word) in
      if request_size == 0
      then (0, s)
      else if mem == 0
      then (0, s)
      else record_block mem request_size filename instruction s

  pub mini_calloc : (ℕ → ℕ) → ℕ → ℕ → ℕ → ℕ → Memcheck → ℕ × Memcheck
  unfolding record_block
  mini_calloc malloc num_elements element_size filename instruction s =
      let bytes : ℕ = num_elements * element_size % word in
      let mem : ℕ = malloc ((bytes + meta_size) % word) in
      if num_elements == 0 || element_size == 0
      then (0, s)
      else if mem == 0
      then (0, s)
      else record_block mem bytes filename instruction s

  -- `payload - sizeof(meta_data)`
  abbrev pub meta_of : ℕ → ℕ
  meta_of payload = (payload + word - meta_size % word) % word

  pub mini_free : ℕ → Memcheck → Memcheck
  unfolding find unlink
  mini_free payload s = if payload == 0 then s else elim (find (meta_of payload) s.head) [
    | none ↦ record s { invalid_addresses = (s.invalid_addresses + 1) % word }
    | some cur ↦ record s {
      head = unlink (meta_of payload) s.head;
      total_memory_freed = (s.total_memory_freed + cur.request_size) % word;
    }
  ]

  -- `realloc(cur, …)` has returned `new`, which is not `NULL`; what follows reads `cur` again.
  pub resized : Entry → ℕ → ℕ → ℕ → ℕ → Memcheck → Outcome (ℕ × Memcheck)
  unfolding resize_entry read_block relink allocated
  resized cur new request_size filename instruction s =
      read_block (allocated cur.address new) cur >>= λ old.
      let s' = resize_entry old request_size filename instruction s in
      if new == old.address
      then done ((new + meta_size) % word, s')
      else (relink (allocated cur.address new) old new s'.head >>= λ head.
          done ((new + meta_size) % word, record s' { head = head }))

  pub mini_realloc : (ℕ → ℕ) → (ℕ → ℕ → ℕ) → ℕ → ℕ → ℕ → ℕ → Memcheck → Outcome (ℕ × Memcheck)
  unfolding find resized
  mini_realloc malloc realloc payload request_size filename instruction s =
      if payload == 0 && request_size == 0
      then done (0, s)
      else if request_size == 0
      then done (0, mini_free payload s)
      else if payload == 0
      then done (mini_malloc malloc request_size filename instruction s)
      else elim (find (meta_of payload) s.head) [
        | none ↦ done (0, record s { invalid_addresses = (s.invalid_addresses + 1) % word })
        | some cur ↦
            let new : ℕ = realloc cur.address ((request_size + meta_size) % word) in
            if new == 0 then done (0, s) else resized cur new request_size filename instruction s
      ]
