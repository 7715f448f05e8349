-- ===== src/Vector/Slots.antt =====
-- vector/vector.c: the slots of the array behind a vector, and `size_t` arithmetic.
-- A slot is `none` until something is stored in it. An access outside the array is a fault, and
-- so is the use of an element that was never stored.
use system_programming_uiuc.Prelude.{
  ℕ, ◌+◌, ◌-◌, ◌*◌, ◌/◌, ◌%◌, ◌^◌, ◌≤◌, ◌<◌, ◌≡◌, Bool, true, false, Option, none, some, List, [],
  ◌++◌, arith, ltb, if◌then◌else◌, length, get_elem?, set, take, replicate, length-append,
  length-take, length-replicate, get_elem?-append, get_elem?-take, get_elem?_of_le,
}
use system_programming_uiuc.Prelude.Outcome.{Outcome, done, fault}

abbrev pub word : ℕ
word = 2 ^ 64

-- `sizeof(void *)`
abbrev pub pointer_size : ℕ
pointer_size = 8

-- `i--` on a `size_t`
abbrev pub pred_word : ℕ → ℕ
pred_word i = (i + word - 1) % word

module _ {E : Type 0} where
  -- `realloc(array, bytes)`: the old slots as far as they fit, the others not yet stored in.
  abbrev pub reallocated : List (Option E) → ℕ → List (Option E)
  reallocated array bytes =
      take (bytes / pointer_size) array ++ replicate (bytes / pointer_size - length array) none

  -- The same with the answer of the allocator; `NULL` is an array with no slot.
  abbrev pub realloc : Bool → List (Option E) → ℕ → List (Option E)
  realloc mem array bytes = if mem then reallocated array bytes else []

  abbrev pub slot : List (Option E) → ℕ → Outcome (Option E)
  slot array i = elim (get_elem? array i) [ none ↦ fault | some s ↦ done s ]

  abbrev pub element : List (Option E) → ℕ → Outcome E
  element array i = elim (get_elem? array i) [
    | none ↦ fault
    | some s ↦ elim s [ none ↦ fault | some x ↦ done x ]
  ]

  abbrev pub store : List (Option E) → ℕ → Option E → Outcome (List (Option E))
  store array i s = if ltb i (length array) then done (set array i s) else fault

  pub element-done :
      (array : List (Option E)) (i : ℕ) {x : E}
      → get_elem? array i ≡ some (some x)
      → element array i ≡ done x
  element-done array i h = ground arith

  pub slot-done :
      (array : List (Option E)) (i : ℕ) {s : Option E}
      → get_elem? array i ≡ some s
      → slot array i ≡ done s
  slot-done array i h = ground arith

  pub slot-fault : (array : List (Option E)) (i : ℕ) → length array ≤ i → slot array i ≡ fault
  slot-fault array i h = ground (arith, get_elem?_of_le array i)

  pub element-fault : (array : List (Option E)) (i : ℕ) → length array ≤ i → element array i ≡ fault
  element-fault array i h = ground (arith, get_elem?_of_le array i)

  pub store-done :
      (array : List (Option E)) (i : ℕ) (s : Option E)
      → i < length array
      → store array i s ≡ done (set array i s)
  store-done array i s h = ground arith

  pub length-reallocated :
      (array : List (Option E)) (c : ℕ)
      → c * pointer_size < word
      → length (reallocated array (c * pointer_size % word)) ≡ c
  length-reallocated array c h =
      let bytes : c * pointer_size % word / pointer_size ≡ c = omega arith in
      rw (length-append, bytes)
        (omega
          (arith, length-take c array, length-replicate {A = Option E} (c - length array) none))

  pub length-realloc :
      (mem : Bool) (array : List (Option E)) (c : ℕ)
      → c * pointer_size < word
      → length (realloc mem array (c * pointer_size % word)) ≤ c
  length-realloc true array c h = omega (arith, length-reallocated array c h)
  length-realloc false array c h = omega arith

  pub get_elem?-reallocated :
      (array : List (Option E)) (c i : ℕ)
      → c * pointer_size < word
      → i < length array
      → i < c
      → get_elem? (reallocated array (c * pointer_size % word)) i ≡ get_elem? array i
  get_elem?-reallocated array c i h below under =
      let bytes : c * pointer_size % word / pointer_size ≡ c = omega arith in
      rw bytes (
        ground (
          arith,
          length-take c array,
          get_elem?-take c array i,
          get_elem?-append (take c array) (replicate (c - length array) none) i,
        ))
