-- ===== src/Vector/Insert.antt =====
-- vector/vector.c: vector_insert, inside the vector and at its front.
use system_programming_uiuc.Prelude.{
  ℕ, ◌+◌, ◌-◌, ◌*◌, ◌%◌, ◌^◌, ◌≤◌, ◌<◌, ◌≡◌, refl, sym, ◌∙◌, Bool, true, ◌&&◌, Option, some, List,
  ◌∷◌, ◌++◌, arith, ℕ_discrete, ltb, leb, if◌then◌else◌, length, get_elem?, set, take, drop,
  length-set, eq-true, eq-false, get_elem?-set, length-splice, get_elem?-splice, lt_of_get_elem?,
}
use system_programming_uiuc.Prelude.Outcome.{done, fault}
use system_programming_uiuc.Vector.Slots.{
  word, pointer_size, pred_word, realloc, store-done, length-reallocated, length-realloc,
}
use system_programming_uiuc.Vector.State.{Vector}
use system_programming_uiuc.Vector.Edit.{shift_loop, insert_at, vector_insert}
use system_programming_uiuc.Vector.Capacity.{grow_fits}
use system_programming_uiuc.Vector.Contents.{Represents, grown, grown-Represents, Yields}
use system_programming_uiuc.Vector.Shift.{shift_loop-done, shift_loop-front_start}

module _ {E W : Type 0} where
  -- The store behind the loop, where the slots have been moved to `array'`.
  insert_at-shifted :
      {v : Vector E W} {xs : List E} (position : ℕ) (x : E) (i : ℕ) (array' : List (Option E))
      → pred_word v.size ≡ i
      → i + 1 ≡ length xs
      → Represents v xs
      → length xs < length v.array
      → length xs < 2 ^ 60
      → position ≤ length xs
      → shift_loop (v.size + 2) i position v.array ≡ done array'
      → length array' ≡ length v.array
      → ((j : ℕ)
          → get_elem? array' j ≡ (
              if ltb position j && leb j (i + 1)
              then get_elem? v.array (j - 1)
              else get_elem? v.array j))
      → Yields
          (insert_at position x v)
          v.callbacks
          (take position xs ++ v.copy_constructor x ∷ drop position xs)
          v.world
  unfolding insert_at
  insert_at-shifted {v} {xs} position x i array' start last r space small inside run same at =
      let y = v.copy_constructor x in
      (
        record v { array = set array' position (some y); size = (v.size + 1) % word },
        rw (start, run, store-done array' position (some y) (omega arith)),
        record {
          size = omega (arith, r.size, length-splice position y xs);
          room = r.room ∙ sym (length-set array' position (some y) ∙ same);
          bounded = omega (arith, r.bounded, same, length-set array' position (some y));
          fits = omega (arith, length-set array' position (some y), length-splice position y xs);
          each = λ j z h. ground (
            arith,
            at j,
            r.each j z,
            r.each (j - 1) z,
            lt_of_get_elem? (take position xs ++ y ∷ drop position xs) j h,
            length-splice position y xs,
            get_elem?-splice position y xs j,
            get_elem?-set array' position (some y) j,
          );
        },
        refl,
        refl,
      )

  insert_at-Represents :
      {v : Vector E W} {xs : List E} (position : ℕ) (x : E)
      → Represents v xs
      → length xs < length v.array
      → length xs < 2 ^ 60
      → 0 < position
      → position ≤ length xs
      → Yields
          (insert_at position x v)
          v.callbacks
          (take position xs ++ v.copy_constructor x ∷ drop position xs)
          v.world
  insert_at-Represents {v} {xs} position x r space small front inside =
      let start : pred_word v.size ≡ length xs - 1 = omega (arith, r.size) in
      let last : length xs - 1 + 1 ≡ length xs = omega arith in
      let (array', run, same, at) =
        shift_loop-done (v.size + 2) (length xs - 1) position v.array front (omega arith)
          (omega arith) (omega arith) (omega (arith, r.size)) in
      insert_at-shifted position x (length xs - 1) array' start last r space small inside run same
        at

  -- `vector_insert`, given memory, at a position from 1 to the size, puts a copy of the element in
  -- front of the element at that position, and destroys nothing.
  pub vector_insert-splice :
      {v : Vector E W} {xs : List E} (position : ℕ) (x : E)
      → Represents v xs
      → length xs < 2 ^ 60
      → 0 < position
      → position ≤ length xs
      → Yields
          (vector_insert true v position x)
          v.callbacks
          (take position xs ++ v.copy_constructor x ∷ drop position xs)
          v.world
  unfolding vector_insert
  vector_insert-splice {v} {xs} position x r small front inside =
      elim (ℕ_discrete v.size v.capacity) [
        | yes full ↦
            let target : (v.capacity + 1) % word ≡ length xs + 1 = omega (arith, r.size) in
            let (c, e, big, bytes) = grow_fits (length xs + 1) (omega arith) (omega arith) in
            let r' : Represents (grown v c) xs = grown-Represents c r (omega arith) bytes in
            rw (eq-true v.size v.capacity full, target, e)
              (insert_at-Represents position x r'
                (omega (arith, length-reallocated v.array c bytes)) small front inside)
        | no space ↦ rw (eq-false v.size v.capacity space) (
            insert_at-Represents position x r (omega (arith, r.size, r.room, r.fits)) small front
              inside)
      ]

  insert_at-front :
      (v : Vector E W) (x : E) → v.size < word → length v.array + 1 < word → insert_at 0 x v ≡ fault
  unfolding insert_at
  insert_at-front v x fits small = rw (shift_loop-front_start v.size v.array fits small)

  -- `vector_insert` at position 0 never works: the index of its loop is unsigned, wraps below 0,
  -- and the loop reads outside the array, whatever the vector holds and whether there is memory.
  pub vector_insert-front :
      (mem : Bool) (v : Vector E W) (x : E)
      → v.size < 2 ^ 60
      → length v.array < 2 ^ 63
      → vector_insert mem v 0 x ≡ fault
  unfolding vector_insert
  vector_insert-front mem v x few small = elim (ℕ_discrete v.size v.capacity) [
    | yes full ↦
        let target : (v.capacity + 1) % word ≡ v.size + 1 = omega arith in
        let (c, e, big, bytes) = grow_fits (v.size + 1) (omega arith) (omega arith) in
        let got : length (realloc mem v.array (c * pointer_size % word)) ≤ c =
          length-realloc mem v.array c bytes in
        rw (eq-true v.size v.capacity full, target, e)
          (insert_at-front
            (record v { capacity = c; array = realloc mem v.array (c * pointer_size % word) }) x
            (omega arith) (omega arith))
    | no space ↦
        rw (eq-false v.size v.capacity space) (insert_at-front v x (omega arith) (omega arith))
  ]
