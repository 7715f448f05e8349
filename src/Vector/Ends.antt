-- ===== src/Vector/Ends.antt =====
-- vector/vector.c: vector_push_back and vector_pop_back against the list a vector stands for.
use system_programming_uiuc.Prelude.{
  ◌+◌, ◌-◌, ◌%◌, ◌^◌, ◌<◌, ◌≡◌, refl, sym, ◌∙◌, true, false, some, List, [], ◌∷◌, ◌++◌, arith,
  ℕ_discrete, length, get_elem?, set, length-append, length-set, lt→ltb, eq-true, eq-false,
  get_elem?-set, get_elem?-append, lt_of_get_elem?,
}
use system_programming_uiuc.Prelude.Outcome.{done, abort}
use system_programming_uiuc.Vector.Slots.{word, element-done, store-done, length-reallocated}
use system_programming_uiuc.Vector.State.{Vector, destruct}
use system_programming_uiuc.Vector.Edit.{push_last, push_grown, vector_push_back, vector_pop_back}
use system_programming_uiuc.Vector.Capacity.{grow_fits}
use system_programming_uiuc.Vector.Contents.{Represents, grown, grown-Represents, Yields}

module _ {E W : Type 0} where
  push_last-Represents :
      {v : Vector E W} {xs : List E} (x : E)
      → Represents v xs
      → length xs < length v.array
      → length xs < 2 ^ 60
      → Yields (push_last x v) v.callbacks (xs ++ v.copy_constructor x ∷ []) v.world
  unfolding push_last
  push_last-Represents {v} {xs} x r space small = (
    record v {
      array = set v.array v.size (some (v.copy_constructor x));
      size = (v.size + 1) % word;
    },
    rw (store-done v.array v.size (some (v.copy_constructor x)) (omega (arith, r.size))),
    record {
      size = omega (arith, r.size, length-append xs (v.copy_constructor x ∷ []));
      room = r.room ∙ sym (length-set v.array v.size (some (v.copy_constructor x)));
      bounded = omega (arith, r.bounded, length-set v.array v.size (some (v.copy_constructor x)));
      fits = omega (
        arith,
        length-append xs (v.copy_constructor x ∷ []),
        length-set v.array v.size (some (v.copy_constructor x)),
      );
      each = λ i y h. ground (
        arith,
        r.size,
        r.each i y,
        lt_of_get_elem? (xs ++ v.copy_constructor x ∷ []) i h,
        length-append xs (v.copy_constructor x ∷ []),
        get_elem?-append xs (v.copy_constructor x ∷ []) i,
        get_elem?-set v.array v.size (some (v.copy_constructor x)) i,
      );
    },
    refl,
    refl,
  )

  -- `vector_push_back`, given memory, appends a copy of the element to what the vector stands for,
  -- grows the array when it is full, and destroys nothing.
  pub vector_push_back-append :
      {v : Vector E W} {xs : List E} (x : E)
      → Represents v xs
      → length xs < 2 ^ 60
      → Yields (vector_push_back true v x) v.callbacks (xs ++ v.copy_constructor x ∷ []) v.world
  unfolding vector_push_back push_grown
  vector_push_back-append {v} {xs} x r small = elim (ℕ_discrete v.size v.capacity) [
    | yes full ↦
        let target : (v.capacity + 1) % word ≡ length xs + 1 = omega (arith, r.size) in
        let (c, e, big, bytes) = grow_fits (length xs + 1) (omega arith) (omega arith) in
        let r' : Represents (grown v c) xs = grown-Represents c r (omega arith) bytes in
        rw (eq-true v.size v.capacity full, target, e)
          (push_last-Represents x r' (omega (arith, length-reallocated v.array c bytes)) small)
    | no space ↦
        rw (eq-false v.size v.capacity space)
          (push_last-Represents x r (omega (arith, r.size, r.room, r.fits)) small)
  ]

  -- When a full vector gets no memory, `vector_push_back` ends the program.
  pub vector_push_back-abort :
      {v : Vector E W} {xs : List E} (x : E)
      → Represents v xs
      → length xs ≡ v.capacity
      → length xs < 2 ^ 60
      → vector_push_back false v x ≡ abort
  unfolding vector_push_back push_grown
  vector_push_back-abort {v} {xs} x r full small =
      let target : (v.capacity + 1) % word ≡ length xs + 1 = omega (arith, r.size) in
      let (c, e, big, bytes) = grow_fits (length xs + 1) (omega arith) (omega arith) in
      rw (eq-true v.size v.capacity (r.size ∙ full), target, e)

  -- `vector_pop_back` destroys the last element and drops it.
  pub vector_pop_back-append :
      {v : Vector E W} (xs : List E) (x : E)
      → Represents v (xs ++ x ∷ [])
      → Yields (vector_pop_back v) v.callbacks xs (v.destructor x v.world)
  unfolding vector_pop_back
  vector_pop_back-append {v} xs x r =
      let count : v.size ≡ length xs + 1 = omega (arith, r.size, length-append xs (x ∷ [])) in
      let last : get_elem? v.array (v.size - 1) ≡ some (some x) =
        r.each (v.size - 1) x (ground (arith, get_elem?-append xs (x ∷ []) (v.size - 1))) in
      (
        record (destruct x v) { size = v.size - 1 },
        rw (lt→ltb 0 v.size (omega arith), element-done v.array (v.size - 1) last),
        record {
          size = omega arith;
          room = r.room;
          bounded = r.bounded;
          fits = omega (arith, r.fits, length-append xs (x ∷ []));
          each = λ i y h.
              r.each i y (ground (arith, get_elem?-append xs (x ∷ []) i, lt_of_get_elem? xs i h));
        },
        refl,
        refl,
      )

  -- `vector_pop_back` leaves an empty vector as it is.
  pub vector_pop_back-nil : {v : Vector E W} → Represents v [] → vector_pop_back v ≡ done v
  unfolding vector_pop_back
  vector_pop_back-nil {v} r = ground (arith, r.size)
