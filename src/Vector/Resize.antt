-- ===== src/Vector/Resize.antt =====
-- vector/vector.c: vector_resize, when it grows.
use system_programming_uiuc.Prelude.{
  ℕ, zero, suc, ◌+◌, ◌-◌, ◌^◌, ◌≤◌, ◌<◌, ◌≡◌, refl, sym, ◌∙◌, true, some, List, ◌++◌, arith, dec_lt,
  length, set, replicate, length-append, length-set, length-replicate, lt→ltb, ltb-false,
  get_elem?-append, get_elem?-replicate, overwrite, length-overwrite, get_elem?-overwrite,
  lt_of_get_elem?,
}
use system_programming_uiuc.Prelude.Outcome.{done}
use system_programming_uiuc.Vector.Slots.{store-done}
use system_programming_uiuc.Vector.State.{Vector}
use system_programming_uiuc.Vector.Edit.{fill_from, resize_grown, vector_resize}
use system_programming_uiuc.Vector.Capacity.{grow_fits}
use system_programming_uiuc.Vector.Contents.{Represents, grown, grown-Represents, Yields}

module _ {E W : Type 0} where
  fill_from-overwrite :
      (rounds i : ℕ) (v : Vector E W)
      → i + rounds ≤ length v.array
      → fill_from rounds i v
        ≡ done (record v {
          array = overwrite (replicate rounds (some v.default_constructor)) i v.array;
        })
  unfolding fill_from
  fill_from-overwrite zero i v room = refl
  fill_from-overwrite (suc n) i v room =
      rw (store-done v.array i (some v.default_constructor) (omega arith)) (
        fill_from-overwrite n (i + 1)
          (record v { array = set v.array i (some v.default_constructor) })
          (omega (arith, length-set v.array i (some v.default_constructor))))

  -- The elements that the loop of `vector_resize` adds, at the place where the list ends.
  filled-Represents :
      {v : Vector E W} {xs : List E} (n : ℕ)
      → Represents v xs
      → length xs ≤ n
      → n ≤ length v.array
      → Represents
          (record v {
            array = overwrite (replicate (n - v.size) (some v.default_constructor)) v.size v.array;
            size = n;
          })
          (xs ++ replicate (n - length xs) v.default_constructor)
  filled-Represents {v} {xs} n r more room =
      let zs = replicate (n - v.size) (some v.default_constructor) in
      let count : length (xs ++ replicate (n - length xs) v.default_constructor) ≡ n = omega (
        arith,
        length-append xs (replicate (n - length xs) v.default_constructor),
        length-replicate (n - length xs) v.default_constructor,
      ) in
      record {
        size = sym count;
        room = r.room ∙ sym (length-overwrite zs v.size v.array);
        bounded = omega (arith, r.bounded, length-overwrite zs v.size v.array);
        fits = omega (arith, length-overwrite zs v.size v.array);
        each = λ j y h. ground (
          arith,
          r.size,
          r.each j y,
          count,
          lt_of_get_elem? (xs ++ replicate (n - length xs) v.default_constructor) j h,
          length-replicate (n - v.size) (some v.default_constructor),
          get_elem?-append xs (replicate (n - length xs) v.default_constructor) j,
          get_elem?-replicate (n - length xs) v.default_constructor (j - length xs),
          get_elem?-replicate (n - v.size) (some v.default_constructor) (j - v.size),
          get_elem?-overwrite zs v.size v.array j,
        );
      }

  -- `vector_resize`, given memory, to a larger size appends default elements, grows the array
  -- when it is too small, and destroys nothing.
  pub vector_resize-grow :
      {v : Vector E W} {xs : List E} (n : ℕ)
      → Represents v xs
      → length xs < n
      → n ≤ 2 ^ 60
      → Yields
          (vector_resize true v n)
          v.callbacks
          (xs ++ replicate (n - length xs) v.default_constructor)
          v.world
  unfolding vector_resize resize_grown
  vector_resize-grow {v} {xs} n r more small = elim (dec_lt v.capacity n) [
    | yes big ↦
        let (c, e, over, bytes) = grow_fits n (omega arith) small in
        let r' : Represents (grown v c) xs = grown-Represents c r (omega arith) bytes in
        let room : n ≤ length (grown v c).array = omega (arith, r'.room) in
        (
          _,
          rw (lt→ltb v.capacity n big, e)
              (rw (fill_from-overwrite (n - v.size) v.size (grown v c) (omega (arith, r.size)))),
          filled-Represents n r' (omega arith) room,
          refl,
          refl,
        )
    | no fits ↦ (
      _,
      rw (
        ltb-false v.capacity n (omega arith),
        lt→ltb v.size n (omega (arith, r.size)),
        fill_from-overwrite (n - v.size) v.size v (omega (arith, r.size, r.room)),
      ),
      filled-Represents n r (omega arith) (omega (arith, r.room)),
      refl,
      refl,
    )
  ]
