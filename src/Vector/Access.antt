-- ===== src/Vector/Access.antt =====
-- vector/vector.c: vector_get, vector_set and vector_reserve against the list a vector stands for.
use system_programming_uiuc.Prelude.{
  ℕ, ◌^◌, ◌≤◌, ◌<◌, ◌≡◌, refl, sym, ◌∙◌, true, Option, none, some, List, arith, dec_lt, length,
  get_elem?, set, length-set, lt→ltb, le→leb, ltb-false, leb-false, get_elem?-set, get_elem?_of_le,
  get_elem?_lt, lt_of_get_elem?,
}
use system_programming_uiuc.Prelude.Outcome.{Outcome, done, abort}
use system_programming_uiuc.Vector.Slots.{element-done, store-done}
use system_programming_uiuc.Vector.State.{Vector, vector_reserve, vector_get, vector_set}
use system_programming_uiuc.Vector.Capacity.{grow_fits}
use system_programming_uiuc.Vector.Contents.{Represents, grown, grown-Represents, Yields}

abbrev pub or_abort {ℓ} : {A : Type ℓ} → Option A → Outcome A
or_abort none = abort
or_abort (some a) = done a

module _ {E W : Type 0} where
  -- `vector_get` returns the element of the list at the index, and ends the program out of range.
  pub vector_get-get_elem? :
      {v : Vector E W} (xs : List E) (i : ℕ)
      → Represents v xs
      → vector_get v i ≡ or_abort (get_elem? xs i)
  unfolding vector_get
  vector_get-get_elem? {v} xs i r = elim (dec_lt i (length xs)) [
    | yes inside ↦
        let (x, e) = get_elem?_lt xs i inside in
        rw (e, leb-false v.size i (omega (arith, r.size)), element-done v.array i (r.each i x e))
    | no outside ↦ rw (get_elem?_of_le xs i (omega arith), le→leb v.size i (omega (arith, r.size)))
  ]

  -- `vector_set` destroys the old element once, and stores a copy of the new one in its place.
  pub vector_set-set :
      {v : Vector E W} (xs : List E) (i : ℕ) (old x : E)
      → Represents v xs
      → get_elem? xs i ≡ some old
      → Yields
          (vector_set v i x)
          v.callbacks
          (set xs i (v.copy_constructor x))
          (v.destructor old v.world)
  unfolding vector_set
  vector_set-set {v} xs i old x r e =
      let inside : i < length xs = lt_of_get_elem? xs i e in
      (
        record v {
          array = set v.array i (some (v.copy_constructor x));
          world = v.destructor old v.world;
        },
        rw (
          leb-false v.size i (omega (arith, r.size)),
          element-done v.array i (r.each i old e),
          store-done v.array i (some (v.copy_constructor x)) (omega (arith, r.fits)),
        ),
        record {
          size = r.size ∙ sym (length-set xs i (v.copy_constructor x));
          room = r.room ∙ sym (length-set v.array i (some (v.copy_constructor x)));
          bounded = omega (arith, r.bounded, length-set v.array i (some (v.copy_constructor x)));
          fits = omega (
            arith,
            r.fits,
            length-set xs i (v.copy_constructor x),
            length-set v.array i (some (v.copy_constructor x)),
          );
          each = λ j y h. ground (
            arith,
            r.fits,
            r.each j y,
            get_elem?-set xs i (v.copy_constructor x) j,
            get_elem?-set v.array i (some (v.copy_constructor x)) j,
          );
        },
        refl,
        refl,
      )

  -- `vector_reserve`, given memory, keeps what the vector stands for, and afterwards there is room
  -- for `n` elements.
  pub vector_reserve-room :
      {v : Vector E W} {xs : List E} (n : ℕ)
      → Represents v xs
      → n ≤ 2 ^ 60
      → (v' : Vector E W) × (vector_reserve true v n ≡ done v')
        × Represents v' xs
        × (n ≤ v'.capacity)
        × (v.capacity ≤ v'.capacity)
        × (v'.world ≡ v.world)
  unfolding vector_reserve
  vector_reserve-room {v} {xs} n r small = elim (dec_lt v.capacity n) [
    | yes more ↦
        let (c, e, big, bytes) = grow_fits n (omega arith) small in
        (
          grown v c,
          rw (lt→ltb v.capacity n more, e),
          grown-Represents c r (omega (arith, r.fits, r.room)) bytes,
          big,
          omega arith,
          refl,
        )
    | no enough ↦ (v, rw (ltb-false v.capacity n (omega arith)), r, omega arith, omega arith, refl)
  ]
