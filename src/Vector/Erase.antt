-- ===== src/Vector/Erase.antt =====
-- vector/vector.c: vector_erase, vector_clear and vector_destroy, and the destructor calls they make.
use system_programming_uiuc.Prelude.{
  ℕ, suc, ◌+◌, ◌-◌, ◌<◌, ◌≡◌, refl, sym, ap, ◌∙◌, some, List, [], ◌∷◌, ◌++◌, map, arith, ltb,
  if◌then◌else◌, length, get_elem?, set, take, drop, length-append, length-set, length-take,
  length-drop, length-map, lt→ltb, get_elem?-set, get_elem?-append, get_elem?-take, get_elem?-drop,
  get_elem?-map, overwrite, length-overwrite, get_elem?-overwrite, lt_of_get_elem?,
}
use system_programming_uiuc.Prelude.Outcome.{done}
use mathlib.Core.Option
use system_programming_uiuc.Vector.Slots.{element-done, store-done}
use system_programming_uiuc.Vector.State.{Vector, destruct, destroy_from, vector_destroy}
use system_programming_uiuc.Vector.Edit.{close_from, vector_erase, vector_clear}
use system_programming_uiuc.Vector.Contents.{Represents, Yields}

-- The destructor called on each element of a list, the first one first.
abbrev pub destroy_all : {E W : Type 0} → (E → W → W) → List E → W → W
destroy_all d [] w = w
destroy_all d (x ∷ xs) w = destroy_all d xs (d x w)

-- What is left of `xs` when position `i` is erased: the elements behind it are copies.
abbrev pub erased : {E : Type 0} → (E → E) → List E → ℕ → List E
erased copy xs i = take i xs ++ map copy (drop (suc i) xs)

pub length-erased :
    {E : Type 0} (copy : E → E) (xs : List E) (i : ℕ)
    → i < length xs
    → length (erased copy xs i) ≡ length xs - 1
length-erased copy xs i h = omega (
  arith,
  length-append (take i xs) (map copy (drop (suc i) xs)),
  length-take i xs,
  length-map (drop (suc i) xs) copy,
  length-drop (suc i) xs,
)

get_elem?-erased :
    {E : Type 0} (copy : E → E) (xs : List E) (i j : ℕ)
    → i < length xs
    → get_elem? (erased copy xs i) j
      ≡ (if ltb j i then get_elem? xs j else Option.map copy (get_elem? (drop (suc i) xs) (j - i)))
get_elem?-erased copy xs i j h = ground (
  arith,
  length-take i xs,
  get_elem?-append (take i xs) (map copy (drop (suc i) xs)) j,
  get_elem?-take i xs j,
  get_elem?-map copy (drop (suc i) xs) (j - i),
)

module _ {E W : Type 0} where
  destroy_from-all :
      (ys : List E) (i : ℕ) (v : Vector E W)
      → ((j : ℕ) (y : E) → get_elem? ys j ≡ some y → get_elem? v.array (i + j) ≡ some (some y))
      → destroy_from (length ys) i v
        ≡ done (record v { world = destroy_all v.destructor ys v.world })
  unfolding destroy_from
  destroy_from-all [] i v at = refl
  destroy_from-all (y ∷ ys) i v at =
      let here : get_elem? v.array i ≡ some (some y) =
        ap (get_elem? v.array) (omega arith) ∙ at 0 y refl in
      rw (element-done v.array i here) (
        destroy_from-all ys (i + 1) (destruct y v)
          λ j z h. ap (get_elem? v.array) (omega arith) ∙ at (suc j) z h)

  destroyed :
      {v : Vector E W} (xs : List E)
      → Represents v xs
      → destroy_from v.size 0 v ≡ done (record v { world = destroy_all v.destructor xs v.world })
  destroyed {v} xs r =
      ap (λ (n : ℕ). destroy_from n 0 v) r.size
      ∙ destroy_from-all xs 0 v (λ j y h. ap (get_elem? v.array) (omega arith) ∙ r.each j y h)

  -- `vector_destroy` calls the destructor once on each element, in order.
  pub vector_destroy-all :
      {v : Vector E W} (xs : List E)
      → Represents v xs
      → vector_destroy v ≡ done (destroy_all v.destructor xs v.world)
  unfolding vector_destroy
  vector_destroy-all {v} xs r = rw (destroyed xs r)

  -- `vector_clear` calls the destructor once on each element, in order, keeps the capacity, and
  -- leaves an empty vector.
  pub vector_clear-nil :
      {v : Vector E W} (xs : List E)
      → Represents v xs
      → (v' : Vector E W) × (vector_clear v ≡ done v')
        × Represents v' []
        × (v'.callbacks ≡ v.callbacks)
        × (v'.capacity ≡ v.capacity)
        × (v'.world ≡ destroy_all v.destructor xs v.world)
  unfolding vector_clear
  vector_clear-nil {v} xs r = (
    record v { size = 0; world = destroy_all v.destructor xs v.world },
    rw (destroyed xs r),
    record {
      size = refl;
      room = r.room;
      fits = omega arith;
      bounded = r.bounded;
      each = λ j y h. cc;
    },
    refl,
    refl,
    refl,
  )

  close_from-overwrite :
      (ys : List E) (i : ℕ) (v : Vector E W)
      → ((j : ℕ) (y : E) → get_elem? ys j ≡ some y → get_elem? v.array (i + 1 + j) ≡ some (some y))
      → i + length ys < length v.array
      → close_from (length ys) i v
        ≡ done
            (record v { array = overwrite (map (λ y. some (v.copy_constructor y)) ys) i v.array })
  unfolding close_from
  close_from-overwrite [] i v at room = refl
  close_from-overwrite (y ∷ ys) i v at room =
      let here : get_elem? v.array (i + 1) ≡ some (some y) =
        ap (get_elem? v.array) (omega arith) ∙ at 0 y refl in
      let next = set v.array i (some (v.copy_constructor y)) in
      rw
        (
          element-done v.array (i + 1) here,
          store-done v.array i (some (v.copy_constructor y)) (omega arith),
        )
        (close_from-overwrite ys (i + 1) (record v { array = next })
          (λ j z h.
            let later : get_elem? v.array (i + 1 + 1 + j) ≡ some (some z) =
              ap (get_elem? v.array) (omega arith) ∙ at (suc j) z h in
            ground
              (arith, later, get_elem?-set v.array i (some (v.copy_constructor y)) (i + 1 + 1 + j)))
          (omega (arith, length-set v.array i (some (v.copy_constructor y)))))

  -- `vector_erase` destroys the element at the position once and closes the gap. The elements
  -- behind it are replaced by copies made by the copy constructor; the originals get no
  -- destructor call.
  pub vector_erase-erased :
      {v : Vector E W} (xs : List E) (i : ℕ) (x : E)
      → Represents v xs
      → get_elem? xs i ≡ some x
      → Yields
          (vector_erase v i)
          v.callbacks
          (erased v.copy_constructor xs i)
          (v.destructor x v.world)
  unfolding vector_erase
  vector_erase-erased {v} xs i x r e =
      let inside : i < length xs = lt_of_get_elem? xs i e in
      let ys = drop (suc i) xs in
      let count : v.size - 1 - i ≡ length ys = omega (arith, r.size, length-drop (suc i) xs) in
      let zs = map (λ y. some (v.copy_constructor y)) ys in
      let run : close_from (v.size - 1 - i) i (destruct x v)
          ≡ done (record (destruct x v) { array = overwrite zs i v.array }) =
        ap (λ (n : ℕ). close_from n i (destruct x v)) count
        ∙ close_from-overwrite ys i (destruct x v)
            (λ j y h.
              r.each (i + 1 + j) y
                (ap (get_elem? xs) (omega arith) ∙ sym (get_elem?-drop (suc i) xs j) ∙ h))
            (omega (arith, r.fits, length-drop (suc i) xs)) in
      (
        record (destruct x v) { array = overwrite zs i v.array; size = v.size - 1 },
        rw (lt→ltb i v.size (omega (arith, r.size)), element-done v.array i (r.each i x e), run),
        record {
          size = omega (arith, r.size, length-erased v.copy_constructor xs i);
          room = r.room ∙ sym (length-overwrite zs i v.array);
          bounded = omega (arith, r.bounded, length-overwrite zs i v.array);
          fits =
              omega (
                arith,
                r.fits,
                length-erased v.copy_constructor xs i,
                length-overwrite zs i v.array,
              );
          each = λ j y h. ground (
            arith,
            r.fits,
            r.each j y,
            length-drop (suc i) xs,
            length-map ys (λ z. some (v.copy_constructor z)),
            lt_of_get_elem? (erased v.copy_constructor xs i) j h,
            length-erased v.copy_constructor xs i,
            get_elem?-erased v.copy_constructor xs i j,
            get_elem?-map (λ z. some (v.copy_constructor z)) ys (j - i),
            get_elem?-overwrite zs i v.array j,
          );
        },
        refl,
        refl,
      )
