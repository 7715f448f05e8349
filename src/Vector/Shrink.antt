-- ===== src/Vector/Shrink.antt =====
-- vector/vector.c: vector_resize, when it shrinks, and at 0.
use system_programming_uiuc.Prelude.{
  ℕ, zero, suc, ◌+◌, ◌-◌, ◌^◌, ◌≤◌, ◌<◌, ◌≡◌, refl, ap, ◌∙◌, inl, inr, Bool, some, List, [], ◌∷◌,
  reverse, arith, ℕ_discrete, Option-cases, length, get_elem?, take, drop, length-take, length-drop,
  le→leb, ltb-false, leb-false, get_elem?-take, get_elem?-drop, length-reverse, get_elem?-reverse,
  lt_of_get_elem?,
}
use system_programming_uiuc.Prelude.Outcome.{done, fault}
use mathlib.Core.Path.{ap₂}
use system_programming_uiuc.Vector.Slots.{word, pred_word, element, element-done, element-fault}
use system_programming_uiuc.Vector.State.{Vector, destruct}
use system_programming_uiuc.Vector.Edit.{shrink_loop, vector_resize}
use system_programming_uiuc.Vector.Contents.{Represents, Yields}
use system_programming_uiuc.Vector.Erase.{destroy_all}

-- The two ways to count from the end of a list.
same_index :
    (n len zs ys j : ℕ)
    → zs ≡ len - n
    → ys ≡ len - n
    → n ≤ len
    → j < zs
    → n + (ys - 1 - j) ≡ n + zs - 1 - j
same_index n len zs ys j p q h k = omega arith

module _ {E W : Type 0} where
  shrink_loop-more :
      (fuel i n : ℕ) (v : Vector E W) (x : E)
      → n ≤ i
      → get_elem? v.array i ≡ some (some x)
      → shrink_loop (suc fuel) i n v ≡ shrink_loop fuel (pred_word i) n (destruct x v)
  unfolding shrink_loop
  shrink_loop-more fuel i n v x h e = rw (le→leb n i h, shrink_loop) (rw (element-done v.array i e))

  -- The loop calls the destructor on the elements of `zs`, which stand from the top down to `n`.
  shrink_loop-all :
      (zs : List E) (fuel n : ℕ) (v : Vector E W)
      → 0 < n
      → length zs < fuel
      → n + length zs < word
      → ((j : ℕ) (z : E)
          → get_elem? zs j ≡ some z
          → get_elem? v.array (n + length zs - 1 - j) ≡ some (some z))
      → shrink_loop fuel (n + length zs - 1) n v
        ≡ done (record v { world = destroy_all v.destructor zs v.world })
  shrink_loop-all zs zero n v pos enough small at = absurd (omega arith)
  shrink_loop-all [] (suc f) n v pos enough small at =
      unfold shrink_loop in rw (leb-false n (n + 0 - 1) (omega arith), shrink_loop)
  shrink_loop-all (z ∷ zs) (suc f) n v pos enough small at =
      let here : get_elem? v.array (n + suc (length zs) - 1) ≡ some (some z) =
        ap (get_elem? v.array) (omega arith) ∙ at 0 z refl in
      let down : pred_word (n + suc (length zs) - 1) ≡ n + length zs - 1 = omega arith in
      shrink_loop-more f (n + suc (length zs) - 1) n v z (omega arith) here
      ∙ ap (λ (k : ℕ). shrink_loop f k n (destruct z v)) down
      ∙ shrink_loop-all zs f n (destruct z v) pos (omega arith) (omega arith)
          (λ j y h. ap (get_elem? v.array) (omega arith) ∙ at (suc j) y h)

  -- `vector_resize` to a size above 0 that is not larger destroys the elements from the last one
  -- down to the new end, each once, and keeps the others.
  pub vector_resize-shrink :
      {v : Vector E W} {xs : List E} (mem : Bool) (n : ℕ)
      → Represents v xs
      → 0 < n
      → n ≤ length xs
      → length xs < 2 ^ 60
      → Yields
          (vector_resize mem v n)
          v.callbacks
          (take n xs)
          (destroy_all v.destructor (reverse (drop n xs)) v.world)
  unfolding vector_resize
  vector_resize-shrink {v} {xs} mem n r pos less small =
      let zs = reverse (drop n xs) in
      let count : length zs ≡ length xs - n =
        omega (arith, length-reverse (drop n xs), length-drop n xs) in
      let start : pred_word v.size ≡ n + length zs - 1 = omega (arith, r.size) in
      let run : shrink_loop (v.size + 2) (pred_word v.size) n v
          ≡ done (record v { world = destroy_all v.destructor zs v.world }) =
        ap (λ (k : ℕ). shrink_loop (v.size + 2) k n v) start
        ∙ shrink_loop-all zs (v.size + 2) n v pos (omega (arith, r.size)) (omega arith) (λ j z h.
          r.each (n + length zs - 1 - j) z (
            ground (
              arith,
              lt_of_get_elem? zs j h,
              length-drop n xs,
              get_elem?-reverse (drop n xs) j,
              get_elem?-drop n xs (length (drop n xs) - 1 - j),
              ap (get_elem? xs) (
                  same_index n (length xs) (length zs) (length (drop n xs)) j count
                    (omega (arith, length-drop n xs)) less (omega (arith, lt_of_get_elem? zs j h))),
            ))) in
      (
        record v { size = n; world = destroy_all v.destructor zs v.world },
        rw (
          ltb-false v.capacity n (omega (arith, r.fits, r.room)),
          ltb-false v.size n (omega (arith, r.size)),
          run,
        ),
        record {
          size = omega (arith, length-take n xs);
          room = r.room;
          bounded = r.bounded;
          fits = omega (arith, r.fits, length-take n xs);
          each = λ j y h. r.each j y (ground (arith, get_elem?-take n xs j));
        },
        refl,
        refl,
      )

  shrink_loop-fault :
      (fuel i : ℕ) (v : Vector E W)
      → element v.array i ≡ fault
      → shrink_loop (suc fuel) i 0 v ≡ fault
  unfolding shrink_loop
  shrink_loop-fault fuel i v e = rw (le→leb 0 i (omega arith), shrink_loop) (rw e)

  -- What follows a round towards 0: at 0 the index wraps and is outside.
  shrink_loop-wraps :
      (fuel i : ℕ) (v : Vector E W)
      → i < fuel
      → i < word
      → length v.array < word
      → (0 < i → shrink_loop fuel (i - 1) 0 v ≡ fault)
      → shrink_loop fuel (pred_word i) 0 v ≡ fault
  shrink_loop-wraps zero i v enough fits small rest = absurd (omega arith)
  shrink_loop-wraps (suc f) zero v enough fits small rest =
      shrink_loop-fault f (pred_word 0) v (element-fault v.array (pred_word 0) (omega arith))
  shrink_loop-wraps (suc f) (suc i) v enough fits small rest =
      let down : pred_word (suc i) ≡ suc i - 1 = omega arith in rw down (rest (omega arith))

  -- Towards 0 the loop never ends by its test: it moves down to 0, wraps, and faults.
  shrink_loop-zero :
      (fuel i : ℕ) (v : Vector E W)
      → i + 1 < fuel
      → i < word
      → length v.array < word
      → shrink_loop fuel i 0 v ≡ fault
  shrink_loop-zero zero i v enough fits small = absurd (omega arith)
  shrink_loop-zero (suc f) i v enough fits small = elim (Option-cases (get_elem? v.array i)) [
    | inl out ↦ shrink_loop-fault f i v (ground arith)
    | inr found ↦
        let (s, e) = found in
        elim (Option-cases s) [
          | inl empty ↦ shrink_loop-fault f i v (ground arith)
          | inr full ↦
              let (x, stored) = full in
              shrink_loop-more f i 0 v x (omega arith) (e ∙ ap some stored)
              ∙ shrink_loop-wraps f i (destruct x v) (omega arith) fits small
                  (λ h. shrink_loop-zero f (i - 1) (destruct x v) (omega arith) (omega arith) small)
        ]
  ]

  shrink_loop-start :
      (v : Vector E W)
      → v.size + 1 < word
      → length v.array < word
      → shrink_loop (v.size + 2) (pred_word v.size) 0 v ≡ fault
  shrink_loop-start v fits small = elim (ℕ_discrete v.size 0) [
    | yes empty ↦
        let wraps : pred_word v.size ≡ pred_word 0 = ap pred_word empty in
        let fuel : v.size + 2 ≡ suc (v.size + 1) = omega arith in
        ap₂ (λ (f i : ℕ). shrink_loop f i 0 v) fuel wraps
        ∙ shrink_loop-fault (v.size + 1) (pred_word 0) v
            (element-fault v.array (pred_word 0) (omega arith))
    | no some_left ↦
        shrink_loop-zero (v.size + 2) (pred_word v.size) v (omega arith) (omega arith) small
  ]

  -- `vector_resize` to 0 never works: the index of its loop is unsigned, wraps below 0, and the
  -- loop uses what stands outside the array, whatever the vector holds.
  pub vector_resize-zero :
      (mem : Bool) (v : Vector E W)
      → v.size + 1 < word
      → length v.array < word
      → vector_resize mem v 0 ≡ fault
  unfolding vector_resize
  vector_resize-zero mem v fits small =
      rw (ltb-false v.capacity 0 (omega arith), ltb-false v.size 0 (omega arith))
        (rw (shrink_loop-start v fits small))
