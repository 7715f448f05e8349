-- ===== src/Vector/Shift.antt =====
-- vector/vector.c: the loop of vector_insert that moves the slots up.
use system_programming_uiuc.Prelude.{
  ℕ, zero, suc, ◌+◌, ◌-◌, ◌%◌, ◌≤◌, ◌<◌, ◌≡◌, refl, ap, ◌∙◌, ◌&&◌, Option, some, List, arith,
  dec_lt, ltb, leb, if◌then◌else◌, length, get_elem?, set, length-set, le→leb, ltb-false, leb-false,
  get_elem?-set, get_elem?_lt,
}
use system_programming_uiuc.Prelude.Outcome.{done, fault}
use system_programming_uiuc.Vector.Slots.{word, pred_word, slot-done, slot-fault, store-done}
use system_programming_uiuc.Vector.Edit.{shift_loop}

shift_loop-stop :
    {E : Type 0} (fuel i position : ℕ) (array : List (Option E))
    → i < position
    → shift_loop (suc fuel) i position array ≡ done array
unfolding shift_loop
shift_loop-stop fuel i position array h = rw (leb-false position i h, shift_loop)

-- One round, with room for the slot one above.
shift_loop-more :
    {E : Type 0} (fuel i position : ℕ) (array : List (Option E)) {s : Option E}
    → position ≤ i
    → i + 1 < length array
    → i + 1 < word
    → get_elem? array i ≡ some s
    → shift_loop (suc fuel) i position array
      ≡ shift_loop fuel (pred_word i) position (set array (i + 1) s)
unfolding shift_loop
shift_loop-more fuel i position array {s} h room small e =
    let up : (i + 1) % word ≡ i + 1 = omega arith in
    rw (le→leb position i h, shift_loop)
      (rw (slot-done array i e, up, store-done array (i + 1) s room))

shift_loop-outside :
    {E : Type 0} (fuel i position : ℕ) (array : List (Option E))
    → position ≤ i
    → length array ≤ i
    → shift_loop (suc fuel) i position array ≡ fault
unfolding shift_loop
shift_loop-outside fuel i position array h out =
    rw (le→leb position i h, shift_loop) (rw (slot-fault array i out))

-- One round at the last slot, with none above it.
shift_loop-full :
    {E : Type 0} (fuel i position : ℕ) (array : List (Option E)) {s : Option E}
    → position ≤ i
    → length array ≤ i + 1
    → i + 1 < word
    → get_elem? array i ≡ some s
    → shift_loop (suc fuel) i position array ≡ fault
unfolding shift_loop
shift_loop-full fuel i position array {s} h out small e =
    let up : (i + 1) % word ≡ i + 1 = omega arith in
    rw (le→leb position i h, shift_loop)
      (rw (slot-done array i e, up, ltb-false (i + 1) (length array) out))

-- The loop of `vector_insert` moves the slots from `position` to `i` up by one.
pub shift_loop-done :
    {E : Type 0} (fuel i position : ℕ) (array : List (Option E))
    → 0 < position
    → position ≤ i + 1
    → i + 1 < length array
    → i + 1 < word
    → i + 1 < fuel
    → (array' : List (Option E)) × (shift_loop fuel i position array ≡ done array')
      × (length array' ≡ length array)
      × ((j : ℕ)
          → get_elem? array' j ≡ (
              if ltb position j && leb j (i + 1)
              then get_elem? array (j - 1)
              else get_elem? array j))
shift_loop-done zero i position array front start room small fuel = absurd (omega arith)
shift_loop-done (suc f) i position array front start room small fuel = elim (dec_lt i position) [
  | yes stop ↦ (array, shift_loop-stop f i position array stop, refl, λ j. ground arith)
  | no more ↦
      let (s, e) = get_elem?_lt array i (omega arith) in
      let moved = set array (i + 1) s in
      let down : pred_word i ≡ i - 1 = omega arith in
      let (array', run, same, at) =
        shift_loop-done f (i - 1) position moved front (omega arith)
          (omega (arith, length-set array (i + 1) s)) (omega arith) (omega arith) in
      (
        array',
        shift_loop-more f i position array (omega arith) room small e
            ∙ ap (λ (k : ℕ). shift_loop f k position moved) down
            ∙ run,
        same ∙ length-set array (i + 1) s,
        λ j.
            ground
              (arith, at j, get_elem?-set array (i + 1) s j, get_elem?-set array (i + 1) s (j - 1)),
      )
]

-- What follows a round of the loop towards position 0: at 0 the index wraps and is outside.
shift_loop-wraps :
    {E : Type 0} (fuel i : ℕ) (array : List (Option E))
    → i < fuel
    → i < word
    → length array + 1 < word
    → (0 < i → shift_loop fuel (i - 1) 0 array ≡ fault)
    → shift_loop fuel (pred_word i) 0 array ≡ fault
shift_loop-wraps zero i array enough fits small rest = absurd (omega arith)
shift_loop-wraps (suc f) zero array enough fits small rest =
    shift_loop-outside f (pred_word 0) 0 array (omega arith) (omega arith)
shift_loop-wraps (suc f) (suc i) array enough fits small rest =
    let down : pred_word (suc i) ≡ suc i - 1 = omega arith in rw down (rest (omega arith))

-- Towards position 0 the loop never ends by its test: it moves down to 0, wraps, and faults.
pub shift_loop-front :
    {E : Type 0} (fuel i : ℕ) (array : List (Option E))
    → i + 1 < fuel
    → i + 1 < word
    → length array + 1 < word
    → shift_loop fuel i 0 array ≡ fault
shift_loop-front zero i array enough fits small = absurd (omega arith)
shift_loop-front (suc f) i array enough fits small = elim (dec_lt i (length array)) [
  | no outside ↦ shift_loop-outside f i 0 array (omega arith) (omega arith)
  | yes inside ↦
      let (s, e) = get_elem?_lt array i inside in
      elim (dec_lt (i + 1) (length array)) [
        | no full ↦ shift_loop-full f i 0 array (omega arith) (omega arith) fits e
        | yes room ↦
            shift_loop-more f i 0 array (omega arith) room fits e
            ∙ shift_loop-wraps f i (set array (i + 1) s) (omega arith) (omega arith)
                (omega (arith, length-set array (i + 1) s))
                (λ h.
                  shift_loop-front f (i - 1) (set array (i + 1) s) (omega arith) (omega arith)
                    (omega (arith, length-set array (i + 1) s)))
      ]
]

pub shift_loop-front_start :
    {E : Type 0} (n : ℕ) (array : List (Option E))
    → n < word
    → length array + 1 < word
    → shift_loop (n + 2) (pred_word n) 0 array ≡ fault
shift_loop-front_start zero array fits small =
    shift_loop-outside 1 (pred_word 0) 0 array (omega arith) (omega arith)
shift_loop-front_start (suc n) array fits small =
    let down : pred_word (suc n) ≡ n = omega arith in
    rw down (shift_loop-front (suc n + 2) n array (omega arith) (omega arith) small)
