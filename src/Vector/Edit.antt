-- ===== src/Vector/Edit.antt =====
-- vector/vector.c: the functions that change the number of elements. The `for` loops that count
-- down run on fuel, since their `size_t` index wraps below 0; the others run on the rounds left.
use system_programming_uiuc.Prelude.{
  ℕ, zero, suc, ◌+◌, ◌-◌, ◌*◌, ◌%◌, Bool, true, false, Option, some, List, ltb, leb, ◌==◌,
  if◌then◌else◌,
}
use system_programming_uiuc.Prelude.Outcome.{Outcome, done, abort, no_fuel, ◌>>=◌}
use system_programming_uiuc.Vector.Slots.{
  word, pointer_size, pred_word, reallocated, realloc, element, slot, store,
}
use system_programming_uiuc.Vector.State.{
  Vector, get_new_capacity, grow_fuel, destruct, destroy_from,
}

-- `for (i = start; i >= position; i--) array[i + 1] = array[i]`, where `i` wraps below 0
unfoldable pub shift_loop : {E : Type 0} → ℕ → ℕ → ℕ → List (Option E) → Outcome (List (Option E))
shift_loop zero i position array = no_fuel
shift_loop (suc fuel) i position array = elim (leb position i) [
  | true ↦
      (slot array i >>= λ s.
      store array ((i + 1) % word) s >>= λ array'. shift_loop fuel (pred_word i) position array')
  | false ↦ done array
]

module _ {E W : Type 0} where
  -- `for (i = from; rounds more; i++) array[i] = default_constructor()`
  unfoldable pub fill_from : ℕ → ℕ → Vector E W → Outcome (Vector E W)
  fill_from zero i v = done v
  fill_from (suc rounds) i v = store v.array i (some v.default_constructor) >>= λ array.
      fill_from rounds (i + 1) (record v { array = array })

  -- `for (i = start; i >= n; i--) destructor(array[i])`, where `i` wraps below 0
  unfoldable pub shrink_loop : ℕ → ℕ → ℕ → Vector E W → Outcome (Vector E W)
  shrink_loop zero i n v = no_fuel
  shrink_loop (suc fuel) i n v = elim (leb n i) [
    | true ↦ (element v.array i >>= λ x. shrink_loop fuel (pred_word i) n (destruct x v))
    | false ↦ done v
  ]

  -- The branch of `vector_resize` that has a new capacity `c`.
  unfoldable pub resize_grown : Bool → Vector E W → ℕ → ℕ → Outcome (Vector E W)
  unfolding fill_from
  resize_grown mem v n c =
      if mem
      then fill_from (n - v.size) v.size
          (record v { capacity = c; array = reallocated v.array (c * pointer_size % word) })
      else abort

  unfoldable pub vector_resize : Bool → Vector E W → ℕ → Outcome (Vector E W)
  unfolding fill_from shrink_loop resize_grown
  vector_resize mem v n =
      (if ltb v.capacity n
        then get_new_capacity grow_fuel n >>= resize_grown mem v n
        else if ltb v.size n
        then fill_from (n - v.size) v.size v
        else shrink_loop (v.size + 2) (pred_word v.size) n v)
      >>= λ v'. done (record v' { size = n })

  -- The stores of `vector_push_back`, once there is room.
  unfoldable pub push_last : E → Vector E W → Outcome (Vector E W)
  push_last x v = do
    array ← store v.array v.size (some (v.copy_constructor x))
    done (record v { array = array; size = (v.size + 1) % word })

  -- The branch of `vector_push_back` that has a new capacity `c`.
  unfoldable pub push_grown : Bool → E → Vector E W → ℕ → Outcome (Vector E W)
  unfolding push_last
  push_grown mem x v c =
      if mem
      then push_last x
          (record v { capacity = c; array = reallocated v.array (c * pointer_size % word) })
      else abort

  unfoldable pub vector_push_back : Bool → Vector E W → E → Outcome (Vector E W)
  unfolding push_last push_grown
  vector_push_back mem v x =
      if v.size == v.capacity
      then get_new_capacity grow_fuel ((v.capacity + 1) % word) >>= push_grown mem x v
      else push_last x v

  -- On an empty vector a warning is printed, and nothing changes.
  unfoldable pub vector_pop_back : Vector E W → Outcome (Vector E W)
  vector_pop_back v =
      if ltb 0 v.size
      then (do x ← element v.array (v.size - 1); done (record (destruct x v) { size = v.size - 1 }))
      else done v

  -- The loop and the stores of `vector_insert`, once the capacity is set.
  unfoldable pub insert_at : ℕ → E → Vector E W → Outcome (Vector E W)
  unfolding shift_loop
  insert_at position x v = do
    shifted ← shift_loop (v.size + 2) (pred_word v.size) position v.array
    array ← store shifted position (some (v.copy_constructor x))
    done (record v { array = array; size = (v.size + 1) % word })

  unfoldable pub vector_insert : Bool → Vector E W → ℕ → E → Outcome (Vector E W)
  unfolding insert_at
  vector_insert mem v position x =
      if v.size == v.capacity
      then (do
        c ← get_new_capacity grow_fuel ((v.capacity + 1) % word)
        insert_at position x
            (record v { capacity = c; array = realloc mem v.array (c * pointer_size % word) }))
      else insert_at position x v

  -- `for (i = from; rounds more; i++) array[i] = copy_constructor(array[i + 1])`
  unfoldable pub close_from : ℕ → ℕ → Vector E W → Outcome (Vector E W)
  close_from zero i v = done v
  close_from (suc rounds) i v = element v.array (i + 1) >>= λ x.
      store v.array i (some (v.copy_constructor x)) >>= λ array.
      close_from rounds (i + 1) (record v { array = array })

  unfoldable pub vector_erase : Vector E W → ℕ → Outcome (Vector E W)
  unfolding close_from
  vector_erase v position =
      if ltb position v.size
      then (do
        x ← element v.array position
        v' ← close_from (v.size - 1 - position) position (destruct x v)
        done (record v' { size = v.size - 1 }))
      else abort

  unfoldable pub vector_clear : Vector E W → Outcome (Vector E W)
  unfolding destroy_from
  vector_clear v = do v' ← destroy_from v.size 0 v; done (record v' { size = 0 })
