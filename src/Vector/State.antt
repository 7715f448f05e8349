-- ===== src/Vector/State.antt =====
-- vector/vector.c: the vector's record, its creation and destruction, its capacity, and the
-- functions that read or overwrite single elements.
-- An element is a value of `E`. The destructor acts on a world `W`, which the record carries, so
-- that the order and number of its calls show. `size_t` is 64 bits wide. What `malloc` and
-- `realloc` answer is a Boolean argument `mem`.
use system_programming_uiuc.Prelude.{
  ℕ, zero, suc, ◌+◌, ◌-◌, ◌*◌, ◌%◌, Bool, true, false, Option, none, some, List, ltb, leb, ◌==◌,
  if◌then◌else◌, replicate,
}
use system_programming_uiuc.Prelude.Outcome.{Outcome, done, abort, no_fuel, ◌>>=◌}
use mathlib.Core.Option
use system_programming_uiuc.Vector.Slots.{word, pointer_size, realloc, element, store}

abbrev pub initial_capacity : ℕ
initial_capacity = 8

abbrev pub growth_factor : ℕ
growth_factor = 2

pub record Callbacks (E W : Type 0) : Type 0 where
  pub copy_constructor : E → E
  pub destructor : E → W → W
  pub default_constructor : E

pub record Vector (E W : Type 0) : Type 0 where
  pub callbacks : Callbacks E W
  pub open callbacks use *
  pub array : List (Option E)
  pub size : ℕ
  pub capacity : ℕ
  pub world : W

unfoldable pub capacity_loop : ℕ → ℕ → ℕ → Outcome ℕ
capacity_loop zero new_capacity target = no_fuel
capacity_loop (suc fuel) new_capacity target = elim (ltb new_capacity target) [
  | true ↦ capacity_loop fuel (new_capacity * growth_factor % word) target
  | false ↦ done new_capacity
]

-- The fuel is an argument; `grow_fuel` is enough for every target that the loop can meet.
unfoldable pub get_new_capacity : ℕ → ℕ → Outcome ℕ
unfolding capacity_loop
get_new_capacity fuel target = capacity_loop fuel 1 target

abbrev pub grow_fuel : ℕ
grow_fuel = 65

module _ {E W : Type 0} where
  -- `this->destructor(x)`
  abbrev pub destruct : E → Vector E W → Vector E W
  destruct x v = record v { world = v.destructor x v.world }

  unfoldable pub vector_create :
      (shallow : Callbacks E W)
      → Option (E → E)
      → Option (E → W → W)
      → Option E
      → Bool
      → W
      → Outcome (Vector E W)
  vector_create shallow copy destructor default mem world =
      if mem
      then done (record {
        callbacks = record {
          copy_constructor = Option.get_or copy shallow.copy_constructor;
          destructor = Option.get_or destructor shallow.destructor;
          default_constructor = Option.get_or default shallow.default_constructor;
        };
        array = replicate initial_capacity none;
        size = 0;
        capacity = initial_capacity;
        world = world;
      })
      else abort

  -- `for (i = from; rounds more; i++) destructor(array[i])`
  unfoldable pub destroy_from : ℕ → ℕ → Vector E W → Outcome (Vector E W)
  destroy_from zero i v = done v
  destroy_from (suc rounds) i v =
      element v.array i >>= λ x. destroy_from rounds (i + 1) (destruct x v)

  unfoldable pub vector_destroy : Vector E W → Outcome W
  unfolding destroy_from
  vector_destroy v = do v' ← destroy_from v.size 0 v; done v'.world

  unfoldable pub vector_size : Vector E W → ℕ
  vector_size v = v.size

  unfoldable pub vector_capacity : Vector E W → ℕ
  vector_capacity v = v.capacity

  unfoldable pub vector_empty : Vector E W → Bool
  vector_empty v = if leb v.size 0 then true else false

  unfoldable pub vector_reserve : Bool → Vector E W → ℕ → Outcome (Vector E W)
  vector_reserve mem v n =
      if ltb v.capacity n
      then (do
        c ← get_new_capacity grow_fuel n
        done (record v { capacity = c; array = realloc mem v.array (c * pointer_size % word) }))
      else done v

  -- The index of the slot whose address `vector_at` returns.
  unfoldable pub vector_at : Vector E W → ℕ → Outcome ℕ
  vector_at v position = if leb v.size position then abort else done position

  unfoldable pub vector_set : Vector E W → ℕ → E → Outcome (Vector E W)
  vector_set v position x = if leb v.size position then abort else (do
    old ← element v.array position
    array ← store v.array position (some (v.copy_constructor x))
    done (record v { array = array; world = v.destructor old v.world }))

  unfoldable pub vector_get : Vector E W → ℕ → Outcome E
  vector_get v position = if leb v.size position then abort else element v.array position

  unfoldable pub vector_front : Vector E W → Outcome E
  vector_front v = element v.array 0

  -- `none` is the `NULL` of an empty vector.
  unfoldable pub vector_back : Vector E W → Outcome (Option E)
  vector_back v =
      if v.size == 0 then done none else (element v.array (v.size - 1) >>= λ x. done (some x))
