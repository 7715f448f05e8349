-- ===== src/Vector/Contents.antt =====
-- vector/vector.c: the list that a vector stands for, and what the functions on single elements,
-- vector_reserve, vector_push_back and vector_pop_back do to it.
use system_programming_uiuc.Prelude.{
  ℕ, ◌*◌, ◌%◌, ◌^◌, ◌≤◌, ◌<◌, ◌≡◌, sym, ◌∙◌, some, List, arith, length, get_elem?, lt_of_get_elem?,
}
use system_programming_uiuc.Prelude.Outcome.{Outcome, done}
use system_programming_uiuc.Vector.Slots.{
  word, pointer_size, reallocated, length-reallocated, get_elem?-reallocated,
}
use system_programming_uiuc.Vector.State.{Callbacks, Vector}

module _ {E W : Type 0} where
  -- `v` stands for the list `xs`: its size is the length, the array has as many slots as the
  -- capacity says, fewer than 2 ^ 63, and slot `i` holds element `i`.
  pub record Represents (v : Vector E W) (xs : List E) : Type 0 where
    pub size : v.size ≡ length xs
    pub room : v.capacity ≡ length v.array
    pub fits : length xs ≤ length v.array
    pub bounded : length v.array < 2 ^ 63
    pub each : (i : ℕ) (x : E) → get_elem? xs i ≡ some x → get_elem? v.array i ≡ some (some x)

  -- The vector after a successful `realloc` to `c` slots.
  abbrev pub grown : Vector E W → ℕ → Vector E W
  grown v c = record v { capacity = c; array = reallocated v.array (c * pointer_size % word) }

  pub grown-Represents :
      {v : Vector E W} {xs : List E} (c : ℕ)
      → Represents v xs
      → length xs ≤ c
      → c * pointer_size < word
      → Represents (grown v c) xs
  grown-Represents {v} {xs} c r big small = record {
    size = r.size;
    room = sym (length-reallocated v.array c small);
    fits = omega (arith, length-reallocated v.array c small);
    bounded = omega (arith, small, length-reallocated v.array c small);
    each = λ i x h.
        let below : i < length xs = lt_of_get_elem? xs i h in
        get_elem?-reallocated v.array c i small (omega arith) (omega arith) ∙ r.each i x h;
  }

  -- The call returns a vector that stands for `xs`, has the callbacks `cb`, and whose destructor
  -- calls have left the world `w`.
  abbrev pub Yields : Outcome (Vector E W) → Callbacks E W → List E → W → Type 0
  Yields o cb xs w =
      (v : Vector E W) × (o ≡ done v) × Represents v xs × (v.callbacks ≡ cb) × (v.world ≡ w)
