-- ===== src/Sstring.antt =====
-- vector/sstring.c: sstring_split.
-- The text of a string is the list of its characters, none of which is 0, so that the C functions
-- on `str` see all `size` of them. The vector of pieces is the list of the strings that
-- `vector_push_back` copies.
pub mod Split
mod Tests
use system_programming_uiuc.Prelude.{
  ℕ, zero, suc, ◌+◌, Bool, true, false, Option, none, some, List, [], ◌∷◌, ◌++◌, ◌==◌,
  if◌then◌else◌, length,
}
use system_programming_uiuc.Prelude.Outcome.{Outcome, done, no_fuel}

abbrev pub Text : Type 0
Text = List ℕ

-- `strchr(start, delimiter)`: what stands before the delimiter and what stands behind it.
unfoldable pub token : Text → ℕ → Option (Text × Text)
token [] delimiter = none
token (c ∷ cs) delimiter = if c == delimiter then some ([], cs) else elim (token cs delimiter) [
  | none ↦ none
  | some (before, behind) ↦ some (c ∷ before, behind)
]

-- The `while` loop from `start` on; `malloc` answers for a number of bytes. `none` is `NULL`.
unfoldable pub split_loop : (ℕ → Bool) → ℕ → ℕ → Text → List Text → Outcome (Option (List Text))
split_loop malloc delimiter fuel [] output = done (some output)
split_loop malloc delimiter zero (c ∷ cs) output = no_fuel
split_loop malloc delimiter (suc fuel) (c ∷ cs) output = elim (token (c ∷ cs) delimiter) [
  | none ↦ done (some (output ++ (c ∷ cs) ∷ []))
  | some (before, behind) ↦ elim (malloc (length before + 1)) [
    | false ↦ done none
    | true ↦ split_loop malloc delimiter fuel behind (output ++ before ∷ [])
  ]
]

-- A round takes at least one character: their number is fuel enough.
unfoldable pub sstring_split : (ℕ → Bool) → Text → ℕ → Outcome (Option (List Text))
sstring_split malloc str delimiter = split_loop malloc delimiter (length str) str []
