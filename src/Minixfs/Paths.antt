-- ===== src/Minixfs/Paths.antt =====
-- finding_filesystems/minixfs.c: get_filename_from_path and get_parent_path.
use system_programming_uiuc.Prelude.{
  ℕ, zero, suc, ◌-◌, Bool, true, false, ◌&&◌, Option, none, some, List, [], ◌∷◌, leb, ◌==◌, length,
  get_elem?, take, drop, if◌then◌else◌,
}
use system_programming_uiuc.Prelude.Outcome.{Outcome, done, fault, ◌>>=◌}

abbrev pub slash : ℕ
slash = 47

-- What follows the last slash, if there is one: `strrchr`.
unfoldable pub after_slash : List ℕ → Option (List ℕ)
after_slash [] = none
after_slash (c ∷ path) =
    let rest = after_slash path in
    elim rest [ some name ↦ some name | none ↦ if c == slash then some path else none ]

unfoldable pub get_filename_from_path : List ℕ → List ℕ
unfolding after_slash
get_filename_from_path path = elim (after_slash path) [ some name ↦ name | none ↦ path ]

-- `strcmp` is zero.
unfoldable pub same_text : List ℕ → List ℕ → Bool
same_text [] [] = true
same_text [] (c ∷ b) = false
same_text (c ∷ a) [] = false
same_text (c ∷ a) (d ∷ b) = c == d && same_text a b

-- The text in front of a name: `n` characters, and one less when the last is a slash; the character
-- in front of the whole text is outside the memory.
unfoldable pub cut_parent : List ℕ → ℕ → Outcome (List ℕ)
cut_parent path zero = fault
cut_parent path (suc n) = elim (get_elem? path n) [
  | none ↦ fault
  | some c ↦ done (if c == slash then take n path else take (suc n) path)
]

-- `room` says whether `malloc` has memory; `none` is NULL.
unfoldable pub get_parent_path : Bool → List ℕ → List ℕ → Outcome (Option (List ℕ))
unfolding cut_parent same_text
get_parent_path false path filename = done none
get_parent_path true path filename =
    let n = length path - length filename in
    elim (leb (length filename) (length path) && same_text (drop n path) filename) [
      | true ↦ cut_parent path n >>= λ parent. done (some parent)
      | false ↦ done (some path)
    ]
