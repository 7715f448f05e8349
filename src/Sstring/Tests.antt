-- ===== src/Sstring/Tests.antt =====
-- Runs of vector/sstring.c at fixed inputs; 44 is the comma.
use system_programming_uiuc.Prelude.{ℕ, ◌≡◌, refl, ◌⊎◌, Bool, true, some, List, [], ◌∷◌, ◌++◌}
use system_programming_uiuc.Prelude.Outcome.{done}
use system_programming_uiuc.Sstring.{Text, token, split_loop, sstring_split}
use system_programming_uiuc.Sstring.Split.{AllWithout, terminated, sstring_split-terminated}

abbrev plenty : ℕ → Bool
plenty n = true

-- "a,,b"
abbrev line : Text
line = 97 ∷ 44 ∷ 44 ∷ 98 ∷ []

three_pieces : sstring_split plenty line 44 ≡ done (some ((97 ∷ []) ∷ [] ∷ (98 ∷ []) ∷ []))
unfolding sstring_split split_loop token
three_pieces = refl

sstring_split-terminated_example :
    (ps : List Text) × (sstring_split plenty line 44 ≡ done (some ps))
    × AllWithout 44 ps
    × ((terminated 44 ps ≡ line) ⊎ (terminated 44 ps ≡ line ++ 44 ∷ []))
sstring_split-terminated_example = sstring_split-terminated plenty line 44 (λ n. refl)
