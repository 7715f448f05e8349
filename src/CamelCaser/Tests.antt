-- ===== src/CamelCaser/Tests.antt =====
-- extreme_edge_cases/camelCaser.c: the theorem at a concrete string, and runs of the automaton.
use system_programming_uiuc.Prelude.{ℕ, ◌≡◌, refl, some, List, [], ◌∷◌, map}
use Prim.Native.Char.{code}
use Prim.Native.String.{String}
use system_programming_uiuc.CamelCaser.{camel_caser, ispunct, isspace, isalpha, tolower, toupper}
use system_programming_uiuc.CamelCaser.Sentences.{sentences, words, camel, camel_caser-sentences}

abbrev bytes : String → List ℕ
bytes String.[] = []
bytes (String.◌∷◌ c s) = code c ∷ bytes s

camel_caser-sentences_example :
    camel_caser (some (bytes "The HEisenbug 2b is. gone"))
    ≡ some (map (λ s. camel (words s)) (sentences (bytes "The HEisenbug 2b is. gone")))
camel_caser-sentences_example = camel_caser-sentences (bytes "The HEisenbug 2b is. gone")

heisenbug :
    camel_caser (some (bytes "The HEisenbug 2b is. gone")) ≡ some (bytes "theHeisenbug2BIs" ∷ [])
unfolding camel_caser ispunct isspace isalpha tolower toupper
heisenbug = refl

two_marks : camel_caser (some (bytes "a!b c?")) ≡ some (bytes "a" ∷ bytes "bC" ∷ [])
unfolding camel_caser ispunct isspace isalpha tolower toupper
two_marks = refl
