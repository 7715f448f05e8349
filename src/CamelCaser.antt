-- ===== src/CamelCaser.antt =====
-- extreme_edge_cases/camelCaser.c: the sentences of a string in camel case.
-- A C string is the list of its bytes before the final 0. The character classes are those of the C
-- locale. Memory for the results is assumed.
pub mod Sentences
mod Tests
use system_programming_uiuc.Prelude.{
  ℕ, ◌+◌, ◌-◌, Bool, true, false, ◌&&◌, ◌||◌, Option, none, some, List, [], ◌∷◌, ◌++◌, leb, ◌==◌,
  if◌then◌else◌,
}

abbrev between : ℕ → ℕ → ℕ → Bool
between lo hi c = leb lo c && leb c hi

pub isupper : ℕ → Bool
isupper c = between 65 90 c

pub islower : ℕ → Bool
islower c = between 97 122 c

unfoldable pub isalpha : ℕ → Bool
unfolding isupper islower
isalpha c = isupper c || islower c

unfoldable pub isspace : ℕ → Bool
isspace c = c == 32 || between 9 13 c

unfoldable pub ispunct : ℕ → Bool
ispunct c = between 33 47 c || between 58 64 c || between 91 96 c || between 123 126 c

unfoldable pub tolower : ℕ → ℕ
unfolding isupper
tolower c = if isupper c then c + 32 else c

unfoldable pub toupper : ℕ → ℕ
unfolding islower
toupper c = if islower c then c - 32 else c

-- The local variables of the loop; `word` holds the `word_size` bytes written so far.
pub record Scan : Type 0 where
  pub output_str : List (List ℕ)
  pub word : List ℕ
  pub new_sent : Bool
  pub new_word : Bool

-- A character that is no punctuation and no space.
pub put_char : ℕ → Scan → Scan
put_char c s =
    if isalpha c
    then record s {
      word =
          s.word
          ++ (if s.new_sent then tolower c else if s.new_word then toupper c else tolower c) ∷ [];
      new_sent = false;
      new_word = false;
    }
    else record s { word = s.word ++ c ∷ [] }

-- One round of the loop.
pub scan_char : ℕ → Scan → Scan
unfolding put_char
scan_char c s =
    if ispunct c
    then record {
      output_str = s.output_str ++ s.word ∷ [];
      word = [];
      new_sent = true;
      new_word = true;
    }
    else if isspace c
    then record s { new_word = true }
    else put_char c s

pub scan : List ℕ → Scan → Scan
unfolding scan_char
scan [] s = s
scan (c ∷ cs) s = scan cs (scan_char c s)

-- `none` is `NULL`, for the argument and for the result. The final `NULL` of the result is the end
-- of the list; a word that no punctuation ends is lost.
pub camel_caser : Option (List ℕ) → Option (List (List ℕ))
unfolding scan
camel_caser none = none
camel_caser (some input_str) =
    some
      (scan input_str
        (record { output_str = []; word = []; new_sent = true; new_word = true })).output_str
