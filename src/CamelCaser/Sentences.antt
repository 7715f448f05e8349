-- ===== src/CamelCaser/Sentences.antt =====
-- extreme_edge_cases/camelCaser.c against a description by sentences and words.
use system_programming_uiuc.Prelude.{
  ℕ, ◌≡◌, refl, sym, ap, ◌∙◌, inl, inr, Bool, true, false, ◌||◌, some, List, [], ◌∷◌, ◌++◌, map,
  append-nil, append_assoc, arith, if◌then◌else◌, Bool-cases,
}
use mathlib.Core.Path.{ap₂}
use system_programming_uiuc.CamelCaser.{
  isalpha, isspace, ispunct, tolower, toupper, Scan, scan_char, scan, camel_caser,
}

-- The texts before each punctuation character; what follows the last one is dropped.
extend : ℕ → List (List ℕ) → List (List ℕ)
extend c [] = []
extend c (s ∷ ss) = (c ∷ s) ∷ ss

pub sentences : List ℕ → List (List ℕ)
unfolding extend
sentences [] = []
sentences (c ∷ cs) = if ispunct c then [] ∷ sentences cs else extend c (sentences cs)

-- The texts between white space.
join_first : ℕ → List (List ℕ) → List (List ℕ)
join_first c [] = (c ∷ []) ∷ []
join_first c (w ∷ ws) = (c ∷ w) ∷ ws

pub words : List ℕ → List (List ℕ)
unfolding join_first
words [] = [] ∷ []
words (c ∷ cs) = if isspace c then [] ∷ words cs else join_first c (words cs)

-- All letters in lower case.
pub lower : List ℕ → List ℕ
lower [] = []
lower (c ∷ cs) = (if isalpha c then tolower c else c) ∷ lower cs

-- The first letter in upper case, the other letters in lower case.
pub title : List ℕ → List ℕ
unfolding lower
title [] = []
title (c ∷ cs) = if isalpha c then toupper c ∷ lower cs else c ∷ title cs

pub titles : List (List ℕ) → List ℕ
unfolding title
titles [] = []
titles (w ∷ ws) = title w ++ titles ws

pub has_letter : List ℕ → Bool
has_letter [] = false
has_letter (c ∷ cs) = isalpha c || has_letter cs

-- The words joined: the first one with a letter in lower case, the later ones as titles.
pub camel : List (List ℕ) → List ℕ
unfolding lower titles has_letter
camel [] = []
camel (w ∷ ws) = lower w ++ (if has_letter w then titles ws else camel ws)

-- What the automaton writes for the rest of a sentence, by its two flags.
continued : List (List ℕ) → List ℕ
unfolding lower titles
continued [] = []
continued (w ∷ ws) = lower w ++ titles ws

rest_of : Bool → Bool → List (List ℕ) → List ℕ
unfolding camel titles continued
rest_of true nw ws = camel ws
rest_of false true ws = titles ws
rest_of false false ws = continued ws

-- A letter goes on with both flags cleared.
rest_of-letter :
    (ns nw : Bool) (c : ℕ) (ws : List (List ℕ))
    → isalpha c ≡ true
    → rest_of ns nw (join_first c ws)
      ≡ (if ns then tolower c else if nw then toupper c else tolower c) ∷ rest_of false false ws
unfolding rest_of join_first
rest_of-letter true nw c [] h = rw h
rest_of-letter true nw c (w ∷ ws) h = rw h
rest_of-letter false true c [] h = rw h
rest_of-letter false true c (w ∷ ws) h = rw h
rest_of-letter false false c [] h = rw h
rest_of-letter false false c (w ∷ ws) h = rw h

-- Another character that is no space is kept, and so are the flags.
rest_of-other :
    (ns nw : Bool) (c : ℕ) (ws : List (List ℕ))
    → isalpha c ≡ false
    → rest_of ns nw (join_first c ws) ≡ c ∷ rest_of ns nw ws
unfolding rest_of join_first
rest_of-other true nw c [] h = rw h
rest_of-other true nw c (w ∷ ws) h = rw h
rest_of-other false true c [] h = rw h
rest_of-other false true c (w ∷ ws) h = rw h
rest_of-other false false c [] h = rw h
rest_of-other false false c (w ∷ ws) h = rw h

rest_of-space : (ns nw : Bool) (ws : List (List ℕ)) → rest_of ns nw ([] ∷ ws) ≡ rest_of ns true ws
unfolding rest_of
rest_of-space true nw ws = refl
rest_of-space false true ws = refl
rest_of-space false false ws = refl

-- The results that are still to come, where `ss` are the sentences of what is not yet read.
finish : Scan → List (List ℕ) → List (List ℕ)
finish s [] = []
finish s (t ∷ ss) =
    (s.word ++ rest_of s.new_sent s.new_word (words t)) ∷ map (λ u. camel (words u)) ss

finish-extend :
    (c : ℕ) (s : Scan) (ss : List (List ℕ))
    → ispunct c ≡ false
    → finish s (extend c ss) ≡ finish (scan_char c s) ss
unfolding finish extend words scan_char
finish-extend c s [] h = refl
finish-extend c s (t ∷ ss) h = elim (Bool-cases (isspace c)) [
  | inl space ↦ rw (h, space) (rw rest_of-space)
  | inr other ↦ elim (Bool-cases (isalpha c)) [
    | inl letter ↦
        rw (h, other)
          (rw letter (rw (rest_of-letter s.new_sent s.new_word c (words t) letter, append_assoc)))
    | inr sign ↦
        rw (h, other)
          (rw sign (rw (rest_of-other s.new_sent s.new_word c (words t) sign, append_assoc)))
  ]
]

-- At the start of a sentence the results to come are the sentences in camel case.
finish-fresh :
    (output : List (List ℕ)) (ss : List (List ℕ))
    → finish (record { output_str = output; word = []; new_sent = true; new_word = true }) ss
      ≡ map (λ u. camel (words u)) ss
unfolding finish rest_of
finish-fresh output [] = refl
finish-fresh output (t ∷ ss) = refl

rest_of-end : (ns nw : Bool) → rest_of ns nw (words []) ≡ []
unfolding rest_of words has_letter
rest_of-end true nw = refl
rest_of-end false true = refl
rest_of-end false false = refl

finish-stop :
    (c : ℕ) (s : Scan) (ss : List (List ℕ))
    → ispunct c ≡ true
    → s.output_str ++ finish s ([] ∷ ss) ≡ (scan_char c s).output_str ++ finish (scan_char c s) ss
unfolding finish scan_char
finish-stop c s ss h =
    let out = s.output_str ++ s.word ∷ [] in
    let later = map (λ u. camel (words u)) ss in
    rw h (
      ap (λ (l : List ℕ). s.output_str ++ l ∷ later)
        (ap (λ (r : List ℕ). s.word ++ r) (rest_of-end s.new_sent s.new_word) ∙ append-nil s.word)
      ∙ sym (append_assoc s.output_str (s.word ∷ []) later)
      ∙ ap (λ (l : List (List ℕ)). out ++ l) (sym (finish-fresh out ss)))

scan_char-output :
    (c : ℕ) (s : Scan) → ispunct c ≡ false → (scan_char c s).output_str ≡ s.output_str
unfolding scan_char
scan_char-output c s h = ground arith

scan-finish :
    (cs : List ℕ) (s : Scan) → (scan cs s).output_str ≡ s.output_str ++ finish s (sentences cs)
unfolding scan sentences
scan-finish [] s = unfold finish in sym (append-nil s.output_str)
scan-finish (c ∷ cs) s = elim (Bool-cases (ispunct c)) [
  | inl stop ↦ rw stop (scan-finish cs (scan_char c s) ∙ sym (finish-stop c s (sentences cs) stop))
  | inr other ↦ rw other (
      scan-finish cs (scan_char c s)
      ∙ ap₂ ◌++◌ (scan_char-output c s other) (sym (finish-extend c s (sentences cs) other)))
]

-- `camel_caser` of a string is its sentences, each with its words joined: the first word with a
-- letter in lower case, every later word with its first letter in upper case and the other letters
-- in lower case, all other characters as they are, and no white space. What follows the last
-- punctuation character is dropped.
pub camel_caser-sentences :
    (input : List ℕ)
    → camel_caser (some input) ≡ some (map (λ s. camel (words s)) (sentences input))
unfolding camel_caser
camel_caser-sentences input = ap some (
    scan-finish input (record { output_str = []; word = []; new_sent = true; new_word = true })
    ∙ finish-fresh [] (sentences input))
