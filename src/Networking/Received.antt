-- ===== src/Networking/Received.antt =====
-- nonstop_networking/common.c: short reads and interruptions lose and repeat nothing.
use system_programming_uiuc.Prelude.{
  ℕ, ◌+◌, ◌-◌, ◌%◌, ◌≤◌, ◌<◌, ◌≡◌, refl, sym, ap, ◌∙◌, true, false, Option, some, List, [], ◌∷◌,
  ◌++◌, append_assoc, append-nil, arith, ltb, length, length-append, dec_lt, lt→ltb, ltb-false,
  eq-false,
}
use mathlib.Core.Path.{ap₂}
use system_programming_uiuc.Prelude.Outcome.{Outcome, done}
use system_programming_uiuc.Networking.{size_word}
use system_programming_uiuc.Networking.Receive.{
  Reading, gave, retry, broken, Receipt, receive, receive_loop, read_all_from_socket,
}

-- Answers that give `count` bytes in all, or fewer and then the end.
unfoldable pub Feeds : ℕ → List Reading → Type 0
Feeds count [] = count ≡ 0
Feeds count (gave [] ∷ answers) = Unit
Feeds count (gave (x ∷ bytes) ∷ answers) =
    (length (x ∷ bytes) ≤ count) × Feeds (count - length (x ∷ bytes)) answers
Feeds count (retry ∷ answers) = Feeds count answers
Feeds count (broken ∷ answers) = ⊥

-- The bytes up to the end.
unfoldable pub given : ℕ → List Reading → List ℕ
given count [] = []
given count (gave [] ∷ answers) = []
given count (gave (x ∷ bytes) ∷ answers) = elim (ltb (length (x ∷ bytes)) count) [
  | true ↦ (x ∷ bytes) ++ given (count - length (x ∷ bytes)) answers
  | false ↦ x ∷ bytes
]
given count (retry ∷ answers) = given count answers
given count (broken ∷ answers) = []

abbrev result : ℕ → List ℕ → Outcome (Option ℕ × List ℕ)
result n l = done (some n, l)

wrapped :
    (count n : ℕ) → n ≤ count → count < size_word → (count + size_word - n) % size_word ≡ count - n
wrapped count n le fits = omega arith

nothing_left : {n : ℕ} → n ≡ 0 → 0 < n → ⊥
nothing_left e pos = omega (arith, e, pos)

no_more : (n : ℕ) → n ≡ n + 0
no_more n = omega arith

receive-again :
    (answers : List Reading) (t : Receipt)
    → receive_loop (retry ∷ answers) t ≡ receive_loop answers t
unfolding receive_loop
receive-again answers t = refl

-- `receive` without the wrap.
abbrev moved : List ℕ → Receipt → Receipt
moved bytes t = record {
  stored = t.stored ++ bytes;
  remaining = t.remaining - length bytes;
  total = t.total + length bytes;
}

after : List Reading → Receipt → Outcome (Option ℕ × List ℕ)
after answers u = elim (ltb 0 u.remaining) [
  | true ↦ receive_loop answers u
  | false ↦ result u.total u.stored
]

receive-after :
    (x : ℕ) (bytes : List ℕ) (answers : List Reading) (t : Receipt)
    → length (x ∷ bytes) ≤ t.remaining
    → t.remaining < size_word
    → receive_loop (gave (x ∷ bytes) ∷ answers) t ≡ after answers (moved (x ∷ bytes) t)
unfolding receive_loop receive after
receive-after x bytes answers t le fits =
    let ne = eq-false (length (x ∷ bytes)) 0 (λ e. omega (arith, e)) in
    let step : receive_loop (gave (x ∷ bytes) ∷ answers) t ≡ after answers (receive (x ∷ bytes) t) =
      rw (ne, receive_loop) refl in
    step
    ∙ ap
        (λ (k : ℕ). after answers (record {
          stored = t.stored ++ (x ∷ bytes);
          remaining = k;
          total = t.total + length (x ∷ bytes);
        }))
        (wrapped t.remaining (length (x ∷ bytes)) le fits)

after-more :
    (answers : List Reading) (u : Receipt)
    → 0 < u.remaining
    → after answers u ≡ receive_loop answers u
unfolding after
after-more answers u more = rw (lt→ltb 0 u.remaining more, after) refl

after-stop :
    (answers : List Reading) (u : Receipt)
    → u.remaining ≡ 0
    → after answers u ≡ result u.total u.stored
unfolding after
after-stop answers u stop = rw (ltb-false 0 u.remaining (omega (arith, stop)), after) refl

given-more :
    (count x : ℕ) (bytes : List ℕ) (answers : List Reading)
    → length (x ∷ bytes) < count
    → given count (gave (x ∷ bytes) ∷ answers)
      ≡ (x ∷ bytes) ++ given (count - length (x ∷ bytes)) answers
unfolding given
given-more count x bytes answers less = rw (lt→ltb (length (x ∷ bytes)) count less, given) refl

given-last :
    (count x : ℕ) (bytes : List ℕ) (answers : List Reading)
    → length (x ∷ bytes) ≡ count
    → given count (gave (x ∷ bytes) ∷ answers) ≡ x ∷ bytes
unfolding given
given-last count x bytes answers all =
    rw (ltb-false (length (x ∷ bytes)) count (omega (arith, all)), given) refl

receive_loop-Feeds :
    (answers : List Reading) (t : Receipt)
    → Feeds t.remaining answers
    → 0 < t.remaining
    → t.remaining < size_word
    → receive_loop answers t
      ≡ result
          (t.total + length (given t.remaining answers))
          (t.stored ++ given t.remaining answers)
unfolding Feeds given
receive_loop-Feeds [] t feeds pos fits = elim (nothing_left feeds pos) [ ]
receive_loop-Feeds (gave [] ∷ answers) t feeds pos fits =
    unfold receive_loop in ap₂ result (no_more t.total) (sym (append-nil t.stored))
receive_loop-Feeds (retry ∷ answers) t feeds pos fits =
    receive-again answers t ∙ receive_loop-Feeds answers t feeds pos fits
receive_loop-Feeds (broken ∷ answers) t feeds pos fits = elim feeds [ ]
receive_loop-Feeds (gave (x ∷ bytes) ∷ answers) t feeds pos fits =
    elim (dec_lt (length (x ∷ bytes)) t.remaining) [
      | yes less ↦
          let rest = given (t.remaining - length (x ∷ bytes)) answers in
          let more = given-more t.remaining x bytes answers less in
          receive-after x bytes answers t feeds.0 fits
          ∙ after-more answers (moved (x ∷ bytes) t) (omega (arith, less))
          ∙ receive_loop-Feeds answers (moved (x ∷ bytes) t) feeds.1 (omega (arith, less))
              (omega (arith, fits))
          ∙ ap₂ result (omega (arith, length-append (x ∷ bytes) rest))
              (append_assoc t.stored (x ∷ bytes) rest)
          ∙ ap (λ (l : List ℕ). result (t.total + length l) (t.stored ++ l)) (sym more)
      | no full ↦
          let all : length (x ∷ bytes) ≡ t.remaining = omega (arith, full, feeds.0) in
          receive-after x bytes answers t feeds.0 fits
          ∙ after-stop answers (moved (x ∷ bytes) t) (omega (arith, all))
          ∙ ap (λ (l : List ℕ). result (t.total + length l) (t.stored ++ l))
              (sym (given-last t.remaining x bytes answers all))
    ]

-- `read_all_from_socket` of at least one byte, however the system splits the reads and interrupts
-- them, as long as none is an error or gives more than is left: the buffer gets the bytes in their
-- order, up to the end of what is sent or to the number asked for, and their number is returned.
pub read_all_from_socket-Feeds :
    (answers : List Reading) (count : ℕ)
    → Feeds count answers
    → 0 < count
    → count < size_word
    → read_all_from_socket answers count
      ≡ done (some (length (given count answers)), given count answers)
unfolding read_all_from_socket
read_all_from_socket-Feeds answers count feeds pos fits =
    receive_loop-Feeds answers (record { stored = []; remaining = count; total = 0 }) feeds pos fits
    ∙ ap (λ (k : ℕ). result k (given count answers)) (omega arith)
