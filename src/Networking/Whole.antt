-- ===== src/Networking/Whole.antt =====
-- nonstop_networking/common.c: short writes and interruptions lose and repeat nothing.
use system_programming_uiuc.Prelude.{
  ℕ, ◌+◌, ◌-◌, ◌%◌, ◌≤◌, ◌<◌, ◌≡◌, refl, ap, ◌∙◌, true, false, Option, some, List, [], ◌∷◌, ◌++◌,
  append_assoc, arith, ltb, ◌==◌, length, take, drop, length-drop, take-append-drop, eq-false,
  dec_lt, lt→ltb, ltb-false,
}
use mathlib.Core.Path.{ap₂}
use system_programming_uiuc.Prelude.Outcome.{Outcome, done}
use system_programming_uiuc.Networking.{
  size_word, Answer, took, interrupted, failed, Transfer, advance, write_loop, write_all_to_socket,
}

-- Answers that take `count` bytes in all, between interruptions.
unfoldable pub Serves : ℕ → List Answer → Type 0
Serves count [] = count ≡ 0
Serves count (took n ∷ answers) = (0 < n) × (n ≤ count) × Serves (count - n) answers
Serves count (interrupted ∷ answers) = Serves count answers
Serves count (failed ∷ answers) = ⊥

wrap :
    (count n : ℕ) → n ≤ count → count < size_word → (count + size_word - n) % size_word ≡ count - n
wrap count n le fits = omega arith

-- `advance` without the wrap.
abbrev moved : ℕ → Transfer → Transfer
moved n t = record {
  buffer = drop n t.buffer;
  count = t.count - n;
  total_size = t.total_size + n;
  socket = t.socket ++ take n t.buffer;
}

advance-moved : (n : ℕ) (t : Transfer) → n ≤ t.count → t.count < size_word → advance n t ≡ moved n t
unfolding advance
advance-moved n t le fits =
    ap
      (λ (c : ℕ). record {
        buffer = drop n t.buffer;
        count = c;
        total_size = t.total_size + n;
        socket = t.socket ++ take n t.buffer;
      })
      (wrap t.count n le fits)

after : List Answer → Transfer → Outcome (Option ℕ × List ℕ)
after answers u = elim (ltb 0 u.count) [
  | true ↦ write_loop answers u
  | false ↦ done (some u.total_size, u.socket)
]

write-after :
    (n : ℕ) (answers : List Answer) (t : Transfer)
    → (n == 0) ≡ false
    → write_loop (took n ∷ answers) t ≡ after answers (advance n t)
unfolding write_loop after
write-after n answers t ne = rw (ne, write_loop) refl

write-took :
    (n : ℕ) (answers : List Answer) (t : Transfer)
    → 0 < n
    → n ≤ t.count
    → t.count < size_word
    → write_loop (took n ∷ answers) t ≡ after answers (moved n t)
unfolding after
write-took n answers t pos le fits =
    write-after n answers t (eq-false n 0 (λ e. omega (arith, e, pos)))
    ∙ ap (after answers) (advance-moved n t le fits)

write-again :
    (answers : List Answer) (t : Transfer)
    → write_loop (interrupted ∷ answers) t ≡ write_loop answers t
unfolding write_loop
write-again answers t = refl

after-more :
    (answers : List Answer) (u : Transfer)
    → ltb 0 u.count ≡ true
    → after answers u ≡ write_loop answers u
unfolding after
after-more answers u h = rw (h, after) refl

after-stop :
    (answers : List Answer) (u : Transfer)
    → ltb 0 u.count ≡ false
    → after answers u ≡ done (some u.total_size, u.socket)
unfolding after
after-stop answers u h = rw (h, after) refl

abbrev result : ℕ → List ℕ → Outcome (Option ℕ × List ℕ)
result n l = done (some n, l)

take-all : (l : List ℕ) → take (length l) l ≡ l
take-all [] = refl
take-all (x ∷ l) = ap (λ r. x ∷ r) (take-all l)

none_left : {n : ℕ} → n ≡ 0 → 0 < n → ⊥
none_left e pos = omega (arith, e, pos)

write_loop-Serves :
    (answers : List Answer) (t : Transfer)
    → Serves t.count answers
    → 0 < t.count
    → t.count ≡ length t.buffer
    → t.count < size_word
    → write_loop answers t ≡ done (some (t.total_size + t.count), t.socket ++ t.buffer)
unfolding Serves
write_loop-Serves [] t serves pos len fits = elim (none_left serves pos) [ ]
write_loop-Serves (interrupted ∷ answers) t serves pos len fits =
    write-again answers t ∙ write_loop-Serves answers t serves pos len fits
write_loop-Serves (failed ∷ answers) t serves pos len fits = elim serves [ ]
write_loop-Serves (took n ∷ answers) t serves pos len fits = elim (dec_lt n t.count) [
  | yes less ↦
      write-took n answers t serves.0 serves.1 fits
      ∙ after-more answers (moved n t) (lt→ltb 0 (t.count - n) (omega (arith, less)))
      ∙ write_loop-Serves answers (moved n t) serves.2 (omega (arith, less))
          (omega (arith, len, length-drop n t.buffer)) (omega (arith, fits))
      ∙ ap₂ result (omega (arith, less)) (
          append_assoc t.socket (take n t.buffer) (drop n t.buffer)
          ∙ ap (λ l. t.socket ++ l) (take-append-drop n t.buffer))
  | no full ↦
      let same : n ≡ t.count = omega (arith, full, serves.1) in
      write-took n answers t serves.0 serves.1 fits
      ∙ after-stop answers (moved n t) (ltb-false 0 (t.count - n) (omega (arith, same)))
      ∙ ap₂ result (ap (λ (k : ℕ). t.total_size + k) same) (
          ap (λ l. t.socket ++ l)
            (ap (λ (k : ℕ). take k t.buffer) (same ∙ len) ∙ take-all t.buffer))
]

-- `write_all_to_socket` of a buffer that is not empty, however the system splits the writes and
-- interrupts them, as long as the answers take all its bytes and none is an error or takes nothing:
-- the call returns their number, and the socket has exactly the buffer.
pub write_all_to_socket-Serves :
    (answers : List Answer) (buffer : List ℕ)
    → 0 < length buffer
    → length buffer < size_word
    → Serves (length buffer) answers
    → write_all_to_socket answers buffer (length buffer) ≡ done (some (length buffer), buffer)
unfolding write_all_to_socket
write_all_to_socket-Serves answers buffer pos fits serves =
    write_loop-Serves answers
      (record { buffer = buffer; count = length buffer; total_size = 0; socket = [] }) serves pos
      refl fits
    ∙ ap (λ (k : ℕ). result k buffer) (omega arith)
