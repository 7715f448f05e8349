-- ===== src/Networking/Receive.antt =====
-- nonstop_networking/common.c: read_all_from_socket.
-- The answers of the system call `read` are a list, in order, like those of `write`.
use system_programming_uiuc.Prelude.{
  ℕ, ◌+◌, ◌-◌, ◌%◌, true, false, Option, none, some, List, [], ◌∷◌, ◌++◌, ltb, ◌==◌, length,
}
use system_programming_uiuc.Prelude.Outcome.{Outcome, done, no_fuel}
use system_programming_uiuc.Networking.{size_word}

-- `read` has given some bytes, none of them at the end, or it returns -1 with EINTR, or -1 with
-- another error.
pub data Reading : Type 0 where
  gave : List ℕ → Reading
  retry broken : Reading

-- What is left to read, and what the buffer has.
pub record Receipt : Type 0 where
  pub stored : List ℕ
  pub remaining : ℕ
  pub total : ℕ

-- The updates after a `read` that gave the bytes.
unfoldable pub receive : List ℕ → Receipt → Receipt
receive bytes t = record {
  stored = t.stored ++ bytes;
  remaining = (t.remaining + size_word - length bytes) % size_word;
  total = t.total + length bytes;
}

-- The loop. The result is `total_size`, or `none` for -1, and the bytes of the buffer then.
unfoldable pub receive_loop : List Reading → Receipt → Outcome (Option ℕ × List ℕ)
unfolding receive
receive_loop [] t = no_fuel
receive_loop (gave bytes ∷ answers) t = elim (length bytes == 0) [
  | true ↦ done (some t.total, t.stored)
  | false ↦ elim (ltb 0 (receive bytes t).remaining) [
    | true ↦ receive_loop answers (receive bytes t)
    | false ↦ done (some (receive bytes t).total, (receive bytes t).stored)
  ]
]
receive_loop (retry ∷ answers) t = receive_loop answers t
receive_loop (broken ∷ answers) t = done (none, t.stored)

unfoldable pub read_all_from_socket : List Reading → ℕ → Outcome (Option ℕ × List ℕ)
unfolding receive_loop
read_all_from_socket answers count =
    receive_loop answers (record { stored = []; remaining = count; total = 0 })
