-- ===== src/Networking.antt =====
-- nonstop_networking/common.c: write_all_to_socket, and below it read_all_from_socket.
-- The answers of the system call `write` are a list, in order; when the list ends the call has not
-- answered yet, and the run is out of fuel.
pub mod Whole
pub mod Receive
pub mod Received
pub mod Sized
mod Tests
use system_programming_uiuc.Prelude.{
  ℕ, ◌+◌, ◌-◌, ◌%◌, ◌^◌, true, false, Option, none, some, List, [], ◌∷◌, ◌++◌, ltb, ◌==◌, take,
  drop,
}
use system_programming_uiuc.Prelude.Outcome.{Outcome, done, no_fuel}

abbrev pub size_word : ℕ
size_word = 2 ^ 64

-- `write` has taken some bytes, or it returns -1 with EINTR, or -1 with another error.
pub data Answer : Type 0 where
  took : ℕ → Answer
  interrupted failed : Answer

-- What is left to write, and what the socket has.
pub record Transfer : Type 0 where
  pub buffer : List ℕ
  pub count : ℕ
  pub total_size : ℕ
  pub socket : List ℕ

-- The updates after a `write` that took `n` bytes; `buffer` is not read again when `count` is 0.
unfoldable pub advance : ℕ → Transfer → Transfer
advance n t = record {
  buffer = drop n t.buffer;
  count = (t.count + size_word - n) % size_word;
  total_size = t.total_size + n;
  socket = t.socket ++ take n t.buffer;
}

-- The loop. The result is `total_size`, or `none` for -1, and what the socket has then.
unfoldable pub write_loop : List Answer → Transfer → Outcome (Option ℕ × List ℕ)
write_loop [] t = no_fuel
write_loop (took n ∷ answers) t = elim (n == 0) [
  | true ↦ done (some t.total_size, t.socket)
  | false ↦ elim (ltb 0 (advance n t).count) [
    | true ↦ write_loop answers (advance n t)
    | false ↦ done (some (advance n t).total_size, (advance n t).socket)
  ]
]
write_loop (interrupted ∷ answers) t = write_loop answers t
write_loop (failed ∷ answers) t = done (none, t.socket)

unfoldable pub write_all_to_socket : List Answer → List ℕ → ℕ → Outcome (Option ℕ × List ℕ)
write_all_to_socket answers buffer count =
    write_loop answers (record { buffer = buffer; count = count; total_size = 0; socket = [] })
