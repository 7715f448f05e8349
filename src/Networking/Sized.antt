-- ===== src/Networking/Sized.antt =====
-- charming_chatroom/utils.c: the size in front of a message. read_all_from_socket and
-- write_all_to_socket stand there as in nonstop_networking/common.c, word for word.
use system_programming_uiuc.Prelude.{
  ℕ, ◌+◌, ◌*◌, ◌/◌, ◌%◌, ◌^◌, ◌<◌, ◌≡◌, ap, ◌∙◌, true, false, Option, none, some, List, [], ◌∷◌,
  length, ◌==◌, arith,
}
use system_programming_uiuc.Prelude.Outcome.{Outcome, done, ◌>>=◌}
use system_programming_uiuc.Networking.{Answer, write_all_to_socket}
use system_programming_uiuc.Networking.Receive.{Reading, read_all_from_socket}
use system_programming_uiuc.Networking.Received.{Feeds, given, read_all_from_socket-Feeds}
use system_programming_uiuc.Networking.Whole.{Serves, write_all_to_socket-Serves}

-- The bytes of a 32-bit number in the order of the network.
unfoldable pub htonl : ℕ → List ℕ
htonl size = size / 2 ^ 24 % 256 ∷ size / 2 ^ 16 % 256 ∷ size / 2 ^ 8 % 256 ∷ size % 256 ∷ []

-- Of a buffer with fewer than four bytes the others are not set: there is no number then.
unfoldable pub ntohl : List ℕ → Option ℕ
ntohl (a ∷ b ∷ c ∷ d ∷ rest) = some (a * 2 ^ 24 + b * 2 ^ 16 + c * 2 ^ 8 + d)
ntohl _ = none

unfoldable pub write_message_size : List Answer → ℕ → Outcome (Option ℕ × List ℕ)
unfolding htonl
write_message_size answers size = write_all_to_socket answers (htonl size) 4

-- What `get_message_size` returns: 0 at the end, -1, the size, or a number that is not set.
pub data MessageSize : Type 0 where
  closed : MessageSize
  failed : MessageSize
  size_of : ℕ → MessageSize
  not_set : MessageSize

unfoldable pub as_size : Option ℕ → MessageSize
as_size none = not_set
as_size (some size) = size_of size

unfoldable pub message_size : Option ℕ × List ℕ → MessageSize
unfolding ntohl as_size
message_size (none, bytes) = failed
message_size (some read_bytes, bytes) = elim (read_bytes == 0) [
  | true ↦ closed
  | false ↦ as_size (ntohl bytes)
]

unfoldable pub get_message_size : List Reading → Outcome MessageSize
unfolding message_size
get_message_size answers = read_all_from_socket answers 4 >>= λ r. done (message_size r)

digits :
    (size : ℕ)
    → size < 2 ^ 32
    → size / 2 ^ 24 % 256 * 2 ^ 24
        + size / 2 ^ 16 % 256 * 2 ^ 16
        + size / 2 ^ 8 % 256 * 2 ^ 8
        + size % 256
      ≡ size
digits size small = omega arith

-- However the system splits and interrupts the writes of write_message_size and the reads of
-- get_message_size, as long as the writes take four bytes, none fails, and the reads give what
-- htonl gives for a size below 2 ^ 32: those four bytes are written, and the size is what is read.
pub get-write_message_size :
    (size : ℕ) (answers : List Answer) (readings : List Reading)
    → size < 2 ^ 32
    → Serves 4 answers
    → Feeds 4 readings
    → given 4 readings ≡ htonl size
    → (write_message_size answers size ≡ done (some 4, htonl size))
      × (get_message_size readings ≡ done (size_of size))
unfolding write_message_size get_message_size message_size htonl ntohl as_size
get-write_message_size size answers readings small serves feeds same =
    let sent = write_all_to_socket-Serves answers (htonl size) (omega arith) (omega arith) serves in
    let got = read_all_from_socket-Feeds readings 4 feeds (omega arith) (omega arith) in
    (
      sent,
      ap (λ o. o >>= (λ r. done (message_size r))) got
          ∙ ap (λ bytes. done (message_size (some (length bytes), bytes))) same
          ∙ ap (λ n. done (size_of n)) (digits size small),
    )
