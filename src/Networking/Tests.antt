-- ===== src/Networking/Tests.antt =====
-- Runs of nonstop_networking/common.c at fixed inputs.
use system_programming_uiuc.Prelude.{ℕ, ◌≡◌, refl, some, List, [], ◌∷◌, arith, length}
use system_programming_uiuc.Prelude.Outcome.{done}
use system_programming_uiuc.Networking.{
  Answer, took, interrupted, advance, write_loop, write_all_to_socket,
}
use system_programming_uiuc.Networking.Receive.{
  Reading, gave, retry, read_all_from_socket, receive_loop, receive,
}
use system_programming_uiuc.Networking.Received.{Feeds, given, read_all_from_socket-Feeds}
use system_programming_uiuc.Networking.Sized.{
  htonl, ntohl, write_message_size, not_set, size_of, as_size, message_size, get_message_size,
  get-write_message_size,
}
use system_programming_uiuc.Networking.Whole.{Serves, write_all_to_socket-Serves}

abbrev message : List ℕ
message = 72 ∷ 105 ∷ 33 ∷ []

-- One byte, an interruption, and the other two bytes.
abbrev slow : List Answer
slow = took 1 ∷ interrupted ∷ took 2 ∷ []

slow-Serves : Serves 3 slow
unfolding Serves
slow-Serves = (omega arith, omega arith, (omega arith, omega arith, refl))

sent : write_all_to_socket slow message 3 ≡ done (some 3, message)
unfolding write_all_to_socket write_loop advance
sent = refl

write_all_to_socket-Serves_example : write_all_to_socket slow message 3 ≡ done (some 3, message)
write_all_to_socket-Serves_example =
    write_all_to_socket-Serves slow message (omega arith) (omega arith) slow-Serves

-- One byte, an interruption, two bytes and the end.
abbrev slow_reads : List Reading
slow_reads = gave (72 ∷ []) ∷ retry ∷ gave (105 ∷ 33 ∷ []) ∷ gave [] ∷ []

slow_reads-Feeds : Feeds 5 slow_reads
unfolding Feeds
slow_reads-Feeds = (omega arith, (omega arith, tt))

received : read_all_from_socket slow_reads 5 ≡ done (some 3, message)
unfolding read_all_from_socket receive_loop receive
received = refl

read_all_from_socket-Feeds_example :
    read_all_from_socket slow_reads 5
    ≡ done (some (length (given 5 slow_reads)), given 5 slow_reads)
read_all_from_socket-Feeds_example =
    read_all_from_socket-Feeds slow_reads 5 slow_reads-Feeds (omega arith) (omega arith)

-- 258 in two reads.
abbrev two_reads : List Reading
two_reads = gave (0 ∷ []) ∷ retry ∷ gave (0 ∷ 1 ∷ 2 ∷ []) ∷ []

two_reads-Feeds : Feeds 4 two_reads
unfolding Feeds
two_reads-Feeds = (omega arith, (omega arith, refl))

abbrev two_writes : List Answer
two_writes = took 1 ∷ interrupted ∷ took 3 ∷ []

two_writes-Serves : Serves 4 two_writes
unfolding Serves
two_writes-Serves = (omega arith, omega arith, (omega arith, omega arith, refl))

-- When the connection ends behind one byte, the size is not set.
cut_off : get_message_size (gave (7 ∷ []) ∷ gave [] ∷ []) ≡ done not_set
unfolding get_message_size message_size ntohl as_size read_all_from_socket receive_loop receive
cut_off = refl

get-write_message_size_example :
    (write_message_size two_writes 258 ≡ done (some 4, htonl 258))
    × (get_message_size two_reads ≡ done (size_of 258))
unfolding given htonl
get-write_message_size_example =
    get-write_message_size 258 two_writes two_reads (omega arith) two_writes-Serves two_reads-Feeds
      refl
