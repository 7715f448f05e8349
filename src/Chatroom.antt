-- ===== src/Chatroom.antt =====
-- charming_chatroom/server.c: the table of clients. What is behind one lock of `mutex` is one step, and
-- the descriptor is one that `accept` has given.
mod Counted
mod Tests
use system_programming_uiuc.Prelude.{
  ℕ, ◌+◌, ◌-◌, true, false, Option, none, some, List, [], ◌∷◌, ltb, replicate, set,
}
use system_programming_uiuc.Prelude.Outcome.{Outcome, done, fault}

-- `none` is -1.
pub record Server : Type 0 where
  pub clients : List (Option ℕ)
  pub clients_count : ℕ

-- How the server goes on: the connection is closed, or a thread is started for the index.
pub data Accepted : Type 0 where
  refused : Accepted
  admitted : ℕ → Accepted

unfoldable pub find_free : List (Option ℕ) → ℕ → Option ℕ
find_free [] i = none
find_free (none ∷ clients) i = some i
find_free (some fd ∷ clients) i = find_free clients (i + 1)

unfoldable pub find_free_client : List (Option ℕ) → Option ℕ
unfolding find_free
find_free_client clients = find_free clients 0

unfoldable pub run_server_start : ℕ → Server
run_server_start max_clients = record { clients = replicate max_clients none; clients_count = 0 }

-- A write at the index -1 is outside of the table.
unfoldable pub admit : Option ℕ → ℕ → Server → Outcome (Accepted × Server)
admit none fd s = fault
admit (some i) fd s = done (
  admitted i,
  record { clients = set s.clients i (some fd); clients_count = s.clients_count + 1 },
)

unfoldable pub accept_client : ℕ → ℕ → Server → Outcome (Accepted × Server)
unfolding admit find_free_client
accept_client max_clients fd s = elim (ltb max_clients s.clients_count) [
  | true ↦ done (refused, s)
  | false ↦ admit (find_free_client s.clients) fd s
]

-- The end of `process_client`.
unfoldable pub client_left : ℕ → Server → Server
client_left i s = record { clients = set s.clients i none; clients_count = s.clients_count - 1 }
