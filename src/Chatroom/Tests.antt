-- ===== src/Chatroom/Tests.antt =====
-- Runs of charming_chatroom/server.c, and the hypotheses of its theorem at concrete values.
use system_programming_uiuc.Prelude.{ℕ, ◌+◌, ◌≡◌, ◌⊎◌, refl, none, some, [], ◌∷◌, set, get_elem?}
use system_programming_uiuc.Prelude.Outcome.{done, fault}
use system_programming_uiuc.Chatroom.{
  Server, admitted, run_server_start, find_free, find_free_client, admit, accept_client,
  client_left,
}
use system_programming_uiuc.Chatroom.Counted.{
  Reach, begins, accepts, leaves, connected, accept_client-Reach,
}

abbrev two_clients : Server
two_clients = record { clients = some 7 ∷ some 8 ∷ []; clients_count = 2 }

-- Both indices are taken, and the first client leaves.
two_clients-Reach : Reach 2 two_clients
unfolding run_server_start find_free find_free_client admit accept_client
two_clients-Reach = accepts 8 (admitted 1) (accepts 7 (admitted 0) begins refl) refl

third_connection : accept_client 2 9 two_clients ≡ fault
unfolding find_free find_free_client admit accept_client
third_connection = refl

abbrev one_left : Server
one_left = client_left 0 two_clients

accept_client-Reach_example :
    (one_left.clients_count ≡ connected one_left.clients)
    × (((i : ℕ) × (get_elem? one_left.clients i ≡ some none)
          × (s' : Server) × (accept_client 2 9 one_left ≡ done (admitted i, s'))
          × (s'.clients ≡ set one_left.clients i (some 9))
          × (connected s'.clients ≡ connected one_left.clients + 1))
        ⊎ ((connected one_left.clients ≡ 2) × (accept_client 2 9 one_left ≡ fault)))
accept_client-Reach_example = accept_client-Reach 2 9 one_left (leaves 0 7 two_clients-Reach refl)
