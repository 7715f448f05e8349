-- ===== src/Chatroom/Counted.antt =====
-- charming_chatroom/server.c: the count of clients, and a connection when the table is full.
use system_programming_uiuc.Prelude.{
  ℕ, zero, suc, ◌+◌, ◌<◌, ◌≤◌, ◌≡◌, refl, sym, ap, subst, ◌∙◌, Option, none, some, List, [], ◌∷◌,
  ltb-false, replicate, set, length, length-set, length-replicate, get_elem?, ℕ_discrete, ◌⊎◌, inl,
  inr, arith,
}
use system_programming_uiuc.Prelude.Outcome.{done, fault}
use system_programming_uiuc.Chatroom.{
  Server, Accepted, admitted, find_free, find_free_client, run_server_start, admit, accept_client,
  client_left,
}

-- The connected clients.
unfoldable pub connected : List (Option ℕ) → ℕ
connected [] = 0
connected (none ∷ clients) = connected clients
connected (some fd ∷ clients) = suc (connected clients)

connected-replicate : (n : ℕ) → connected (replicate n none) ≡ 0
unfolding connected
connected-replicate zero = refl
connected-replicate (suc n) = connected-replicate n

connected_low : (clients : List (Option ℕ)) → connected clients ≤ length clients
unfolding connected
connected_low [] = omega arith
connected_low (none ∷ clients) = omega (arith, connected_low clients)
connected_low (some fd ∷ clients) = omega (arith, connected_low clients)

-- A free index is there unless all are connected, and a client there adds one.
find_free-connected :
    (clients : List (Option ℕ)) (start fd : ℕ)
    → connected clients < length clients
    → (i : ℕ) × (find_free clients start ≡ some (start + i))
      × (get_elem? clients i ≡ some none)
      × (connected (set clients i (some fd)) ≡ suc (connected clients))
unfolding connected find_free
find_free-connected [] start fd low = absurd (omega arith)
find_free-connected (none ∷ clients) start fd low = (0, ap some (omega arith), refl, refl)
find_free-connected (some other ∷ clients) start fd low =
    let (i, found, free, more) = find_free-connected clients (start + 1) fd (omega arith) in
    (suc i, found ∙ ap some (omega arith), free, ap suc more)

find_free-full :
    (clients : List (Option ℕ)) (start : ℕ)
    → connected clients ≡ length clients
    → find_free clients start ≡ none
unfolding connected find_free
find_free-full [] start full = refl
find_free-full (none ∷ clients) start full = let low = connected_low clients in absurd (omega arith)
find_free-full (some fd ∷ clients) start full = find_free-full clients (start + 1) (omega arith)

set-connected :
    (clients : List (Option ℕ)) (i fd : ℕ)
    → get_elem? clients i ≡ some (some fd)
    → suc (connected (set clients i none)) ≡ connected clients
unfolding connected
set-connected [] i fd h = cc
set-connected (none ∷ clients) zero fd h = cc
set-connected (some other ∷ clients) zero fd h = refl
set-connected (none ∷ clients) (suc i) fd h = set-connected clients i fd h
set-connected (some other ∷ clients) (suc i) fd h = ap suc (set-connected clients i fd h)

-- Connections that are admitted or refused, and clients that leave.
pub data Reach (max_clients : ℕ) : Server → Type 0 where
  begins : Reach max_clients (run_server_start max_clients)
  accepts :
      (fd : ℕ) {s s' : Server} (a : Accepted)
      → Reach max_clients s
      → accept_client max_clients fd s ≡ done (a, s')
      → Reach max_clients s'
  leaves :
      (i fd : ℕ) {s : Server}
      → Reach max_clients s
      → get_elem? s.clients i ≡ some (some fd)
      → Reach max_clients (client_left i s)

pub record Counted (max_clients : ℕ) (s : Server) : Type 0 where
  pub size : length s.clients ≡ max_clients
  pub count : s.clients_count ≡ connected s.clients

fault_done : {r : Accepted × Server} → fault ≡ done r → ⊥
fault_done h = cc

done_inj : {r r' : Accepted × Server} → done r ≡ done r' → r.1 ≡ r'.1
done_inj h = cc

zero_plus : (n : ℕ) → 0 + n ≡ n
zero_plus n = omega arith

module _ (max_clients : ℕ) where
  -- How a connection is taken: an index that was free, or a write outside of the table.
  accept_client-room :
      (fd : ℕ) (s : Server)
      → Counted max_clients s
      → connected s.clients < max_clients
      → (i : ℕ) × (get_elem? s.clients i ≡ some none)
        × (s' : Server) × (accept_client max_clients fd s ≡ done (admitted i, s'))
        × (s'.clients ≡ set s.clients i (some fd))
        × (connected s'.clients ≡ connected s.clients + 1)
        × Counted max_clients s'
  unfolding accept_client find_free_client admit
  accept_client-room fd s c low =
      let size = c.size in
      let count = c.count in
      let (i, found, free, more) = find_free-connected s.clients 0 fd (omega arith) in
      let at : find_free s.clients 0 ≡ some i = found ∙ ap some (zero_plus i) in
      (
        i,
        free,
        record { clients = set s.clients i (some fd); clients_count = s.clients_count + 1 },
        rw (ltb-false max_clients s.clients_count (omega arith), at, accept_client) refl,
        refl,
        more ∙ omega arith,
        record {
          size = length-set s.clients i (some fd) ∙ size;
          count = ap (λ n. n + 1) count ∙ omega arith;
        },
      )

  accept_client-full :
      (fd : ℕ) (s : Server)
      → Counted max_clients s
      → connected s.clients ≡ max_clients
      → accept_client max_clients fd s ≡ fault
  unfolding accept_client find_free_client admit
  accept_client-full fd s c full =
      let size = c.size in
      let count = c.count in
      rw
        (
          ltb-false max_clients s.clients_count (omega arith),
          find_free-full s.clients 0 (full ∙ sym size),
          accept_client,
        )
        refl

  accept_client-Counted :
      (fd : ℕ) (a : Accepted) (s s' : Server)
      → Counted max_clients s
      → accept_client max_clients fd s ≡ done (a, s')
      → Counted max_clients s'
  accept_client-Counted fd a s s' c e =
      let low = connected_low s.clients in
      let size = c.size in
      elim (ℕ_discrete (connected s.clients) max_clients) [
        | yes full ↦ absurd (fault_done (sym (accept_client-full fd s c full) ∙ e))
        | no room ↦
            let (i, free, s'', e', at, more, c') = accept_client-room fd s c (omega arith) in
            subst (Counted max_clients) (done_inj (sym e' ∙ e)) c'
      ]

  Reach-Counted : (s : Server) → Reach max_clients s → Counted max_clients s
  unfolding run_server_start client_left
  Reach-Counted _ begins = record {
    size = length-replicate max_clients none;
    count = sym (connected-replicate max_clients);
  }
  Reach-Counted s' (accepts fd {s} a r e) = accept_client-Counted fd a s s' (Reach-Counted s r) e
  Reach-Counted _ (leaves i fd {s} r at) =
      let c = Reach-Counted s r in
      let count = c.count in
      let fewer = set-connected s.clients i fd at in
      record { size = length-set s.clients i none ∙ c.size; count = omega arith }

  -- After any connections and departures, the count is the number of connected clients; the next
  -- connection is admitted at an index that was free if there is one, and writes outside of the table
  -- if there is none: it is never refused.
  pub accept_client-Reach :
      (fd : ℕ) (s : Server)
      → Reach max_clients s
      → (s.clients_count ≡ connected s.clients)
        × (((i : ℕ) × (get_elem? s.clients i ≡ some none)
              × (s' : Server) × (accept_client max_clients fd s ≡ done (admitted i, s'))
              × (s'.clients ≡ set s.clients i (some fd))
              × (connected s'.clients ≡ connected s.clients + 1))
            ⊎ ((connected s.clients ≡ max_clients) × (accept_client max_clients fd s ≡ fault)))
  accept_client-Reach fd s r =
      let c = Reach-Counted s r in
      let low = connected_low s.clients in
      let size = c.size in
      (
        c.count,
        elim (ℕ_discrete (connected s.clients) max_clients) [
          | yes full ↦ inr (full, accept_client-full fd s c full)
          | no room ↦
              let (i, free, s', e, at, more, c') = accept_client-room fd s c (omega arith) in
              inl (i, free, s', e, at, more)
        ],
      )
