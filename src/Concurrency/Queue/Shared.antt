-- ===== src/Concurrency/Queue/Shared.antt =====
-- critical_concurrency/queue.c: what holds in every interleaving of calls of one queue.
use system_programming_uiuc.Prelude.{
  ℕ, ◌≤◌, ◌<◌, ◌≡◌, sym, ap, subst, ◌∙◌, ◌≢◌, inl, inr, Bool, true, false, Option, none, List, [],
  ◌∷◌, ◌++◌, Option-cases, length, length-map, append_assoc,
}
use system_programming_uiuc.Prelude.Outcome.{done}
use system_programming_uiuc.Concurrency.Monitor.{
  Monitor, System, fresh, Reach, Reach-Asleep, Reach-invariant, Asleep, waiting,
}
use system_programming_uiuc.Concurrency.Queue.{
  Heap, Queue, Op, push, pull, Reply, pushed, lost, queue_create, queue_ready, queue_destroy,
  push_body, pull_body, queue_body,
}
use system_programming_uiuc.Concurrency.Queue.Chain.{Cell}
use system_programming_uiuc.Concurrency.Queue.Destroy.{queue_destroy-Stands}
use system_programming_uiuc.Concurrency.Queue.Fifo.{push_to, push_body-push_to, push_to-Stands}
use system_programming_uiuc.Concurrency.Queue.Ordered.{
  Ordered, puts, takes, Fresh, values, returns, push_body-quiet, pull_body-quiet, map-append,
  push_to-max_size, pull_cells-Ordered, returns-inj, wait-pull, wait-push, full-not_empty, within,
  create-Ordered, idle-not_waiting,
}

module _ (malloc : Heap → Option ℕ) where
  pub queue_body-quiet :
      (o : Op) (q s' : Queue) (r : Reply) → queue_body malloc o q ≡ done (s', false, r) → s' ≡ q
  unfolding queue_body push_body pull_body
  queue_body-quiet (push x) q s' r h = push_body-quiet (malloc q.heap) x q s' r h
  queue_body-quiet pull q s' r h = pull_body-quiet q s' r h

  push-Ordered :
      (max_size : ℕ) (q : Queue) (x : ℕ) (log : List (Op × Reply))
      → Fresh malloc
      → queue_ready (push x) q ≡ true
      → Ordered max_size q log
      → (q' : Queue) × (b : Bool) × (r : Reply) × (queue_body malloc (push x) q ≡ done (q', b, r))
        × Ordered max_size q' ((push x, r) ∷ log)
  unfolding queue_body puts takes
  push-Ordered max_size q x log fresh_malloc ready inv = elim (Option-cases (malloc q.heap)) [
    | inl out ↦ (
      q,
      false,
      lost x,
      ap (λ m. push_body m x q) out,
      record {
        cells = inv.cells;
        stands = inv.stands;
        bound_kept = inv.bound_kept;
        order = inv.order;
      },
    )
    | inr (a, got) ↦
        let free = fresh_malloc q.heap a got in
        (
          push_to inv.cells a x q,
          true,
          pushed x,
          ap (λ m. push_body m x q) got ∙ push_body-push_to q inv.cells a x inv.stands free,
          record {
            cells = inv.cells ++ (a, x) ∷ [];
            stands = push_to-Stands q inv.cells a x inv.stands free ready;
            bound_kept = push_to-max_size inv.cells a x q ∙ inv.bound_kept;
            order =
                ap (λ l. l ++ x ∷ []) inv.order
                ∙ append_assoc (takes log) (values inv.cells) (x ∷ [])
                ∙ ap (λ l. takes log ++ l) (sym (map-append inv.cells (a, x)));
          },
        )
  ]

  pull-Ordered :
      (max_size : ℕ) (q : Queue) (log : List (Op × Reply))
      → queue_ready pull q ≡ true
      → Ordered max_size q log
      → (q' : Queue) × (b : Bool) × (r : Reply) × (queue_body malloc pull q ≡ done (q', b, r))
        × Ordered max_size q' ((pull, r) ∷ log)
  unfolding queue_body puts takes
  pull-Ordered max_size q log ready inv =
      pull_cells-Ordered max_size q log inv.cells ready inv.stands inv.bound_kept inv.order

  abbrev pub queue_monitor : Monitor
  queue_monitor = record {
    State = Queue;
    Op = Op;
    Reply = Reply;
    ready = queue_ready;
    body = queue_body malloc;
    quiet = queue_body-quiet;
  }

  body-Ordered :
      (max_size : ℕ) (o : Op) (q : Queue) (log : List (Op × Reply))
      → Fresh malloc
      → queue_ready o q ≡ true
      → Ordered max_size q log
      → (q' : Queue) × (b : Bool) × (r : Reply) × (queue_body malloc o q ≡ returns q' b r)
        × Ordered max_size q' ((o, r) ∷ log)
  body-Ordered max_size (push x) q log fm ready inv = push-Ordered max_size q x log fm ready inv
  body-Ordered max_size pull q log fm ready inv = pull-Ordered max_size q log ready inv

  keeps-Ordered :
      (max_size : ℕ) (o : Op) (q q' : Queue) (b : Bool) (r : Reply) (log : List (Op × Reply))
      → Fresh malloc
      → queue_ready o q ≡ true
      → queue_body malloc o q ≡ returns q' b r
      → Ordered max_size q log
      → Ordered max_size q' ((o, r) ∷ log)
  keeps-Ordered max_size o q q' b r log fm ready e inv =
      let (q₁, b₁, r₁, e₁, inv₁) = body-Ordered max_size o q log fm ready inv in
      let same = returns-inj (sym e₁ ∙ e) in
      subst (λ s. Ordered max_size s ((o, r) ∷ log)) same.0
        (subst (λ r'. Ordered max_size q₁ ((o, r') ∷ log)) same.1 inv₁)

  reached-Ordered :
      (max_size : ℕ) {s : System queue_monitor}
      → Fresh malloc
      → Reach queue_monitor (fresh queue_monitor (queue_create max_size)) s
      → Ordered max_size s.shared s.log
  reached-Ordered max_size fm r =
      Reach-invariant queue_monitor (Ordered max_size)
        (λ o q q' b reply log ready e inv. keeps-Ordered max_size o q q' b reply log fm ready e inv)
        r (create-Ordered max_size)

  -- In every interleaving of calls by any number of threads, the values that were put into the
  -- queue are, in order, those that were taken out and then some `xs`, `size` is the length of
  -- `xs`, and it does not pass a positive `max_size`; `malloc` answers free addresses or NULL.
  pub queue_fifo :
      (max_size : ℕ) {s : System queue_monitor}
      → Fresh malloc
      → Reach queue_monitor (fresh queue_monitor (queue_create max_size)) s
      → (xs : List ℕ) × (puts s.log ≡ takes s.log ++ xs)
        × (s.shared.size ≡ length xs)
        × (0 < max_size → s.shared.size ≤ max_size)
  queue_fifo max_size {s} fm r =
      let inv = reached-Ordered max_size fm r in
      (
        values inv.cells,
        inv.order,
        inv.stands.size ∙ sym (length-map inv.cells (λ (c : Cell). c.1)),
        λ positive. within inv.stands inv.bound_kept positive,
      )

  -- In every reachable state each call whose guard holds runs to its end: no access to freed
  -- memory and no NULL dereference, whatever `tail` holds after the queue was empty.
  pub queue_returns :
      (max_size : ℕ) {s : System queue_monitor}
      → Fresh malloc
      → Reach queue_monitor (fresh queue_monitor (queue_create max_size)) s
      → (o : Op) → queue_ready o s.shared ≡ true
      → (q' : Queue) × (b : Bool) × (r : Reply) × (queue_body malloc o s.shared ≡ returns q' b r)
  queue_returns max_size {s} fm r o ready =
      let (q₁, b₁, r₁, e₁, inv₁) =
        body-Ordered max_size o s.shared s.log fm ready (reached-Ordered max_size fm r) in
      (q₁, b₁, r₁, e₁)

  -- No wake-up is lost: in every reachable state a thread asleep in `queue_pull` finds the queue
  -- empty, one asleep in `queue_push` finds it full, and never are there both.
  pub queue_sleepers :
      (max_size : ℕ) {s : System queue_monitor}
      → Reach queue_monitor (fresh queue_monitor (queue_create max_size)) s
      → (i j : ℕ) (x : ℕ)
      → (s.pc i ≡ waiting pull → s.shared.size ≡ 0)
        × (s.pc j ≡ waiting (push x)
            → (0 < s.shared.max_size) × (s.shared.size ≡ s.shared.max_size))
        × (s.pc i ≡ waiting pull → s.pc j ≢ waiting (push x))
  queue_sleepers max_size {s} r i j x =
      let asleep : Asleep queue_monitor s =
        Reach-Asleep queue_monitor r (λ k o h. idle-not_waiting o h) in
      (
        λ h. wait-pull s.shared (asleep i pull h),
        λ h. wait-push s.shared x (asleep j (push x) h),
        λ h k. full-not_empty s.shared x (asleep i pull h) (asleep j (push x) k),
      )

  -- From every reachable state `queue_destroy` ends without an invalid access, the queue is empty,
  -- and no node that any push allocated is live.
  pub queue_destroy-frees :
      (max_size : ℕ) {s : System queue_monitor}
      → Fresh malloc
      → Reach queue_monitor (fresh queue_monitor (queue_create max_size)) s
      → (q' : Queue) × (queue_destroy s.shared ≡ done q')
        × ((a : ℕ) → q'.heap a ≡ none)
        × (q'.head ≡ none)
        × (q'.size ≡ 0)
  queue_destroy-frees max_size {s} fm r =
      let inv = reached-Ordered max_size fm r in queue_destroy-Stands s.shared inv.cells inv.stands
