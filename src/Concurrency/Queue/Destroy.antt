-- ===== src/Concurrency/Queue/Destroy.antt =====
-- critical_concurrency/queue.c: queue_destroy.
use system_programming_uiuc.Prelude.{
  ℕ, zero, suc, ◌≤◌, ◌≡◌, refl, ap, ◌∙◌, none, some, List, [], ◌∷◌, arith, length,
}
use system_programming_uiuc.Prelude.Outcome.{Outcome, done, ◌>>=◌}
use system_programming_uiuc.Concurrency.Monitor.{update}
use system_programming_uiuc.Concurrency.Queue.{QueueNode, Heap, Queue, destroy_loop, queue_destroy}
use system_programming_uiuc.Concurrency.Queue.Chain.{
  Cell, first, Apart, Chain, Chain-update, only-free,
}
use system_programming_uiuc.Concurrency.Queue.Fifo.{Stands}

-- The heap in which the nodes of the cells have been freed in turn.
unfoldable freed : List Cell → Heap → Heap
freed [] h = h
freed ((a, x) ∷ cs) h = freed cs (update h a none)

destroy-stop : (fuel : ℕ) (q : Queue) → q.head ≡ none → destroy_loop (suc fuel) q ≡ done q
unfolding destroy_loop
destroy-stop fuel q h = rw h refl

destroy-more :
    (fuel a : ℕ) (n : QueueNode) (q : Queue)
    → q.head ≡ some a
    → q.heap a ≡ some n
    → destroy_loop (suc fuel) q
      ≡ destroy_loop fuel (record q { head = n.next; heap = update q.heap a none })
unfolding destroy_loop
destroy-more fuel a n q h at = rw (h, at) refl

no_round : {n : ℕ} → suc n ≤ 0 → ⊥
no_round h = omega (arith, h)

destroy_loop-freed :
    (cs : List Cell) (fuel : ℕ) (q : Queue)
    → length cs ≤ fuel
    → Chain q.heap cs
    → q.head ≡ first cs
    → destroy_loop (suc fuel) q ≡ done (record q { head = none; heap = freed cs q.heap })
unfolding Chain first freed
destroy_loop-freed [] fuel q le ch h =
    destroy-stop fuel q h ∙ ap (λ e. done (record q { head = e })) h
destroy_loop-freed ((a, x) ∷ cs) zero q le ch h = elim (no_round le) [ ]
destroy_loop-freed ((a, x) ∷ cs) (suc fuel) q le ch h =
    destroy-more (suc fuel) a _ q h ch.0
    ∙ destroy_loop-freed cs fuel (record q { head = first cs; heap = update q.heap a none })
        (omega (arith, le)) (Chain-update q.heap a none cs ch.1 ch.2) refl

freed-all :
    (cs : List Cell) (h : Heap)
    → ((a : ℕ) → Apart a cs → h a ≡ none)
    → (a : ℕ) → freed cs h a ≡ none
unfolding freed Apart
freed-all [] h only a = only a tt
freed-all ((b, x) ∷ cs) h only a = freed-all cs (update h b none) (only-free h b x cs only) a

pub queue_destroy-Stands :
    (q : Queue) (cells : List Cell)
    → Stands q cells
    → (q' : Queue) × (queue_destroy q ≡ done q')
      × ((a : ℕ) → q'.heap a ≡ none)
      × (q'.head ≡ none)
      × (q'.size ≡ 0)
unfolding queue_destroy
queue_destroy-Stands q cells st = (
  record q { head = none; tail = none; size = 0; heap = freed cells q.heap },
  ap
      (λ (o : Outcome Queue).
        ◌>>=◌ {A = Queue} {B = Queue} o
          (λ (q' : Queue). done (record q' { head = none; tail = none; size = 0 })))
      (destroy_loop-freed cells q.size q (omega (arith, st.size)) st.chain st.head),
  freed-all cells q.heap st.only,
  refl,
  refl,
)
