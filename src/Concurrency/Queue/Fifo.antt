-- ===== src/Concurrency/Queue/Fifo.antt =====
-- critical_concurrency/queue.c: one call of queue_push or queue_pull on a queue that stands for a
-- list of cells.
use system_programming_uiuc.Prelude.{
  ℕ, ◌+◌, ◌-◌, ◌≤◌, ◌<◌, ◌≡◌, refl, sym, ap, ◌∙◌, true, Option, none, some, List, [], ◌∷◌, ◌++◌,
  arith, length, length-append,
}
use system_programming_uiuc.Prelude.Outcome.{done, ◌>>=◌}
use system_programming_uiuc.Concurrency.Monitor.{update}
use system_programming_uiuc.Concurrency.Queue.{
  QueueNode, Heap, Queue, push, pushed, pulled, queue_ready, link_tail, link, push_body, pull_body,
}
use system_programming_uiuc.Concurrency.Queue.Chain.{
  Cell, first, last_of, Apart, Chain, update-same, update-other, Chain-update, free-Apart,
  last-lookup, Chain-append, last-append, only-append, only-free,
}

unfoldable pub TailAt : Option ℕ → List Cell → Type 0
TailAt tail [] = Unit
TailAt tail (c ∷ cs) = tail ≡ some (last_of c cs).0

-- The tail of an empty queue may be anything: `queue_pull` leaves it at the freed node.
pub record Stands (q : Queue) (cells : List Cell) : Type 0 where
  pub chain : Chain q.heap cells
  pub head : q.head ≡ first cells
  pub tail : TailAt q.tail cells
  pub size : q.size ≡ length cells
  pub bound : 0 < q.max_size → q.size ≤ q.max_size
  -- No other node is live.
  pub only : (a : ℕ) → Apart a cells → q.heap a ≡ none

abbrev fill : ℕ → ℕ → Heap → Heap
fill b x h = update h b (some (record { data_ptr = x; next = none }))

-- The queue after a push that got the node `b`.
unfoldable pub push_to : List Cell → ℕ → ℕ → Queue → Queue
push_to [] b x q = record q {
  head = some b;
  tail = some b;
  size = q.size + 1;
  heap = fill b x q.heap;
}
push_to (c ∷ cs) b x q = record q {
  tail = some b;
  size = q.size + 1;
  heap =
      update (fill b x q.heap) (last_of c cs).0
        (some (record { data_ptr = (last_of c cs).1; next = some b }));
}

unfoldable pub pull_to : List Cell → ℕ → Queue → Queue
pull_to cs a q = record q { head = first cs; size = q.size - 1; heap = update q.heap a none }

fill-Chain : (h : Heap) (b x : ℕ) (cs : List Cell) → h b ≡ none → Chain h cs → Chain (fill b x h) cs
fill-Chain h b x cs free ch = Chain-update h b _ cs (free-Apart h b cs free ch) ch

link-nil :
    (b : ℕ) (q : Queue)
    → q.head ≡ none
    → link b q ≡ done (record q { head = some b; tail = some b })
unfolding link
link-nil b q h = rw h refl

link-more :
    (b : ℕ) (q : Queue) (a t : ℕ) (n : QueueNode)
    → q.head ≡ some a
    → q.tail ≡ some t
    → q.heap t ≡ some n
    → link b q
      ≡ done
          (record q { tail = some b; heap = update q.heap t (some (record n { next = some b })) })
unfolding link link_tail
link-more b q a t n h tl at = rw (h, tl, at) refl

pub push_body-push_to :
    (q : Queue) (cells : List Cell) (b x : ℕ)
    → Stands q cells
    → q.heap b ≡ none
    → push_body (some b) x q ≡ done (push_to cells b x q, true, pushed x)
unfolding push_body push_to first TailAt
push_body-push_to q [] b x st free =
    ap (λ o. o >>= λ q'. done (record q' { size = q'.size + 1 }, true, pushed x))
      (link-nil b (record q { heap = fill b x q.heap }) st.head)
push_body-push_to q (c ∷ cs) b x st free =
    ap (λ o. o >>= λ q'. done (record q' { size = q'.size + 1 }, true, pushed x))
      (link-more b (record q { heap = fill b x q.heap }) c.0 (last_of c cs).0 _ st.head st.tail
        (last-lookup (fill b x q.heap) c cs (fill-Chain q.heap b x (c ∷ cs) free st.chain)))

pub push_to-Stands :
    (q : Queue) (cells : List Cell) (b x : ℕ)
    → Stands q cells
    → q.heap b ≡ none
    → queue_ready (push x) q ≡ true
    → Stands (push_to cells b x q) (cells ++ (b, x) ∷ [])
unfolding push_to first TailAt queue_ready Chain Apart last_of
push_to-Stands q [] b x st free ready = record {
  chain = (update-same q.heap b _, tt, tt);
  head = refl;
  tail = refl;
  size = ap (λ (n : ℕ). n + 1) st.size;
  bound = λ bounded. ground (arith, st.bound);
  only = λ a ne. update-other q.heap b a _ (λ e. ne.0 (sym e)) ∙ st.only a tt;
}
push_to-Stands q (c ∷ cs) b x st free ready = record {
  chain =
      Chain-append (fill b x q.heap) b x c cs (fill-Chain q.heap b x (c ∷ cs) free st.chain)
        (free-Apart q.heap b (c ∷ cs) free st.chain) (update-same q.heap b _);
  head = st.head;
  tail = ap (λ (d : Cell). some d.0) (sym (last-append c cs (b, x)));
  size = omega (arith, st.size, length-append (c ∷ cs) ((b, x) ∷ []));
  bound = λ bounded. ground (arith, st.bound);
  only = only-append q.heap b _ _ c cs (b, x) refl st.only;
}

pub pull_body-pull_to :
    (q : Queue) (a x : ℕ) (cs : List Cell)
    → Stands q ((a, x) ∷ cs)
    → pull_body q ≡ done (pull_to cs a q, true, pulled x)
unfolding pull_body pull_to first Chain
pull_body-pull_to q a x cs st = rw (st.head, st.chain.0) refl

pull-tail : (tail : Option ℕ) (c : Cell) (cs : List Cell) → TailAt tail (c ∷ cs) → TailAt tail cs
unfolding TailAt last_of
pull-tail tail c [] at = tt
pull-tail tail c (d ∷ ds) at = at

pub pull_to-Stands :
    (q : Queue) (a x : ℕ) (cs : List Cell) → Stands q ((a, x) ∷ cs) → Stands (pull_to cs a q) cs
unfolding pull_to Chain
pull_to-Stands q a x cs st = record {
  chain = Chain-update q.heap a none cs st.chain.1 st.chain.2;
  head = refl;
  tail = pull-tail q.tail (a, x) cs st.tail;
  size = omega (arith, st.size);
  bound = λ bounded. omega (arith, st.bound bounded);
  only = only-free q.heap a x cs st.only;
}
