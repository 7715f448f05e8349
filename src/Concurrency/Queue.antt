-- ===== src/Concurrency/Queue.antt =====
-- critical_concurrency/queue.c: a bounded queue of pointers as a linked list of nodes.
-- A pointer is `none` for NULL or an address. The heap holds the live nodes; an access to any
-- other address is a fault. `malloc` is a parameter: it looks at the heap and answers an address
-- or NULL. `max_size` is 0 where the C value is not positive, the queue without a bound.
pub mod Chain
pub mod Destroy
pub mod Fifo
pub mod Ordered
pub mod Shared
use system_programming_uiuc.Prelude.{
  ℕ, zero, suc, ◌+◌, ◌-◌, Bool, true, false, ◌&&◌, not, Option, none, some, ltb, ◌==◌,
}
use system_programming_uiuc.Prelude.Outcome.{Outcome, done, fault, no_fuel, ◌>>=◌}
use system_programming_uiuc.Concurrency.Monitor.{update}

pub record QueueNode : Type 0 where
  pub data_ptr : ℕ
  pub next : Option ℕ

abbrev pub Heap : Type 0
Heap = ℕ → Option QueueNode

pub record Queue : Type 0 where
  pub head : Option ℕ
  pub tail : Option ℕ
  pub size : ℕ
  pub max_size : ℕ
  pub heap : Heap

pub data Op : Type 0 where
  push : ℕ → Op
  pull : Op

-- What a call does for its caller. `queue_push` returns nothing: that a value is lost for lack of
-- memory shows only here.
pub data Reply : Type 0 where
  pushed : ℕ → Reply
  lost : ℕ → Reply
  pulled : ℕ → Reply

-- The heap holds nothing but the nodes of the queue, so a new queue comes with an empty one.
unfoldable pub queue_create : ℕ → Queue
queue_create max_size = record {
  head = none;
  tail = none;
  size = 0;
  max_size = max_size;
  heap = λ p. none;
}

-- The negated tests of the `while` loops.
unfoldable pub queue_ready : Op → Queue → Bool
queue_ready (push x) q = not (ltb 0 q.max_size && q.size == q.max_size)
queue_ready pull q = not (q.size == 0)

-- `this->tail->next = insert; this->tail = insert;`
unfoldable pub link_tail : ℕ → Queue → Outcome Queue
link_tail insert q = elim q.tail [
  | none ↦ fault
  | some t ↦ elim (q.heap t) [
    | none ↦ fault
    | some n ↦ done (record q {
      tail = some insert;
      heap = update q.heap t (some (record n { next = some insert }));
    })
  ]
]

-- The node `insert` with its fields set joins the list.
unfoldable pub link : ℕ → Queue → Outcome Queue
unfolding link_tail
link insert q = elim q.head [
  | none ↦ done (record q { head = some insert; tail = some insert })
  | some h ↦ link_tail insert q
]

unfoldable pub push_body : Option ℕ → ℕ → Queue → Outcome (Queue × Bool × Reply)
unfolding link
push_body none x q = done (q, false, lost x)
push_body (some insert) x q =
    link insert
      (record q { heap = update q.heap insert (some (record { data_ptr = x; next = none })) })
    >>= λ q'. done (record q' { size = q'.size + 1 }, true, pushed x)

unfoldable pub pull_body : Queue → Outcome (Queue × Bool × Reply)
pull_body q = elim q.head [
  | none ↦ done (q, true, pulled 0)
  | some cur ↦ elim (q.heap cur) [
    | none ↦ fault
    | some n ↦ done (
      record q { head = n.next; size = q.size - 1; heap = update q.heap cur none },
      true,
      pulled n.data_ptr,
    )
  ]
]

-- The loop of `queue_destroy`: `cur = head; head = head->next; free(cur)`.
unfoldable pub destroy_loop : ℕ → Queue → Outcome Queue
destroy_loop zero q = no_fuel
destroy_loop (suc fuel) q = elim q.head [
  | none ↦ done q
  | some cur ↦ elim (q.heap cur) [
    | none ↦ fault
    | some n ↦ destroy_loop fuel (record q { head = n.next; heap = update q.heap cur none })
  ]
]

-- The queue as it is when `free(this)` gives it back. A round frees a node: the size plus one
-- rounds are enough.
unfoldable pub queue_destroy : Queue → Outcome Queue
unfolding destroy_loop
queue_destroy q = do
  q' ← destroy_loop (suc q.size) q
  done (record q' { head = none; tail = none; size = 0 })

module _ (malloc : Heap → Option ℕ) where
  unfoldable pub queue_body : Op → Queue → Outcome (Queue × Bool × Reply)
  unfolding push_body pull_body
  queue_body (push x) q = push_body (malloc q.heap) x q
  queue_body pull q = pull_body q
