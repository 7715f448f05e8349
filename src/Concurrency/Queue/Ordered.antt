-- ===== src/Concurrency/Queue/Ordered.antt =====
-- critical_concurrency/queue.c: the order of values that the log and the queue keep.
use system_programming_uiuc.Prelude.{
  ℕ, ◌+◌, ◌≤◌, ◌<◌, ◌≡◌, refl, sym, ap, ◌∙◌, Bool, true, false, Option, none, some, List, [], ◌∷◌,
  ◌++◌, map, arith, append_assoc,
}
use system_programming_uiuc.Prelude.Outcome.{Outcome, done, abort, fault, no_fuel, ◌>>=◌}
use system_programming_uiuc.Concurrency.Monitor.{idle, waiting}
use system_programming_uiuc.Concurrency.Queue.{
  Heap, Queue, Op, push, pull, Reply, pushed, lost, pulled, queue_create, queue_ready, push_body,
  pull_body,
}
use system_programming_uiuc.Concurrency.Queue.Chain.{Cell, first, Chain}
use system_programming_uiuc.Concurrency.Queue.Fifo.{
  TailAt, Stands, push_to, pull_to, pull_body-pull_to, pull_to-Stands,
}

-- The values that calls put into the queue and took out of it, oldest first; the log is newest
-- first.
unfoldable pub puts : List (Op × Reply) → List ℕ
puts [] = []
puts ((o, pushed x) ∷ log) = puts log ++ x ∷ []
puts ((o, lost x) ∷ log) = puts log
puts ((o, pulled x) ∷ log) = puts log

unfoldable pub takes : List (Op × Reply) → List ℕ
takes [] = []
takes ((o, pushed x) ∷ log) = takes log
takes ((o, lost x) ∷ log) = takes log
takes ((o, pulled x) ∷ log) = takes log ++ x ∷ []

-- An address that `malloc` returns is not in use.
abbrev pub Fresh : (Heap → Option ℕ) → Type 0
Fresh malloc = (h : Heap) (a : ℕ) → malloc h ≡ some a → h a ≡ none

abbrev pub values : List Cell → List ℕ
values cells = map (λ (c : Cell). c.1) cells

pub record Ordered (max_size : ℕ) (q : Queue) (log : List (Op × Reply)) : Type 0 where
  pub cells : List Cell
  pub stands : Stands q cells
  pub bound_kept : q.max_size ≡ max_size
  pub order : puts log ≡ takes log ++ values cells

abbrev pub Result : Type 0
Result = Queue × Bool × Reply

abbrev pub returns : Queue → Bool → Reply → Outcome Result
returns q b r = done (q, b, r)

linked-loud :
    (w : Outcome Queue) (x : ℕ) (s' : Queue) (r : Reply) {P : Type 0}
    → (w >>= λ q'. returns (record q' { size = q'.size + 1 }) true (pushed x)) ≡ returns s' false r
    → P
linked-loud (done q') x s' r h = cc
linked-loud abort x s' r h = cc
linked-loud fault x s' r h = cc
linked-loud no_fuel x s' r h = cc

pub push_body-quiet :
    (m : Option ℕ) (x : ℕ) (q s' : Queue) (r : Reply)
    → push_body m x q ≡ returns s' false r
    → s' ≡ q
unfolding push_body
push_body-quiet none x q s' r h = cc
push_body-quiet (some a) x q s' r h = linked-loud _ x s' r h

pub pull_body-quiet : (q s' : Queue) (r : Reply) → pull_body q ≡ returns s' false r → s' ≡ q
unfolding pull_body
pull_body-quiet q s' r h = ground arith

pub map-append : (cs : List Cell) (c : Cell) → values (cs ++ c ∷ []) ≡ values cs ++ c.1 ∷ []
map-append [] c = refl
map-append (d ∷ cs) c = ap (λ l. d.1 ∷ l) (map-append cs c)

pull_to-max_size : (cs : List Cell) (a : ℕ) (q : Queue) → (pull_to cs a q).max_size ≡ q.max_size
unfolding pull_to
pull_to-max_size cs a q = refl

pub push_to-max_size :
    (cells : List Cell) (b x : ℕ) (q : Queue) → (push_to cells b x q).max_size ≡ q.max_size
unfolding push_to
push_to-max_size [] b x q = refl
push_to-max_size (c ∷ cs) b x q = refl

pub pull_cells-Ordered :
    (max_size : ℕ) (q : Queue) (log : List (Op × Reply)) (cells : List Cell)
    → queue_ready pull q ≡ true
    → Stands q cells
    → q.max_size ≡ max_size
    → puts log ≡ takes log ++ values cells
    → (q' : Queue) × (b : Bool) × (r : Reply) × (pull_body q ≡ returns q' b r)
      × Ordered max_size q' ((pull, r) ∷ log)
unfolding queue_ready puts takes
pull_cells-Ordered max_size q log [] ready st bound order = ground (arith, st.size)
pull_cells-Ordered max_size q log ((a, x) ∷ cs) ready st bound order = (
  pull_to cs a q,
  true,
  pulled x,
  pull_body-pull_to q a x cs st,
  record {
    cells = cs;
    stands = pull_to-Stands q a x cs st;
    bound_kept = pull_to-max_size cs a q ∙ bound;
    order = order ∙ sym (append_assoc (takes log) (x ∷ []) (values cs));
  },
)

pub returns-inj :
    {q q' : Queue} {b b' : Bool} {r r' : Reply}
    → returns q b r ≡ returns q' b' r'
    → (q ≡ q') × (r ≡ r')
returns-inj h = (cc, cc)

pub wait-pull : (q : Queue) → queue_ready pull q ≡ false → q.size ≡ 0
unfolding queue_ready
wait-pull q h = ground arith

pub wait-push :
    (q : Queue) (x : ℕ) → queue_ready (push x) q ≡ false → (0 < q.max_size) × (q.size ≡ q.max_size)
unfolding queue_ready
wait-push q x h = ground arith

pub full-not_empty :
    (q : Queue) (x : ℕ) → queue_ready pull q ≡ false → queue_ready (push x) q ≡ false → ⊥
unfolding queue_ready
full-not_empty q x h k = ground arith

pub within :
    {max_size : ℕ} {q : Queue} {cells : List Cell}
    → Stands q cells
    → q.max_size ≡ max_size
    → 0 < max_size
    → q.size ≤ max_size
within st e positive = ground (arith, st.bound)

pub create-Ordered : (max_size : ℕ) → Ordered max_size (queue_create max_size) []
unfolding queue_create puts takes TailAt Chain first
create-Ordered max_size = record {
  cells = [];
  stands = record {
    chain = tt;
    head = refl;
    tail = tt;
    size = refl;
    bound = λ b. omega arith;
    only = λ a ne. refl;
  };
  bound_kept = refl;
  order = refl;
}

pub idle-not_waiting : {P : Type 0} (o : Op) → idle ≡ waiting o → P
idle-not_waiting o h = cc
