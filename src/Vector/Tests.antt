-- ===== src/Vector/Tests.antt =====
-- vector/vector.c: the theorems at concrete vectors, and some runs.
use system_programming_uiuc.Prelude.{
  ℕ, zero, suc, ◌+◌, ◌≤◌, ◌≡◌, refl, ap, true, some, List, [], ◌∷◌, arith, get_elem?,
}
use system_programming_uiuc.Prelude.Outcome.{done, fault}
use system_programming_uiuc.Vector.State.{
  Callbacks, Vector, get_new_capacity, grow_fuel, vector_reserve, vector_get, vector_set,
  vector_destroy,
}
use system_programming_uiuc.Vector.Edit.{vector_push_back, vector_pop_back, vector_insert}
use system_programming_uiuc.Vector.Capacity.{get_new_capacity-done, IsCapacity}
use system_programming_uiuc.Vector.Contents.{Represents, Yields}
use system_programming_uiuc.Vector.Access.{
  vector_get-get_elem?, vector_set-set, vector_reserve-room,
}
use system_programming_uiuc.Vector.Ends.{vector_push_back-append, vector_pop_back-append}
use system_programming_uiuc.Vector.Insert.{vector_insert-front}
use system_programming_uiuc.Vector.Erase.{vector_destroy-all}
use system_programming_uiuc.Vector.Script.{
  Op, push_back, pop_back, put, insert, remove, clear, run, list_run,
}
use system_programming_uiuc.Vector.Run.{run-list_run}

-- Copies are larger by 100, the default element is 7, and the destructor writes a log.
abbrev logging : Callbacks ℕ (List ℕ)
logging = record {
  copy_constructor = λ x. x + 100;
  destructor = λ x w. x ∷ w;
  default_constructor = 7;
}

abbrev three : Vector ℕ (List ℕ)
three = record {
  callbacks = logging;
  array = some 1 ∷ some 2 ∷ some 3 ∷ [];
  size = 3;
  capacity = 3;
  world = [];
}

abbrev items : List ℕ
items = 1 ∷ 2 ∷ 3 ∷ []

three-Represents : Represents three items
three-Represents = record {
  size = refl;
  room = refl;
  fits = omega arith;
  bounded = omega arith;
  each = each;
}
  where
    each : (i x : ℕ) → get_elem? items i ≡ some x → get_elem? three.array i ≡ some (some x)
    each zero x h = ap some h
    each (suc zero) x h = ap some h
    each (suc (suc zero)) x h = ap some h
    each (suc (suc (suc i))) x h = cc

get_new_capacity-done_example : (c : ℕ) × (get_new_capacity grow_fuel 9 ≡ done c) × IsCapacity 9 c
get_new_capacity-done_example = get_new_capacity-done 9 (omega arith)

vector_get-get_elem?_example : vector_get three 1 ≡ done 2
vector_get-get_elem?_example = vector_get-get_elem? items 1 three-Represents

vector_set-set_example : Yields (vector_set three 1 9) logging (1 ∷ 109 ∷ 3 ∷ []) (2 ∷ [])
vector_set-set_example = vector_set-set items 1 2 9 three-Represents refl

vector_reserve-room_example :
    (v : Vector ℕ (List ℕ)) × (vector_reserve true three 20 ≡ done v)
    × Represents v items
    × (20 ≤ v.capacity)
    × (3 ≤ v.capacity)
    × (v.world ≡ [])
vector_reserve-room_example = vector_reserve-room 20 three-Represents (omega arith)

vector_push_back-append_example :
    Yields (vector_push_back true three 4) logging (1 ∷ 2 ∷ 3 ∷ 104 ∷ []) []
vector_push_back-append_example = vector_push_back-append 4 three-Represents (omega arith)

vector_pop_back-append_example : Yields (vector_pop_back three) logging (1 ∷ 2 ∷ []) (3 ∷ [])
vector_pop_back-append_example = vector_pop_back-append (1 ∷ 2 ∷ []) 3 three-Represents

vector_insert-front_example : vector_insert true three 0 9 ≡ fault
vector_insert-front_example = vector_insert-front true three 9 (omega arith) (omega arith)

vector_destroy-all_example : vector_destroy three ≡ done (3 ∷ 2 ∷ 1 ∷ [])
vector_destroy-all_example = vector_destroy-all items three-Represents

abbrev script : List (Op ℕ)
script = push_back 4 ∷ insert 1 9 ∷ remove 0 ∷ pop_back ∷ put 0 5 ∷ []

script_lem : list_run logging.copy_constructor script items ≡ some (done (105 ∷ 102 ∷ 103 ∷ []))
unfolding list_run
script_lem = refl

-- An element put into a list that all calls before have emptied.
into_empty : list_run logging.copy_constructor (clear ∷ insert 0 9 ∷ []) items ≡ some fault
unfolding list_run
into_empty = refl

run-list_run_example :
    (v : Vector ℕ (List ℕ)) × (run script three ≡ done v) × Represents v (105 ∷ 102 ∷ 103 ∷ [])
run-list_run_example =
    run-list_run script items (done (105 ∷ 102 ∷ 103 ∷ [])) three-Represents (omega arith)
      script_lem
