-- ===== src/Vector/Script.antt =====
-- vector/vector.c as a whole: a client's calls, and the same calls on a list.
use system_programming_uiuc.Prelude.{
  false, leb→le, ◌==◌, ℕ, ◌+◌, ◌-◌, ◌≤◌, ◌≡◌, refl, ap, Bool, true, Option, none, some, List, [],
  ◌∷◌, ◌++◌, arith, ltb, leb, if◌then◌else◌, some_inj, length, set, take, drop, length-append,
  length-set, length-take, ltb→lt, length-splice,
}
use system_programming_uiuc.Prelude.Outcome.{Outcome, done, abort, fault, no_fuel, ◌>>=◌}
use system_programming_uiuc.Vector.State.{Vector, vector_set}
use system_programming_uiuc.Vector.Edit.{
  vector_push_back, vector_pop_back, vector_insert, vector_erase, vector_clear,
}
use system_programming_uiuc.Vector.Erase.{erased, length-erased}

pub data Op (E : Type 0) : Type 0 where
  push_back : E → Op E
  pop_back : Op E
  put : ℕ → E → Op E
  insert : ℕ → E → Op E
  remove : ℕ → Op E
  clear : Op E

module _ {E W : Type 0} where
  -- One call, with memory available.
  unfoldable pub call : Op E → Vector E W → Outcome (Vector E W)
  call (push_back x) v = vector_push_back true v x
  call pop_back v = vector_pop_back v
  call (put i x) v = vector_set v i x
  call (insert i x) v = vector_insert true v i x
  call (remove i) v = vector_erase v i
  call clear v = vector_clear v

  unfoldable pub run : List (Op E) → Vector E W → Outcome (Vector E W)
  run [] v = done v
  run (op ∷ ops) v = call op v >>= run ops

-- The same call on a list, and how it ends: an index that an assertion refuses stops the program, and
-- an insertion at position 0, the only one that an empty list has, uses memory outside of the array.
-- `none` is an insertion past the end, where the list does not say what happens.
unfoldable pub list_call : {E : Type 0} → (E → E) → Op E → List E → Option (Outcome (List E))
list_call copy (push_back x) xs = some (done (xs ++ copy x ∷ []))
list_call copy pop_back xs = some (done (take (length xs - 1) xs))
list_call copy (put i x) xs =
    if ltb i (length xs) then some (done (set xs i (copy x))) else some abort
list_call copy (insert i x) xs =
    if i == 0
    then some fault
    else if leb i (length xs)
    then some (done (take i xs ++ copy x ∷ drop i xs))
    else none
list_call copy (remove i) xs =
    if ltb i (length xs) then some (done (erased copy xs i)) else some abort
list_call copy clear xs = some (done [])

-- The calls end with the first one that does not return.
unfoldable pub after :
    {E : Type 0}
    → (List E → Option (Outcome (List E)))
    → Option (Outcome (List E))
    → Option (Outcome (List E))
after rest none = none
after rest (some (done ys)) = rest ys
after rest (some abort) = some abort
after rest (some fault) = some fault
after rest (some no_fuel) = some no_fuel

unfoldable pub list_run : {E : Type 0} → (E → E) → List (Op E) → List E → Option (Outcome (List E))
unfolding list_call after
list_run copy [] xs = some (done xs)
list_run copy (op ∷ ops) xs = after (list_run copy ops) (list_call copy op xs)

-- A list that is not empty, cut before its last element.
pub snoc :
    {E : Type 0} (x : E) (xs : List E) → (y : E) × (x ∷ xs ≡ take (length xs) (x ∷ xs) ++ y ∷ [])
snoc x [] = (x, refl)
snoc x (z ∷ xs) = let (y, e) = snoc z xs in (y, ap (λ l. x ∷ l) e)

pub if-true : {A : Type 0} (b : Bool) (x y : A) → b ≡ true → (if b then x else y) ≡ x
if-true b x y h = rw h refl

pub if-false : {A : Type 0} (b : Bool) (x y : A) → b ≡ false → (if b then x else y) ≡ y
if-false b x y h = rw h refl

guarded :
    {A : Type 0} (b : Bool) (x y : A)
    → (if b then some (done x) else some abort) ≡ some (done y)
    → (b ≡ true) × (x ≡ y)
guarded b x y h = ground arith

behind_front :
    {A : Type 0} (b c : Bool) (x y : A)
    → (if b then some fault else if c then some (done x) else none) ≡ some (done y)
    → (c ≡ true) × (x ≡ y)
behind_front b c x y h = ground arith

pub no_result : {A : Type 0} {a : A} → none ≡ some a → ⊥
no_result h = cc

done_inj : {A : Type 0} {x y : A} → done x ≡ done y → x ≡ y
done_inj h = cc

-- A call makes a list longer by one element at most.
pub length-list_call :
    {E : Type 0} (copy : E → E) (op : Op E) (xs ys : List E)
    → list_call copy op xs ≡ some (done ys)
    → length ys ≤ length xs + 1
unfolding list_call
length-list_call copy (push_back x) xs ys h =
    omega (arith, ap length (done_inj (some_inj h)), length-append xs (copy x ∷ []))
length-list_call copy pop_back xs ys h =
    omega (arith, ap length (done_inj (some_inj h)), length-take (length xs - 1) xs)
length-list_call copy (put i x) xs ys h =
    let (_, e) = guarded (ltb i (length xs)) (set xs i (copy x)) ys h in
    omega (arith, ap length e, length-set xs i (copy x))
length-list_call copy (insert i x) xs ys h =
    let (inside, e) =
      behind_front (i == 0) (leb i (length xs)) (take i xs ++ copy x ∷ drop i xs) ys h in
    omega (arith, ap length e, length-splice i (copy x) xs, leb→le i (length xs) inside)
length-list_call copy (remove i) xs ys h =
    let (inside, e) = guarded (ltb i (length xs)) (erased copy xs i) ys h in
    omega (arith, ap length e, ltb→lt i (length xs) inside, length-erased copy xs i)
length-list_call copy clear xs ys h = omega (arith, ap length (done_inj (some_inj h)))
