-- ===== src/Vector/Agree.antt =====
-- vector/vector.c as a whole: one call of the vector against the same call on a list.
use system_programming_uiuc.Prelude.{
  Bool-cases, inl, inr, ℕ_discrete, eq-true, eq-false, leb→le, le→leb, ltb-false, ◌==◌, dec_lt,
  lt→ltb, ℕ, suc, ◌-◌, ◌^◌, ◌<◌, ◌≡◌, refl, sym, subst, ◌∙◌, true, none, some, List, [], ◌∷◌, ◌++◌,
  arith, ltb, leb, if◌then◌else◌, some_inj, length, set, take, drop, get_elem?_lt,
}
use system_programming_uiuc.Prelude.Outcome.{Outcome, done, abort, fault, no_fuel}
use system_programming_uiuc.Vector.State.{Callbacks, Vector, vector_set}
use system_programming_uiuc.Vector.Edit.{vector_pop_back, vector_insert, vector_erase, vector_clear}
use system_programming_uiuc.Vector.Contents.{Represents, Yields}
use system_programming_uiuc.Vector.Access.{vector_set-set}
use system_programming_uiuc.Vector.Ends.{
  vector_push_back-append, vector_pop_back-append, vector_pop_back-nil,
}
use system_programming_uiuc.Vector.Insert.{vector_insert-splice, vector_insert-front}
use system_programming_uiuc.Vector.Erase.{erased, vector_erase-erased, vector_clear-nil}
use system_programming_uiuc.Vector.Script.{
  Op, push_back, pop_back, put, insert, remove, clear, call, list_call, snoc, if-true, if-false,
  no_result,
}

module _ {E W : Type 0} where
  -- A call that returns a vector for `ys` with the same callbacks.
  pub record Refines (o : Outcome (Vector E W)) (cb : Callbacks E W) (ys : List E) : Type 0 where
    pub result : Vector E W
    pub returns : o ≡ done result
    pub stands : Represents result ys
    pub same : result.callbacks ≡ cb

  forget :
      {o : Outcome (Vector E W)} {cb : Callbacks E W} {ys : List E} {w : W}
      → Yields o cb ys w
      → Refines o cb ys
  forget (v, e, r, c, _) = record { result = v; returns = e; stands = r; same = c }

  pop-Refines :
      (xs : List E) {v : Vector E W}
      → Represents v xs
      → Refines (vector_pop_back v) v.callbacks (take (length xs - 1) xs)
  pop-Refines [] {v} r = record {
    result = v;
    returns = vector_pop_back-nil r;
    stands = r;
    same = refl;
  }
  pop-Refines (x ∷ xs) {v} r =
      let (y, e) = snoc x xs in
      let last : suc (length xs) - 1 ≡ length xs = omega arith in
      let r' : Represents v (take (length xs) (x ∷ xs) ++ y ∷ []) = subst (Represents v) e r in
      subst (λ (n : ℕ). Refines (vector_pop_back v) v.callbacks (take n (x ∷ xs))) (sym last)
        (forget (vector_pop_back-append (take (length xs) (x ∷ xs)) y r'))

  clear-Refines :
      (xs : List E) {v : Vector E W} → Represents v xs → Refines (vector_clear v) v.callbacks []
  clear-Refines xs {v} r =
      let (v', e, r', same, _, _) = vector_clear-nil xs r in
      record { result = v'; returns = e; stands = r'; same = same }

  -- A call of the vector ends as the one of the list.
  abbrev pub Agrees : Outcome (Vector E W) → Callbacks E W → Outcome (List E) → Type 0
  Agrees r cb (done ys) = Refines r cb ys
  Agrees r cb abort = r ≡ abort
  Agrees r cb fault = r ≡ fault
  Agrees r cb no_fuel = r ≡ no_fuel

  transfer :
      (r : Outcome (Vector E W)) (cb : Callbacks E W) {o o' : Outcome (List E)}
      → some o ≡ some o'
      → Agrees r cb o
      → Agrees r cb o'
  transfer r cb e a = subst (Agrees r cb) (some_inj e) a

  put-Agrees :
      (i : ℕ) (x : E) (xs : List E) (o : Outcome (List E)) {v : Vector E W}
      → Represents v xs
      → list_call v.copy_constructor (put i x) xs ≡ some o
      → Agrees (vector_set v i x) v.callbacks o
  unfolding list_call vector_set
  put-Agrees i x xs o {v} r h =
      let ended = done (set xs i (v.copy_constructor x)) in
      elim (dec_lt i (length xs)) [
        | yes inside ↦
            let (old, at) = get_elem?_lt xs i inside in
            transfer _ _
              (sym (
                  if-true (ltb i (length xs)) (some ended) (some abort)
                    (lt→ltb i (length xs) inside))
                ∙ h)
              (forget (vector_set-set xs i old x r at))
        | no past ↦
            let out = ltb-false i (length xs) (omega (arith, past)) in
            transfer _ _ (sym (if-false (ltb i (length xs)) (some ended) (some abort) out) ∙ h)
              (rw (le→leb v.size i (omega (arith, r.size, past))) refl)
      ]

  insert-Agrees :
      (i : ℕ) (x : E) (xs : List E) (o : Outcome (List E)) {v : Vector E W}
      → Represents v xs
      → length xs < 2 ^ 60
      → list_call v.copy_constructor (insert i x) xs ≡ some o
      → Agrees (vector_insert true v i x) v.callbacks o
  unfolding list_call
  insert-Agrees i x xs o {v} r small h =
      let ended = done (take i xs ++ v.copy_constructor x ∷ drop i xs) in
      let behind = if leb i (length xs) then some ended else none in
      elim (ℕ_discrete i 0) [
        | yes front ↦
            transfer _ _ (sym (if-true (i == 0) (some fault) behind (eq-true i 0 front)) ∙ h) (
              subst (λ n. vector_insert true v n x ≡ fault) (sym front)
                (vector_insert-front true v x (omega (arith, r.size)) r.bounded))
        | no later ↦
            let h' = sym (if-false (i == 0) (some fault) behind (eq-false i 0 later)) ∙ h in
            elim (Bool-cases (leb i (length xs))) [
              | inl inside ↦
                  transfer _ _ (sym (if-true (leb i (length xs)) (some ended) none inside) ∙ h') (
                    forget (
                      vector_insert-splice i x r small (omega (arith, later))
                        (leb→le i (length xs) inside)))
              | inr past ↦
                  absurd
                    (no_result (sym (if-false (leb i (length xs)) (some ended) none past) ∙ h'))
            ]
      ]

  remove-Agrees :
      (i : ℕ) (xs : List E) (o : Outcome (List E)) {v : Vector E W}
      → Represents v xs
      → list_call v.copy_constructor (remove i) xs ≡ some o
      → Agrees (vector_erase v i) v.callbacks o
  unfolding list_call vector_erase
  remove-Agrees i xs o {v} r h =
      let ended = done (erased v.copy_constructor xs i) in
      elim (dec_lt i (length xs)) [
        | yes inside ↦
            let (x, at) = get_elem?_lt xs i inside in
            transfer _ _
              (sym (
                  if-true (ltb i (length xs)) (some ended) (some abort)
                    (lt→ltb i (length xs) inside))
                ∙ h)
              (forget (vector_erase-erased xs i x r at))
        | no past ↦
            let out = ltb-false i (length xs) (omega (arith, past)) in
            transfer _ _ (sym (if-false (ltb i (length xs)) (some ended) (some abort) out) ∙ h)
              (rw (ltb-false i v.size (omega (arith, r.size, past))) refl)
      ]

  pub call-Agrees :
      (op : Op E) (xs : List E) (o : Outcome (List E)) {v : Vector E W}
      → Represents v xs
      → length xs < 2 ^ 60
      → list_call v.copy_constructor op xs ≡ some o
      → Agrees (call op v) v.callbacks o
  unfolding call list_call
  call-Agrees (push_back x) xs o r small h =
      transfer _ _ h (forget (vector_push_back-append x r small))
  call-Agrees pop_back xs o r small h = transfer _ _ h (pop-Refines xs r)
  call-Agrees (put i x) xs o r small h = put-Agrees i x xs o r h
  call-Agrees (insert i x) xs o r small h = insert-Agrees i x xs o r small h
  call-Agrees (remove i) xs o r small h = remove-Agrees i xs o r h
  call-Agrees clear xs o r small h = transfer _ _ h (clear-Refines xs r)
