-- ===== src/Vector/Run.antt =====
-- vector/vector.c as a whole: a client's calls against the same calls on a list.
use system_programming_uiuc.Prelude.{
  ◌+◌, ◌^◌, ◌≤◌, ◌<◌, ◌≡◌, refl, sym, ap, subst, ◌∙◌, Option, none, some, List, [], ◌∷◌, arith,
  some_inj, length,
}
use system_programming_uiuc.Prelude.Outcome.{Outcome, done, abort, fault, no_fuel, ◌>>=◌}
use system_programming_uiuc.Vector.State.{Callbacks, Vector}
use system_programming_uiuc.Vector.Contents.{Represents}
use system_programming_uiuc.Vector.Script.{
  Op, call, run, list_call, after, list_run, no_result, length-list_call,
}
use system_programming_uiuc.Vector.Agree.{call-Agrees}

module _ {E W : Type 0} where
  -- The calls of the vector return one for the list of the other calls, or stop in the same way.
  abbrev pub Ends : Outcome (Vector E W) → Outcome (List E) → Type 0
  Ends r (done ys) = (v' : Vector E W) × (r ≡ done v') × Represents v' ys
  Ends r abort = r ≡ abort
  Ends r fault = r ≡ fault
  Ends r no_fuel = r ≡ no_fuel

  run-next :
      (op : Op E) (ops : List (Op E)) (xs : List E) (c : Option (Outcome (List E)))
      (o : Outcome (List E)) {v : Vector E W}
      → Represents v xs
      → length xs < 2 ^ 60
      → list_call v.copy_constructor op xs ≡ c
      → after (list_run v.copy_constructor ops) c ≡ some o
      → ((zs : List E) (v' : Vector E W)
          → Represents v' zs
          → length zs ≤ length xs + 1
          → list_run v'.copy_constructor ops zs ≡ some o
          → Ends (run ops v') o)
      → Ends (run (op ∷ ops) v) o
  unfolding run after
  run-next op ops xs none o r small first rest later = absurd (no_result rest)
  run-next op ops xs (some (done zs)) o {v} r small first rest later =
      let next = call-Agrees op xs (done zs) r small first in
      let rest' : list_run next.result.copy_constructor ops zs ≡ some o =
        ap (λ (cb : Callbacks E W). list_run cb.copy_constructor ops zs) next.same ∙ rest in
      subst (λ m. Ends (m >>= run ops) o) (sym next.returns)
        (later zs next.result next.stands (length-list_call v.copy_constructor op xs zs first)
          rest')
  run-next op ops xs (some abort) o {v} r small first rest later =
      let stops = call-Agrees op xs abort r small first in
      subst (λ q. Ends (call op v >>= run ops) q) (some_inj rest) (ap (λ m. m >>= run ops) stops)
  run-next op ops xs (some fault) o {v} r small first rest later =
      let stops = call-Agrees op xs fault r small first in
      subst (λ q. Ends (call op v >>= run ops) q) (some_inj rest) (ap (λ m. m >>= run ops) stops)
  run-next op ops xs (some no_fuel) o {v} r small first rest later =
      let stops = call-Agrees op xs no_fuel r small first in
      subst (λ q. Ends (call op v >>= run ops) q) (some_inj rest) (ap (λ m. m >>= run ops) stops)

  -- On a vector that stands for a list, with memory available and sizes below 2 ^ 60, any calls of
  -- push_back, pop_back, set, insert, erase and clear end as the list version says, insertions past
  -- the end excepted: all return, and the vector stands for the list at the end; or an assertion
  -- stops the program at the first set or erase whose index is not in the list; or the first
  -- insertion at position 0 accesses memory outside of the array.
  pub run-list_run :
      (ops : List (Op E)) (xs : List E) (o : Outcome (List E)) {v : Vector E W}
      → Represents v xs
      → length xs + length ops < 2 ^ 60
      → list_run v.copy_constructor ops xs ≡ some o
      → Ends (run ops v) o
  unfolding run list_run
  run-list_run [] xs o {v} r small h = subst (Ends (done v)) (some_inj h) (v, refl, r)
  run-list_run (op ∷ ops) xs o {v} r small h =
      run-next op ops xs (list_call v.copy_constructor op xs) o r (omega arith) refl h
        (λ zs v' r' more rest. run-list_run ops zs o r' (omega arith) rest)
