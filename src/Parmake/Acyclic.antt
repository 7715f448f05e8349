-- ===== src/Parmake/Acyclic.antt =====
-- parallel_make/parmake.c: the flag `cycle` is set exactly when the targets have a cycle.
use system_programming_uiuc.Prelude.{
  ℕ, suc, ◌≤◌, ◌<◌, ◌≡◌, ◌≢◌, refl, sym, subst, ◌∙◌, ◌⊎◌, inl, inr, Bool, true, false, ◌||◌, List,
  [], ◌∷◌, arith, ℕ_discrete, length,
}
use system_programming_uiuc.Prelude.Outcome.{Outcome, done, abort, fault, no_fuel, ◌>>=◌}
use system_programming_uiuc.Graph.{
  Keys, Elem, Within, Leads, Layered, Layered-acyclic, Acyclic, fresh, fresh-le, true-false,
}
use system_programming_uiuc.Parmake.{Marks, dfs_cycle, check_loop, check_cycle}
use system_programming_uiuc.Parmake.Checks.{Clean, Checked}
use system_programming_uiuc.Parmake.Cycle.{Rules, not_to_zero, dfs_cycle-Visits, dfs_cycle-root}

few_fresh : {n m : ℕ} → n ≤ m → n < suc m
few_fresh h = omega (arith, h)

module _ (K : Keys) (neighbors : ℕ → List ℕ) (vertices : List ℕ) where
  open K use {Dict, contains, create, contains-create}

  -- A target that an order has.
  abbrev pub Placed : ℕ → Type 0
  Placed w = (order : List ℕ) × Layered neighbors order × Elem w order

  unfoldable Decides : Bool → List ℕ → Outcome Bool → Type 0
  Decides cycle ns (done true) = (a : ℕ) × Leads neighbors a a
  Decides cycle ns (done false) = (cycle ≡ false) × ((w : ℕ) → Elem w ns → w ≢ 0 → Placed w)
  Decides cycle ns abort = ⊥
  Decides cycle ns fault = ⊥
  Decides cycle ns no_fuel = ⊥

  -- Either a cycle is found, or nothing is dropped.
  abbrev Known : Bool → Dict → Type 0
  Known cycle dropped =
      ((cycle ≡ true) × (a : ℕ) × Leads neighbors a a)
      ⊎ ((cycle ≡ false) × ((x : ℕ) → contains dropped x ≡ false))

  abbrev fresh_marks : Dict → Marks K
  fresh_marks dropped = record { visited = create; visiting = create; dropped = dropped }

  start-Clean :
      (dropped : Dict)
      → ((x : ℕ) → contains dropped x ≡ false)
      → Clean K neighbors vertices (fresh_marks dropped) []
  unfolding Layered
  start-Clean dropped none = record {
    undropped = none;
    listed = λ x h. absurd (true-false h (contains-create x));
    layered = tt;
  }

  -- With a cycle found the answer is a cycle, whatever the flag was.
  found_now :
      (cycle : Bool) (n : ℕ) (ns : List ℕ) (o : Outcome Bool)
      → (a : ℕ) × Leads neighbors a a
      → Decides true ns o
      → Decides cycle (n ∷ ns) o
  unfolding Decides
  found_now cycle n ns (done true) way d = way
  found_now cycle n ns (done false) way (set, all) = absurd (true-false refl set)
  found_now cycle n ns abort way d = d
  found_now cycle n ns fault way d = d
  found_now cycle n ns no_fuel way d = d

  -- One target in front of the others.
  before-Decides :
      (cycle : Bool) (n : ℕ) (ns : List ℕ) (o : Outcome Bool)
      → (cycle ≡ false → n ≢ 0 → Placed n)
      → Decides cycle ns o
      → Decides cycle (n ∷ ns) o
  unfolding Decides
  before-Decides cycle n ns (done true) placed d = d
  before-Decides cycle n ns (done false) placed (clear, all) = (
    clear,
    λ w h nz. elim h [
      | inl e ↦ subst Placed (sym e) (placed clear (λ (z : n ≡ 0). nz (e ∙ z)))
      | inr later ↦ all w later nz
    ],
  )
  before-Decides cycle n ns abort placed d = d
  before-Decides cycle n ns fault placed d = d
  before-Decides cycle n ns no_fuel placed d = d

  after-check :
      (n : ℕ) (ns : List ℕ) (cycle : Bool) (dropped : Dict) (o : Outcome (Bool × Marks K))
      (next : Bool → Dict → Outcome Bool)
      → Known cycle dropped
      → Checked K neighbors vertices (fresh_marks dropped) (n ∷ []) o
      → ((c : Bool) (d : Dict) → Known c d → Decides c ns (next c d))
      → Decides cycle (n ∷ ns) (o >>= λ (found, s'). next (found || cycle) s'.dropped)
  unfolding Checked
  after-check n ns cycle dropped (done (true, s')) next known c rest =
      found_now cycle n ns _ c (rest true s'.dropped (inl (refl, c.0, c.1)))
  after-check n ns cycle dropped (done (false, s')) next (inl (set, a, way)) c rest =
      before-Decides cycle n ns _ (λ clear. absurd (true-false set clear))
        (rest cycle s'.dropped (inl (set, a, way)))
  after-check n ns cycle dropped (done (false, s')) next (inr (clear, none)) c rest =
      let (order, clean, keeps, has) = c.1 [] (start-Clean dropped none) in
      before-Decides cycle n ns _ (λ h nz. (order, clean.layered, has n (inl refl)))
        (rest cycle s'.dropped (inr (clear, clean.undropped)))
  after-check n ns cycle dropped abort next known c rest = elim c [ ]
  after-check n ns cycle dropped fault next known c rest = elim c [ ]
  after-check n ns cycle dropped no_fuel next known c rest = elim c [ ]

  check_loop-Decides :
      (fuel : ℕ) (ns : List ℕ) (cycle : Bool) (dropped : Dict)
      → Rules neighbors vertices
      → fresh K vertices create < suc fuel
      → Within ns vertices
      → Known cycle dropped
      → Decides cycle ns (check_loop K (dfs_cycle K (suc fuel) neighbors) ns cycle dropped)
  unfolding check_loop Decides
  check_loop-Decides fuel [] cycle dropped rules few vert (inl (set, a, way)) = rw set (a, way)
  check_loop-Decides fuel [] cycle dropped rules few vert (inr (clear, none)) =
      rw clear (clear, λ w h. elim h [ ])
  check_loop-Decides fuel (n ∷ ns) cycle dropped rules few vert known =
      let rest = λ (c : Bool) (d : Dict) (k : Known c d).
        check_loop-Decides fuel ns c d rules few (λ w h. vert w (inr h)) k in
      elim (ℕ_discrete n 0) [
        | yes e ↦
            subst
              (λ k.
                Decides cycle (k ∷ ns)
                  (check_loop K (dfs_cycle K (suc fuel) neighbors) (k ∷ ns) cycle dropped))
              (sym e)
              (subst
                (λ o. Decides cycle (0 ∷ ns) (
                  o >>= λ (found, s').
                  check_loop K (dfs_cycle K (suc fuel) neighbors) ns (found || cycle) s'.dropped))
                (sym (dfs_cycle-root K neighbors vertices fuel (fresh_marks dropped)))
                (before-Decides cycle 0 ns _ (λ clear nz. absurd (nz refl))
                  (rest cycle dropped known)))
        | no nz ↦
            after-check n ns cycle dropped
              (dfs_cycle K (suc fuel) neighbors n (fresh_marks dropped))
              (check_loop K (dfs_cycle K (suc fuel) neighbors) ns) known
              (dfs_cycle-Visits K neighbors vertices (suc fuel) rules n (fresh_marks dropped) nz
                (vert n (inl refl)) (λ x h. absurd (true-false h (contains-create x))) few)
              (λ c d k. rest c d k)
      ]

  -- What the answer says.
  unfoldable Answers : Outcome Bool → Type 0
  Answers o =
      ((o ≡ done true) × (a : ℕ) × Leads neighbors a a)
      ⊎ ((o ≡ done false) × ((w : ℕ) → Elem w vertices → w ≢ 0 → Placed w))

  answers : (o : Outcome Bool) → Decides false vertices o → Answers o
  unfolding Decides Answers
  answers (done true) way = inl (refl, way.0, way.1)
  answers (done false) (clear, all) = inr (refl, all)
  answers abort d = elim d [ ]
  answers fault d = elim d [ ]
  answers no_fuel d = elim d [ ]

  pub check_cycle-Placed :
      Rules neighbors vertices
      → ((check_cycle K neighbors vertices (suc (length vertices)) ≡ done true)
          × (a : ℕ) × Leads neighbors a a)
        ⊎ ((check_cycle K neighbors vertices (suc (length vertices)) ≡ done false)
            × ((w : ℕ) → Elem w vertices → w ≢ 0 → Placed w))
  unfolding check_cycle Answers
  check_cycle-Placed rules = answers (check_cycle K neighbors vertices (suc (length vertices))) (
      check_loop-Decides (length vertices) vertices false create rules
        (few_fresh (fresh-le K vertices create)) (λ w h. h) (inr (refl, contains-create)))

  -- When every dependency is a target with a name, the cycle check of `parmake` ends, with a
  -- recursion no deeper than the targets are many and one: `cycle` is 1, and some target depends on
  -- itself, or 0, and no target does.
  pub check_cycle-Acyclic :
      Rules neighbors vertices
      → ((check_cycle K neighbors vertices (suc (length vertices)) ≡ done true)
          × (a : ℕ) × Leads neighbors a a)
        ⊎ ((check_cycle K neighbors vertices (suc (length vertices)) ≡ done false)
            × Acyclic neighbors vertices)
  check_cycle-Acyclic rules = elim (check_cycle-Placed rules) [
    | inl found ↦ inl found
    | inr (none, placed) ↦ inr (
      none,
      λ a at way.
          let (order, layered, has) = placed a at (not_to_zero neighbors vertices rules at way) in
          Layered-acyclic neighbors order a layered has way,
    )
  ]
