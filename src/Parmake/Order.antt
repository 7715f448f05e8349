-- ===== src/Parmake/Order.antt =====
-- parallel_make/parmake.c: the order of the targets.
use system_programming_uiuc.Prelude.{
  ℕ, zero, suc, ◌+◌, ◌≤◌, ◌≡◌, ◌≢◌, refl, sym, subst, ◌∙◌, inl, inr, Bool, true, false, List, [],
  ◌∷◌, arith, Bool-cases, eq-true, eq-false, ℕ_discrete, length,
}
use system_programming_uiuc.Prelude.Outcome.{Outcome, done, abort, fault, no_fuel, ◌>>=◌}
use system_programming_uiuc.Graph.{Keys, Elem, Within, Layered, put-cases, true-false}
use system_programming_uiuc.Parmake.{
  Ordered, add_target, order_loop, dfs_topological_order, topological_order, check_cycle,
}
use system_programming_uiuc.Parmake.Cycle.{Rules}
use system_programming_uiuc.Parmake.Acyclic.{Placed, check_cycle-Placed}

-- Every target of the list but the root.
abbrev pub Named : List ℕ → List ℕ → Type 0
Named ns added = (w : ℕ) → Elem w ns → w ≢ 0 → Elem w added

no_room : {n : ℕ} → suc n ≤ 0 → ⊥
no_room h = omega (arith, h)

both : {o : Outcome Bool} → o ≡ done true → o ≡ done false → ⊥
both h k = cc

module _ (K : Keys) (neighbors : ℕ → List ℕ) (vertices : List ℕ) where
  open K use {Dict, contains, put, create, contains-create}

  -- What is in the set was added, with all its dependencies before it.
  pub record Sorted (o : Ordered K) : Type 0 where
    pub listed : (x : ℕ) → contains o.order x ≡ true → Elem x o.added
    pub layered : Layered neighbors o.added

  -- A search ends with the targets `ns`, but for the empty name, added.
  unfoldable pub Adds : Ordered K → List ℕ → Outcome (Ordered K) → Type 0
  Adds o ns (done o') =
      Sorted o' × Within o.added o'.added × ((w : ℕ) → Elem w ns → w ≢ 0 → Elem w o'.added)
  Adds o ns abort = ⊥
  Adds o ns fault = ⊥
  Adds o ns no_fuel = ⊥

  chain-Adds :
      (o o1 : Ordered K) (n : ℕ) (ns : List ℕ) (r : Outcome (Ordered K))
      → Within o.added o1.added
      → (n ≢ 0 → Elem n o1.added)
      → Adds o1 ns r
      → Adds o (n ∷ ns) r
  unfolding Adds
  chain-Adds o o1 n ns (done o') keeps has (sorted, keeps', all) = (
    sorted,
    λ w h. keeps' w (keeps w h),
    λ w h nz. elim h [
      | inl e ↦ keeps' w (subst (λ k. Elem k o1.added) (sym e) (has (λ (z : n ≡ 0). nz (e ∙ z))))
      | inr later ↦ all w later nz
    ],
  )
  chain-Adds o o1 n ns abort keeps has r = r
  chain-Adds o o1 n ns fault keeps has r = r
  chain-Adds o o1 n ns no_fuel keeps has r = r

  after-Adds :
      (o : Ordered K) (n : ℕ) (ns : List ℕ) (r : Outcome (Ordered K))
      (next : Ordered K → Outcome (Ordered K))
      → Adds o (n ∷ []) r
      → ((o1 : Ordered K) → Sorted o1 → Adds o1 ns (next o1))
      → Adds o (n ∷ ns) (r >>= next)
  unfolding Adds
  after-Adds o n ns (done o1) next (sorted, keeps, all) rest =
      chain-Adds o o1 n ns (next o1) keeps (all n (inl refl)) (rest o1 sorted)
  after-Adds o n ns abort next a rest = elim a [ ]
  after-Adds o n ns fault next a rest = elim a [ ]
  after-Adds o n ns no_fuel next a rest = elim a [ ]

  -- Each of `ns` can be searched.
  order_loop-Adds :
      (visit : ℕ → Ordered K → Outcome (Ordered K)) (ns : List ℕ) (o : Ordered K)
      → ((n : ℕ) (o1 : Ordered K) → Elem n ns → Sorted o1 → Adds o1 (n ∷ []) (visit n o1))
      → Sorted o
      → Adds o ns (order_loop K visit ns o)
  unfolding order_loop Adds
  order_loop-Adds visit [] o vis sorted = (sorted, (λ w h. h), λ w h nz. elim h [ ])
  order_loop-Adds visit (n ∷ ns) o vis sorted =
      after-Adds o n ns (visit n o) (order_loop K visit ns) (vis n o (inl refl) sorted)
        (λ o1 s. order_loop-Adds visit ns o1 (λ m o2 h. vis m o2 (inr h)) s)

  add-Adds :
      (n : ℕ) (o : Ordered K) (r : Outcome (Ordered K))
      → ((w : ℕ) → Elem w (neighbors n) → w ≢ 0)
      → Adds o (neighbors n) r
      → Adds o (n ∷ []) (r >>= λ o'. done (add_target K n o'))
  unfolding Adds add_target Layered
  add-Adds n o (done o') named (sorted, keeps, all) = (
    record {
      listed = λ x h. elim (put-cases K n o'.order x h) [
        | inl e ↦ inl e
        | inr old ↦ inr (sorted.listed x old)
      ];
      layered = ((λ w h. all w h (named w h)), sorted.layered);
    },
    (λ w h. inr (keeps w h)),
    λ w h nz. elim h [ inl e ↦ inl e | inr h ↦ elim h [ ] ],
  )
  add-Adds n o abort named a = a
  add-Adds n o fault named a = a
  add-Adds n o no_fuel named a = a

  skip-Adds :
      (n : ℕ) (o : Ordered K) → (n ≢ 0 → Elem n o.added) → Sorted o → Adds o (n ∷ []) (done o)
  unfolding Adds
  skip-Adds n o has sorted = (
    sorted,
    (λ w h. h),
    λ w h nz. elim h [
      | inl e ↦ subst (λ k. Elem k o.added) (sym e) (has (λ (z : n ≡ 0). nz (e ∙ z)))
      | inr h ↦ elim h [ ]
    ],
  )

  -- The recursion is no deeper than an order that has the target is long.
  dfs-Adds :
      (fuel : ℕ) (order : List ℕ) (n : ℕ) (o : Ordered K)
      → Rules neighbors vertices
      → Elem n vertices
      → Layered neighbors order
      → Elem n order
      → length order ≤ fuel
      → Sorted o
      → Adds o (n ∷ []) (dfs_topological_order K fuel neighbors n o)
  unfolding dfs_topological_order Layered
  dfs-Adds fuel [] n o rules vertex layered at few sorted = elim at [ ]
  dfs-Adds zero (u ∷ order) n o rules vertex layered at few sorted = absurd (no_room few)
  dfs-Adds (suc fuel) (u ∷ order) n o rules vertex layered (inr at) few sorted =
      dfs-Adds (suc fuel) order n o rules vertex layered.1 at (omega (arith, few)) sorted
  dfs-Adds (suc fuel) (u ∷ order) n o rules vertex layered (inl e) few sorted =
      elim (ℕ_discrete n 0) [
        | yes z ↦
            rw (eq-true n 0 z, dfs_topological_order) (skip-Adds n o (λ nz. absurd (nz z)) sorted)
        | no nz ↦ elim (Bool-cases (contains o.order n)) [
          | inl old ↦
              rw (eq-false n 0 nz, old, dfs_topological_order)
                (skip-Adds n o (λ h. sorted.listed n old) sorted)
          | inr new ↦
              rw (eq-false n 0 nz, new, dfs_topological_order)
                (add-Adds n o _ (λ w h. (rules n vertex w h).0)
                  (order_loop-Adds (dfs_topological_order K fuel neighbors) (neighbors n) o
                    (λ m o1 h s.
                      dfs-Adds fuel order m o1 rules (rules n vertex m h).1 layered.1
                        (layered.0 m (subst (λ k. Elem m (neighbors k)) e h)) (omega (arith, few))
                        s)
                    sorted))
        ]
      ]

  -- The targets `ns` have orders no longer than `fuel`.
  abbrev Short : ℕ → List ℕ → Type 0
  Short fuel ns =
      (w : ℕ)
      → Elem w ns
      → w ≢ 0
      → (order : List ℕ) × Layered neighbors order × Elem w order × (length order ≤ fuel)

  enough :
      (ns : List ℕ)
      → ((w : ℕ) → Elem w ns → w ≢ 0 → Placed K neighbors vertices w)
      → (fuel : ℕ) × Short fuel ns
  enough [] placed = (0, λ w h nz. elim h [ ])
  enough (n ∷ ns) placed =
      let (fuel, short) = enough ns (λ w h nz. placed w (inr h) nz) in
      elim (ℕ_discrete n 0) [
        | yes z ↦
            (fuel, λ w h nz. elim h [ inl e ↦ absurd (nz (e ∙ z)) | inr later ↦ short w later nz ])
        | no nz ↦
            let (order, layered, has) = placed n (inl refl) nz in
            (
              length order + fuel,
              λ w h nz'. elim h [
                | inl e ↦ (order, layered, subst (λ k. Elem k order) (sym e) has, omega arith)
                | inr later ↦
                    let (order', layered', has', few) = short w later nz' in
                    (order', layered', has', omega (arith, few))
              ],
            )
      ]

  dfs_root : (fuel : ℕ) (o : Ordered K) → dfs_topological_order K (suc fuel) neighbors 0 o ≡ done o
  unfolding dfs_topological_order
  dfs_root fuel o = refl

  -- Any target can be searched.
  target-Adds :
      (fuel n : ℕ) (o : Ordered K)
      → Rules neighbors vertices
      → Short fuel vertices
      → Elem n vertices
      → Sorted o
      → Adds o (n ∷ []) (dfs_topological_order K (suc fuel) neighbors n o)
  target-Adds fuel n o rules short vertex sorted = elim (ℕ_discrete n 0) [
    | yes z ↦
        subst (λ k. Adds o (k ∷ []) (dfs_topological_order K (suc fuel) neighbors k o)) (sym z)
          (subst (λ r. Adds o (0 ∷ []) r) (sym (dfs_root fuel o))
            (skip-Adds 0 o (λ nz. absurd (nz refl)) sorted))
    | no nz ↦
        let (order, layered, has, few) = short n vertex nz in
        dfs-Adds (suc fuel) order n o rules vertex layered has (omega (arith, few)) sorted
  ]

  at-first : Sorted (record { order = create; added = [] })
  unfolding Layered
  at-first = record { listed = λ x h. absurd (true-false h (contains-create x)); layered = tt }

  result :
      (o : Ordered K) (ns : List ℕ) (r : Outcome (Ordered K))
      → Adds o ns r
      → (o' : Ordered K) × (r ≡ done o')
        × Layered neighbors o'.added
        × ((w : ℕ) → Elem w ns → w ≢ 0 → Elem w o'.added)
  unfolding Adds
  result o ns (done o') (sorted, keeps, all) = (o', refl, sorted.layered, all)
  result o ns abort a = elim a [ ]
  result o ns fault a = elim a [ ]
  result o ns no_fuel a = elim a [ ]

  -- When every dependency is a target with a name and the cycle check finds no cycle, the search for
  -- an order ends; every target but the root was added, each behind all its dependencies.
  pub topological_order-Layered :
      Rules neighbors vertices
      → check_cycle K neighbors vertices (suc (length vertices)) ≡ done false
      → (fuel : ℕ) × (o : Ordered K) × (topological_order K neighbors vertices fuel ≡ done o)
        × Layered neighbors o.added
        × Named vertices o.added
  unfolding topological_order
  topological_order-Layered rules free = elim (check_cycle-Placed K neighbors vertices rules) [
    | inl (found, a, way) ↦ absurd (both found free)
    | inr (none, placed) ↦
        let (fuel, short) = enough vertices placed in
        let (o, run, layered, all) =
          result (record { order = create; added = [] }) vertices _
            (order_loop-Adds (dfs_topological_order K (suc fuel) neighbors) vertices
              (record { order = create; added = [] })
              (λ n o1 at s. target-Adds fuel n o1 rules short at s) at-first) in
        (suc fuel, o, run, layered, all)
  ]
