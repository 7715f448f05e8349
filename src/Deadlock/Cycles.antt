-- ===== src/Deadlock/Cycles.antt =====
-- deadlock_demolition/libdrm.c: isCycle finds a cycle exactly when there is one.
use native.Mathlib.Nat.{le_trans}
use system_programming_uiuc.Prelude.{
  ℕ, zero, suc, ◌≤◌, ◌≡◌, refl, sym, subst, ◌∙◌, ◌⊎◌, inl, inr, Bool, true, false, List, [], ◌∷◌,
  arith, if◌then◌else◌, Bool-cases, ℕ_discrete, length,
}
use system_programming_uiuc.Prelude.Outcome.{Outcome, done, abort, fault, no_fuel, ◌>>=◌}
use system_programming_uiuc.Graph.{
  Keys, true-false, put-other, Elem, Within, Leads, Layered, Layered-acyclic, Acyclic, fresh,
  fresh-le, fresh-put, fresh_mono, put-here, put-before, put-cases, remove-other, remove-here,
}
use system_programming_uiuc.Deadlock.{Marks, enter, leave, dfs, vertex_loop, is_cycle}
use system_programming_uiuc.Deadlock.Search.{
  Finished, Grown, Searches, Visits, neighbor_loop-Searches,
}

no_fresh : {n : ℕ} → suc n ≤ 0 → ⊥
no_fresh h = omega (arith, h)

-- The neighbours of a vertex are vertices.
abbrev pub Closed : (ℕ → List ℕ) → List ℕ → Type 0
Closed neighbors vertices = (n : ℕ) → Elem n vertices → Within (neighbors n) vertices

module _ (K : Keys) (neighbors : ℕ → List ℕ) (vertices : List ℕ) where
  open K use {contains, put, remove, create, contains-create}

  enter-Finished :
      (n : ℕ) (s : Marks K) (order : List ℕ)
      → Finished K neighbors vertices s order
      → Finished K neighbors vertices (enter K n s) order
  unfolding enter
  enter-Finished n s order fin = record {
    on_stack = λ x h. elim (put-cases K n s.stacked x h) [
      | inl e ↦ subst (λ k. contains (put n s.visited) k ≡ true) (sym e) (put-here K n s.visited)
      | inr old ↦ put-before K n s.visited x (fin.on_stack x old)
    ];
    listed = λ x h low. elim (put-cases K n s.visited x h) [
      | inl e ↦ absurd (
          true-false
            (subst (λ k. contains (put n s.stacked) k ≡ true) (sym e) (put-here K n s.stacked)) low)
      | inr old ↦ elim (Bool-cases (contains s.stacked x)) [
        | inl high ↦ absurd (true-false (put-before K n s.stacked x high) low)
        | inr out ↦ fin.listed x old out
      ]
    ];
    layered = fin.layered;
  }

  -- A new node is not on the stack.
  off_stack :
      (n : ℕ) (s : Marks K) (order : List ℕ)
      → Finished K neighbors vertices s order
      → contains s.visited n ≡ false
      → contains s.stacked n ≡ false
  off_stack n s order fin new = elim (Bool-cases (contains s.stacked n)) [
    | inl high ↦ absurd (true-false (fin.on_stack n high) new)
    | inr low ↦ low
  ]

  enter-stack :
      (n : ℕ) (s : Marks K)
      → ((x : ℕ) → contains s.stacked x ≡ true → Leads neighbors x n)
      → (x : ℕ) → contains (enter K n s).stacked x ≡ true
      → (x ≡ n) ⊎ Leads neighbors x n
  unfolding enter
  enter-stack n s stack x h = elim (put-cases K n s.stacked x h) [
    | inl e ↦ inl e
    | inr old ↦ inr (stack x old)
  ]

  enter-fresh :
      (n : ℕ) (s : Marks K) (fuel : ℕ)
      → Elem n vertices
      → contains s.visited n ≡ false
      → fresh K vertices s.visited ≤ suc fuel
      → fresh K vertices (enter K n s).visited ≤ fuel
  unfolding enter
  enter-fresh n s fuel at new few = omega (arith, fresh-put K vertices s.visited n at new, few)

  -- When all its neighbours are finished, so is the node.
  leave-Grown :
      (n : ℕ) (s s' : Marks K) (order order' : List ℕ)
      → Finished K neighbors vertices s order
      → contains s.visited n ≡ false
      → Grown K neighbors vertices (enter K n s) order s' order'
      → Within (neighbors n) order'
      → Grown K neighbors vertices s order (leave K n s') (n ∷ order')
  unfolding enter leave Layered
  leave-Grown n s s' order order' fin new g all = record {
    finished = record {
      on_stack = λ x h. elim (ℕ_discrete x n) [
        | yes e ↦ absurd (
            true-false h (
              subst (λ k. contains (remove n s'.stacked) k ≡ false) (sym e)
                (remove-here K n s'.stacked)))
        | no other ↦ g.finished.on_stack x (sym (remove-other K n s'.stacked x other) ∙ h)
      ];
      listed = λ x h low. elim (ℕ_discrete x n) [
        | yes e ↦ inl e
        | no other ↦ inr (g.finished.listed x h (sym (remove-other K n s'.stacked x other) ∙ low))
      ];
      layered = (all, g.finished.layered);
    };
    same = λ x. elim (ℕ_discrete x n) [
      | yes e ↦
          subst (λ k. contains (remove n s'.stacked) k ≡ contains s.stacked k) (sym e)
            (remove-here K n s'.stacked ∙ sym (off_stack n s order fin new))
      | no other ↦ remove-other K n s'.stacked x other ∙ g.same x ∙ put-other K n s.stacked x other
    ];
    more = λ x h. g.more x (put-before K n s.visited x h);
    keeps = λ w h. inr (g.keeps w h);
  }

  leave-Searches :
      (n : ℕ) (s : Marks K) (order : List ℕ) (o : Outcome (Bool × Marks K))
      → Finished K neighbors vertices s order
      → contains s.visited n ≡ false
      → Searches K neighbors vertices (enter K n s) order (neighbors n) o
      → Searches K neighbors vertices s order
          (n ∷ [])
          (o >>= λ (found, s'). done (found, if found then s' else leave K n s'))
  unfolding Searches
  leave-Searches n s order (done (true, s')) fin new r = r
  leave-Searches n s order (done (false, s')) fin new (order', g, all) = (
    n ∷ order',
    leave-Grown n s s' order order' fin new g all,
    λ w h. elim h [ inl e ↦ inl e | inr h ↦ elim h [ ] ],
  )
  leave-Searches n s order abort fin new r = r
  leave-Searches n s order fault fin new r = r
  leave-Searches n s order no_fuel fin new r = r

  dfs-Visits :
      (fuel : ℕ)
      → Closed neighbors vertices
      → Visits K neighbors vertices fuel (dfs K fuel neighbors)
  unfolding dfs
  dfs-Visits zero closed n s order fin stack new at few =
      absurd (no_fresh (le_trans (fresh-put K vertices s.visited n at new) few))
  dfs-Visits (suc fuel) closed n s order fin stack new at few = leave-Searches n s order _ fin new (
      neighbor_loop-Searches K neighbors vertices fuel (dfs K fuel neighbors) n (neighbors n)
        (enter K n s) order (dfs-Visits fuel closed) (λ w h. h) (closed n at)
        (enter-Finished n s order fin) (enter-stack n s stack) (enter-fresh n s fuel at new few))

  -- The answer about the vertices `ns`, and what `order` has already.
  unfoldable Decides : List ℕ → List ℕ → Outcome Bool → Type 0
  Decides order ns (done true) = (a : ℕ) × Leads neighbors a a
  Decides order ns (done false) =
      (order' : List ℕ) × Layered neighbors order' × Within ns order' × Within order order'
  Decides order ns abort = ⊥
  Decides order ns fault = ⊥
  Decides order ns no_fuel = ⊥

  chain-Decides :
      (order order' : List ℕ) (v : ℕ) (ns : List ℕ) (o : Outcome Bool)
      → Within order order'
      → Elem v order'
      → Decides order' ns o
      → Decides order (v ∷ ns) o
  unfolding Decides
  chain-Decides order order' v ns (done true) keeps at d = d
  chain-Decides order order' v ns (done false) keeps at (last, l, all, more) = (
    last,
    l,
    λ w h. elim h [ inl e ↦ more w (subst (λ k. Elem k order') (sym e) at) | inr h ↦ all w h ],
    λ w h. more w (keeps w h),
  )
  chain-Decides order order' v ns abort keeps at d = d
  chain-Decides order order' v ns fault keeps at d = d
  chain-Decides order order' v ns no_fuel keeps at d = d

  after-search :
      (s : Marks K) (order : List ℕ) (v : ℕ) (ns : List ℕ) (o : Outcome (Bool × Marks K))
      (next : Marks K → Outcome Bool)
      → Searches K neighbors vertices s order (v ∷ []) o
      → ((s' : Marks K) (order' : List ℕ)
          → Grown K neighbors vertices s order s' order'
          → Decides order' ns (next s'))
      → Decides order
          (v ∷ ns)
          (o >>= λ (found, s'). elim found [ true ↦ done true | false ↦ next s' ])
  unfolding Searches Decides
  after-search s order v ns (done (true, s')) next r rest = r
  after-search s order v ns (done (false, s')) next (order', g, all) rest =
      chain-Decides order order' v ns (next s') g.keeps (all v (inl refl)) (rest s' order' g)
  after-search s order v ns abort next r rest = r
  after-search s order v ns fault next r rest = r
  after-search s order v ns no_fuel next r rest = r

  vertex_loop-Decides :
      (fuel : ℕ) (visit : ℕ → Marks K → Outcome (Bool × Marks K)) (ns : List ℕ) (s : Marks K)
      (order : List ℕ)
      → Visits K neighbors vertices fuel visit
      → Within ns vertices
      → Finished K neighbors vertices s order
      → ((x : ℕ) → contains s.stacked x ≡ false)
      → fresh K vertices s.visited ≤ fuel
      → Decides order ns (vertex_loop K visit ns s)
  unfolding vertex_loop Decides
  vertex_loop-Decides fuel visit [] s order vis vert fin none few =
      (order, fin.layered, λ w h. elim h [ ], λ w h. h)
  vertex_loop-Decides fuel visit (v ∷ ns) s order vis vert fin none few =
      elim (Bool-cases (contains s.visited v)) [
        | inl old ↦
            rw (old, vertex_loop)
              (chain-Decides order order v ns _ (λ w h. h) (fin.listed v old (none v))
                (vertex_loop-Decides fuel visit ns s order vis (λ w h. vert w (inr h)) fin none
                  few))
        | inr new ↦
            rw (new, vertex_loop)
              (after-search s order v ns (visit v s) (vertex_loop K visit ns)
                (vis v s order fin (λ x h. absurd (true-false h (none x))) new (vert v (inl refl))
                  few)
                (λ s' order' g.
                  vertex_loop-Decides fuel visit ns s' order' vis (λ w h. vert w (inr h)) g.finished
                    (λ x. g.same x ∙ none x)
                    (le_trans (fresh_mono K vertices s.visited s'.visited g.more) few)))
      ]

  -- Every answer is right.
  answer :
      (o : Outcome Bool)
      → Decides [] vertices o
      → ((o ≡ done true) × (a : ℕ) × Leads neighbors a a)
        ⊎ ((o ≡ done false) × Acyclic neighbors vertices)
  unfolding Decides
  answer (done true) (a, way) = inl (refl, a, way)
  answer (done false) (order, l, all, more) =
      inr (refl, λ a at way. Layered-acyclic neighbors order a l (all a at) way)
  answer abort d = elim d [ ]
  answer fault d = elim d [ ]
  answer no_fuel d = elim d [ ]

  at-first : Finished K neighbors vertices (record { visited = create; stacked = create }) []
  unfolding Layered
  at-first = record {
    on_stack = λ x h. absurd (true-false h (contains-create x));
    listed = λ x h low. absurd (true-false h (contains-create x));
    layered = tt;
  }

  -- For a graph all of whose edges lead to vertices, `isCycle` returns, with a recursion no deeper
  -- than there are vertices: 1, and some node leads to itself, or 0, and no vertex does.
  pub is_cycle-Acyclic :
      Closed neighbors vertices
      → ((is_cycle K neighbors vertices (length vertices) ≡ done true)
          × (a : ℕ) × Leads neighbors a a)
        ⊎ ((is_cycle K neighbors vertices (length vertices) ≡ done false)
            × Acyclic neighbors vertices)
  unfolding is_cycle
  is_cycle-Acyclic closed = answer _ (
      vertex_loop-Decides (length vertices) (dfs K (length vertices) neighbors) vertices
        (record { visited = create; stacked = create }) [] (dfs-Visits (length vertices) closed)
        (λ w h. h) at-first (λ x. contains-create x) (fresh-le K vertices create))
