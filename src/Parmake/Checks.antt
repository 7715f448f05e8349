-- ===== src/Parmake/Checks.antt =====
-- parallel_make/parmake.c: the cycle check returns, and is right.
use native.Mathlib.Nat.{le_trans}
use system_programming_uiuc.Prelude.{
  ℕ, suc, ◌≤◌, ◌<◌, ◌≡◌, ◌≢◌, refl, sym, ◌∙◌, ◌⊎◌, inl, inr, Bool, true, false, List, [], ◌∷◌,
  arith,
}
use system_programming_uiuc.Prelude.Outcome.{Outcome, done, abort, fault, no_fuel, ◌>>=◌}
use system_programming_uiuc.Graph.{
  Keys, Elem, Within, Leads, Layered, fresh, put-cases, remove_eq, remove_put, fresh_eq, leads_on,
}
use system_programming_uiuc.Parmake.{Marks, drop_target, begin, finish, dependency_loop}

fresh_le_suc : {n m : ℕ} → n ≤ m → suc n ≤ suc m
fresh_le_suc h = omega (arith, h)

not_below_zero : {n : ℕ} → n < 0 → ⊥
not_below_zero h = omega (arith, h)

module _ (K : Keys) (neighbors : ℕ → List ℕ) (vertices : List ℕ) where
  open K use {contains, put, remove}

  -- Before any cycle is found: nothing is dropped, and the visited targets are in `order`, in front
  -- of their dependencies.
  pub record Clean (s : Marks K) (order : List ℕ) : Type 0 where
    pub undropped : (x : ℕ) → contains s.dropped x ≡ false
    pub listed : (x : ℕ) → contains s.visited x ≡ true → Elem x order
    pub layered : Layered neighbors order

  -- A search of `ns` ends: with a cycle, or with the path as it was and all of them visited.
  unfoldable pub Checked : Marks K → List ℕ → Outcome (Bool × Marks K) → Type 0
  Checked s ns (done (true, s')) = (a : ℕ) × Leads neighbors a a
  Checked s ns (done (false, s')) =
      ((x : ℕ) → contains s'.visiting x ≡ contains s.visiting x)
      × ((order : List ℕ)
          → Clean s order
          → (order' : List ℕ) × Clean s' order' × Within order order' × Within ns order')
  Checked s ns abort = ⊥
  Checked s ns fault = ⊥
  Checked s ns no_fuel = ⊥

  abbrev pub Visits : ℕ → (ℕ → Marks K → Outcome (Bool × Marks K)) → Type 0
  Visits fuel visit =
      (n : ℕ) (s : Marks K)
      → n ≢ 0
      → Elem n vertices
      → ((x : ℕ) → contains s.visiting x ≡ true → Leads neighbors x n)
      → fresh K vertices s.visiting < fuel
      → Checked s (n ∷ []) (visit n s)

  -- The same for the dependencies `ns` of `node`, which is finished behind them.
  unfoldable pub Finishes : Marks K → ℕ → List ℕ → Outcome (Bool × Marks K) → Type 0
  Finishes s node ns (done (true, s')) = (a : ℕ) × Leads neighbors a a
  Finishes s node ns (done (false, s')) =
      ((x : ℕ) → contains s'.visiting x ≡ contains (remove node s.visiting) x)
      × ((order : List ℕ)
          → Clean s order
          → (order' : List ℕ) × ((x : ℕ) → contains s'.dropped x ≡ false)
            × ((x : ℕ) → contains s'.visited x ≡ true → (x ≡ node) ⊎ Elem x order')
            × Layered neighbors order'
            × Within order order'
            × Within ns order')
  Finishes s node ns abort = ⊥
  Finishes s node ns fault = ⊥
  Finishes s node ns no_fuel = ⊥

  chain-Finishes :
      (s s1 : Marks K) (node n : ℕ) (ns : List ℕ) (o : Outcome (Bool × Marks K))
      → Checked s (n ∷ []) (done (false, s1))
      → Finishes s1 node ns o
      → Finishes s node (n ∷ ns) o
  unfolding Checked Finishes
  chain-Finishes s s1 node n ns (done (true, s')) c f = f
  chain-Finishes s s1 node n ns (done (false, s')) c f = (
    λ x. f.0 x ∙ remove_eq K node s1.visiting s.visiting x (c.0 x),
    λ order clean.
        let (order1, clean1, keeps1, has1) = c.1 order clean in
        let (order', undropped, listed, layered, keeps, has) = f.1 order1 clean1 in
        (
          order',
          undropped,
          listed,
          layered,
          (λ w h. keeps w (keeps1 w h)),
          λ w h. elim h [ inl e ↦ keeps w (has1 w (inl e)) | inr later ↦ has w later ],
        ),
  )
  chain-Finishes s s1 node n ns abort c f = f
  chain-Finishes s s1 node n ns fault c f = f
  chain-Finishes s s1 node n ns no_fuel c f = f

  after-Checked :
      (s : Marks K) (node n : ℕ) (ns : List ℕ) (o : Outcome (Bool × Marks K))
      (next : Marks K → Outcome (Bool × Marks K))
      → Checked s (n ∷ []) o
      → ((s1 : Marks K)
          → ((x : ℕ) → contains s1.visiting x ≡ contains s.visiting x)
          → Finishes s1 node ns (next s1))
      → Finishes s node (n ∷ ns) (
          o >>= λ (found, s1). elim found [
            | true ↦ done (true, drop_target K node s1)
            | false ↦ next s1
          ])
  unfolding Checked Finishes
  after-Checked s node n ns (done (true, s1)) next c rest = c
  after-Checked s node n ns (done (false, s1)) next c rest =
      chain-Finishes s s1 node n ns (next s1) c (rest s1 c.0)
  after-Checked s node n ns abort next c rest = c
  after-Checked s node n ns fault next c rest = c
  after-Checked s node n ns no_fuel next c rest = c

  finish-Finishes : (s : Marks K) (node : ℕ) → Finishes s node [] (done (false, finish K node s))
  unfolding Finishes finish
  finish-Finishes s node = (
    λ x. refl,
    λ order clean. (
      order,
      clean.undropped,
      (λ x h. elim (put-cases K node s.visited x h) [
        | inl e ↦ inl e
        | inr old ↦ inr (clean.listed x old)
      ]),
      clean.layered,
      (λ w h. h),
      (λ w h. elim h [ ]),
    ),
  )

  pub dependency_loop-Finishes :
      (fuel : ℕ) (visit : ℕ → Marks K → Outcome (Bool × Marks K)) (node : ℕ) (ns : List ℕ)
      (s : Marks K)
      → Visits fuel visit
      → Within ns (neighbors node)
      → ((w : ℕ) → Elem w ns → (w ≢ 0) × Elem w vertices)
      → ((x : ℕ) → contains s.visiting x ≡ true → (x ≡ node) ⊎ Leads neighbors x node)
      → fresh K vertices s.visiting < fuel
      → Finishes s node ns (dependency_loop K visit node ns s)
  unfolding dependency_loop
  dependency_loop-Finishes fuel visit node [] s vis nbrs good path few = finish-Finishes s node
  dependency_loop-Finishes fuel visit node (n ∷ ns) s vis nbrs good path few =
      let at = nbrs n (inl refl) in
      let ok = good n (inl refl) in
      after-Checked s node n ns (visit n s) (dependency_loop K visit node ns)
        (vis n s ok.0 ok.1 (λ x h. leads_on neighbors x n node at (path x h)) few)
        (λ s1 same.
          dependency_loop-Finishes fuel visit node ns s1 vis (λ w h. nbrs w (inr h))
            (λ w h. good w (inr h)) (λ x h. path x (sym (same x) ∙ h))
            (le_trans (fresh_le_suc (fresh_eq K vertices s.visiting s1.visiting same)) few))

  -- When all its dependencies are visited, so is the target.
  pub finished-Checked :
      (node : ℕ) (s : Marks K) (o : Outcome (Bool × Marks K))
      → contains s.visiting node ≡ false
      → Finishes (begin K node s) node (neighbors node) o
      → Checked s (node ∷ []) o
  unfolding Finishes Checked begin Layered
  finished-Checked node s (done (true, s')) new f = f
  finished-Checked node s (done (false, s')) new f = (
    λ x. f.0 x ∙ remove_put K node s.visiting x new,
    λ order clean.
        let (order', undropped, listed, layered, keeps, has) = f.1 order (record {
          undropped = clean.undropped;
          listed = clean.listed;
          layered = clean.layered;
        }) in
        (
          node ∷ order',
          record { undropped = undropped; listed = listed; layered = (has, layered) },
          (λ w h. inr (keeps w h)),
          λ w h. elim h [ inl e ↦ inl e | inr h ↦ elim h [ ] ],
        ),
  )
  finished-Checked node s abort new f = f
  finished-Checked node s fault new f = f
  finished-Checked node s no_fuel new f = f
