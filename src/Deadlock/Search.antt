-- ===== src/Deadlock/Search.antt =====
-- deadlock_demolition/libdrm.c: what DFS returns, and that it does.
use native.Mathlib.Nat.{le_trans}
use system_programming_uiuc.Prelude.{
  ℕ, ◌≤◌, ◌≡◌, refl, sym, subst, ◌∙◌, ◌⊎◌, inl, inr, Bool, true, false, List, [], ◌∷◌, Bool-cases,
}
use system_programming_uiuc.Prelude.Outcome.{Outcome, done, abort, fault, no_fuel, ◌>>=◌}
use system_programming_uiuc.Graph.{
  Keys, closes, leads_on, Elem, Within, Leads, Layered, fresh, fresh_mono,
}
use system_programming_uiuc.Deadlock.{Marks, neighbor_loop}

module _ (K : Keys) (neighbors : ℕ → List ℕ) (vertices : List ℕ) where
  open K use {contains, put, remove}

  -- The finished nodes, those visited and not on the stack, are in `order`, in front of their
  -- neighbours.
  pub record Finished (s : Marks K) (order : List ℕ) : Type 0 where
    pub on_stack : (x : ℕ) → contains s.stacked x ≡ true → contains s.visited x ≡ true
    pub listed : (x : ℕ) → contains s.visited x ≡ true → contains s.stacked x ≡ false → Elem x order
    pub layered : Layered neighbors order

  -- From `s` to `s'` nodes are visited and finished.
  pub record Grown (s : Marks K) (order : List ℕ) (s' : Marks K) (order' : List ℕ) : Type 0 where
    pub finished : Finished s' order'
    pub same : (x : ℕ) → contains s'.stacked x ≡ contains s.stacked x
    pub more : (x : ℕ) → contains s.visited x ≡ true → contains s'.visited x ≡ true
    pub keeps : Within order order'

  -- A search of `ns` ends: with a cycle, or with all of them finished.
  unfoldable pub Searches : Marks K → List ℕ → List ℕ → Outcome (Bool × Marks K) → Type 0
  Searches s order ns (done (true, s')) = (a : ℕ) × Leads neighbors a a
  Searches s order ns (done (false, s')) =
      (order' : List ℕ) × Grown s order s' order' × Within ns order'
  Searches s order ns abort = ⊥
  Searches s order ns fault = ⊥
  Searches s order ns no_fuel = ⊥

  -- The search of one node, where the stack leads to it and `fuel` nodes at most are new.
  abbrev pub Visits : ℕ → (ℕ → Marks K → Outcome (Bool × Marks K)) → Type 0
  Visits fuel visit =
      (n : ℕ) (s : Marks K) (order : List ℕ)
      → Finished s order
      → ((x : ℕ) → contains s.stacked x ≡ true → Leads neighbors x n)
      → contains s.visited n ≡ false
      → Elem n vertices
      → fresh K vertices s.visited ≤ fuel
      → Searches s order (n ∷ []) (visit n s)

  Grown-refl : (s : Marks K) (order : List ℕ) → Finished s order → Grown s order s order
  Grown-refl s order fin = record {
    finished = fin;
    same = λ x. refl;
    more = λ x h. h;
    keeps = λ w h. h;
  }

  Grown-trans :
      {s s' s'' : Marks K} {order order' order'' : List ℕ}
      → Grown s order s' order'
      → Grown s' order' s'' order''
      → Grown s order s'' order''
  Grown-trans g g' = record {
    finished = g'.finished;
    same = λ x. g'.same x ∙ g.same x;
    more = λ x h. g'.more x (g.more x h);
    keeps = λ w h. g'.keeps w (g.keeps w h);
  }

  -- One more finished node in front of the rest of a search.
  chain :
      (s s' : Marks K) (order order' : List ℕ) (n : ℕ) (ns : List ℕ) (m : Outcome (Bool × Marks K))
      → Grown s order s' order'
      → Elem n order'
      → Searches s' order' ns m
      → Searches s order (n ∷ ns) m
  unfolding Searches
  chain s s' order order' n ns (done (true, t)) g at rest = rest
  chain s s' order order' n ns (done (false, t)) g at (order'', g', all) = (
    order'',
    Grown-trans g g',
    λ w h. elim h [
      | inl e ↦ g'.keeps w (subst (λ k. Elem k order') (sym e) at)
      | inr later ↦ all w later
    ],
  )
  chain s s' order order' n ns abort g at rest = rest
  chain s s' order order' n ns fault g at rest = rest
  chain s s' order order' n ns no_fuel g at rest = rest

  -- The loop goes on behind the search of one node.
  after-visit :
      (s : Marks K) (order : List ℕ) (n : ℕ) (ns : List ℕ) (o : Outcome (Bool × Marks K))
      (next : Marks K → Outcome (Bool × Marks K))
      → Searches s order (n ∷ []) o
      → ((s' : Marks K) (order' : List ℕ)
          → Grown s order s' order'
          → Elem n order'
          → Searches s' order' ns (next s'))
      → Searches s order
          (n ∷ ns)
          (o >>= λ (found, s'). elim found [ true ↦ done (true, s') | false ↦ next s' ])
  unfolding Searches
  after-visit s order n ns (done (true, s')) next r rest = r
  after-visit s order n ns (done (false, s')) next (order', g, all) rest =
      let at = all n (inl refl) in chain s s' order order' n ns (next s') g at (rest s' order' g at)
  after-visit s order n ns abort next r rest = elim r [ ]
  after-visit s order n ns fault next r rest = elim r [ ]
  after-visit s order n ns no_fuel next r rest = elim r [ ]

  pub neighbor_loop-Searches :
      (fuel : ℕ) (visit : ℕ → Marks K → Outcome (Bool × Marks K)) (node : ℕ) (ns : List ℕ)
      (s : Marks K) (order : List ℕ)
      → Visits fuel visit
      → Within ns (neighbors node)
      → Within ns vertices
      → Finished s order
      → ((x : ℕ) → contains s.stacked x ≡ true → (x ≡ node) ⊎ Leads neighbors x node)
      → fresh K vertices s.visited ≤ fuel
      → Searches s order ns (neighbor_loop K visit ns s)
  unfolding neighbor_loop Searches
  neighbor_loop-Searches fuel visit node [] s order vis nbrs vert fin stack few =
      (order, Grown-refl s order fin, λ w h. elim h [ ])
  neighbor_loop-Searches fuel visit node (n ∷ ns) s order vis nbrs vert fin stack few =
      let at = nbrs n (inl refl) in
      let later = λ (s' : Marks K) (order' : List ℕ) (g : Grown s order s' order').
        neighbor_loop-Searches fuel visit node ns s' order' vis (λ w h. nbrs w (inr h))
          (λ w h. vert w (inr h)) g.finished (λ x h. stack x (sym (g.same x) ∙ h))
          (le_trans (fresh_mono K vertices s.visited s'.visited g.more) few) in
      elim (Bool-cases (contains s.visited n)) [
        | inr new ↦
            rw (new, neighbor_loop)
              (after-visit s order n ns (visit n s) (neighbor_loop K visit ns)
                (vis n s order fin (λ x h. leads_on neighbors x n node at (stack x h)) new
                  (vert n (inl refl)) few)
                (λ s' order' g done_n. later s' order' g))
        | inl old ↦ elim (Bool-cases (contains s.stacked n)) [
          | inl high ↦ rw (old, high, neighbor_loop) (closes neighbors n node at (stack n high))
          | inr low ↦
              rw (old, low, neighbor_loop)
                (chain s s order order n ns (neighbor_loop K visit ns s) (Grown-refl s order fin)
                  (fin.listed n old low) (later s order (Grown-refl s order fin)))
        ]
      ]
