-- ===== src/Deadlock/Avoided.antt =====
-- deadlock_demolition/libdrm.c: no cycle of threads and drms ever comes up.
use system_programming_uiuc.Prelude.{
  ℕ, ◌≡◌, ◌≢◌, sym, ap, subst, ◌⊎◌, inl, inr, Bool, true, Option, none, some, List, Bool-cases,
  ℕ_discrete, if◌then◌else◌,
}
use system_programming_uiuc.Prelude.Outcome.{Outcome, done, abort, fault, no_fuel}
use system_programming_uiuc.Graph.{Keys, Elem, Leads, edge, via}
use system_programming_uiuc.Deadlock.Cycles.{is_cycle-Acyclic}
use system_programming_uiuc.Deadlock.Drm.{
  Graphs, Begun, leaves_locked, refused, registered, with_thread, request, drm_wait_begin, waiting,
  locked, System,
}

abbrev pub NoCycle : (ℕ → List ℕ) → Type 0
NoCycle neighbors = (a : ℕ) → Leads neighbors a a → ⊥

-- Fewer edges make no cycle.
pub Leads_fewer :
    (f h : ℕ → List ℕ)
    → ((x w : ℕ) → Elem w (f x) → Elem w (h x))
    → {a b : ℕ} → Leads f a b
    → Leads h a b
Leads_fewer f h fewer {a} {b} (edge k) = edge (fewer a b k)
Leads_fewer f h fewer {a} (via {b = b} k l) = via (fewer a b k) (Leads_fewer f h fewer l)

-- An edge to a node without edges makes no cycle.
pub dead_end : (f : ℕ → List ℕ) (t b : ℕ) → ((w : ℕ) → Elem w (f t) → ⊥) → Leads f t b → ⊥
dead_end f t b end (edge k) = end b k
dead_end f t b end (via {b = c} k l) = end c k

around :
    (f h : ℕ → List ℕ) (d t : ℕ)
    → ((x w : ℕ) → Elem w (f x) → Elem w (h x) ⊎ ((x ≡ d) × (w ≡ t)))
    → ((w : ℕ) → Elem w (f t) → ⊥)
    → {a b : ℕ} → Leads f a b
    → b ≢ t
    → Leads h a b
around f h d t edges end {a} {b} (edge k) other = elim (edges a b k) [
  | inl old ↦ edge old
  | inr new ↦ absurd (other new.1)
]
around f h d t edges end {a} {b} (via {b = c} k l) other = elim (edges a c k) [
  | inl old ↦ via old (around f h d t edges end l other)
  | inr new ↦ absurd (dead_end f t b end (subst (λ x. Leads f x b) new.1 l))
]

pub NoCycle-around :
    (f h : ℕ → List ℕ) (d t : ℕ)
    → ((x w : ℕ) → Elem w (f x) → Elem w (h x) ⊎ ((x ≡ d) × (w ≡ t)))
    → ((w : ℕ) → Elem w (f t) → ⊥)
    → NoCycle h
    → NoCycle f
NoCycle-around f h d t edges end free a way = elim (ℕ_discrete a t) [
  | yes e ↦ dead_end f t t end (subst (λ x. Leads f x x) e way)
  | no other ↦ free a (around f h d t edges end way other)
]

module _ (K : Keys) (G : Graphs) where
  open G use {
    Graph, vertices, neighbors, contains_vertex, adjacent, add_vertex, add_edge, remove_edge, ends,
    add_vertex-edges, add_edge-edges, remove_edge-edges,
  }

  -- What the first part of `drm_wait` does to the edges.
  unfoldable pub Begins : Option ℕ → ℕ → Graph → Outcome (Begun K G) → Type 0
  Begins drm t g (done leaves_locked) = Unit
  Begins drm t g (done (refused g')) = (x w : ℕ) → Elem w (neighbors g' x) → Elem w (neighbors g x)
  Begins drm t g (done (registered g')) =
      NoCycle (neighbors g')
      × ((x w : ℕ) → Elem w (neighbors g' x) → Elem w (neighbors g x) ⊎ ((x ≡ t) × (drm ≡ some w)))
  Begins drm t g abort = Unit
  Begins drm t g fault = Unit
  Begins drm t g no_fuel = Unit

  with_thread-fewer :
      (t : ℕ) (g : Graph) (x w : ℕ)
      → Elem w (neighbors (with_thread K G t g) x)
      → Elem w (neighbors g x)
  unfolding with_thread
  with_thread-fewer t g x w h = elim (Bool-cases (contains_vertex g t)) [
    | inl old ↦ subst (λ q. Elem w (neighbors (if q then g else add_vertex t g) x)) old h
    | inr new ↦
        add_vertex-edges t g x w
          (subst (λ q. Elem w (neighbors (if q then g else add_vertex t g) x)) new h)
  ]

  first_end : (g : Graph) (a b : ℕ) → Leads (neighbors g) a b → Elem a (vertices g)
  first_end g a b (edge k) = (ends g a b k).0
  first_end g a b (via {b = c} k l) = (ends g a c k).0

  request-Begins :
      (d t : ℕ) (g g1 : Graph)
      → ((x w : ℕ) → Elem w (neighbors g1 x) → Elem w (neighbors g x))
      → Begins (some d) t g (request K G d t g1)
  unfolding request Begins
  request-Begins d t g g1 fewer =
      let g2 = add_edge t d g1 in
      elim (is_cycle-Acyclic K (neighbors g2) (vertices g2) (λ n at w h. (ends g2 n w h).1)) [
        | inl (run, a, way) ↦ rw run (λ x w h.
            let old = remove_edge-edges t d g2 x w h in
            elim (add_edge-edges t d g1 x w old.0) [
              | inl k ↦ fewer x w k
              | inr new ↦ absurd (old.1 new.0 new.1)
            ])
        | inr (run, acyclic) ↦ rw run (
          (λ a way. acyclic a (first_end g2 a a way) way),
          (λ x w h. elim (add_edge-edges t d g1 x w h) [
            | inl k ↦ inl (fewer x w k)
            | inr new ↦ inr (new.0, ap some (sym new.1))
          ]),
        )
      ]

  pub drm_wait_begin-Begins :
      (drm : Option ℕ) (t : ℕ) (g : Graph) → Begins drm t g (drm_wait_begin K G drm t g)
  unfolding drm_wait_begin Begins
  drm_wait_begin-Begins none t g = tt
  drm_wait_begin-Begins (some d) t g = elim (Bool-cases (contains_vertex g d)) [
    | inr new ↦ rw (new, drm_wait_begin) tt
    | inl old ↦ elim (Bool-cases (adjacent (with_thread K G t g) d t)) [
      | inl owned ↦ rw (old, owned, drm_wait_begin) (with_thread-fewer t g)
      | inr other ↦
          rw (old, other, drm_wait_begin)
            (request-Begins d t g (with_thread K G t g) (with_thread-fewer t g))
    ]
  ]

  -- The graph has no cycle, and a thread has no edge but to the drm that it waits for or has just
  -- locked.
  pub record Safe (is_thread : ℕ → Bool) (s : System K G) : Type 0 where
    pub free : NoCycle (neighbors s.graph)
    pub one :
        (t x : ℕ)
        → is_thread t ≡ true
        → Elem x (neighbors s.graph t)
        → (s.phase t ≡ waiting x) ⊎ (s.phase t ≡ locked x)
