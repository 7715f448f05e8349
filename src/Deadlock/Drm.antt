-- ===== src/Deadlock/Drm.antt =====
-- deadlock_demolition/libdrm.c: drm_init, drm_wait and drm_post, and the threads that call them.
use system_programming_uiuc.Prelude.{
  ℕ, ◌≡◌, ◌≢◌, ◌⊎◌, Bool, true, false, Option, none, some, List, length, if◌then◌else◌, update,
}
use system_programming_uiuc.Prelude.Outcome.{Outcome, done, ◌>>=◌}
use system_programming_uiuc.Graph.{Keys, Elem}
use system_programming_uiuc.Deadlock.{is_cycle}

-- The functions of graph.h.
pub record Graphs : Type 1 where
  pub Graph : Type 0
  pub vertices : Graph → List ℕ
  pub neighbors : Graph → ℕ → List ℕ
  pub contains_vertex : Graph → ℕ → Bool
  pub adjacent : Graph → ℕ → ℕ → Bool
  pub add_vertex : ℕ → Graph → Graph
  pub add_edge : ℕ → ℕ → Graph → Graph
  pub remove_edge : ℕ → ℕ → Graph → Graph
  -- Edges join vertices.
  pub ends :
      (g : Graph) (x w : ℕ) → Elem w (neighbors g x) → Elem x (vertices g) × Elem w (vertices g)
  pub add_vertex-edges :
      (v : ℕ) (g : Graph) (x w : ℕ) → Elem w (neighbors (add_vertex v g) x) → Elem w (neighbors g x)
  pub add_edge-edges :
      (a b : ℕ) (g : Graph) (x w : ℕ)
      → Elem w (neighbors (add_edge a b g) x)
      → Elem w (neighbors g x) ⊎ ((x ≡ a) × (w ≡ b))
  pub remove_edge-edges :
      (a b : ℕ) (g : Graph) (x w : ℕ)
      → Elem w (neighbors (remove_edge a b g) x)
      → Elem w (neighbors g x) × (x ≡ a → w ≢ b)

module _ (K : Keys) (G : Graphs) where
  open G use {
    Graph, vertices, neighbors, contains_vertex, adjacent, add_vertex, add_edge, remove_edge,
  }

  -- How the first part of `drm_wait` ends: it returns 0 and leaves `global` locked, it returns 0, or
  -- it goes on to lock the mutex of the drm.
  pub data Begun : Type 0 where
    leaves_locked : Begun
    refused : Graph → Begun
    registered : Graph → Begun

  unfoldable pub with_thread : ℕ → Graph → Graph
  with_thread t g = if contains_vertex g t then g else add_vertex t g

  unfoldable pub request : ℕ → ℕ → Graph → Outcome Begun
  unfolding is_cycle
  request d t g =
      let g' = add_edge t d g in
      is_cycle K (neighbors g') (vertices g') (length (vertices g')) >>= λ found.
      done (if found then refused (remove_edge t d g') else registered g')

  unfoldable pub drm_wait_begin : Option ℕ → ℕ → Graph → Outcome Begun
  unfolding with_thread request
  drm_wait_begin none t g = done leaves_locked
  drm_wait_begin (some d) t g = elim (contains_vertex g d) [
    | false ↦ done leaves_locked
    | true ↦ elim (adjacent (with_thread t g) d t) [
      | true ↦ done (refused (with_thread t g))
      | false ↦ request d t (with_thread t g)
    ]
  ]

  -- With the mutex of the drm and `global` locked.
  unfoldable pub drm_wait_end : ℕ → ℕ → Graph → Graph
  drm_wait_end d t g = add_edge d t (remove_edge t d g)

  -- The result, the graph, and the drm whose mutex is unlocked.
  unfoldable pub drm_post : Option ℕ → ℕ → Graph → Bool × Graph × Option ℕ
  drm_post none t g = (false, g, none)
  drm_post (some d) t g = elim (adjacent g d t) [
    | true ↦ (true, remove_edge d t g, some d)
    | false ↦ (false, g, none)
  ]

  -- `malloc` has given `d`.
  unfoldable pub drm_init : ℕ → Graph → Graph
  drm_init d g = add_vertex d g

  -- Where a thread stands in `drm_wait`.
  pub data Phase : Type 0 where
    idle : Phase
    waiting : ℕ → Phase
    locked : ℕ → Phase

  -- The graph, whether a call has returned with `global` locked, who has each drm's mutex, and the
  -- threads.
  pub record System : Type 0 where
    pub graph : Graph
    pub global : Bool
    pub owner : ℕ → Option ℕ
    pub phase : ℕ → Phase

  abbrev pub released : Option ℕ → (ℕ → Option ℕ) → ℕ → Option ℕ
  released none owner = owner
  released (some d) owner = update owner d none

  -- What happens between a lock and the unlock of `global` is one step. The pointers of threads and
  -- those of drms are not the same.
  pub data Step (is_thread : ℕ → Bool) (s : System) : System → Type 0 where
    init : (d : ℕ) → s.global ≡ false → Step is_thread s (record s { graph = drm_init d s.graph })
    wait_stuck :
        (drm : Option ℕ) (t : ℕ)
        → s.global ≡ false
        → s.phase t ≡ idle
        → drm_wait_begin drm t s.graph ≡ done leaves_locked
        → Step is_thread s (record s { global = true })
    wait_refused :
        (drm : Option ℕ) (t : ℕ) (g : Graph)
        → s.global ≡ false
        → s.phase t ≡ idle
        → drm_wait_begin drm t s.graph ≡ done (refused g)
        → Step is_thread s (record s { graph = g })
    wait_registered :
        (d t : ℕ) (g : Graph)
        → s.global ≡ false
        → is_thread t ≡ true
        → is_thread d ≡ false
        → s.phase t ≡ idle
        → drm_wait_begin (some d) t s.graph ≡ done (registered g)
        → Step is_thread s (record s { graph = g; phase = update s.phase t (waiting d) })
    lock :
        (d t : ℕ)
        → s.phase t ≡ waiting d
        → s.owner d ≡ none
        → Step is_thread s
            (record s { owner = update s.owner d (some t); phase = update s.phase t (locked d) })
    wait_end :
        (d t : ℕ)
        → s.global ≡ false
        → is_thread t ≡ true
        → is_thread d ≡ false
        → s.phase t ≡ locked d
        → Step is_thread s
            (record s { graph = drm_wait_end d t s.graph; phase = update s.phase t idle })
    post :
        (drm : Option ℕ) (t : ℕ)
        → s.global ≡ false
        → Step is_thread s (record s {
          graph = (drm_post drm t s.graph).1;
          owner = released (drm_post drm t s.graph).2 s.owner;
        })

  pub data Reach (is_thread : ℕ → Bool) (s : System) : System → Type 0 where
    start : Reach is_thread s s
    later : {u v : System} → Reach is_thread s u → Step is_thread u v → Reach is_thread s v
