-- ===== src/Deadlock.antt =====
-- deadlock_demolition/libdrm.c: the cycle test of the resource graph.
pub mod Search
pub mod Cycles
pub mod Drm
pub mod Avoided
pub mod Reached
pub mod Drawing
mod Tests
use system_programming_uiuc.Prelude.{ℕ, zero, suc, Bool, true, false, List, [], ◌∷◌, if◌then◌else◌}
use system_programming_uiuc.Prelude.Outcome.{Outcome, done, no_fuel, ◌>>=◌}
use system_programming_uiuc.Graph.{Keys}

module _ (K : Keys) where
  open K use {Dict, create, put, remove, contains}

  -- The two dictionaries.
  pub record Marks : Type 0 where
    pub visited : Dict
    pub stacked : Dict

  unfoldable pub enter : ℕ → Marks → Marks
  enter node s = record { visited = put node s.visited; stacked = put node s.stacked }

  unfoldable pub leave : ℕ → Marks → Marks
  leave node s = record s { stacked = remove node s.stacked }

  -- The loop of `DFS` over the neighbours; `visit` is the recursive call.
  unfoldable pub neighbor_loop :
      (ℕ → Marks → Outcome (Bool × Marks)) → List ℕ → Marks → Outcome (Bool × Marks)
  neighbor_loop visit [] s = done (false, s)
  neighbor_loop visit (neighbor ∷ rest) s = elim (contains s.visited neighbor) [
    | false ↦ visit neighbor s >>= λ (found, s'). elim found [
      | true ↦ done (true, s')
      | false ↦ neighbor_loop visit rest s'
    ]
    | true ↦ elim (contains s.stacked neighbor) [
      | true ↦ done (true, s)
      | false ↦ neighbor_loop visit rest s
    ]
  ]

  -- The depth of the recursion is the fuel.
  unfoldable pub dfs : ℕ → (ℕ → List ℕ) → ℕ → Marks → Outcome (Bool × Marks)
  unfolding enter leave neighbor_loop
  dfs zero neighbors node s = no_fuel
  dfs (suc fuel) neighbors node s =
      neighbor_loop (dfs fuel neighbors) (neighbors node) (enter node s) >>= λ (found, s').
      done (found, if found then s' else leave node s')

  -- The loop of `isCycle`.
  unfoldable pub vertex_loop : (ℕ → Marks → Outcome (Bool × Marks)) → List ℕ → Marks → Outcome Bool
  vertex_loop visit [] s = done false
  vertex_loop visit (vertex ∷ rest) s = elim (contains s.visited vertex) [
    | true ↦ vertex_loop visit rest s
    | false ↦ visit vertex s >>= λ (found, s'). elim found [
      | true ↦ done true
      | false ↦ vertex_loop visit rest s'
    ]
  ]

  -- The recursion is no deeper than there are vertices.
  unfoldable pub is_cycle : (ℕ → List ℕ) → List ℕ → ℕ → Outcome Bool
  unfolding dfs vertex_loop
  is_cycle neighbors vertices fuel =
      vertex_loop (dfs fuel neighbors) vertices (record { visited = create; stacked = create })
