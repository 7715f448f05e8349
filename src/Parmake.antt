-- ===== src/Parmake.antt =====
-- parallel_make/parmake.c: the cycle check, the order of the targets, and the status of a target.
-- Targets are numbers, and 0 stands for the empty name, that of the root of the dependency graph.
-- The sets compare pointers, and each target has one text.
pub mod Checks
pub mod Cycle
pub mod Acyclic
pub mod Order
mod Tests
use system_programming_uiuc.Prelude.{ℕ, zero, suc, Bool, true, false, ◌||◌, List, [], ◌∷◌, ◌==◌}
use system_programming_uiuc.Prelude.Outcome.{Outcome, done, no_fuel, ◌>>=◌}
use system_programming_uiuc.Graph.{Keys}

-- `state` of a rule, and the status of a target; `failed` is -1.
pub data State : Type 0 where
  failed waiting built : State

pub data Status : Type 0 where
  error in_progress passed halted already : Status

abbrev pub as_status : State → Status
as_status failed = error
as_status waiting = in_progress
as_status built = passed

module _ (K : Keys) where
  open K use {Dict, create, put, remove, contains}

  -- The two sets of a search, and the targets whose value in `valid_target` is 1.
  pub record Marks : Type 0 where
    pub visited : Dict
    pub visiting : Dict
    pub dropped : Dict

  unfoldable pub drop_target : ℕ → Marks → Marks
  drop_target target s = record s { dropped = put target s.dropped }

  unfoldable pub begin : ℕ → Marks → Marks
  begin target s = record s { visiting = put target s.visiting }

  unfoldable pub finish : ℕ → Marks → Marks
  finish target s = record s { visiting = remove target s.visiting; visited = put target s.visited }

  -- The loop of `DFS_cycle`; `visit` is the recursive call.
  unfoldable pub dependency_loop :
      (ℕ → Marks → Outcome (Bool × Marks)) → ℕ → List ℕ → Marks → Outcome (Bool × Marks)
  unfolding drop_target finish
  dependency_loop visit target [] s = done (false, finish target s)
  dependency_loop visit target (neighbor ∷ rest) s = visit neighbor s >>= λ (found, s').
      elim found [
        | true ↦ done (true, drop_target target s')
        | false ↦ dependency_loop visit target rest s'
      ]

  -- The depth of the recursion is the fuel.
  unfoldable pub dfs_cycle : ℕ → (ℕ → List ℕ) → ℕ → Marks → Outcome (Bool × Marks)
  unfolding begin drop_target dependency_loop
  dfs_cycle zero neighbors target s = no_fuel
  dfs_cycle (suc fuel) neighbors target s = elim (contains s.dropped target) [
    | true ↦ done (false, s)
    | false ↦ elim (target == 0) [
      | true ↦ done (false, s)
      | false ↦ elim (contains s.visiting target) [
        | true ↦ done (true, drop_target target s)
        | false ↦ elim (contains s.visited target) [
          | true ↦ done (false, s)
          | false ↦
              dependency_loop (dfs_cycle fuel neighbors) target (neighbors target) (begin target s)
        ]
      ]
    ]
  ]

  -- The loop of `parmake` over the targets: the flag `cycle`.
  unfoldable pub check_loop :
      (ℕ → Marks → Outcome (Bool × Marks)) → List ℕ → Bool → Dict → Outcome Bool
  check_loop visit [] cycle dropped = done cycle
  check_loop visit (target ∷ rest) cycle dropped =
      visit target (record { visited = create; visiting = create; dropped = dropped })
      >>= λ (found, s'). check_loop visit rest (found || cycle) s'.dropped

  unfoldable pub check_cycle : (ℕ → List ℕ) → List ℕ → ℕ → Outcome Bool
  unfolding dfs_cycle check_loop
  check_cycle neighbors targets fuel = check_loop (dfs_cycle fuel neighbors) targets false create

  -- The set `order`, and what was added to it, newest first.
  pub record Ordered : Type 0 where
    pub order : Dict
    pub added : List ℕ

  unfoldable pub add_target : ℕ → Ordered → Ordered
  add_target target o = record { order = put target o.order; added = target ∷ o.added }

  unfoldable pub order_loop : (ℕ → Ordered → Outcome Ordered) → List ℕ → Ordered → Outcome Ordered
  order_loop visit [] o = done o
  order_loop visit (neighbor ∷ rest) o = visit neighbor o >>= λ o'. order_loop visit rest o'

  unfoldable pub dfs_topological_order : ℕ → (ℕ → List ℕ) → ℕ → Ordered → Outcome Ordered
  unfolding add_target order_loop
  dfs_topological_order zero neighbors target o = no_fuel
  dfs_topological_order (suc fuel) neighbors target o = elim (target == 0) [
    | true ↦ done o
    | false ↦ elim (contains o.order target) [
      | true ↦ done o
      | false ↦ order_loop (dfs_topological_order fuel neighbors) (neighbors target) o >>= λ o'.
          done (add_target target o')
    ]
  ]

  -- The loop of `parmake` that fills `order`.
  unfoldable pub topological_order : (ℕ → List ℕ) → List ℕ → ℕ → Outcome Ordered
  unfolding dfs_topological_order order_loop
  topological_order neighbors targets fuel =
      order_loop (dfs_topological_order fuel neighbors) targets
        (record { order = create; added = [] })

-- What `get_target_status` asks the system: whether a file is there, whether `stat` fails on one of
-- two files, and whether the first file is the older one.
pub record Files : Type 0 where
  pub exists : ℕ → Bool
  pub stat_fails : ℕ → ℕ → Bool
  pub older : ℕ → ℕ → Bool

-- The loop for a target that is a file.
unfoldable pub file_status : Files → ℕ → List ℕ → Status
file_status files target [] = halted
file_status files target (sub_target ∷ rest) = elim (files.exists sub_target) [
  | false ↦ passed
  | true ↦ elim (files.stat_fails target sub_target) [
    | true ↦ error
    | false ↦ elim (files.older target sub_target) [
      | true ↦ passed
      | false ↦ file_status files target rest
    ]
  ]
]

-- The loop for a target that is none: the state of the first rule that is not built.
unfoldable pub rule_status : (ℕ → State) → List ℕ → Status
rule_status state [] = passed
rule_status state (sub_target ∷ rest) = elim (state sub_target) [
  | built ↦ rule_status state rest
  | waiting ↦ in_progress
  | failed ↦ error
]

unfoldable pub get_target_status : Files → (ℕ → State) → (ℕ → List ℕ) → ℕ → Status
unfolding file_status rule_status
get_target_status files state neighbors target = elim (state target) [
  | failed ↦ already
  | built ↦ already
  | waiting ↦ elim (neighbors target) [
    | [] ↦ elim (files.exists target) [ true ↦ halted | false ↦ passed ]
    | dependency ∷ rest ↦ elim (files.exists target) [
      | true ↦ file_status files target (dependency ∷ rest)
      | false ↦ rule_status state (dependency ∷ rest)
    ]
  ]
]
