-- ===== src/Parmake/Tests.antt =====
-- Runs of parallel_make/parmake.c on small graphs.
use system_programming_uiuc.Prelude.{
  ℕ, ◌≡◌, refl, subst, ◌⊎◌, inl, inr, true, false, List, [], ◌∷◌, arith, ◌==◌, if◌then◌else◌,
}
use system_programming_uiuc.Prelude.Outcome.{done}
use system_programming_uiuc.Graph.{Elem, Leads, Layered, Acyclic}
use system_programming_uiuc.Deadlock.Drawing.{flags}
use system_programming_uiuc.Parmake.{
  waiting, built, passed, in_progress, Files, get_target_status, file_status, rule_status, Ordered,
  begin, finish, drop_target, dependency_loop, dfs_cycle, check_loop, check_cycle,
  topological_order,
}
use system_programming_uiuc.Parmake.Cycle.{Rules}
use system_programming_uiuc.Parmake.Acyclic.{check_cycle-Acyclic}
use system_programming_uiuc.Parmake.Order.{Named, topological_order-Layered}

-- The root asks for 1, and 1 for 2 and 3.
abbrev rules : ℕ → List ℕ
rules n = if n == 0 then 1 ∷ [] else if n == 1 then 2 ∷ 3 ∷ [] else []

abbrev targets : List ℕ
targets = 0 ∷ 1 ∷ 2 ∷ 3 ∷ []

no_cycle : check_cycle flags rules targets 5 ≡ done false
unfolding check_cycle check_loop dfs_cycle dependency_loop begin finish drop_target
no_cycle = refl

rules-Rules : Rules rules targets
rules-Rules n (inl e) w h = elim (subst (λ k. Elem w (rules k)) e h) [
  | inl one ↦ (omega (arith, one), inr (inl one))
  | inr rest ↦ elim rest [ ]
]
rules-Rules n (inr (inl e)) w h = elim (subst (λ k. Elem w (rules k)) e h) [
  | inl two ↦ (omega (arith, two), inr (inr (inl two)))
  | inr (inl three) ↦ (omega (arith, three), inr (inr (inr (inl three))))
  | inr (inr rest) ↦ elim rest [ ]
]
rules-Rules n (inr (inr (inl e))) w h = elim (subst (λ k. Elem w (rules k)) e h) [ ]
rules-Rules n (inr (inr (inr (inl e)))) w h = elim (subst (λ k. Elem w (rules k)) e h) [ ]
rules-Rules n (inr (inr (inr (inr e)))) w h = elim e [ ]

check_cycle-Acyclic_example :
    ((check_cycle flags rules targets 5 ≡ done true) × (a : ℕ) × Leads rules a a)
    ⊎ ((check_cycle flags rules targets 5 ≡ done false) × Acyclic rules targets)
check_cycle-Acyclic_example = check_cycle-Acyclic flags rules targets rules-Rules

topological_order-Layered_example :
    (fuel : ℕ) × (o : Ordered flags) × (topological_order flags rules targets fuel ≡ done o)
    × Layered rules o.added
    × Named targets o.added
topological_order-Layered_example =
    topological_order-Layered flags rules targets rules-Rules no_cycle

-- Nothing is a file.
abbrev no_files : Files
no_files = record { exists = λ t. false; stat_fails = λ t u. false; older = λ t u. false }

-- 1 waits for 3.
status_waits :
    get_target_status no_files (λ t. if t == 2 then built else waiting) rules 1 ≡ in_progress
unfolding get_target_status rule_status
status_waits = refl

-- A target that is a file is built again when a dependency is no file, whatever its rule's state.
status_file :
    get_target_status (record no_files { exists = λ t. t == 1 }) (λ t. waiting) rules 1 ≡ passed
unfolding get_target_status file_status
status_file = refl
