-- ===== src/Parmake/Cycle.antt =====
-- parallel_make/parmake.c: one search for a cycle.
use system_programming_uiuc.Prelude.{
  ℕ, zero, suc, ◌<◌, ◌≡◌, ◌≢◌, refl, sym, subst, ◌⊎◌, inl, inr, true, false, List, [], ◌∷◌, arith,
  Bool-cases, eq-false,
}
use system_programming_uiuc.Prelude.Outcome.{done}
use system_programming_uiuc.Graph.{
  Keys, Elem, Leads, edge, via, fresh, fresh-put, put-cases, true-false,
}
use system_programming_uiuc.Parmake.{Marks, begin, dfs_cycle}
use system_programming_uiuc.Parmake.Checks.{
  Checked, Visits, dependency_loop-Finishes, finished-Checked,
}

-- Every dependency is a target, and is not the empty name.
abbrev pub Rules : (ℕ → List ℕ) → List ℕ → Type 0
Rules neighbors vertices =
    (n : ℕ) → Elem n vertices → (w : ℕ) → Elem w (neighbors n) → (w ≢ 0) × Elem w vertices

not_below_zero : {n : ℕ} → n < 0 → ⊥
not_below_zero h = omega (arith, h)

-- A way does not end at the empty name.
pub not_to_zero :
    (neighbors : ℕ → List ℕ) (vertices : List ℕ) {a b : ℕ}
    → Rules neighbors vertices
    → Elem a vertices
    → Leads neighbors a b
    → b ≢ 0
not_to_zero neighbors vertices {a} {b} rules at (edge h) = (rules a at b h).0
not_to_zero neighbors vertices {a} rules at (via {b = c} h way) =
    not_to_zero neighbors vertices rules (rules a at c h).1 way

module _ (K : Keys) (neighbors : ℕ → List ℕ) (vertices : List ℕ) where
  open K use {Dict, contains, put, remove, create, contains-create}

  begin-path :
      (n : ℕ) (s : Marks K)
      → ((x : ℕ) → contains s.visiting x ≡ true → Leads neighbors x n)
      → (x : ℕ) → contains (begin K n s).visiting x ≡ true
      → (x ≡ n) ⊎ Leads neighbors x n
  unfolding begin
  begin-path n s path x h = elim (put-cases K n s.visiting x h) [
    | inl e ↦ inl e
    | inr old ↦ inr (path x old)
  ]

  begin-fresh :
      (n : ℕ) (s : Marks K) (fuel : ℕ)
      → Elem n vertices
      → contains s.visiting n ≡ false
      → fresh K vertices s.visiting < suc fuel
      → fresh K vertices (begin K n s).visiting < fuel
  unfolding begin
  begin-fresh n s fuel at new few = omega (arith, fresh-put K vertices s.visiting n at new, few)

  visited-Checked :
      (n : ℕ) (s : Marks K)
      → contains s.visited n ≡ true
      → Checked K neighbors vertices s (n ∷ []) (done (false, s))
  unfolding Checked
  visited-Checked n s old = (
    λ x. refl,
    λ order clean. (
      order,
      clean,
      (λ w h. h),
      λ w h. elim h [
        | inl e ↦ subst (λ k. Elem k order) (sym e) (clean.listed n old)
        | inr h ↦ elim h [ ]
      ],
    ),
  )

  dropped-Checked :
      (n : ℕ) (s : Marks K)
      → contains s.dropped n ≡ true
      → Checked K neighbors vertices s (n ∷ []) (done (false, s))
  unfolding Checked
  dropped-Checked n s out = (λ x. refl, λ order clean. absurd (true-false out (clean.undropped n)))

  pub dfs_cycle-Visits :
      (fuel : ℕ)
      → Rules neighbors vertices
      → Visits K neighbors vertices fuel (dfs_cycle K fuel neighbors)
  unfolding dfs_cycle Checked
  dfs_cycle-Visits zero rules n s nz at path few = absurd (not_below_zero few)
  dfs_cycle-Visits (suc fuel) rules n s nz at path few = elim (Bool-cases (contains s.dropped n)) [
    | inl out ↦ rw (out, dfs_cycle) (dropped-Checked n s out)
    | inr kept ↦ elim (Bool-cases (contains s.visiting n)) [
      | inl now ↦ rw (kept, eq-false n 0 nz, now, dfs_cycle) (n, path n now)
      | inr new ↦ elim (Bool-cases (contains s.visited n)) [
        | inl old ↦ rw (kept, eq-false n 0 nz, new, old, dfs_cycle) (visited-Checked n s old)
        | inr other ↦
            rw (kept, eq-false n 0 nz, new, other, dfs_cycle)
              (finished-Checked K neighbors vertices n s _ new (
                dependency_loop-Finishes K neighbors vertices fuel (dfs_cycle K fuel neighbors) n
                  (neighbors n) (begin K n s) (dfs_cycle-Visits fuel rules) (λ w h. h) (rules n at)
                  (begin-path n s path) (begin-fresh n s fuel at new few)))
      ]
    ]
  ]

  -- The root is skipped.
  pub dfs_cycle-root :
      (fuel : ℕ) (s : Marks K) → dfs_cycle K (suc fuel) neighbors 0 s ≡ done (false, s)
  unfolding dfs_cycle
  dfs_cycle-root fuel s = elim (Bool-cases (contains s.dropped 0)) [
    | inl out ↦ rw (out, dfs_cycle) refl
    | inr kept ↦ rw (kept, dfs_cycle) refl
  ]
