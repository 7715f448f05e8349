-- ===== src/Deadlock/Tests.antt =====
-- Runs of deadlock_demolition/libdrm.c on small graphs.
use system_programming_uiuc.Prelude.{
  ℕ, ◌≡◌, refl, subst, ◌⊎◌, inl, inr, Bool, true, false, none, some, List, [], ◌∷◌, ltb, ◌==◌,
  if◌then◌else◌, update,
}
use system_programming_uiuc.Prelude.Outcome.{done}
use system_programming_uiuc.Deadlock.Drawing.{flags, drawings}
use system_programming_uiuc.Graph.{Elem, Leads, Acyclic}
use system_programming_uiuc.Deadlock.{dfs, neighbor_loop, vertex_loop, enter, leave, is_cycle}
use system_programming_uiuc.Deadlock.Cycles.{Closed, is_cycle-Acyclic}
use system_programming_uiuc.Deadlock.Drm.{
  drm_wait_begin, drm_wait_end, with_thread, request, drm_init, registered, System, idle, waiting,
  locked, Reach, start, later, init, wait_registered, lock, wait_end,
}
use system_programming_uiuc.Deadlock.Avoided.{NoCycle}
use system_programming_uiuc.Deadlock.Reached.{drm-NoCycle}

-- 1 to 2 to 3, and back to 1 for the cycle.
abbrev chain_edges : ℕ → List ℕ
chain_edges n = if n == 1 then 2 ∷ [] else if n == 2 then 3 ∷ [] else []

abbrev ring_edges : ℕ → List ℕ
ring_edges n = if n == 1 then 2 ∷ [] else if n == 2 then 3 ∷ [] else if n == 3 then 1 ∷ [] else []

abbrev three : List ℕ
three = 1 ∷ 2 ∷ 3 ∷ []

chain_is_free : is_cycle flags chain_edges three 3 ≡ done false
unfolding is_cycle vertex_loop dfs neighbor_loop enter leave
chain_is_free = refl

ring_is_cycle : is_cycle flags ring_edges three 3 ≡ done true
unfolding is_cycle vertex_loop dfs neighbor_loop enter leave
ring_is_cycle = refl

ring-Closed : Closed ring_edges three
ring-Closed n (inl e) w h = elim (subst (λ k. Elem w (ring_edges k)) e h) [
  | inl two ↦ inr (inl two)
  | inr rest ↦ elim rest [ ]
]
ring-Closed n (inr (inl e)) w h = elim (subst (λ k. Elem w (ring_edges k)) e h) [
  | inl last ↦ inr (inr (inl last))
  | inr rest ↦ elim rest [ ]
]
ring-Closed n (inr (inr (inl e))) w h = elim (subst (λ k. Elem w (ring_edges k)) e h) [
  | inl one ↦ inl one
  | inr rest ↦ elim rest [ ]
]
ring-Closed n (inr (inr (inr e))) w h = elim e [ ]

is_cycle-Acyclic_example :
    ((is_cycle flags ring_edges three 3 ≡ done true) × (a : ℕ) × Leads ring_edges a a)
    ⊎ ((is_cycle flags ring_edges three 3 ≡ done false) × Acyclic ring_edges three)
is_cycle-Acyclic_example = is_cycle-Acyclic flags ring_edges three ring-Closed

-- Threads have the small numbers.
abbrev thread : ℕ → Bool
thread n = ltb n 5

abbrev at_rest : System flags drawings
at_rest = record {
  graph = record { points = []; lines = [] };
  global = false;
  owner = λ d. none;
  phase = λ t. idle;
}

-- The drm 7 is made, and thread 1 asks for it.
abbrev asked : System flags drawings
asked = record at_rest {
  graph = record { points = 1 ∷ 7 ∷ []; lines = (1, 7) ∷ [] };
  phase = update (λ t. idle) 1 (waiting 7);
}

request_granted :
    drm_wait_begin flags drawings (some 7) 1 (record { points = 7 ∷ []; lines = [] })
    ≡ done (registered (record { points = 1 ∷ 7 ∷ []; lines = (1, 7) ∷ [] }))
unfolding drm_wait_begin with_thread request is_cycle vertex_loop dfs neighbor_loop enter leave
request_granted = refl

-- It locks the mutex, and then has it in the graph.
asked_reached : Reach flags drawings thread at_rest asked
unfolding drm_init
asked_reached =
    later (later start (init 7 refl)) (wait_registered 7 1 _ refl refl refl refl request_granted)

owned_reached : Reach flags drawings thread at_rest (record asked {
  graph = drm_wait_end flags drawings 7 1 asked.graph;
  owner = update (λ d. none) 7 (some 1);
  phase = update (update asked.phase 1 (locked 7)) 1 idle;
})
owned_reached = later (later asked_reached (lock 7 1 refl refl)) (wait_end 7 1 refl refl refl refl)

drm-NoCycle_example : NoCycle (drawings.neighbors (drm_wait_end flags drawings 7 1 asked.graph))
drm-NoCycle_example = drm-NoCycle flags drawings thread at_rest (λ x w h. h) owned_reached
