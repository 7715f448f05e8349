-- ===== src/Deadlock/Reached.antt =====
-- deadlock_demolition/libdrm.c: every step of every thread keeps the graph free of cycles.
use system_programming_uiuc.Prelude.{
  ℕ, ◌≡◌, refl, sym, ap, subst, ◌∙◌, ◌⊎◌, inl, inr, Bool, true, false, Option, none, some, update,
  ℕ_discrete, update-same, update-other,
}
use system_programming_uiuc.Prelude.Outcome.{done}
use system_programming_uiuc.Graph.{Keys, Elem}
use system_programming_uiuc.Deadlock.Drm.{
  Graphs, registered, drm_wait_begin, drm_wait_end, drm_post, drm_init, Phase, idle, waiting,
  locked, System, Step, init, wait_stuck, wait_refused, wait_registered, lock, wait_end, post,
  Reach, start, later,
}
use system_programming_uiuc.Deadlock.Avoided.{
  NoCycle, NoCycle-around, dead_end, Leads_fewer, Begins, drm_wait_begin-Begins, Safe,
}

module _ {K : Keys} {G : Graphs} where
  -- A thread that is asking for `x`, or has just got it.
  abbrev At : ℕ → Phase K G → Type 0
  At x p = (p ≡ waiting x) ⊎ (p ≡ locked x)

  At-eq : (x : ℕ) {p p' : Phase K G} → p' ≡ p → At x p → At x p'
  At-eq x e (inl h) = inl (e ∙ h)
  At-eq x e (inr h) = inr (e ∙ h)

  not_idle : (x : ℕ) {p : Phase K G} → p ≡ idle → At x p → ⊥
  not_idle x e (inl h) = cc
  not_idle x e (inr h) = cc

  waiting_here : (x d : ℕ) {p : Phase K G} → p ≡ waiting d → At x p → x ≡ d
  waiting_here x d e (inl h) = cc
  waiting_here x d e (inr h) = cc

  locked_here : (x d : ℕ) {p : Phase K G} → p ≡ locked d → At x p → x ≡ d
  locked_here x d e (inl h) = cc
  locked_here x d e (inr h) = cc

module _ (K : Keys) (G : Graphs) (is_thread : ℕ → Bool) where
  open G use {
    Graph, neighbors, add_edge, remove_edge, add_vertex-edges, add_edge-edges, remove_edge-edges,
  }

  Safe-fewer :
      (s s' : System K G)
      → ((x w : ℕ) → Elem w (neighbors s'.graph x) → Elem w (neighbors s.graph x))
      → ((t : ℕ) → s'.phase t ≡ s.phase t)
      → Safe K G is_thread s
      → Safe K G is_thread s'
  Safe-fewer s s' fewer same v = record {
    free = λ a way. v.free a (Leads_fewer (neighbors s'.graph) (neighbors s.graph) fewer way);
    one = λ t x thread h. At-eq x (same t) (v.one t x thread (fewer t x h));
  }

  post-fewer :
      (drm : Option ℕ) (t : ℕ) (g : Graph) (x w : ℕ)
      → Elem w (neighbors (drm_post K G drm t g).1 x)
      → Elem w (neighbors g x)
  unfolding drm_post
  post-fewer none t g x w = λ h. h
  post-fewer (some d) t g x w =
      elim (G.adjacent g d t)
        as (λ q.
          Elem w (
            neighbors
              (let r : Bool × Graph × Option ℕ = elim q [
                | true ↦ (true, remove_edge d t g, some d)
                | false ↦ (false, g, none)
              ] in
                r.1)
              x)
          → Elem w (neighbors g x)) [
            | true ↦ λ h. (remove_edge-edges d t g x w h).0
            | false ↦ λ h. h
          ]

  registered-Safe :
      (s : System K G) (d t : ℕ) (g : Graph)
      → s.phase t ≡ idle
      → drm_wait_begin K G (some d) t s.graph ≡ done (registered g)
      → Safe K G is_thread s
      → Safe K G is_thread (record s { graph = g; phase = update s.phase t (waiting d) })
  unfolding Begins
  registered-Safe s d t g still e v =
      let b =
        subst (λ o. Begins K G (some d) t s.graph o) e
          (drm_wait_begin-Begins K G (some d) t s.graph) in
      record {
        free = b.0;
        one = λ u x thread h. elim (b.1 u x h) [
          | inl old ↦
              let at = v.one u x thread old in
              At-eq x
                (update-other s.phase t u (waiting d)
                  (λ (k : t ≡ u). not_idle x (sym (ap s.phase k) ∙ still) at))
                at
          | inr (k, new) ↦
              let same : d ≡ x = cc in
              inl (
                ap (update s.phase t (waiting d)) k
                ∙ update-same s.phase t (waiting d)
                ∙ ap waiting same)
        ];
      }

  lock-Safe :
      (s : System K G) (d t : ℕ) (owner : ℕ → Option ℕ)
      → s.phase t ≡ waiting d
      → Safe K G is_thread s
      → Safe K G is_thread (record s { owner = owner; phase = update s.phase t (locked d) })
  lock-Safe s d t owner wait v = record {
    free = v.free;
    one = λ u x thread h.
        let at = v.one u x thread h in
        elim (ℕ_discrete t u) [
          | yes k ↦ inr (
              sym (ap (update s.phase t (locked d)) k)
              ∙ update-same s.phase t (locked d)
              ∙ ap locked (sym (waiting_here x d (sym (ap s.phase k) ∙ wait) at)))
          | no other ↦ At-eq x (update-other s.phase t u (locked d) other) at
        ];
  }

  is_both : (t d : ℕ) → is_thread t ≡ true → is_thread d ≡ false → t ≡ d → ⊥
  is_both t d thread drm e = cc (ap is_thread e)

  -- The thread that has locked `d` has no other edge.
  no_edge :
      (s : System K G) (d t : ℕ)
      → is_thread t ≡ true
      → is_thread d ≡ false
      → s.phase t ≡ locked d
      → Safe K G is_thread s
      → (w : ℕ) → Elem w (neighbors (drm_wait_end K G d t s.graph) t)
      → ⊥
  unfolding drm_wait_end
  no_edge s d t thread drm has v w h = elim (add_edge-edges d t (remove_edge t d s.graph) t w h) [
    | inl k ↦
        let old = remove_edge-edges t d s.graph t w k in
        old.1 refl (locked_here w d has (v.one t w thread old.0))
    | inr (e, same) ↦ is_both t d thread drm e
  ]

  end-edges :
      (s : System K G) (d t x w : ℕ)
      → Elem w (neighbors (drm_wait_end K G d t s.graph) x)
      → Elem w (neighbors s.graph x) ⊎ ((x ≡ d) × (w ≡ t))
  unfolding drm_wait_end
  end-edges s d t x w h = elim (add_edge-edges d t (remove_edge t d s.graph) x w h) [
    | inl k ↦ inl (remove_edge-edges t d s.graph x w k).0
    | inr new ↦ inr new
  ]

  end-Safe :
      (s : System K G) (d t : ℕ)
      → is_thread t ≡ true
      → is_thread d ≡ false
      → s.phase t ≡ locked d
      → Safe K G is_thread s
      → Safe K G is_thread
          (record s { graph = drm_wait_end K G d t s.graph; phase = update s.phase t idle })
  unfolding drm_wait_end
  end-Safe s d t thread drm has v = record {
    free =
        NoCycle-around (neighbors (drm_wait_end K G d t s.graph)) (neighbors s.graph) d t
          (end-edges s d t) (no_edge s d t thread drm has v) v.free;
    one = λ u x thread_u h. elim (ℕ_discrete t u) [
      | yes k ↦ absurd (
          no_edge s d t thread drm has v x
            (subst (λ n. Elem x (neighbors (drm_wait_end K G d t s.graph) n)) (sym k) h))
      | no other ↦ elim (end-edges s d t u x h) [
        | inl old ↦ At-eq x (update-other s.phase t u idle other) (v.one u x thread_u old)
        | inr (e, same) ↦ absurd (is_both u d thread_u drm e)
      ]
    ];
  }

  Step-Safe :
      {s s' : System K G} → Step K G is_thread s s' → Safe K G is_thread s → Safe K G is_thread s'
  unfolding drm_init Begins
  Step-Safe {s} (init d free) v = Safe-fewer s _ (add_vertex-edges d s.graph) (λ t. refl) v
  Step-Safe {s} (wait_stuck drm t free still e) v = Safe-fewer s _ (λ x w h. h) (λ t. refl) v
  Step-Safe {s} (wait_refused drm t g free still e) v =
      Safe-fewer s _
        (subst (λ o. Begins K G drm t s.graph o) e (drm_wait_begin-Begins K G drm t s.graph))
        (λ t. refl) v
  Step-Safe {s} (wait_registered d t g free thread drm still e) v =
      registered-Safe s d t g still e v
  Step-Safe {s} (lock d t wait unlocked) v = lock-Safe s d t _ wait v
  Step-Safe {s} (wait_end d t free thread drm has) v = end-Safe s d t thread drm has v
  Step-Safe {s} (post drm t free) v = Safe-fewer s _ (post-fewer drm t s.graph) (λ t. refl) v

  Reach-Safe :
      {s s' : System K G} → Safe K G is_thread s → Reach K G is_thread s s' → Safe K G is_thread s'
  Reach-Safe v start = v
  Reach-Safe v (later r st) = Step-Safe st (Reach-Safe v r)

  empty-Safe :
      (s : System K G) → ((x w : ℕ) → Elem w (neighbors s.graph x) → ⊥) → Safe K G is_thread s
  empty-Safe s empty = record {
    free = λ a way. dead_end (neighbors s.graph) a a (empty a) way;
    one = λ t x thread h. absurd (empty t x h);
  }

  -- From a graph without edges, in every interleaving of calls of drm_init, drm_wait and drm_post by
  -- any number of threads: no chain of threads that wait for drms and drms that belong to threads
  -- leads back to its start.
  pub drm-NoCycle :
      (s : System K G) {s' : System K G}
      → ((x w : ℕ) → Elem w (neighbors s.graph x) → ⊥)
      → Reach K G is_thread s s'
      → NoCycle (neighbors s'.graph)
  drm-NoCycle s empty r = (Reach-Safe (empty-Safe s empty) r).free
