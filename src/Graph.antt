-- ===== src/Graph.antt =====
-- What deadlock_demolition/libdrm.c and parallel_make/parmake.c use of the course's library, which is
-- not in the repository: its sets and dictionaries by their keys, and its graphs by their neighbours.
use system_programming_uiuc.Prelude.{
  ℕ, ◌+◌, ◌≤◌, ◌<◌, ◌≡◌, ◌≢◌, sym, ◌∙◌, subst, ◌⊎◌, inl, inr, Bool, true, false, List, [], ◌∷◌,
  arith, ◌==◌, if◌then◌else◌, Bool-cases, length,
}

-- A set, or a dictionary whose values are not read.
pub record Keys : Type 1 where
  pub Dict : Type 0
  pub create : Dict
  pub put : ℕ → Dict → Dict
  pub remove : ℕ → Dict → Dict
  pub contains : Dict → ℕ → Bool
  pub contains-create : (j : ℕ) → contains create j ≡ false
  pub contains-put :
      (k : ℕ) (d : Dict) (j : ℕ) → contains (put k d) j ≡ (if k == j then true else contains d j)
  pub contains-remove :
      (k : ℕ) (d : Dict) (j : ℕ)
      → contains (remove k d) j ≡ (if k == j then false else contains d j)

abbrev pub Elem : ℕ → List ℕ → Type 0
Elem x [] = ⊥
Elem x (y ∷ ys) = (x ≡ y) ⊎ Elem x ys

abbrev pub Within : List ℕ → List ℕ → Type 0
Within xs ys = (w : ℕ) → Elem w xs → Elem w ys

pub true-false : {b : Bool} → b ≡ true → b ≡ false → ⊥
true-false h k = cc

module _ (neighbors : ℕ → List ℕ) where
  -- A way of one edge or more.
  pub data Leads : ℕ → ℕ → Type 0 where
    edge : {a b : ℕ} → Elem b (neighbors a) → Leads a b
    via : {a b c : ℕ} → Elem b (neighbors a) → Leads b c → Leads a c

  Leads_trans : {a b c : ℕ} → Leads a b → Leads b c → Leads a c
  Leads_trans (edge h) l = via h l
  Leads_trans (via h k) l = via h (Leads_trans k l)

  -- A neighbour that leads back closes a cycle.
  pub closes :
      (n node : ℕ) → Elem n (neighbors node) → (n ≡ node) ⊎ Leads n node → (a : ℕ) × Leads a a
  closes n node at (inl e) = (n, subst (λ k. Leads k n) (sym e) (edge at))
  closes n node at (inr way) = (n, Leads_trans way (edge at))

  pub leads_on : (x n node : ℕ) → Elem n (neighbors node) → (x ≡ node) ⊎ Leads x node → Leads x n
  leads_on x n node at (inl e) = subst (λ k. Leads k n) (sym e) (edge at)
  leads_on x n node at (inr way) = Leads_trans way (edge at)

  -- The neighbours of each entry stand behind it.
  unfoldable pub Layered : List ℕ → Type 0
  Layered [] = Unit
  Layered (u ∷ order) = Within (neighbors u) order × Layered order

  Layered-next :
      (order : List ℕ) (u : ℕ) → Layered order → Elem u order → Within (neighbors u) order
  unfolding Layered
  Layered-next [] u l at w h = elim at [ ]
  Layered-next (v ∷ order) u l (inl e) w h = inr (l.0 w (subst (λ k. Elem w (neighbors k)) e h))
  Layered-next (v ∷ order) u l (inr at) w h = inr (Layered-next order u l.1 at w h)

  Leads-Layered :
      (order : List ℕ) {a b : ℕ} → Layered order → Elem a order → Leads a b → Elem b order
  Leads-Layered order {a} {b} l at (edge h) = Layered-next order a l at b h
  Leads-Layered order {a} l at (via {b = b} h k) =
      Leads-Layered order l (Layered-next order a l at b h) k

  -- A way from the first entry to itself passes through a later one.
  round :
      (order : List ℕ) (u a : ℕ)
      → Within (neighbors u) order × Layered order
      → a ≡ u
      → Leads a a
      → Elem a order
  round order u a l e (edge h) = l.0 a (subst (λ k. Elem a (neighbors k)) e h)
  round order u a l e (via {b = b} h k) =
      Leads-Layered order l.1 (l.0 b (subst (λ k. Elem b (neighbors k)) e h)) k

  -- An ordered graph has no cycle.
  pub Layered-acyclic : (order : List ℕ) (a : ℕ) → Layered order → Elem a order → Leads a a → ⊥
  unfolding Layered
  Layered-acyclic [] a l at way = at
  Layered-acyclic (u ∷ order) a l (inr at) way = Layered-acyclic order a l.1 at way
  Layered-acyclic (u ∷ order) a l (inl e) way =
      Layered-acyclic order a l.1 (round order u a l e way) way

-- No vertex leads to itself.
abbrev pub Acyclic : (ℕ → List ℕ) → List ℕ → Type 0
Acyclic neighbors vertices = (a : ℕ) → Elem a vertices → Leads neighbors a a → ⊥

module _ (K : Keys) where
  open K use {Dict, put, remove, contains, contains-put, contains-remove}

  -- How many vertices are not in the set.
  pub fresh : List ℕ → Dict → ℕ
  fresh [] d = 0
  fresh (v ∷ vertices) d = (if contains d v then 0 else 1) + fresh vertices d

  pub fresh_mono :
      (vertices : List ℕ) (d d' : Dict)
      → ((x : ℕ) → contains d x ≡ true → contains d' x ≡ true)
      → fresh vertices d' ≤ fresh vertices d
  unfolding fresh
  fresh_mono [] d d' more = omega arith
  fresh_mono (v ∷ vertices) d d' more =
      let rest = fresh_mono vertices d d' more in
      elim (Bool-cases (contains d v)) [
        | inl old ↦ rw (old, more v old) (omega (arith, rest))
        | inr new ↦ rw new (ground (arith, rest))
      ]

  pub put-here : (k : ℕ) (d : Dict) → contains (put k d) k ≡ true
  put-here k d = contains-put k d k ∙ ground arith

  pub put-before : (k : ℕ) (d : Dict) (j : ℕ) → contains d j ≡ true → contains (put k d) j ≡ true
  put-before k d j h = ground (arith, contains-put k d j)

  pub put-cases :
      (k : ℕ) (d : Dict) (j : ℕ) → contains (put k d) j ≡ true → (j ≡ k) ⊎ (contains d j ≡ true)
  put-cases k d j h = ground (arith, contains-put k d j)

  pub put-other : (k : ℕ) (d : Dict) (j : ℕ) → j ≢ k → contains (put k d) j ≡ contains d j
  put-other k d j h = ground (arith, contains-put k d j)

  pub remove-here : (k : ℕ) (d : Dict) → contains (remove k d) k ≡ false
  remove-here k d = ground (arith, contains-remove k d k)

  pub remove-other : (k : ℕ) (d : Dict) (j : ℕ) → j ≢ k → contains (remove k d) j ≡ contains d j
  remove-other k d j h = ground (arith, contains-remove k d j)

  pub remove_eq :
      (k : ℕ) (d d' : Dict) (j : ℕ)
      → contains d j ≡ contains d' j
      → contains (remove k d) j ≡ contains (remove k d') j
  remove_eq k d d' j h = ground (arith, contains-remove k d j, contains-remove k d' j)

  pub remove_put :
      (k : ℕ) (d : Dict) (j : ℕ)
      → contains d k ≡ false
      → contains (remove k (put k d)) j ≡ contains d j
  remove_put k d j h = ground (arith, contains-remove k (put k d) j, contains-put k d j)

  pub fresh_eq :
      (vertices : List ℕ) (d d' : Dict)
      → ((x : ℕ) → contains d' x ≡ contains d x)
      → fresh vertices d' ≤ fresh vertices d
  fresh_eq vertices d d' same = fresh_mono vertices d d' (λ x h. same x ∙ h)

  pub fresh-put :
      (vertices : List ℕ) (d : Dict) (k : ℕ)
      → Elem k vertices
      → contains d k ≡ false
      → fresh vertices (put k d) < fresh vertices d
  unfolding fresh
  fresh-put [] d k at new = elim at [ ]
  fresh-put (v ∷ vertices) d k (inl e) new =
      let rest = fresh_mono vertices d (put k d) (put-before k d) in
      ground (arith, rest, contains-put k d v)
  fresh-put (v ∷ vertices) d k (inr at) new =
      let rest = fresh-put vertices d k at new in ground (arith, rest, contains-put k d v)

  pub fresh-le : (vertices : List ℕ) (d : Dict) → fresh vertices d ≤ length vertices
  unfolding fresh
  fresh-le [] d = omega arith
  fresh-le (v ∷ vertices) d = ground (arith, fresh-le vertices d)
