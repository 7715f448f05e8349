-- ===== src/Deadlock/Drawing.antt =====
-- A graph as its points and lines, to run deadlock_demolition/libdrm.c with.
use system_programming_uiuc.Prelude.{
  ℕ, ◌≡◌, ◌≢◌, refl, sym, subst, ◌∙◌, ◌⊎◌, inl, inr, Bool, true, false, ◌&&◌, ◌||◌, List, [], ◌∷◌,
  arith, ◌==◌, if◌then◌else◌, Bool-cases, eq-true,
}
use system_programming_uiuc.Graph.{Keys, Elem}
use system_programming_uiuc.Deadlock.Drm.{Graphs}

-- A set as a test.
abbrev pub flags : Keys
flags = record {
  Dict = ℕ → Bool;
  create = λ j. false;
  put = λ k d j. if k == j then true else d j;
  remove = λ k d j. if k == j then false else d j;
  contains = λ d j. d j;
  contains-create = λ j. refl;
  contains-put = λ k d j. refl;
  contains-remove = λ k d j. refl;
}

pub record Drawn : Type 0 where
  pub points : List ℕ
  pub lines : List (ℕ × ℕ)

abbrev pub targets : ℕ → List (ℕ × ℕ) → List ℕ
targets x [] = []
targets x ((a, b) ∷ lines) = if a == x then b ∷ targets x lines else targets x lines

abbrev pub corners : List (ℕ × ℕ) → List ℕ → List ℕ
corners [] points = points
corners ((a, b) ∷ lines) points = a ∷ b ∷ corners lines points

abbrev pub cut : ℕ → ℕ → List (ℕ × ℕ) → List (ℕ × ℕ)
cut a b [] = []
cut a b ((c, d) ∷ lines) = if c == a && d == b then cut a b lines else (c, d) ∷ cut a b lines

abbrev pub member : ℕ → List ℕ → Bool
member x [] = false
member x (y ∷ ys) = y == x || member x ys

==→eq : (a b : ℕ) → (a == b) ≡ true → a ≡ b
==→eq a b h = ground arith

pub targets-cons :
    (a b x w : ℕ) (lines : List (ℕ × ℕ))
    → Elem w (targets x ((a, b) ∷ lines))
    → Elem w (targets x lines) ⊎ ((x ≡ a) × (w ≡ b))
targets-cons a b x w lines h = elim (Bool-cases (a == x)) [
  | inl here ↦
      elim (subst (λ q. Elem w (if q then b ∷ targets x lines else targets x lines)) here h) [
        | inl e ↦ inr (sym (==→eq a x here), e)
        | inr old ↦ inl old
      ]
  | inr past ↦ inl (subst (λ q. Elem w (if q then b ∷ targets x lines else targets x lines)) past h)
]

pub targets-ends :
    (x w : ℕ) (lines : List (ℕ × ℕ)) (points : List ℕ)
    → Elem w (targets x lines)
    → Elem x (corners lines points) × Elem w (corners lines points)
targets-ends x w [] points h = elim h [ ]
targets-ends x w ((a, b) ∷ lines) points h = elim (targets-cons a b x w lines h) [
  | inl old ↦ let rest = targets-ends x w lines points old in (inr (inr rest.0), inr (inr rest.1))
  | inr new ↦ (inl new.0, inr (inl new.1))
]

-- A line in front adds to the targets.
targets_more :
    (c d x w : ℕ) (lines : List (ℕ × ℕ))
    → Elem w (targets x lines)
    → Elem w (targets x ((c, d) ∷ lines))
targets_more c d x w lines h =
    elim (c == x) as (λ q. Elem w (if q then d ∷ targets x lines else targets x lines)) [
      | true ↦ inr h
      | false ↦ h
    ]

targets_new :
    (c d x w : ℕ) (lines : List (ℕ × ℕ)) → x ≡ c → w ≡ d → Elem w (targets x ((c, d) ∷ lines))
targets_new c d x w lines e k = rw (eq-true c x (sym e)) (inl k)

not_both : (a b c d : ℕ) → (c == a && d == b) ≡ false → c ≡ a → d ≡ b → ⊥
not_both a b c d h e k = ground arith

pub targets-cut :
    (a b x w : ℕ) (lines : List (ℕ × ℕ))
    → Elem w (targets x (cut a b lines))
    → Elem w (targets x lines) × (x ≡ a → w ≢ b)
targets-cut a b x w [] h = elim h [ ]
targets-cut a b x w ((c, d) ∷ lines) h = elim (Bool-cases (c == a && d == b)) [
  | inl same ↦
      let rest = targets-cut a b x w lines (
        subst (λ q. Elem w (targets x (if q then cut a b lines else (c, d) ∷ cut a b lines))) same
          h) in
      (targets_more c d x w lines rest.0, rest.1)
  | inr other ↦
      elim (targets-cons c d x w (cut a b lines) (
        subst (λ q. Elem w (targets x (if q then cut a b lines else (c, d) ∷ cut a b lines))) other
          h)) [
            | inl old ↦
                let rest = targets-cut a b x w lines old in
                (targets_more c d x w lines rest.0, rest.1)
            | inr (e, k) ↦ (
              targets_new c d x w lines e k,
              λ f l. not_both a b c d other (sym e ∙ f) (sym k ∙ l),
            )
          ]
]

abbrev pub drawings : Graphs
drawings = record {
  Graph = Drawn;
  vertices = λ g. corners g.lines g.points;
  neighbors = λ g x. targets x g.lines;
  contains_vertex = λ g v. member v (corners g.lines g.points);
  adjacent = λ g a b. member b (targets a g.lines);
  add_vertex = λ v g. record g { points = v ∷ g.points };
  add_edge = λ a b g. record g { lines = (a, b) ∷ g.lines };
  remove_edge = λ a b g. record { points = a ∷ b ∷ g.points; lines = cut a b g.lines };
  ends = λ g x w h. targets-ends x w g.lines g.points h;
  add_vertex-edges = λ v g x w h. h;
  add_edge-edges = λ a b g x w h. targets-cons a b x w g.lines h;
  remove_edge-edges = λ a b g x w h. targets-cut a b x w g.lines h;
}
