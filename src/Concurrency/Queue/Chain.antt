-- ===== src/Concurrency/Queue/Chain.antt =====
-- critical_concurrency/queue.c: the linked list in the heap, as the list of its cells.
pub use system_programming_uiuc.Prelude.{update-same, update-other}
use system_programming_uiuc.Prelude.{
  Bool-cases, inl, inr, false, ◌==◌, ℕ, ◌≡◌, refl, sym, ap, ◌∙◌, ◌≢◌, Option, none, some, List, [],
  ◌∷◌, ◌++◌, arith,
}
use system_programming_uiuc.Concurrency.Monitor.{update}
use system_programming_uiuc.Concurrency.Queue.{QueueNode, Heap}

-- The address of a node and its data.
abbrev pub Cell : Type 0
Cell = ℕ × ℕ

unfoldable pub first : List Cell → Option ℕ
first [] = none
first ((a, x) ∷ cs) = some a

unfoldable pub last_of : Cell → List Cell → Cell
last_of c [] = c
last_of c (d ∷ ds) = last_of d ds

unfoldable pub Apart : ℕ → List Cell → Type 0
Apart a [] = Unit
Apart a ((b, x) ∷ cs) = (a ≢ b) × Apart a cs

-- The cells stand in the heap, each node leads to the next one, and no address comes twice.
unfoldable pub Chain : Heap → List Cell → Type 0
unfolding first Apart
Chain h [] = Unit
Chain h ((a, x) ∷ cs) =
    (h a ≡ some (record { data_ptr = x; next = first cs })) × Apart a cs × Chain h cs

pub Chain-update :
    (h : Heap) (b : ℕ) (v : Option QueueNode) (cs : List Cell)
    → Apart b cs
    → Chain h cs
    → Chain (update h b v) cs
unfolding Chain
Chain-update h b v [] ap_b ch = tt
Chain-update h b v ((a, x) ∷ cs) ap_b ch =
    (update-other h b a v ap_b.0 ∙ ch.0, ch.1, Chain-update h b v cs ap_b.1 ch.2)

none-some : {A : Type 0} {x : A} → none ≡ some x → ⊥
none-some h = cc

-- A free address is none of the list's.
pub free-Apart : (h : Heap) (b : ℕ) (cs : List Cell) → h b ≡ none → Chain h cs → Apart b cs
unfolding Chain
free-Apart h b [] free ch = tt
free-Apart h b ((a, x) ∷ cs) free ch =
    (λ same. none-some (sym free ∙ ap h same ∙ ch.0), free-Apart h b cs free ch.2)

pub last-lookup :
    (h : Heap) (c : Cell) (cs : List Cell)
    → Chain h (c ∷ cs)
    → h (last_of c cs).0 ≡ some (record { data_ptr = (last_of c cs).1; next = none })
unfolding Chain last_of first
last-lookup h c [] ch = ch.0
last-lookup h c (d ∷ ds) ch = last-lookup h d ds ch.2

pub last-Apart : (a : ℕ) (c : Cell) (cs : List Cell) → Apart a (c ∷ cs) → a ≢ (last_of c cs).0
unfolding Apart last_of
last-Apart a c [] ne = ne.0
last-Apart a c (d ∷ ds) ne = last-Apart a d ds ne.1

Apart-append : (a b x : ℕ) (cs : List Cell) → Apart a cs → a ≢ b → Apart a (cs ++ (b, x) ∷ [])
unfolding Apart
Apart-append a b x [] ne new = (new, tt)
Apart-append a b x (c ∷ cs) ne new = (ne.0, Apart-append a b x cs ne.1 new)

-- The last node's `next` is set to a node that stands alone: the list is longer by one.
pub Chain-append :
    (h : Heap) (b x : ℕ) (c : Cell) (cs : List Cell)
    → Chain h (c ∷ cs)
    → Apart b (c ∷ cs)
    → h b ≡ some (record { data_ptr = x; next = none })
    → Chain
        (update h (last_of c cs).0 (some (record { data_ptr = (last_of c cs).1; next = some b })))
        (c ∷ cs ++ (b, x) ∷ [])
unfolding Chain last_of first Apart
Chain-append h b x c [] ch new at = (
  update-same h c.0 _,
  (λ same. new.0 (sym same), tt),
  (update-other h c.0 b _ (λ same. new.0 (sym same)) ∙ at, tt, tt),
)
Chain-append h b x c (d ∷ ds) ch new at = (
  update-other h (last_of d ds).0 c.0 _ (λ same. last-Apart c.0 d ds ch.1 (sym same)) ∙ ch.0,
  Apart-append c.0 b x (d ∷ ds) ch.1 (λ same. new.0 (sym same)),
  Chain-append h b x d ds ch.2 new.1 at,
)

pub last-append : (c : Cell) (cs : List Cell) (d : Cell) → last_of c (cs ++ d ∷ []) ≡ d
unfolding last_of
last-append c [] d = refl
last-append c (e ∷ cs) d = last-append e cs d

pub Apart-split :
    (a : ℕ) (cs : List Cell) (d : Cell) → Apart a (cs ++ d ∷ []) → Apart a cs × (a ≢ d.0)
unfolding Apart
Apart-split a [] d ne = (tt, ne.0)
Apart-split a (c ∷ cs) d ne = let rest = Apart-split a cs d ne.1 in ((ne.0, rest.0), rest.1)

differ : (b a : ℕ) → (b == a) ≡ false → b ≢ a
differ b a h = ground arith

-- What is free apart from the list's cells stays free when a cell joins.
pub only-append :
    (h : Heap) (b : ℕ) (v w : Option QueueNode) (c : Cell) (cs : List Cell) (d : Cell)
    → b ≡ d.0
    → ((a : ℕ) → Apart a (c ∷ cs) → h a ≡ none)
    → (a : ℕ) → Apart a (c ∷ cs ++ d ∷ [])
    → update (update h b v) (last_of c cs).0 w a ≡ none
only-append h b v w c cs d same only a ne =
    let split = Apart-split a (c ∷ cs) d ne in
    update-other (update h b v) (last_of c cs).0 a w (λ e. last-Apart a c cs split.0 (sym e))
    ∙ update-other h b a v (λ e. split.1 (sym e ∙ same))
    ∙ only a split.0

pub only-free :
    (h : Heap) (b x : ℕ) (cs : List Cell)
    → ((a : ℕ) → Apart a ((b, x) ∷ cs) → h a ≡ none)
    → (a : ℕ) → Apart a cs
    → update h b none a ≡ none
unfolding Apart
only-free h b x cs only a ne = elim (Bool-cases (b == a)) [
  | inl same ↦ rw same refl
  | inr other ↦ rw other (only a (λ e. differ b a other (sym e), ne))
]
