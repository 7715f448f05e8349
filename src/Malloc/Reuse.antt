-- ===== src/Malloc/Reuse.antt =====
-- malloc/alloc.c: malloc from a free list.
use system_programming_uiuc.Prelude.{
  ℕ, ◌+◌, ◌%◌, ◌≤◌, ◌<◌, ◌≡◌, ◌≢◌, refl, sym, ap, subst, ◌∙◌, ◌⊎◌, inl, inr, true, false, Option,
  none, some, List, ◌∷◌, ◌++◌, arith, leb, ◌==◌, if◌then◌else◌, some_inj, Bool-cases, Option-cases,
  length,
}
use system_programming_uiuc.Prelude.Outcome.{Outcome, done, ◌>>=◌}
use system_programming_uiuc.Malloc.{
  word, meta_size, search_class, Meta, Arena, update, get_index, set_free, first_fit, best_fit,
  first_fit_from, best_fit_from,
}
use system_programming_uiuc.Malloc.Links.{
  Headers, Apart, Distinct, Seg, class-Apart, Apart-append, Seg-split, Distinct-middle,
}
use system_programming_uiuc.Malloc.Patches.{
  patch, patched, patch-at, patch-other, shape, SameBlocks,
}
use system_programming_uiuc.Malloc.Lists.{Lists}
use system_programming_uiuc.Malloc.Remove.{removeblock-Lists}
use system_programming_uiuc.Malloc.Fits.{Small, AtLeast, Found, first_fit-first}
use system_programming_uiuc.Malloc.Best.{best_fit-best}
use system_programming_uiuc.Malloc.Blocks.{behind, block_splitting, Grants}
use system_programming_uiuc.Malloc.Calls.{Answer, pick, reuse, extend, tidy, malloc}
use system_programming_uiuc.Malloc.Live.{marked, set_free-patch, Lists-patch, block_splitting-live}
use system_programming_uiuc.Malloc.Limits.{malloc-pick, pick-none}

-- The block of the list that `malloc` takes: large enough, and the first such block in the classes
-- below 5, one of the smallest such blocks in the others.
pub record Taken (h : Headers) (size c : ℕ) (xs before behind : List ℕ) : Type 0 where
  pub bytes : ℕ
  pub found : Found h size c bytes xs before behind
  pub first : get_index size < search_class → Small h size before
  pub best : search_class ≤ get_index size → AtLeast h size bytes xs

pick-some :
    (size : ℕ) (a : Arena) (h : ℕ)
    → a.heads (get_index size) ≡ some h
    → pick size a
      ≡ (if leb search_class (get_index size) then best_fit size a else first_fit size a)
unfolding pick
pick-some size a h at =
    ap
      (λ (q : Option ℕ). elim q as (λ k. Outcome (Option ℕ)) [
        | none ↦ done none
        | some k ↦ if leb search_class (get_index size) then best_fit size a else first_fit size a
      ])
      at

best-empty : (size : ℕ) (a : Arena) → a.heads (get_index size) ≡ none → best_fit size a ≡ done none
unfolding best_fit best_fit_from
best-empty size a empty = rw (empty, best_fit_from) refl

first-empty :
    (size : ℕ) (a : Arena) → a.heads (get_index size) ≡ none → first_fit size a ≡ done none
unfolding first_fit first_fit_from
first-empty size a empty = rw (empty, first_fit_from) refl

pick-large :
    (size : ℕ) (a : Arena)
    → leb search_class (get_index size) ≡ true
    → pick size a ≡ best_fit size a
pick-large size a large = elim (Option-cases (a.heads (get_index size))) [
  | inl empty ↦ pick-none size a empty ∙ sym (best-empty size a empty)
  | inr (h, at) ↦
      pick-some size a h at ∙ ap (λ t. if t then best_fit size a else first_fit size a) large
]

pick-less :
    (size : ℕ) (a : Arena)
    → leb search_class (get_index size) ≡ false
    → pick size a ≡ first_fit size a
pick-less size a less = elim (Option-cases (a.heads (get_index size))) [
  | inl empty ↦ pick-none size a empty ∙ sym (first-empty size a empty)
  | inr (h, at) ↦
      pick-some size a h at ∙ ap (λ t. if t then best_fit size a else first_fit size a) less
]

pick-cases :
    (size : ℕ) (a : Arena) (lists : ℕ → List ℕ)
    → Lists a lists
    → length (lists (get_index size)) ≤ a.brk
    → ((pick size a ≡ done none) × Small a.headers size (lists (get_index size)))
      ⊎ ((c : ℕ) × (before : List ℕ) × (behind : List ℕ) × (pick size a ≡ done (some c))
          × Taken a.headers size c (lists (get_index size)) before behind)
pick-cases size a lists l short = elim (Bool-cases (leb search_class (get_index size))) [
  | inl large ↦ elim (best_fit-best size a lists l short) [
    | inl (e, small) ↦ inl (pick-large size a large ∙ e, small)
    | inr (c, bytes, before, behind, e, found, least) ↦ inr (
      c,
      before,
      behind,
      pick-large size a large ∙ e,
      record {
        bytes = bytes;
        found = found;
        first = λ less. absurd (ground (arith, large));
        best = λ more. least;
      },
    )
  ]
  | inr less ↦ elim (first_fit-first size a lists l short) [
    | inl (e, small) ↦ inl (pick-less size a less ∙ e, small)
    | inr (c, bytes, before, behind, e, found, small) ↦ inr (
      c,
      before,
      behind,
      pick-less size a less ∙ e,
      record {
        bytes = bytes;
        found = found;
        first = λ smaller. small;
        best = λ more. absurd (ground (arith, less));
      },
    )
  ]
]

differ : (i j : ℕ) → (i == j) ≡ false → i ≢ j
differ i j h = ground arith

-- The payload of a block.
abbrev pub behind_of : ℕ → ℕ
behind_of c = (c + meta_size + 0) % word

abbrev handed : ℕ → Arena → Outcome Answer
handed c a = done (some (behind_of c), a)

tidy-low : (grants : Grants) (i : ℕ) (a : Arena) → i < 15 → tidy grants i a ≡ done a
unfolding tidy
tidy-low grants i a low = ground arith

-- A block that left its list is in none.
pub out-of-Lists :
    (a a' : Arena) (lists : ℕ → List ℕ) (i c : ℕ) (m : Meta) (before behind : List ℕ)
    → Lists a lists
    → Lists a' (update lists i (before ++ behind))
    → lists i ≡ before ++ c ∷ behind
    → a'.headers c ≡ some m
    → get_index m.size ≡ i
    → (j : ℕ) → Apart c (update lists i (before ++ behind) j)
out-of-Lists a a' lists i c m before behind l l' e at class j = elim (Bool-cases (i == j)) [
  | inl here ↦ rw here (
      let apart = Distinct-middle before c behind (subst Distinct e (l.distinct i)) in
      Apart-append c before behind apart.0 apart.1)
  | inr other ↦
      class-Apart a'.headers j c m none (update lists i (before ++ behind) j) none at
        (λ e'. differ i j other (sym class ∙ e')) (l'.linked j)
]

pub shape-some :
    (v : Option Meta) (m : Meta)
    → shape (some m) ≡ shape v
    → (k : Meta) × (v ≡ some k) × (k.size ≡ m.size) × (k.is_free ≡ m.is_free)
unfolding shape
shape-some none m e = cc
shape-some (some k) m e = (k, refl, cc, cc)

pub class-of :
    (h : Headers) (i c : ℕ) (m : Meta) (before behind : List ℕ)
    → Seg h i none (before ++ c ∷ behind) none
    → h c ≡ some m
    → get_index m.size ≡ i
unfolding Seg
class-of h i c m before behind s at =
    let node = (Seg-split h i none before (c ∷ behind) none s).1.0 in
    ap (λ (k : Meta). get_index k.size) (some_inj (sym at ∙ node.1)) ∙ node.2.of_class

marked-shape :
    (h' h : Headers) (c : ℕ) (k m : Meta)
    → h' c ≡ some (marked false k)
    → h c ≡ some m
    → k.size ≡ m.size
    → shape (h' c) ≡ shape (patched (marked false) (h c))
unfolding shape patched
marked-shape h' h c k m at' at e =
    ap shape at'
    ∙ ap (λ (n : ℕ). some (n, false)) e
    ∙ sym (ap (λ v. shape (patched (marked false) v)) at)

-- What `malloc` hands out: the block leaves its list and is marked as in use, with all its bytes;
-- no other block changes its size or mark, and no other list and not the break changes.
pub record Handed (a a' : Arena) (lists : ℕ → List ℕ) (i c : ℕ) (before behind : List ℕ)
    : Type 0 where
  pub lists_kept : Lists a' (update lists i (before ++ behind))
  pub block : shape (a'.headers c) ≡ shape (patched (marked false) (a.headers c))
  pub others : (p : ℕ) → c ≢ p → shape (a'.headers p) ≡ shape (a.headers p)
  pub brk_kept : a'.brk ≡ a.brk

reuse-Handed :
    (size c i : ℕ) (a : Arena) (lists : ℕ → List ℕ) (m : Meta) (before behind : List ℕ)
    → Lists a lists
    → lists i ≡ before ++ c ∷ behind
    → a.headers c ≡ some m
    → get_index m.size ≡ i
    → (a' : Arena) × (reuse c size a ≡ done (some (behind_of c), a'))
      × Handed a a' lists i c before behind
unfolding reuse SameBlocks behind
reuse-Handed size c i a lists m before behind l e at class =
    let (a₁, run, l₁, same, brk₁) = removeblock-Lists a lists i c before behind l e in
    let (k, at₁, size_k, free_k) = shape-some (a₁.headers c) m (sym (ap shape at) ∙ same c) in
    let apart =
      out-of-Lists a a₁ lists i c k before behind l l₁ e at₁ (ap get_index size_k ∙ class) in
    let a₂ : Arena = record a₁ { headers = patch (marked false) c a₁.headers } in
    let at₂ = patch-at (marked false) c a₁.headers k at₁ in
    (
      a₂,
      ap
            (λ (o : Outcome Arena). o >>= λ a'. set_free c false a' >>= λ a''.
              block_splitting (some c) size a'' >>= λ a'''. handed c a''')
            run
          ∙ ap
              (λ (o : Outcome Arena).
                o >>= λ a''. block_splitting (some c) size a'' >>= λ a'''. handed c a''')
              (set_free-patch c false a₁ k at₁)
          ∙ ap (λ (o : Outcome Arena). o >>= λ a'''. handed c a''')
              (block_splitting-live c size a₂ (marked false k) at₂ refl),
      record {
        lists_kept = Lists-patch a₁ (update lists i (before ++ behind)) (marked false) c apart l₁;
        block = marked-shape a₂.headers a.headers c k m at₂ at size_k;
        others = λ p ne. ap shape (patch-other (marked false) c p a₁.headers ne) ∙ sym (same p);
        brk_kept = brk₁;
      },
    )

-- For sizes of the classes 0 to 14, which need no tidying, and lists not longer than the break:
-- `malloc` takes a block of its class if one is large enough (the first one in the small classes,
-- a smallest one in the others) and hands it out whole; else it extends the heap.
pub malloc-Handed :
    (grants : Grants) (size : ℕ) (a : Arena) (lists : ℕ → List ℕ)
    → Lists a lists
    → 0 < size
    → get_index size < 15
    → length (lists (get_index size)) ≤ a.brk
    → ((malloc grants size a ≡ extend grants size a)
        × Small a.headers size (lists (get_index size)))
      ⊎ ((c : ℕ) × (before : List ℕ) × (behind : List ℕ) × Taken a.headers size c
            (lists (get_index size))
            before
            behind
          × (a' : Arena) × (malloc grants size a ≡ done (some (behind_of c), a'))
          × Handed a a' lists (get_index size) c before behind)
malloc-Handed grants size a lists l pos low short =
    let tidied = tidy-low grants (get_index size) a low in
    elim (pick-cases size a lists l short) [
      | inl (e, small) ↦ inl (malloc-pick grants size a none pos tidied e, small)
      | inr (c, before, behind, e, taken) ↦
          let (a', run, handed) =
            reuse-Handed size c (get_index size) a lists taken.found.meta before behind l
              taken.found.split taken.found.at
              (class-of a.headers (get_index size) c taken.found.meta before behind
                (subst (λ xs. Seg a.headers (get_index size) none xs none) taken.found.split
                  (l.linked (get_index size)))
                taken.found.at) in
          inr (
            c,
            before,
            behind,
            taken,
            a',
            malloc-pick grants size a (some c) pos tidied e ∙ run,
            handed,
          )
    ]
