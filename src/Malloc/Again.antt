-- ===== src/Malloc/Again.antt =====
-- malloc/alloc.c: malloc after free.
use system_programming_uiuc.Prelude.{
  ℕ, ◌≤◌, ◌<◌, ◌≡◌, refl, sym, ap, subst, ◌∙◌, inl, inr, Bool, true, false, Option, none, some,
  List, [], ◌∷◌, ◌++◌, arith, length,
}
use system_programming_uiuc.Prelude.Outcome.{done}
use system_programming_uiuc.Malloc.{word, meta_size, search_class, Meta, Arena, update, get_index}
use system_programming_uiuc.Malloc.Links.{Headers}
use system_programming_uiuc.Malloc.Patches.{shape}
use system_programming_uiuc.Malloc.Lists.{Lists}
use system_programming_uiuc.Malloc.Fits.{Small}
use system_programming_uiuc.Malloc.Blocks.{Grants}
use system_programming_uiuc.Malloc.Calls.{meta_of, free, malloc}
use system_programming_uiuc.Malloc.Reuse.{behind_of, malloc-Handed}
use system_programming_uiuc.Malloc.Free.{Alone, free-Freed}

size-shape :
    (v : Option Meta) (n : ℕ) (f : Bool)
    → shape v ≡ some (n, f)
    → (m : Meta) × (v ≡ some m) × (m.size ≡ n)
unfolding shape
size-shape none n f e = cc
size-shape (some m) n f e = (m, refl, cc)

-- The first block of the list is large enough, so the search ends there.
Small-front :
    (h : Headers) (size c : ℕ) (xs : List ℕ) (m : Meta)
    → h c ≡ some m
    → size ≤ m.size
    → Small h size (c ∷ xs)
    → ⊥
unfolding Small
Small-front h size c xs m at enough small = omega (arith, small.0 m at, enough)

cons_head : {x y : ℕ} {xs ys : List ℕ} → x ∷ xs ≡ y ∷ ys → x ≡ y
cons_head h = cc

update-here : (lists : ℕ → List ℕ) (i : ℕ) (xs : List ℕ) → update lists i xs i ≡ xs
update-here lists i xs = ground arith

back : (ptr : ℕ) → meta_size ≤ ptr → ptr < word → behind_of (meta_of ptr) ≡ ptr
back ptr high below = omega arith

front :
    (h : Headers) (size c d : ℕ) (xs before behind : List ℕ) (m : Meta)
    → h c ≡ some m
    → size ≤ m.size
    → c ∷ xs ≡ before ++ d ∷ behind
    → Small h size before
    → d ≡ c
front h size c d xs [] behind m at enough e small = sym (cons_head e)
front h size c d xs (y ∷ before) behind m at enough e small =
    absurd (Small-front h size y before m (ap h (sym (cons_head e)) ∙ at) enough small)

-- `free` of a block in use of one of the classes 0 to 4, with a next one in use or beyond the break,
-- and then `malloc` of a size of that class that fits: the same pointer comes back.
pub malloc-free :
    (grants : Grants) (ptr size : ℕ) (a : Arena) (lists : ℕ → List ℕ) (m : Meta)
    → Lists a lists
    → meta_size ≤ ptr
    → ptr < a.brk
    → a.brk ≤ word
    → a.headers (meta_of ptr) ≡ some m
    → m.is_free ≡ false
    → Alone (meta_of ptr) m a
    → get_index m.size < search_class
    → get_index size ≡ get_index m.size
    → 0 < size
    → size ≤ m.size
    → length (lists (get_index m.size)) < a.brk
    → (a' : Arena) × (a'' : Arena) × (free grants (some ptr) a ≡ done a')
      × (malloc grants size a' ≡ done (some ptr, a''))
malloc-free grants ptr size a lists m l high below top at live alone low class pos enough short =
    let c = meta_of ptr in
    let i = get_index m.size in
    let (a', run, freed) =
      free-Freed grants ptr a lists m l below at live alone (inl (omega (arith, low))) in
    let (m', at', size') = size-shape (a'.headers c) m.size true freed.block in
    let fits : size ≤ m'.size = omega (arith, enough, size') in
    let lists' = update lists i (c ∷ lists i) in
    let here = update-here lists i (c ∷ lists i) in
    let here' : lists' (get_index size) ≡ c ∷ lists i = ap lists' class ∙ here in
    elim (malloc-Handed grants size a' lists' freed.lists_kept pos (omega (arith, low, class))
      (omega (arith, ap length here', short, freed.brk_kept))) [
        | inl (e, small) ↦ absurd (
            Small-front a'.headers size c (lists i) m' at' fits
              (subst (Small a'.headers size) here' small))
        | inr (d, before, behind, taken, a'', e, handed) ↦
            let same =
              front a'.headers size c d (lists i) before behind m' at' fits
                (sym here' ∙ taken.found.split) (taken.first (omega (arith, low, class))) in
            (
              a',
              a'',
              run,
              e
                  ∙ ap (λ q. done (some q, a''))
                      (ap behind_of same ∙ back ptr high (omega (arith, below, top))),
            )
      ]
