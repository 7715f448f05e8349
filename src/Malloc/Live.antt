-- ===== src/Malloc/Live.antt =====
-- malloc/alloc.c: the mark of a block, and the calls that leave a block in use as it is.
use system_programming_uiuc.Prelude.{
  ℕ, ◌≤◌, ◌<◌, ◌≡◌, refl, sym, ap, ◌∙◌, Bool, false, Option, none, some, List, arith,
}
use system_programming_uiuc.Prelude.Outcome.{Outcome, done, ◌>>=◌}
use system_programming_uiuc.Malloc.{Meta, Arena, update, put, set_free}
use system_programming_uiuc.Malloc.Links.{Headers, Apart}
use system_programming_uiuc.Malloc.Patches.{
  header-at, patch, patched, Seg-patch, shape, SameBlocks, update-Same,
}
use system_programming_uiuc.Malloc.Lists.{Lists}
use system_programming_uiuc.Malloc.Blocks.{block_splitting, Grants}
use system_programming_uiuc.Malloc.Calls.{Answer, shrink_block, realloc, meta_of}

abbrev pub marked : Bool → Meta → Meta
marked f m = record m { is_free = f }

pub set_free-patch :
    (p : ℕ) (f : Bool) (a : Arena) (m : Meta)
    → a.headers p ≡ some m
    → set_free p f a ≡ done (record a { headers = patch (marked f) p a.headers })
unfolding set_free put patch patched
set_free-patch p f a m at =
    ap (λ (o : Outcome Meta). o >>= λ k. done (put p (marked f k) a)) (header-at p a m at)
    ∙ ap (λ v. done (record a { headers = update a.headers p v }))
        (sym (ap (patched (marked f)) at))

-- A change of a header that no list holds.
pub Lists-patch :
    (a : Arena) (lists : ℕ → List ℕ) (f : Meta → Meta) (p : ℕ)
    → ((j : ℕ) → Apart p (lists j))
    → Lists a lists
    → Lists (record a { headers = patch f p a.headers }) lists
Lists-patch a lists f p ne l = record {
  head = l.head;
  linked = λ j. Seg-patch f p a.headers j none (lists j) none (ne j) (l.linked j);
  distinct = l.distinct;
}

-- `block_splitting` returns at once for a block that is not marked free.
pub block_splitting-live :
    (p size : ℕ) (a : Arena) (m : Meta)
    → a.headers p ≡ some m
    → m.is_free ≡ false
    → block_splitting (some p) size a ≡ done a
unfolding block_splitting
block_splitting-live p size a m at live = rw (header-at p a m at, live, block_splitting) refl

realloc-to-shrink :
    (grants : Grants) (ptr size : ℕ) (a : Arena) (m : Meta)
    → 0 < size
    → a.headers (meta_of ptr) ≡ some m
    → size ≤ m.size
    → realloc grants (some ptr) size a ≡ shrink_block ptr (meta_of ptr) size a
unfolding realloc
realloc-to-shrink grants ptr size a m pos at le = ground (arith, header-at (meta_of ptr) a m at)

abbrev answer : ℕ → Arena → Outcome Answer
answer ptr a = done (some ptr, a)

marked-shape :
    (v : Option Meta) (m : Meta)
    → v ≡ some m
    → m.is_free ≡ false
    → shape (patched (marked false) v) ≡ shape v
unfolding shape patched
marked-shape v m at live = rw at (ap (λ f. some (m.size, f)) (sym live))

marked-Same :
    (p : ℕ) (h : Headers) (m : Meta)
    → h p ≡ some m
    → m.is_free ≡ false
    → SameBlocks h (patch (marked false) p h)
unfolding patch SameBlocks
marked-Same p h m at live =
    update-Same h p (patched (marked false) (h p)) (marked-shape (h p) m at live)

-- `realloc` of a block in use to a smaller size that is not 0 returns the same pointer; every block
-- keeps its size and its mark, and no list and not the break changes: nothing is split off.
pub realloc-to_less :
    (grants : Grants) (ptr size : ℕ) (a : Arena) (m : Meta)
    → 0 < size
    → a.headers (meta_of ptr) ≡ some m
    → m.is_free ≡ false
    → size ≤ m.size
    → (a' : Arena) × (realloc grants (some ptr) size a ≡ done (some ptr, a'))
      × SameBlocks a.headers a'.headers
      × (a'.heads ≡ a.heads)
      × (a'.brk ≡ a.brk)
unfolding shrink_block
realloc-to_less grants ptr size a m pos at live le = (
  record a { headers = patch (marked false) (meta_of ptr) a.headers },
  realloc-to-shrink grants ptr size a m pos at le
      ∙ ap
          (λ (o : Outcome Arena).
            o >>= λ a'. set_free (meta_of ptr) false a' >>= λ a''. answer ptr a'')
          (block_splitting-live (meta_of ptr) size a m at live)
      ∙ ap (λ (o : Outcome Arena). o >>= λ a''. answer ptr a'')
          (set_free-patch (meta_of ptr) false a m at),
  marked-Same (meta_of ptr) a.headers m at live,
  refl,
  refl,
)
