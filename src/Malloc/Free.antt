-- ===== src/Malloc/Free.antt =====
-- malloc/alloc.c: free, with and without combining the block with the next one.
use system_programming_uiuc.Prelude.{
  ℕ, ◌+◌, ◌%◌, ◌≤◌, ◌<◌, ◌≡◌, ◌≢◌, refl, sym, ap, ◌∙◌, ◌⊎◌, inl, inr, true, false, none, some, List,
  ◌∷◌, arith,
}
use system_programming_uiuc.Prelude.Outcome.{Outcome, done, ◌>>=◌}
use system_programming_uiuc.Malloc.{
  word, free_class, Meta, Arena, update, get_index, header, set_free, addblock,
}
use system_programming_uiuc.Malloc.Links.{live-Apart}
use system_programming_uiuc.Malloc.Patches.{
  header-at, patch, patch-at, patch-other, shape, SameBlocks,
}
use system_programming_uiuc.Malloc.Lists.{Lists}
use system_programming_uiuc.Malloc.Add.{addblock-Lists}
use system_programming_uiuc.Malloc.Blocks.{behind, combine_next, Grants}
use system_programming_uiuc.Malloc.Calls.{meta_of, retire, free_block, free}
use system_programming_uiuc.Malloc.Live.{marked, set_free-patch, Lists-patch}

-- The block does not go back to the system.
abbrev pub Stays : ℕ → Meta → Arena → Type 0
Stays ptr m a = (get_index m.size ≤ free_class) ⊎ ((ptr + m.size) % word < a.brk)

-- The block is in the free list of its class, in front, and all else is as it was.
pub record Freed (a a' : Arena) (lists : ℕ → List ℕ) (c size : ℕ) : Type 0 where
  pub lists_kept : Lists a' (update lists (get_index size) (c ∷ lists (get_index size)))
  pub block : shape (a'.headers c) ≡ some (size, true)
  pub others : (p : ℕ) → c ≢ p → shape (a'.headers p) ≡ shape (a.headers p)
  pub brk_kept : a'.brk ≡ a.brk

retire-step :
    (grants : Grants) (ptr c : ℕ) (a : Arena) (m : Meta)
    → a.headers c ≡ some m
    → Stays ptr m a
    → retire grants ptr c a ≡ (set_free c true a >>= λ a'. addblock (some c) a')
unfolding retire
retire-step grants ptr c a m at stays = ground (arith, header-at c a m at)

pub retire-Freed :
    (grants : Grants) (ptr c : ℕ) (a : Arena) (lists : ℕ → List ℕ) (m : Meta)
    → Lists a lists
    → a.headers c ≡ some m
    → m.is_free ≡ false
    → Stays ptr m a
    → (a' : Arena) × (retire grants ptr c a ≡ done a') × Freed a a' lists c m.size
unfolding SameBlocks shape
retire-Freed grants ptr c a lists m l at live stays =
    let apart = λ (j : ℕ). live-Apart a.headers j c m none (lists j) none at live (l.linked j) in
    let a₁ : Arena = record a { headers = patch (marked true) c a.headers } in
    let at₁ = patch-at (marked true) c a.headers m at in
    let (a₂, run, l₂, same, brk₂) =
      addblock-Lists a₁ lists c (marked true m) (Lists-patch a lists (marked true) c apart l) at₁
        refl (apart (get_index m.size)) in
    (
      a₂,
      retire-step grants ptr c a m at stays
          ∙ ap (λ (o : Outcome Arena). o >>= λ a'. addblock (some c) a')
              (set_free-patch c true a m at)
          ∙ run,
      record {
        lists_kept = l₂;
        block = sym (same c) ∙ ap shape at₁;
        others = λ p ne. sym (same p) ∙ ap shape (patch-other (marked true) c p a.headers ne);
        brk_kept = brk₂;
      },
    )

-- `combine_next` leaves the block alone: the next one is beyond the break or in use.
abbrev pub Alone : ℕ → Meta → Arena → Type 0
Alone c m a =
    (a.brk ≤ behind c m.size)
    ⊎ ((n : Meta) × (a.headers (behind c m.size) ≡ some n) × (n.is_free ≡ false))

header-live :
    (c : ℕ) (a : Arena) (m : Meta)
    → Alone c m a
    → (a.brk ≤ behind c m.size)
      ⊎ ((n : Meta) × (header (behind c m.size) a ≡ done n) × (n.is_free ≡ false))
header-live c a m (inl e) = inl e
header-live c a m (inr (n, at, live)) = inr (n, header-at (behind c m.size) a n at, live)

combine_next-Alone :
    (c : ℕ) (a : Arena) (m : Meta) → a.headers c ≡ some m → Alone c m a → combine_next c a ≡ done a
unfolding combine_next
combine_next-Alone c a m at alone = ground (arith, header-at c a m at, header-live c a m alone)

pub free-block :
    (grants : Grants) (ptr : ℕ) (a : Arena) (m : Meta)
    → ptr < a.brk
    → a.headers (meta_of ptr) ≡ some m
    → m.is_free ≡ false
    → free grants (some ptr) a
      ≡ (combine_next (meta_of ptr) a >>= λ a'. retire grants ptr (meta_of ptr) a')
unfolding free free_block
free-block grants ptr a m below at live = ground (arith, header-at (meta_of ptr) a m at)

-- `free` of a block in use, whose next one is beyond the break or in use, and that does not go back
-- to the system: the block comes to the front of the list of its class, marked free, with its size;
-- no other block, no other list and not the break changes.
pub free-Freed :
    (grants : Grants) (ptr : ℕ) (a : Arena) (lists : ℕ → List ℕ) (m : Meta)
    → Lists a lists
    → ptr < a.brk
    → a.headers (meta_of ptr) ≡ some m
    → m.is_free ≡ false
    → Alone (meta_of ptr) m a
    → Stays ptr m a
    → (a' : Arena) × (free grants (some ptr) a ≡ done a') × Freed a a' lists (meta_of ptr) m.size
free-Freed grants ptr a lists m l below at live alone stays =
    let (a', run, freed) = retire-Freed grants ptr (meta_of ptr) a lists m l at live stays in
    (
      a',
      free-block grants ptr a m below at live
          ∙ ap (λ (o : Outcome Arena). o >>= λ b. retire grants ptr (meta_of ptr) b)
              (combine_next-Alone (meta_of ptr) a m at alone)
          ∙ run,
      freed,
    )
