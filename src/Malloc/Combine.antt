-- ===== src/Malloc/Combine.antt =====
-- malloc/alloc.c: free of a block in front of a free one.
use system_programming_uiuc.Prelude.{
  ℕ, ◌+◌, ◌%◌, ◌≤◌, ◌<◌, ◌≡◌, ◌≢◌, sym, ap, subst, ◌∙◌, inl, inr, true, false, none, some, List,
  ◌∷◌, ◌++◌, arith, some_inj,
}
use system_programming_uiuc.Prelude.Outcome.{Outcome, done, ◌>>=◌}
use system_programming_uiuc.Malloc.{
  word, meta_size, free_class, Meta, Arena, update, get_index, header, put, set_free,
}
use system_programming_uiuc.Malloc.Links.{Headers, Seg, live-Apart}
use system_programming_uiuc.Malloc.Patches.{
  header-at, patch, patched, patch-at, patch-other, shape, SameBlocks,
}
use system_programming_uiuc.Malloc.Lists.{Lists}
use system_programming_uiuc.Malloc.Remove.{removeblock-Lists}
use system_programming_uiuc.Malloc.Blocks.{behind, set_size, absorb, combine_next, Grants}
use system_programming_uiuc.Malloc.Calls.{meta_of, retire, free}
use system_programming_uiuc.Malloc.Live.{marked, set_free-patch, Lists-patch}
use system_programming_uiuc.Malloc.Reuse.{out-of-Lists, shape-some, class-of}
use system_programming_uiuc.Malloc.Free.{Stays, Freed, retire-Freed, free-block}

-- The next block has left its list and is a part of this one.
pub record Combined (a a' : Arena) (lists : ℕ → List ℕ) (k c : ℕ) (rest : List ℕ) (size : ℕ)
    : Type 0 where
  pub lists_kept : Lists a' (update lists k rest)
  pub block : (m : Meta) × (a'.headers c ≡ some m) × (m.size ≡ size) × (m.is_free ≡ false)
  pub brk_kept : a'.brk ≡ a.brk

combine-absorb :
    (c : ℕ) (a : Arena) (m nm : Meta)
    → a.headers c ≡ some m
    → behind c m.size < a.brk
    → a.headers (behind c m.size) ≡ some nm
    → nm.is_free ≡ true
    → combine_next c a ≡ absorb c (behind c m.size) a
unfolding combine_next
combine-absorb c a m nm at below at_n free_n =
    ground (arith, header-at c a m at, header-at (behind c m.size) a nm at_n)

abbrev with_size : ℕ → Meta → Meta
with_size n m = record m { size = n }

set_size-patch :
    (p n : ℕ) (a : Arena) (m : Meta)
    → a.headers p ≡ some m
    → set_size p n a ≡ done (record a { headers = patch (with_size n) p a.headers })
unfolding set_size put patch patched
set_size-patch p n a m at =
    ap (λ (o : Outcome Meta). o >>= λ k. done (put p (with_size n k) a)) (header-at p a m at)
    ∙ ap (λ v. done (record a { headers = update a.headers p v }))
        (sym (ap (patched (with_size n)) at))

-- The sizes are read after the next block has left its list.
abbrev merge : ℕ → ℕ → Arena → Outcome Arena
merge c n a =
    header n a >>= λ j. header c a >>= λ i. set_size c ((i.size + meta_size + j.size) % word) a

clash : false ≡ true → ⊥
clash h = cc

live-free :
    (h : Headers) (n c : ℕ) (nm m : Meta)
    → h n ≡ some nm
    → h c ≡ some m
    → nm.is_free ≡ true
    → m.is_free ≡ false
    → n ≢ c
live-free h n c nm m at_n at free_n live same =
    clash (
      sym live ∙ ap (λ (k : Meta). k.is_free) (some_inj (sym at ∙ ap h (sym same) ∙ at_n)) ∙ free_n)

absorb-Combined :
    (c n k : ℕ) (a : Arena) (lists : ℕ → List ℕ) (m nm : Meta) (ys zs : List ℕ)
    → Lists a lists
    → a.headers c ≡ some m
    → m.is_free ≡ false
    → a.headers n ≡ some nm
    → nm.is_free ≡ true
    → lists k ≡ ys ++ n ∷ zs
    → (a' : Arena) × (absorb c n a ≡ done a')
      × Combined a a' lists k c (ys ++ zs) ((m.size + meta_size + nm.size) % word)
unfolding absorb SameBlocks
absorb-Combined c n k a lists m nm ys zs l at live at_n free_n e =
    let (a₁, run, l₁, same, brk₁) = removeblock-Lists a lists k n ys zs l e in
    let (m₁, at₁, size_m, free_m) = shape-some (a₁.headers c) m (sym (ap shape at) ∙ same c) in
    let (n₁, at_n₁, size_n, free_n₁) =
      shape-some (a₁.headers n) nm (sym (ap shape at_n) ∙ same n) in
    let class =
      class-of a.headers k n nm ys zs (subst (λ xs. Seg a.headers k none xs none) e (l.linked k))
        at_n in
    let apart_n = out-of-Lists a a₁ lists k n n₁ ys zs l l₁ e at_n₁ (ap get_index size_n ∙ class) in
    let a₂ : Arena = record a₁ { headers = patch (marked false) n a₁.headers } in
    let l₂ = Lists-patch a₁ (update lists k (ys ++ zs)) (marked false) n apart_n l₁ in
    let at_n₂ = patch-at (marked false) n a₁.headers n₁ at_n₁ in
    let at₂ =
      patch-other (marked false) n c a₁.headers (live-free a.headers n c nm m at_n at free_n live)
      ∙ at₁ in
    let whole = (m₁.size + meta_size + n₁.size) % word in
    let apart_c = λ (j : ℕ).
      live-Apart a₂.headers j c m₁ none (update lists k (ys ++ zs) j) none at₂ (free_m ∙ live)
        (l₂.linked j) in
    (
      record a₂ { headers = patch (with_size whole) c a₂.headers },
      ap (λ (o : Outcome Arena). o >>= λ a'. set_free n false a' >>= λ a''. merge c n a'') run
          ∙ ap (λ (o : Outcome Arena). o >>= λ a''. merge c n a'')
              (set_free-patch n false a₁ n₁ at_n₁)
          ∙ ap
              (λ (o : Outcome Meta). o >>= λ j.
                header c a₂ >>= λ i. set_size c ((i.size + meta_size + j.size) % word) a₂)
              (header-at n a₂ _ at_n₂)
          ∙ ap
              (λ (o : Outcome Meta).
                o >>= λ i. set_size c ((i.size + meta_size + n₁.size) % word) a₂)
              (header-at c a₂ m₁ at₂)
          ∙ set_size-patch c whole a₂ m₁ at₂,
      record {
        lists_kept = Lists-patch a₂ (update lists k (ys ++ zs)) (with_size whole) c apart_c l₂;
        block = (
          with_size whole m₁,
          patch-at (with_size whole) c a₂.headers m₁ at₂,
          ap (λ (i : ℕ). (i + meta_size + n₁.size) % word) size_m
              ∙ ap (λ (j : ℕ). (m.size + meta_size + j) % word) size_n,
          free_m ∙ live,
        );
        brk_kept = brk₁;
      },
    )

Stays-moved :
    (ptr : ℕ) (a a' : Arena) (m m' : Meta)
    → m'.size ≡ m.size
    → a'.brk ≡ a.brk
    → Stays ptr m a
    → Stays ptr m' a'
Stays-moved ptr a a' m m' e b (inl low) = inl (subst (λ s. get_index s ≤ free_class) (sym e) low)
Stays-moved ptr a a' m m' e b (inr inside) =
    inr (subst (λ s. (ptr + s) % word < a'.brk) (sym e) (omega (arith, inside, b)))

-- `free` of a block in use in front of a free block, which is in the list of its class, and that
-- does not go back to the system: the next block leaves its list, and one block with both sizes and
-- the header between comes to the front of the list of its own class.
pub free-Combined :
    (grants : Grants) (ptr k : ℕ) (a : Arena) (lists : ℕ → List ℕ) (m nm : Meta) (ys zs : List ℕ)
    → Lists a lists
    → ptr < a.brk
    → a.headers (meta_of ptr) ≡ some m
    → m.is_free ≡ false
    → behind (meta_of ptr) m.size < a.brk
    → a.headers (behind (meta_of ptr) m.size) ≡ some nm
    → nm.is_free ≡ true
    → lists k ≡ ys ++ behind (meta_of ptr) m.size ∷ zs
    → Stays ptr (with_size ((m.size + meta_size + nm.size) % word) m) a
    → (a' : Arena) × (a'' : Arena) × (free grants (some ptr) a ≡ done a'')
      × Combined a a' lists k (meta_of ptr) (ys ++ zs) ((m.size + meta_size + nm.size) % word)
      × Freed a' a''
          (update lists k (ys ++ zs))
          (meta_of ptr)
          ((m.size + meta_size + nm.size) % word)
free-Combined grants ptr k a lists m nm ys zs l below at live near at_n free_n e stays =
    let c = meta_of ptr in
    let n = behind c m.size in
    let (a', run, combined) = absorb-Combined c n k a lists m nm ys zs l at live at_n free_n e in
    let block = combined.block in
    let (a'', run', freed) =
      retire-Freed grants ptr c a' (update lists k (ys ++ zs)) block.0 combined.lists_kept block.1
        block.3
        (Stays-moved ptr a a' (with_size ((m.size + meta_size + nm.size) % word) m) block.0 block.2
          combined.brk_kept stays) in
    (
      a',
      a'',
      free-block grants ptr a m below at live
          ∙ ap (λ (o : Outcome Arena). o >>= λ b. retire grants ptr c b)
              (combine-absorb c a m nm at near at_n free_n ∙ run)
          ∙ run',
      combined,
      subst (λ size. Freed a' a'' (update lists k (ys ++ zs)) c size) block.2 freed,
    )
