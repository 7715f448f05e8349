-- ===== src/Malloc/Lists.antt =====
-- malloc/alloc.c: removeblock and addblock on the free lists of all classes.
use system_programming_uiuc.Prelude.{
  ℕ, ◌≡◌, ◌≢◌, refl, sym, subst, ◌∙◌, inl, inr, true, false, Option, none, some, List, [], ◌∷◌,
  arith, ◌==◌, Bool-cases,
}
use system_programming_uiuc.Malloc.{Arena, update}
use system_programming_uiuc.Malloc.Links.{Headers, first_or, last_or, Apart, Distinct, Seg}
use system_programming_uiuc.Malloc.Patches.{
  with_next, with_prev, patch-at, patch-other, Seg-patch, patch_next, patch_prev,
}

-- The free lists of all classes: each is linked both ways from its head, without repetition, and
-- its blocks are free and of its class.
pub record Lists (a : Arena) (lists : ℕ → List ℕ) : Type 0 where
  pub head : (i : ℕ) → a.heads i ≡ first_or none (lists i)
  pub linked : (i : ℕ) → Seg a.headers i none (lists i) none
  pub distinct : (i : ℕ) → Distinct (lists i)

same : (i j : ℕ) → (i == j) ≡ true → i ≡ j
same i j h = ground arith

differ : (i j : ℕ) → (i == j) ≡ false → i ≢ j
differ i j h = ground arith

-- The pointer is NULL or none of the list.
unfoldable pub ApartFrom : Option ℕ → List ℕ → Type 0
ApartFrom none xs = Unit
ApartFrom (some p) xs = Apart p xs

last-Mem :
    (y x : ℕ) (ys : List ℕ) → Apart y (x ∷ ys) → (q : ℕ) × (last_or (some x) ys ≡ some q) × (q ≢ y)
unfolding Apart last_or
last-Mem y x [] ne = (x, refl, λ same. ne.0 (sym same))
last-Mem y x (z ∷ ys) ne = last-Mem y z ys ne.1

next_other :
    (p q : Option ℕ) (h : Headers) (y : ℕ)
    → (k : ℕ) × (p ≡ some k) × (k ≢ y)
    → patch_next p q h y ≡ h y
unfolding patch_next
next_other p q h y (k, e, ne) = rw e (patch-other (with_next q) k y h ne)

-- The first and the last block of a segment get another neighbour.
pub Seg-patch_prev :
    (h : Headers) (i : ℕ) (prev q : Option ℕ) (zs : List ℕ)
    → Distinct zs
    → Seg h i prev zs none
    → Seg (patch_prev (first_or none zs) q h) i q zs none
unfolding Seg patch_prev first_or Distinct
Seg-patch_prev h i prev q [] d s = tt
Seg-patch_prev h i prev q (z ∷ zs) d s = (
  (
    with_prev q s.0.0,
    patch-at (with_prev q) z h s.0.0 s.0.1,
    record {
      of_class = s.0.2.of_class;
      free = s.0.2.free;
      prev_is = refl;
      next_is = s.0.2.next_is;
    },
  ),
  Seg-patch (with_prev q) z h i (some z) zs none d.0 s.1,
)

pub Seg-patch_next :
    (h : Headers) (i : ℕ) (prev q : Option ℕ) (ys : List ℕ) (next : Option ℕ)
    → Distinct ys
    → Seg h i prev ys next
    → Seg (patch_next (last_or none ys) q h) i prev ys q
unfolding Seg patch_next last_or first_or Distinct
Seg-patch_next h i prev q [] next d s = tt
Seg-patch_next h i prev q (y ∷ []) next d s = (
  (
    with_next q s.0.0,
    patch-at (with_next q) y h s.0.0 s.0.1,
    record {
      of_class = s.0.2.of_class;
      free = s.0.2.free;
      prev_is = s.0.2.prev_is;
      next_is = refl;
    },
  ),
  tt,
)
Seg-patch_next h i prev q (y ∷ x ∷ ys) next d s = (
  (s.0.0, next_other (last_or (some x) ys) q h y (last-Mem y x ys d.0) ∙ s.0.1, s.0.2),
  Seg-patch_next h i (some y) q (x ∷ ys) next d.1 s.1,
)

-- What a neighbour is patched in stays as it is elsewhere.
pub Seg-next_apart :
    (h : Headers) (i : ℕ) (p q prev : Option ℕ) (xs : List ℕ) (next : Option ℕ)
    → ApartFrom p xs
    → Seg h i prev xs next
    → Seg (patch_next p q h) i prev xs next
unfolding patch_next ApartFrom
Seg-next_apart h i none q prev xs next ne s = s
Seg-next_apart h i (some p) q prev xs next ne s = Seg-patch (with_next q) p h i prev xs next ne s

pub Seg-prev_apart :
    (h : Headers) (i : ℕ) (p q prev : Option ℕ) (xs : List ℕ) (next : Option ℕ)
    → ApartFrom p xs
    → Seg h i prev xs next
    → Seg (patch_prev p q h) i prev xs next
unfolding patch_prev ApartFrom
Seg-prev_apart h i none q prev xs next ne s = s
Seg-prev_apart h i (some p) q prev xs next ne s = Seg-patch (with_prev q) p h i prev xs next ne s

-- One list is changed; the others and their heads are as they were.
pub Lists-change :
    (a a' : Arena) (lists : ℕ → List ℕ) (i : ℕ) (xs : List ℕ)
    → Lists a lists
    → a'.heads i ≡ first_or none xs
    → Seg a'.headers i none xs none
    → Distinct xs
    → ((j : ℕ) → i ≢ j → a'.heads j ≡ a.heads j)
    → ((j : ℕ) → i ≢ j → Seg a'.headers j none (lists j) none)
    → Lists a' (update lists i xs)
Lists-change a a' lists i xs l hd seg dis heads segs = record {
  head = λ j. elim (Bool-cases (i == j)) [
    | inl here ↦ rw here (subst (λ k. a'.heads k ≡ first_or none xs) (same i j here) hd)
    | inr other ↦ rw other (heads j (differ i j other) ∙ l.head j)
  ];
  linked = λ j. elim (Bool-cases (i == j)) [
    | inl here ↦ rw here (subst (λ k. Seg a'.headers k none xs none) (same i j here) seg)
    | inr other ↦ rw other (segs j (differ i j other))
  ];
  distinct = λ j. elim (Bool-cases (i == j)) [
    | inl here ↦ rw here dis
    | inr other ↦ rw other (l.distinct j)
  ];
}
