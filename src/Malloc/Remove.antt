-- ===== src/Malloc/Remove.antt =====
-- malloc/alloc.c: removeblock.
use system_programming_uiuc.Prelude.{
  ℕ, ◌≡◌, ◌≢◌, refl, sym, ap, subst, ◌∙◌, Option, none, some, List, [], ◌∷◌, ◌++◌, arith,
}
use system_programming_uiuc.Prelude.Outcome.{Outcome, done, ◌>>=◌}
use system_programming_uiuc.Malloc.{Meta, Arena, update, get_index, unlink, detach, removeblock}
use system_programming_uiuc.Malloc.Links.{
  Headers, first_or, last_or, Apart, Distinct, Seg, class-Apart, Seg-split, Seg-join, Apart-split,
  Distinct-middle,
}
use system_programming_uiuc.Malloc.Patches.{
  SameBlocks, patch, without_links, Seg-patch, Same-trans, patch_next, patch_prev, detach-patch,
  Present, head_after, unlink-patch, header-at, patch_next-Present, patch_prev-Present,
  patch_next-Same, patch_prev-Same, detach-Same,
}
use system_programming_uiuc.Malloc.Lists.{
  Lists, ApartFrom, Seg-patch_prev, Seg-patch_next, Seg-next_apart, Seg-prev_apart, Lists-change,
}

Distinct-split : (ys zs : List ℕ) → Distinct (ys ++ zs) → Distinct ys × Distinct zs
unfolding Distinct
Distinct-split [] zs d = (tt, d)
Distinct-split (y ∷ ys) zs d =
    let rest = Distinct-split ys zs d.1 in (((Apart-split y ys zs d.0).0, rest.0), rest.1)

first-ApartFrom : (ys zs : List ℕ) → Distinct (ys ++ zs) → ApartFrom (first_or none zs) ys
unfolding ApartFrom first_or
first-ApartFrom ys [] d = tt
first-ApartFrom ys (z ∷ zs) d = (Distinct-middle ys z zs d).0

last-ApartFrom :
    (prev : Option ℕ) (ys zs : List ℕ)
    → ApartFrom prev zs
    → Distinct (ys ++ zs)
    → ApartFrom (last_or prev ys) zs
unfolding ApartFrom last_or Distinct
last-ApartFrom prev [] zs ne d = ne
last-ApartFrom prev (y ∷ ys) zs ne d = last-ApartFrom (some y) ys zs (Apart-split y ys zs d.0).1 d.1

-- The pointer is NULL or leads to a header of the class.
OfClass : Headers → ℕ → Option ℕ → Type 0
OfClass h i none = Unit
OfClass h i (some p) = (m : Meta) × (h p ≡ some m) × (get_index m.size ≡ i)

OfClass-Present : (h : Headers) (i : ℕ) (q : Option ℕ) → OfClass h i q → Present h q
unfolding OfClass Present
OfClass-Present h i none c = tt
OfClass-Present h i (some p) c = (c.0, c.1)

first-OfClass :
    (h : Headers) (i : ℕ) (prev : Option ℕ) (zs : List ℕ)
    → Seg h i prev zs none
    → OfClass h i (first_or none zs)
unfolding OfClass first_or Seg
first-OfClass h i prev [] s = tt
first-OfClass h i prev (z ∷ zs) s = (s.0.0, s.0.1, s.0.2.of_class)

last-OfClass :
    (h : Headers) (i : ℕ) (prev : Option ℕ) (ys : List ℕ) (next : Option ℕ)
    → OfClass h i prev
    → Seg h i prev ys next
    → OfClass h i (last_or prev ys)
unfolding OfClass last_or Seg
last-OfClass h i prev [] next c s = c
last-OfClass h i prev (y ∷ ys) next c s =
    last-OfClass h i (some y) ys next (s.0.0, s.0.1, s.0.2.of_class) s.1

class-ApartFrom :
    (h : Headers) (i j : ℕ) (q prev : Option ℕ) (xs : List ℕ) (next : Option ℕ)
    → OfClass h i q
    → i ≢ j
    → Seg h j prev xs next
    → ApartFrom q xs
unfolding OfClass ApartFrom
class-ApartFrom h i j none prev xs next c ne s = tt
class-ApartFrom h i j (some p) prev xs next c ne s =
    class-Apart h j p c.0 prev xs next c.1 (λ e. ne (sym c.2 ∙ e)) s

last-some : (y : ℕ) (ys : List ℕ) → (k : ℕ) × (last_or (some y) ys ≡ some k)
unfolding last_or
last-some y [] = (y, refl)
last-some y (z ∷ ys) = last-some z ys

head_after-first :
    (i : ℕ) (ys zs : List ℕ) (c : ℕ) (heads : ℕ → Option ℕ)
    → heads i ≡ first_or none (ys ++ c ∷ zs)
    → head_after i (last_or none ys) (first_or none zs) heads i ≡ first_or none (ys ++ zs)
unfolding head_after last_or first_or
head_after-first i [] zs c heads e = ground arith
head_after-first i (y ∷ ys) zs c heads e =
    let (k, found) = last-some y ys in ap (λ q. head_after i q (first_or none zs) heads i) found ∙ e

head_after-other :
    (i j : ℕ) (p n : Option ℕ) (heads : ℕ → Option ℕ) → i ≢ j → head_after i p n heads j ≡ heads j
unfolding head_after
head_after-other i j none n heads ne = ground arith
head_after-other i j (some p) n heads ne = refl

-- The arena behind `removeblock`.
unfoldable removed : ℕ → ℕ → List ℕ → List ℕ → Arena → Arena
removed i c ys zs a = record a {
  headers = patch without_links c (
      patch_prev (first_or none zs) (last_or none ys)
        (patch_next (last_or none ys) (first_or none zs) a.headers));
  heads = head_after i (last_or none ys) (first_or none zs) a.heads;
}

-- Links between other blocks of other lists, or of this one, stay.
kept-Seg :
    (i c : ℕ) (ys zs : List ℕ) (a : Arena) (j : ℕ) (prev : Option ℕ) (xs : List ℕ) (next : Option ℕ)
    → ApartFrom (last_or none ys) xs
    → ApartFrom (first_or none zs) xs
    → Apart c xs
    → Seg a.headers j prev xs next
    → Seg (removed i c ys zs a).headers j prev xs next
unfolding removed
kept-Seg i c ys zs a j prev xs next l f d s = Seg-patch without_links c _ j prev xs next d (
    Seg-prev_apart _ j (first_or none zs) (last_or none ys) prev xs next f
      (Seg-next_apart a.headers j (last_or none ys) (first_or none zs) prev xs next l s))

-- The list without the block, linked over the gap.
removed-Seg :
    (i c : ℕ) (ys zs : List ℕ) (a : Arena)
    → Distinct (ys ++ c ∷ zs)
    → Seg a.headers i none (ys ++ c ∷ zs) none
    → Seg (removed i c ys zs a).headers i none (ys ++ zs) none
unfolding removed Seg first_or ApartFrom
removed-Seg i c ys zs a d s =
    let (apart_ys, apart_zs, rest) = Distinct-middle ys c zs d in
    let two = Distinct-split ys zs rest in
    let parts = Seg-split a.headers i none ys (c ∷ zs) none s in
    let q = first_or none zs in
    let p = last_or none ys in
    let front = Seg-patch_next a.headers i none q ys (some c) two.0 parts.0 in
    let back =
      Seg-next_apart a.headers i p q (some c) zs none (last-ApartFrom none ys zs tt rest)
        parts.1.1 in
    Seg-join _ i none ys zs none
      (Seg-patch without_links c _ i none ys q apart_ys
        (Seg-prev_apart _ i q p none ys q (first-ApartFrom ys zs rest) front))
      (Seg-patch without_links c _ i p zs none apart_zs
        (Seg-patch_prev _ i (some c) p zs two.1 back))

removeblock-removed :
    (i c : ℕ) (ys zs : List ℕ) (a : Arena)
    → Seg a.headers i none (ys ++ c ∷ zs) none
    → removeblock (some c) a ≡ done (removed i c ys zs a)
unfolding removeblock removed Seg first_or OfClass
removeblock-removed i c ys zs a s =
    let parts = Seg-split a.headers i none ys (c ∷ zs) none s in
    let node = parts.1.0 in
    let p = last_or none ys in
    let q = first_or none zs in
    let before =
      OfClass-Present a.headers i p (last-OfClass a.headers i none ys (some c) tt parts.0) in
    let after = OfClass-Present a.headers i q (first-OfClass a.headers i (some c) zs parts.1.1) in
    let there =
      patch_prev-Present q p (patch_next p q a.headers) c
        (patch_next-Present p q a.headers c (node.0, node.1)) in
    ap
      (λ (o : Outcome Meta).
        o >>= λ m. unlink (get_index m.size) m.prev m.next a >>= λ a'. detach c a')
      (header-at c a node.0 node.1)
    ∙ ap (λ (k : ℕ). unlink k node.0.prev node.0.next a >>= λ a'. detach c a') node.2.of_class
    ∙ ap (λ n. unlink i n node.0.next a >>= λ a'. detach c a') node.2.prev_is
    ∙ ap (λ n. unlink i p n a >>= λ a'. detach c a') node.2.next_is
    ∙ ap (λ (o : Outcome Arena). o >>= λ a'. detach c a') (unlink-patch i p q a before after)
    ∙ detach-patch c _ there.0 there.1

removed-Same :
    (i c : ℕ) (ys zs : List ℕ) (a : Arena) → SameBlocks a.headers (removed i c ys zs a).headers
unfolding removed
removed-Same i c ys zs a =
    Same-trans _ _ _ (patch_next-Same (last_or none ys) (first_or none zs) a.headers)
      (Same-trans _ _ _ (patch_prev-Same (first_or none zs) (last_or none ys) _) (detach-Same c _))

-- `removeblock` of a block in the list of class `i` returns; the list is the one without the block,
-- all other lists and the break are as they were, and no block changes its size or its mark.
pub removeblock-Lists :
    (a : Arena) (lists : ℕ → List ℕ) (i c : ℕ) (ys zs : List ℕ)
    → Lists a lists
    → lists i ≡ ys ++ c ∷ zs
    → (a' : Arena) × (removeblock (some c) a ≡ done a')
      × Lists a' (update lists i (ys ++ zs))
      × SameBlocks a.headers a'.headers
      × (a'.brk ≡ a.brk)
unfolding Seg first_or OfClass
removeblock-Lists a lists i c ys zs l e =
    let s = subst (λ xs. Seg a.headers i none xs none) e (l.linked i) in
    let d = subst Distinct e (l.distinct i) in
    let parts = Seg-split a.headers i none ys (c ∷ zs) none s in
    let before = last-OfClass a.headers i none ys (some c) tt parts.0 in
    let after = first-OfClass a.headers i (some c) zs parts.1.1 in
    (
      removed i c ys zs a,
      removeblock-removed i c ys zs a s,
      Lists-change a (removed i c ys zs a) lists i (ys ++ zs) l
          (unfold removed in head_after-first i ys zs c a.heads (l.head i ∙ ap (first_or none) e))
          (removed-Seg i c ys zs a d s) (Distinct-middle ys c zs d).2
          (λ j ne.
            unfold removed in head_after-other i j (last_or none ys) (first_or none zs) a.heads ne)
          (λ j ne.
            kept-Seg i c ys zs a j none (lists j) none
              (class-ApartFrom a.headers i j (last_or none ys) none (lists j) none before ne
                (l.linked j))
              (class-ApartFrom a.headers i j (first_or none zs) none (lists j) none after ne
                (l.linked j))
              (class-Apart a.headers j c parts.1.0.0 none (lists j) none parts.1.0.1
                (λ same. ne (sym parts.1.0.2.of_class ∙ same)) (l.linked j))
              (l.linked j)),
      removed-Same i c ys zs a,
      unfold removed in refl,
    )
