-- ===== src/Malloc/Add.antt =====
-- malloc/alloc.c: addblock.
use system_programming_uiuc.Prelude.{
  ℕ, ◌≡◌, ◌≢◌, refl, sym, ap, ◌∙◌, true, Option, none, some, List, [], ◌∷◌, arith,
}
use system_programming_uiuc.Prelude.Outcome.{Outcome, done, ◌>>=◌}
use system_programming_uiuc.Malloc.{
  Meta, Arena, update, get_index, header, put, set_head, add_front, addblock,
}
use system_programming_uiuc.Malloc.Links.{Headers, first_or, Apart, Distinct, Seg, class-Apart}
use system_programming_uiuc.Malloc.Patches.{
  shape, SameBlocks, patched, patch, with_prev, without_links, patch-at, patch-other, Seg-patch,
  patch-Same, Same-trans, set_prev-patch, header-at, detach-Same,
}
use system_programming_uiuc.Malloc.Lists.{Lists, Lists-change}

abbrev in_front_of : ℕ → Meta → Meta
in_front_of x m = record m { next = some x; prev = none }

-- The headers behind `addblock`, for the list that stood there.
unfoldable pub added : ℕ → List ℕ → Headers → Headers
added c [] h = patch without_links c h
added c (x ∷ xs) h = patch (in_front_of x) c (patch (with_prev (some c)) x h)

added-Same : (c : ℕ) (xs : List ℕ) (h : Headers) → SameBlocks h (added c xs h)
unfolding added shape
added-Same c [] h = detach-Same c h
added-Same c (x ∷ xs) h =
    Same-trans _ _ _ (patch-Same (with_prev (some c)) x h (λ m. refl))
      (patch-Same (in_front_of x) c _ (λ m. refl))

added-Seg :
    (h : Headers) (i c : ℕ) (m : Meta) (xs : List ℕ)
    → h c ≡ some m
    → get_index m.size ≡ i
    → m.is_free ≡ true
    → Distinct (c ∷ xs)
    → Seg h i none xs none
    → Seg (added c xs h) i none (c ∷ xs) none
unfolding added Seg first_or Distinct Apart
added-Seg h i c m [] at class free d s = (
  (
    without_links m,
    patch-at without_links c h m at,
    record { of_class = class; free = free; prev_is = refl; next_is = refl },
  ),
  tt,
)
added-Seg h i c m (x ∷ xs) at class free d s = (
  (
    in_front_of x m,
    patch-at (in_front_of x) c _ m
        (patch-other (with_prev (some c)) x c h (λ e. d.0.0 (sym e)) ∙ at),
    record { of_class = class; free = free; prev_is = refl; next_is = refl },
  ),
  (
    (
      with_prev (some c) s.0.0,
      patch-other (in_front_of x) c x _ d.0.0 ∙ patch-at (with_prev (some c)) x h s.0.0 s.0.1,
      record {
        of_class = s.0.2.of_class;
        free = s.0.2.free;
        prev_is = refl;
        next_is = s.0.2.next_is;
      },
    ),
    Seg-patch (in_front_of x) c _ i (some x) xs none d.0.1
        (Seg-patch (with_prev (some c)) x h i (some x) xs none d.1.0 s.1),
  ),
)

added-other :
    (h : Headers) (i j c : ℕ) (m : Meta) (xs ys : List ℕ)
    → h c ≡ some m
    → get_index m.size ≡ i
    → i ≢ j
    → Seg h i none xs none
    → Seg h j none ys none
    → Seg (added c xs h) j none ys none
unfolding added Seg
added-other h i j c m [] ys at class ne s t =
    Seg-patch without_links c h j none ys none
      (class-Apart h j c m none ys none at (λ e. ne (sym class ∙ e)) t) t
added-other h i j c m (x ∷ xs) ys at class ne s t =
    Seg-patch (in_front_of x) c _ j none ys none
      (class-Apart h j c m none ys none at (λ e. ne (sym class ∙ e)) t)
      (Seg-patch (with_prev (some c)) x h j none ys none
        (class-Apart h j x s.0.0 none ys none s.0.1 (λ e. ne (sym s.0.2.of_class ∙ e)) t) t)

abbrev added_to : ℕ → ℕ → List ℕ → Arena → Arena
added_to i c xs a = record a { headers = added c xs a.headers; heads = update a.heads i (some c) }

put-patch :
    (f : Meta → Meta) (p : ℕ) (a : Arena) (m : Meta)
    → a.headers p ≡ some m
    → put p (f m) a ≡ record a { headers = patch f p a.headers }
unfolding put patch patched
put-patch f p a m at =
    ap (λ v. record a { headers = update a.headers p v }) (sym (ap (patched f) at))

add_front-added :
    (i c : ℕ) (m : Meta) (xs : List ℕ) (a : Arena)
    → a.headers c ≡ some m
    → Distinct (c ∷ xs)
    → Seg a.headers i none xs none
    → add_front i c m (first_or none xs) a ≡ done (added_to i c xs a)
unfolding add_front added first_or set_head Seg Distinct Apart
add_front-added i c m [] a at d s = ap done (put-patch without_links c (set_head i (some c) a) m at)
add_front-added i c m (x ∷ xs) a at d s =
    let linked : Arena = record a { headers = patch (with_prev (some c)) x a.headers } in
    let there : linked.headers c ≡ some m =
      patch-other (with_prev (some c)) x c a.headers (λ e. d.0.0 (sym e)) ∙ at in
    ap
      (λ (o : Outcome Arena).
        o >>= λ a'. header c a' >>= λ m'. done (set_head i (some c) (put c (in_front_of x m') a')))
      (set_prev-patch x (some c) a s.0.0 s.0.1)
    ∙ ap
        (λ (o : Outcome Meta).
          o >>= λ m'. done (set_head i (some c) (put c (in_front_of x m') linked)))
        (header-at c linked m there)
    ∙ ap (λ a'. done (set_head i (some c) a')) (put-patch (in_front_of x) c linked m there)

addblock-added :
    (c : ℕ) (m : Meta) (xs : List ℕ) (a : Arena)
    → a.headers c ≡ some m
    → a.heads (get_index m.size) ≡ first_or none xs
    → Distinct (c ∷ xs)
    → Seg a.headers (get_index m.size) none xs none
    → addblock (some c) a ≡ done (added_to (get_index m.size) c xs a)
unfolding addblock
addblock-added c m xs a at hd d s =
    ap
      (λ (o : Outcome Meta).
        o >>= λ k. add_front (get_index k.size) c k (a.heads (get_index k.size)) a)
      (header-at c a m at)
    ∙ ap (λ q. add_front (get_index m.size) c m q a) hd
    ∙ add_front-added (get_index m.size) c m xs a at d s

heads-at : (i c : ℕ) (heads : ℕ → Option ℕ) → update heads i (some c) i ≡ some c
heads-at i c heads = ground arith

heads-other : (i j c : ℕ) (heads : ℕ → Option ℕ) → i ≢ j → update heads i (some c) j ≡ heads j
heads-other i j c heads ne = ground arith

-- `addblock` of a block marked free that is in no list returns; the block is the first in the list
-- of its class, all other lists and the break are as they were, and no block changes its size or its mark.
pub addblock-Lists :
    (a : Arena) (lists : ℕ → List ℕ) (c : ℕ) (m : Meta)
    → Lists a lists
    → a.headers c ≡ some m
    → m.is_free ≡ true
    → Apart c (lists (get_index m.size))
    → (a' : Arena) × (addblock (some c) a ≡ done a')
      × Lists a' (update lists (get_index m.size) (c ∷ lists (get_index m.size)))
      × SameBlocks a.headers a'.headers
      × (a'.brk ≡ a.brk)
unfolding first_or Distinct
addblock-Lists a lists c m l at free ne =
    let i = get_index m.size in
    let xs = lists i in
    (
      added_to i c xs a,
      addblock-added c m xs a at (l.head i) (ne, l.distinct i) (l.linked i),
      Lists-change a (added_to i c xs a) lists i (c ∷ xs) l (heads-at i c a.heads)
          (added-Seg a.headers i c m xs at refl free (ne, l.distinct i) (l.linked i))
          (ne, l.distinct i) (λ j other. heads-other i j c a.heads other)
          (λ j other.
            added-other a.headers i j c m xs (lists j) at refl other (l.linked i) (l.linked j)),
      added-Same c xs a.headers,
      refl,
    )
