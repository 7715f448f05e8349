-- ===== src/Malloc/Patches.antt =====
-- malloc/alloc.c: stores to single fields of headers.
use system_programming_uiuc.Prelude.{
  ℕ, ◌≡◌, ◌≢◌, refl, sym, ap, subst, ◌∙◌, inl, inr, Bool, true, false, Option, none, some, List,
  arith, ◌==◌, Bool-cases,
}
use system_programming_uiuc.Prelude.Outcome.{Outcome, done, ◌>>=◌}
use system_programming_uiuc.Malloc.{
  Meta, Arena, update, header, put, set_head, set_next, set_prev, unlink, detach,
}
use system_programming_uiuc.Malloc.Links.{
  Headers, Apart, Seg, update-same, update-other, Seg-update,
}

-- The fields of a header that the links do not touch.
unfoldable pub shape : Option Meta → Option (ℕ × Bool)
shape none = none
shape (some m) = some (m.size, m.is_free)

unfoldable pub SameBlocks : Headers → Headers → Type 0
unfolding shape
SameBlocks h h' = (p : ℕ) → shape (h p) ≡ shape (h' p)

unfoldable pub patched : (Meta → Meta) → Option Meta → Option Meta
patched f none = none
patched f (some m) = some (f m)

-- The headers with one of them changed.
unfoldable pub patch : (Meta → Meta) → ℕ → Headers → Headers
unfolding patched
patch f p h = update h p (patched f (h p))

abbrev pub with_next : Option ℕ → Meta → Meta
with_next q m = record m { next = q }

abbrev pub with_prev : Option ℕ → Meta → Meta
with_prev q m = record m { prev = q }

abbrev pub without_links : Meta → Meta
without_links m = record m { next = none; prev = none }

pub patch-at :
    (f : Meta → Meta) (p : ℕ) (h : Headers) (m : Meta) → h p ≡ some m → patch f p h p ≡ some (f m)
unfolding patch
patch-at f p h m at = update-same h p (patched f (h p)) ∙ ap (patched f) at

pub patch-other : (f : Meta → Meta) (p q : ℕ) (h : Headers) → p ≢ q → patch f p h q ≡ h q
unfolding patch
patch-other f p q h ne = update-other h p q (patched f (h p)) ne

pub Seg-patch :
    (f : Meta → Meta) (p : ℕ) (h : Headers) (i : ℕ) (prev : Option ℕ) (xs : List ℕ)
    (next : Option ℕ)
    → Apart p xs
    → Seg h i prev xs next
    → Seg (patch f p h) i prev xs next
unfolding patch
Seg-patch f p h i prev xs next ne s = Seg-update h i p (patched f (h p)) prev xs next ne s

pub update-Same :
    (h : Headers) (p : ℕ) (v : Option Meta)
    → shape v ≡ shape (h p)
    → (q : ℕ) → shape (h q) ≡ shape (update h p v q)
update-Same h p v e q = ground arith

patched-shape :
    (f : Meta → Meta) (v : Option Meta)
    → ((m : Meta) → shape (some (f m)) ≡ shape (some m))
    → shape (patched f v) ≡ shape v
unfolding patched
patched-shape f none keep = refl
patched-shape f (some m) keep = keep m

pub patch-Same :
    (f : Meta → Meta) (p : ℕ) (h : Headers)
    → ((m : Meta) → shape (some (f m)) ≡ shape (some m))
    → SameBlocks h (patch f p h)
unfolding patch SameBlocks
patch-Same f p h keep q = update-Same h p (patched f (h p)) (patched-shape f (h p) keep) q

pub Same-trans : (h h' h'' : Headers) → SameBlocks h h' → SameBlocks h' h'' → SameBlocks h h''
unfolding SameBlocks
Same-trans h h' h'' s t p = s p ∙ t p

-- The neighbours of a block that leaves, each if it is there.
unfoldable pub patch_next : Option ℕ → Option ℕ → Headers → Headers
patch_next none q h = h
patch_next (some p) q h = patch (with_next q) p h

unfoldable pub patch_prev : Option ℕ → Option ℕ → Headers → Headers
patch_prev none q h = h
patch_prev (some n) q h = patch (with_prev q) n h

pub header-at : (p : ℕ) (a : Arena) (m : Meta) → a.headers p ≡ some m → header p a ≡ done m
unfolding header
header-at p a m at = rw (at, header) refl

-- The store functions of the code, at headers that are there.
pub set_next-patch :
    (p : ℕ) (q : Option ℕ) (a : Arena) (m : Meta)
    → a.headers p ≡ some m
    → set_next p q a ≡ done (record a { headers = patch (with_next q) p a.headers })
unfolding set_next put patch patched
set_next-patch p q a m at =
    ap (λ (o : Outcome Meta). o >>= λ k. done (put p ((with_next q) k) a)) (header-at p a m at)
    ∙ ap (λ v. done (record a { headers = update a.headers p v }))
        (sym (ap (patched (with_next q)) at))

pub set_prev-patch :
    (p : ℕ) (q : Option ℕ) (a : Arena) (m : Meta)
    → a.headers p ≡ some m
    → set_prev p q a ≡ done (record a { headers = patch (with_prev q) p a.headers })
unfolding set_prev put patch patched
set_prev-patch p q a m at =
    ap (λ (o : Outcome Meta). o >>= λ k. done (put p ((with_prev q) k) a)) (header-at p a m at)
    ∙ ap (λ v. done (record a { headers = update a.headers p v }))
        (sym (ap (patched (with_prev q)) at))

pub detach-patch :
    (p : ℕ) (a : Arena) (m : Meta)
    → a.headers p ≡ some m
    → detach p a ≡ done (record a { headers = patch without_links p a.headers })
unfolding detach put patch patched
detach-patch p a m at =
    ap (λ (o : Outcome Meta). o >>= λ k. done (put p (without_links k) a)) (header-at p a m at)
    ∙ ap (λ v. done (record a { headers = update a.headers p v }))
        (sym (ap (patched without_links) at))

-- A header at the pointer, if it is one.
unfoldable pub Present : Headers → Option ℕ → Type 0
Present h none = Unit
Present h (some p) = (m : Meta) × (h p ≡ some m)

unfoldable pub head_after : ℕ → Option ℕ → Option ℕ → (ℕ → Option ℕ) → ℕ → Option ℕ
head_after i none next heads = update heads i next
head_after i (some p) next heads = heads

agree : (p n : ℕ) → (p == n) ≡ true → p ≡ n
agree p n h = ground arith

differ : (p n : ℕ) → (p == n) ≡ false → p ≢ n
differ p n h = ground arith

patch-Present :
    (f : Meta → Meta) (p n : ℕ) (h : Headers) (m : Meta)
    → h n ≡ some m
    → (k : Meta) × (patch f p h n ≡ some k)
patch-Present f p n h m at = elim (Bool-cases (p == n)) [
  | inl same ↦
      (f m, subst (λ q. patch f q h n ≡ some (f m)) (sym (agree p n same)) (patch-at f n h m at))
  | inr other ↦ (m, patch-other f p n h (differ p n other) ∙ at)
]

pub unlink-patch :
    (i : ℕ) (prev next : Option ℕ) (a : Arena)
    → Present a.headers prev
    → Present a.headers next
    → unlink i prev next a
      ≡ done (record a {
        headers = patch_prev next prev (patch_next prev next a.headers);
        heads = head_after i prev next a.heads;
      })
unfolding unlink Present patch_prev patch_next head_after set_head
unlink-patch i none none a here there = refl
unlink-patch i none (some n) a here there =
    set_prev-patch n none (record a { heads = update a.heads i (some n) }) there.0 there.1
unlink-patch i (some p) none a here there = set_next-patch p none a here.0 here.1
unlink-patch i (some p) (some n) a here there =
    let kept = patch-Present (with_next (some n)) p n a.headers there.0 there.1 in
    ap (λ (o : Outcome Arena). o >>= λ a'. set_prev n (some p) a')
      (set_next-patch p (some n) a here.0 here.1)
    ∙ set_prev-patch n (some p) (record a { headers = patch (with_next (some n)) p a.headers })
        kept.0 kept.1

pub patch_next-Present :
    (p q : Option ℕ) (h : Headers) (c : ℕ)
    → (m : Meta) × (h c ≡ some m)
    → (m : Meta) × (patch_next p q h c ≡ some m)
unfolding patch_next
patch_next-Present none q h c at = at
patch_next-Present (some p) q h c at = patch-Present (with_next q) p c h at.0 at.1

pub patch_prev-Present :
    (p q : Option ℕ) (h : Headers) (c : ℕ)
    → (m : Meta) × (h c ≡ some m)
    → (m : Meta) × (patch_prev p q h c ≡ some m)
unfolding patch_prev
patch_prev-Present none q h c at = at
patch_prev-Present (some p) q h c at = patch-Present (with_prev q) p c h at.0 at.1

pub patch_next-Same : (p q : Option ℕ) (h : Headers) → SameBlocks h (patch_next p q h)
unfolding patch_next shape
patch_next-Same none q h = unfold SameBlocks in (λ p. refl)
patch_next-Same (some p) q h = patch-Same (with_next q) p h (λ m. refl)

pub patch_prev-Same : (p q : Option ℕ) (h : Headers) → SameBlocks h (patch_prev p q h)
unfolding patch_prev shape
patch_prev-Same none q h = unfold SameBlocks in (λ p. refl)
patch_prev-Same (some p) q h = patch-Same (with_prev q) p h (λ m. refl)

pub detach-Same : (p : ℕ) (h : Headers) → SameBlocks h (patch without_links p h)
unfolding shape
detach-Same p h = patch-Same without_links p h (λ m. refl)
