-- ===== src/Malloc/Fits.antt =====
-- malloc/alloc.c: what first_fit and best_fit find.
use system_programming_uiuc.Prelude.{
  ℕ, zero, suc, ◌+◌, ◌≤◌, ◌<◌, ◌≡◌, refl, sym, ap, ◌∙◌, ◌⊎◌, inl, inr, true, false, Option, none,
  some, List, [], ◌∷◌, ◌++◌, arith, some_inj, Bool-cases, length,
}
use system_programming_uiuc.Prelude.Outcome.{done}
use system_programming_uiuc.Malloc.{Meta, Arena, get_index, fits, first_fit_from, first_fit}
use system_programming_uiuc.Malloc.Links.{Headers, first_or, Seg}
use system_programming_uiuc.Malloc.Lists.{Lists}

-- No block of the list is large enough.
unfoldable pub Small : Headers → ℕ → List ℕ → Type 0
Small h size [] = Unit
Small h size (x ∷ xs) = ((m : Meta) → h x ≡ some m → m.size < size) × Small h size xs

-- Every block of the list that is large enough has at least `k` bytes.
unfoldable pub AtLeast : Headers → ℕ → ℕ → List ℕ → Type 0
AtLeast h size k [] = Unit
AtLeast h size k (x ∷ xs) =
    ((m : Meta) → h x ≡ some m → size ≤ m.size → k ≤ m.size) × AtLeast h size k xs

-- The list is `before`, a block of `bytes` bytes, enough for `size`, and `behind`.
pub record Found (h : Headers) (size c bytes : ℕ) (xs before behind : List ℕ) : Type 0 where
  pub meta : Meta
  pub at : h c ≡ some meta
  pub bytes_is : meta.size ≡ bytes
  pub enough : size ≤ bytes
  pub split : xs ≡ before ++ c ∷ behind

pub Found-later :
    (h : Headers) (size c bytes x : ℕ) (xs before behind : List ℕ)
    → Found h size c bytes xs before behind
    → Found h size c bytes (x ∷ xs) (x ∷ before) behind
Found-later h size c bytes x xs before behind f = record {
  meta = f.meta;
  at = f.at;
  bytes_is = f.bytes_is;
  enough = f.enough;
  split = ap (λ l. x ∷ l) f.split;
}

pub size-of : (h : Headers) (x : ℕ) (m k : Meta) → h x ≡ some m → h x ≡ some k → m.size ≡ k.size
size-of h x m k at at' = ap (λ (n : Meta). n.size) (some_inj (sym at ∙ at'))

pub fits-true : (size : ℕ) (m : Meta) → fits size m ≡ true → size ≤ m.size
unfolding fits
fits-true size m h = ground arith

pub fits-false : (size : ℕ) (m : Meta) → m.is_free ≡ true → fits size m ≡ false → m.size < size
unfolding fits
fits-false size m free h = ground arith

first-hit :
    (fuel size x : ℕ) (m : Meta) (a : Arena)
    → a.headers x ≡ some m
    → fits size m ≡ true
    → first_fit_from (suc fuel) size (some x) a ≡ done (some x)
unfolding first_fit_from
first-hit fuel size x m a at hit = ground arith

first-step :
    (fuel size x : ℕ) (m : Meta) (a : Arena)
    → a.headers x ≡ some m
    → fits size m ≡ false
    → first_fit_from (suc fuel) size (some x) a ≡ first_fit_from fuel size m.next a
unfolding first_fit_from
first-step fuel size x m a at miss = ground arith

pub small-at :
    (h : Headers) (size x : ℕ) (m k : Meta)
    → h x ≡ some m
    → h x ≡ some k
    → m.size < size
    → k.size < size
small-at h size x m k at at' small = omega (arith, size-of h x m k at at')

first-miss :
    (fuel size x : ℕ) (m : Meta) (a : Arena) (next : Option ℕ)
    → a.headers x ≡ some m
    → fits size m ≡ false
    → m.next ≡ next
    → first_fit_from (suc fuel) size (some x) a ≡ first_fit_from fuel size next a
first-miss fuel size x m a next at miss e =
    first-step fuel size x m a at miss ∙ ap (λ n. first_fit_from fuel size n a) e

pub no_round : {n : ℕ} → suc n ≤ 0 → ⊥
no_round h = omega (arith, h)

first_fit_from-Seg :
    (fuel size i : ℕ) (prev : Option ℕ) (xs : List ℕ) (a : Arena)
    → length xs ≤ fuel
    → Seg a.headers i prev xs none
    → ((first_fit_from fuel size (first_or none xs) a ≡ done none) × Small a.headers size xs)
      ⊎ ((c : ℕ) × (bytes : ℕ) × (before : List ℕ) × (behind : List ℕ) × (first_fit_from fuel size
              (first_or none xs)
              a
            ≡ done (some c))
          × Found a.headers size c bytes xs before behind
          × Small a.headers size before)
unfolding Seg Small first_or
first_fit_from-Seg fuel size i prev [] a le s = inl (unfold first_fit_from in refl, tt)
first_fit_from-Seg zero size i prev (x ∷ xs) a le s = elim (no_round le) [ ]
first_fit_from-Seg (suc fuel) size i prev (x ∷ xs) a le s =
    let node = s.0.2 in
    elim (Bool-cases (fits size s.0.0)) [
      | inl hit ↦ inr (
        x,
        s.0.0.size,
        [],
        xs,
        first-hit fuel size x s.0.0 a s.0.1 hit,
        record {
          meta = s.0.0;
          at = s.0.1;
          bytes_is = refl;
          enough = fits-true size s.0.0 hit;
          split = refl;
        },
        tt,
      )
      | inr miss ↦
          let step = first-miss fuel size x s.0.0 a (first_or none xs) s.0.1 miss node.next_is in
          let small = λ (m : Meta) (at : a.headers x ≡ some m).
            small-at a.headers size x s.0.0 m s.0.1 at (fits-false size s.0.0 node.free miss) in
          elim (first_fit_from-Seg fuel size i (some x) xs a (omega (arith, le)) s.1) [
            | inl (e, rest) ↦ inl (step ∙ e, (small, rest))
            | inr (c, bytes, before, behind, e, found, rest) ↦ inr (
              c,
              bytes,
              x ∷ before,
              behind,
              step ∙ e,
              Found-later a.headers size c bytes x xs before behind found,
              (small, rest),
            )
          ]
    ]

-- On the list of the class of `size`, which has no more blocks than the break has bytes:
-- `first_fit` returns NULL, and every block is too small, or a block that is large enough, and
-- every block in front of it is too small.
pub first_fit-first :
    (size : ℕ) (a : Arena) (lists : ℕ → List ℕ)
    → Lists a lists
    → length (lists (get_index size)) ≤ a.brk
    → ((first_fit size a ≡ done none) × Small a.headers size (lists (get_index size)))
      ⊎ ((c : ℕ) × (bytes : ℕ) × (before : List ℕ) × (behind : List ℕ) × (first_fit size a
            ≡ done (some c))
          × Found a.headers size c bytes (lists (get_index size)) before behind
          × Small a.headers size before)
unfolding first_fit
first_fit-first size a lists l short = rw (l.head (get_index size)) (
    first_fit_from-Seg (a.brk + 1) size (get_index size) none (lists (get_index size)) a
      (omega (arith, short)) (l.linked (get_index size)))
