-- ===== src/Malloc/Best.antt =====
-- malloc/alloc.c: what best_fit finds.
use system_programming_uiuc.Prelude.{
  ℕ, zero, suc, ◌+◌, ◌≤◌, ◌<◌, ◌≡◌, refl, sym, ap, ◌∙◌, ◌⊎◌, inl, inr, Bool, true, false, ◌&&◌,
  Option, none, some, List, [], ◌∷◌, arith, if◌then◌else◌, Bool-cases, length,
}
use system_programming_uiuc.Prelude.Outcome.{Outcome, done, ◌>>=◌}
use system_programming_uiuc.Malloc.{Meta, Arena, get_index, fits, better, best_fit_from, best_fit}
use system_programming_uiuc.Malloc.Links.{Headers, first_or, Seg}
use system_programming_uiuc.Malloc.Patches.{header-at}
use system_programming_uiuc.Malloc.Lists.{Lists}
use system_programming_uiuc.Malloc.Fits.{
  Small, AtLeast, Found, Found-later, size-of, small-at, no_round, fits-true, fits-false,
}

abbrev Choice : Type 0
Choice = Option (ℕ × ℕ)

-- What the loop returns for the rest `xs` of the list, with `chosen` from the front: NULL if there
-- is nothing, or a pair that is not larger than any other.
record Picked (h : Headers) (size : ℕ) (xs : List ℕ) (chosen : Choice) (c bytes : ℕ) : Type 0 where
  pub source :
      (chosen ≡ some (c, bytes))
      ⊎ ((before : List ℕ) × (behind : List ℕ) × Found h size c bytes xs before behind)
  pub least : AtLeast h size bytes xs
  pub below : (p k : ℕ) → chosen ≡ some (p, k) → bytes ≤ k

BestOf : Headers → ℕ → List ℕ → Choice → Choice → Type 0
BestOf h size xs chosen none = (chosen ≡ none) × Small h size xs
BestOf h size xs chosen (some (c, bytes)) = Picked h size xs chosen c bytes

abbrev choice : ℕ → ℕ → Choice
choice p k = some (p, k)

pair_inj : {p k q j : ℕ} → choice p k ≡ choice q j → (p ≡ q) × (k ≡ j)
pair_inj h = (cc, cc)

some-none : {p k : ℕ} {P : Type 0} → choice p k ≡ none → P
some-none h = cc

better-lt : (chosen : Choice) (n p k : ℕ) → better chosen n ≡ true → chosen ≡ some (p, k) → n < k
unfolding better
better-lt none n p k h e = cc
better-lt (some (q, j)) n p k h e = ground (arith, pair_inj e)

not_better :
    (chosen : Choice) (n : ℕ)
    → better chosen n ≡ false
    → (p : ℕ) × (k : ℕ) × (chosen ≡ some (p, k)) × (k ≤ n)
unfolding better
not_better none n h = cc
not_better (some (q, j)) n h = (q, j, refl, ground arith)

-- The block at hand replaces the choice.
BestOf-take :
    (h : Headers) (size x : ℕ) (m : Meta) (xs : List ℕ) (chosen r : Choice)
    → h x ≡ some m
    → size ≤ m.size
    → better chosen m.size ≡ true
    → BestOf h size xs (some (x, m.size)) r
    → BestOf h size (x ∷ xs) chosen r
unfolding BestOf AtLeast
BestOf-take h size x m xs chosen none at enough b best = some-none best.0
BestOf-take h size x m xs chosen (some (c, bytes)) at enough b best = record {
  source = elim best.source [
    | inl e ↦
        let same = pair_inj e in
        inr (
          [],
          xs,
          record {
            meta = m;
            at = ap h (sym same.0) ∙ at;
            bytes_is = same.1;
            enough = omega (arith, enough, same.1);
            split = ap (λ y. y ∷ xs) same.0;
          },
        )
    | inr (before, behind, found) ↦
        inr (x ∷ before, behind, Found-later h size c bytes x xs before behind found)
  ];
  least =
      (λ k at' large. omega (arith, size-of h x m k at at', best.below x m.size refl), best.least);
  below = λ p k e. omega (arith, best.below x m.size refl, better-lt chosen m.size p k b e);
}

-- The block at hand is too small, or not smaller than the choice.
least-here :
    (h : Headers) (size x : ℕ) (m k : Meta) (chosen : Choice) (c bytes : ℕ) (xs : List ℕ)
    → h x ≡ some m
    → h x ≡ some k
    → size ≤ k.size
    → (m.size < size) ⊎ (better chosen m.size ≡ false)
    → Picked h size xs chosen c bytes
    → bytes ≤ k.size
least-here h size x m k chosen c bytes xs at at' large (inl small) best =
    absurd (omega (arith, size-of h x m k at at'))
least-here h size x m k chosen c bytes xs at at' large (inr worse) best =
    let (p, j, e, le) = not_better chosen m.size worse in
    omega (arith, size-of h x m k at at', best.below p j e, le)

BestOf-leave :
    (h : Headers) (size x : ℕ) (m : Meta) (xs : List ℕ) (chosen r : Choice)
    → h x ≡ some m
    → (m.size < size) ⊎ (better chosen m.size ≡ false)
    → BestOf h size xs chosen r
    → BestOf h size (x ∷ xs) chosen r
unfolding BestOf AtLeast Small
BestOf-leave h size x m xs chosen none at (inl small) best =
    (best.0, ((λ k at'. small-at h size x m k at at' small), best.1))
BestOf-leave h size x m xs chosen none at (inr worse) best =
    let (p, k, e, le) = not_better chosen m.size worse in some-none (sym e ∙ best.0)
BestOf-leave h size x m xs chosen (some (c, bytes)) at why best = record {
  source = elim best.source [
    | inl e ↦ inl e
    | inr (before, behind, found) ↦
        inr (x ∷ before, behind, Found-later h size c bytes x xs before behind found)
  ];
  least =
      (λ k at' large. least-here h size x m k chosen c bytes xs at at' large why best, best.least);
  below = best.below;
}

best-step :
    (fuel size x : ℕ) (m : Meta) (chosen : Choice) (a : Arena) (next : Option ℕ)
    → a.headers x ≡ some m
    → m.next ≡ next
    → (t : Bool) → t ≡ fits size m && better chosen m.size
    → best_fit_from (suc fuel) size (some x) chosen a
      ≡ best_fit_from fuel size next (if t then some (x, m.size) else chosen) a
unfolding best_fit_from
best-step fuel size x m chosen a next at e t same =
    ap
      (λ (o : Outcome Meta). o >>= λ k.
        best_fit_from fuel size k.next
          (if fits size k && better chosen k.size then some (x, k.size) else chosen) a)
      (header-at x a m at)
    ∙ ap
        (λ n.
          best_fit_from fuel size n
            (if fits size m && better chosen m.size then some (x, m.size) else chosen) a)
        e
    ∙ ap (λ b. best_fit_from fuel size next (if b then some (x, m.size) else chosen) a) (sym same)

BestOf-nil : (h : Headers) (size : ℕ) (chosen : Choice) → BestOf h size [] chosen chosen
unfolding BestOf Small AtLeast
BestOf-nil h size none = (refl, tt)
BestOf-nil h size (some (c, bytes)) = record {
  source = inl refl;
  least = tt;
  below = λ p k e. omega (arith, pair_inj e);
}

tests-cases :
    (size : ℕ) (m : Meta) (chosen : Choice)
    → m.is_free ≡ true
    → ((fits size m && better chosen m.size ≡ true)
        × (size ≤ m.size)
        × (better chosen m.size ≡ true))
      ⊎ ((fits size m && better chosen m.size ≡ false)
          × ((m.size < size) ⊎ (better chosen m.size ≡ false)))
tests-cases size m chosen free = elim (Bool-cases (fits size m)) [
  | inl fit ↦ elim (Bool-cases (better chosen m.size)) [
    | inl good ↦ inl (rw (fit, good) refl, fits-true size m fit, good)
    | inr bad ↦ inr (rw (fit, bad) refl, inr bad)
  ]
  | inr unfit ↦ inr (rw unfit refl, inl (fits-false size m free unfit))
]

best_fit_from-Seg :
    (fuel size i : ℕ) (prev : Option ℕ) (xs : List ℕ) (chosen : Choice) (a : Arena)
    → length xs ≤ fuel
    → Seg a.headers i prev xs none
    → (r : Choice) × (best_fit_from fuel size (first_or none xs) chosen a ≡ done r)
      × BestOf a.headers size xs chosen r
unfolding Seg first_or
best_fit_from-Seg fuel size i prev [] chosen a le s =
    (chosen, unfold best_fit_from in refl, BestOf-nil a.headers size chosen)
best_fit_from-Seg zero size i prev (x ∷ xs) chosen a le s = elim (no_round le) [ ]
best_fit_from-Seg (suc fuel) size i prev (x ∷ xs) chosen a le s =
    let m = s.0.0 in
    let step = best-step fuel size x m chosen a (first_or none xs) s.0.1 s.0.2.next_is in
    elim (tests-cases size m chosen s.0.2.free) [
      | inl (e, enough, good) ↦
          let (r, run, best) =
            best_fit_from-Seg fuel size i (some x) xs (some (x, m.size)) a (omega (arith, le))
              s.1 in
          (
            r,
            step (fits size m && better chosen m.size) refl
                ∙ ap
                    (λ t.
                      best_fit_from fuel size (first_or none xs)
                        (if t then some (x, m.size) else chosen) a)
                    e
                ∙ run,
            BestOf-take a.headers size x m xs chosen r s.0.1 enough good best,
          )
      | inr (e, why) ↦
          let (r, run, best) =
            best_fit_from-Seg fuel size i (some x) xs chosen a (omega (arith, le)) s.1 in
          (
            r,
            step (fits size m && better chosen m.size) refl
                ∙ ap
                    (λ t.
                      best_fit_from fuel size (first_or none xs)
                        (if t then some (x, m.size) else chosen) a)
                    e
                ∙ run,
            BestOf-leave a.headers size x m xs chosen r s.0.1 why best,
          )
    ]

best_fit-run :
    (size : ℕ) (a : Arena) (r : Choice)
    → best_fit_from (a.brk + 1) size (a.heads (get_index size)) none a ≡ done r
    → best_fit size a ≡ done (elim r as (λ k. Option ℕ) [ none ↦ none | some p ↦ some p.0 ])
unfolding best_fit
best_fit-run size a r run =
    ap
      (λ (o : Outcome Choice).
        o >>= λ chosen. done (elim chosen as (λ k. Option ℕ) [ none ↦ none | some c ↦ some c.0 ]))
      run

best_fit-result :
    (size : ℕ) (a : Arena) (xs : List ℕ) (r : Choice)
    → best_fit_from (a.brk + 1) size (a.heads (get_index size)) none a ≡ done r
    → BestOf a.headers size xs none r
    → ((best_fit size a ≡ done none) × Small a.headers size xs)
      ⊎ ((c : ℕ) × (bytes : ℕ) × (before : List ℕ) × (behind : List ℕ) × (best_fit size a
            ≡ done (some c))
          × Found a.headers size c bytes xs before behind
          × AtLeast a.headers size bytes xs)
unfolding best_fit BestOf
best_fit-result size a xs none run best = inl (best_fit-run size a none run, best.1)
best_fit-result size a xs (some (c, bytes)) run best = elim best.source [
  | inl e ↦ some-none (sym e)
  | inr (before, behind, found) ↦
      inr (c, bytes, before, behind, best_fit-run size a (some (c, bytes)) run, found, best.least)
]

-- On the list of the class of `size`, which has no more blocks than the break has bytes:
-- `best_fit` returns NULL, and every block is too small, or a block that is large enough, and no
-- block that is large enough is smaller.
pub best_fit-best :
    (size : ℕ) (a : Arena) (lists : ℕ → List ℕ)
    → Lists a lists
    → length (lists (get_index size)) ≤ a.brk
    → ((best_fit size a ≡ done none) × Small a.headers size (lists (get_index size)))
      ⊎ ((c : ℕ) × (bytes : ℕ) × (before : List ℕ) × (behind : List ℕ) × (best_fit size a
            ≡ done (some c))
          × Found a.headers size c bytes (lists (get_index size)) before behind
          × AtLeast a.headers size bytes (lists (get_index size)))
best_fit-best size a lists l short =
    let i = get_index size in
    let (r, run, best) =
      best_fit_from-Seg (a.brk + 1) size i none (lists i) none a (omega (arith, short))
        (l.linked i) in
    best_fit-result size a (lists i) r
      (ap (λ p. best_fit_from (a.brk + 1) size p none a) (l.head i) ∙ run) best
