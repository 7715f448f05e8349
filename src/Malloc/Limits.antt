-- ===== src/Malloc/Limits.antt =====
-- malloc/alloc.c: size classes, and requests near the end of the address space.
use system_programming_uiuc.Prelude.{
  ℕ, ◌+◌, ◌-◌, ◌*◌, ◌%◌, ◌^◌, ◌≤◌, ◌<◌, ◌≡◌, refl, ap, subst, ◌∙◌, inl, inr, true, false, Option,
  none, some, List, [], ◌∷◌, arith, leb, Bool-cases, leb→le,
}
use system_programming_uiuc.Prelude.Outcome.{Outcome, done, fault, ◌>>=◌}
use system_programming_uiuc.Malloc.{word, meta_size, block_size, Arena, index_from, get_index}
use system_programming_uiuc.Malloc.Blocks.{Grants, sbrk, coalesce_from, block_coalescing}
use system_programming_uiuc.Malloc.Calls.{Answer, pick, first_header, reuse, extend, tidy, malloc}

-- The sizes double from class `i` on, and the last class is 15.
Doubling : ℕ → List ℕ → Type 0
Doubling i [] = i ≡ 16
Doubling i (b ∷ bs) = (b ≡ 8 * 2 ^ i) × Doubling (i + 1) bs

Doubling-le : (i : ℕ) (bs : List ℕ) → Doubling i bs → i ≤ 16
unfolding Doubling
Doubling-le i [] d = omega (arith, d)
Doubling-le i (b ∷ bs) d = omega (arith, Doubling-le (i + 1) bs d.1)

-- What the class says of the size.
abbrev Bounded : ℕ → ℕ → Type 0
Bounded size i = (i ≤ 16) × (i < 16 → size ≤ 8 * 2 ^ i) × (0 < i → 8 * 2 ^ (i - 1) < size)

not_le : (m n : ℕ) → leb m n ≡ false → n < m
not_le m n h = ground arith

index_from-Bounded :
    (size i : ℕ) (bs : List ℕ)
    → Doubling i bs
    → (0 < i → 8 * 2 ^ (i - 1) < size)
    → Bounded size (index_from size i bs)
unfolding index_from Doubling
index_from-Bounded size i [] d more =
    (omega (arith, d), λ less. absurd (omega (arith, d, less)), more)
index_from-Bounded size i (b ∷ bs) d more = elim (Bool-cases (leb size b)) [
  | inl fits ↦
      rw fits
        (Doubling-le i (b ∷ bs) d, λ less. subst (λ k. size ≤ k) d.0 (leb→le size b fits), more)
  | inr larger ↦ rw larger (
      index_from-Bounded size (i + 1) bs d.1 (λ pos.
        subst (λ k. 8 * 2 ^ k < size) (omega arith)
          (subst (λ k. k < size) d.0 (not_le size b larger))))
]

-- `get_index` gives the first of the 16 classes whose size is not below the request: class `i` is
-- for at most 8 * 2 ^ i bytes and, from class 1 on, for more than half of that; 16 is for more than
-- 2 ^ 18.
pub get_index-bounds :
    (size : ℕ)
    → (get_index size ≤ 16)
      × (get_index size < 16 → size ≤ 8 * 2 ^ get_index size)
      × (0 < get_index size → 8 * 2 ^ (get_index size - 1) < size)
unfolding get_index Doubling
get_index-bounds size =
    index_from-Bounded size 0 block_size (omega arith)
      (λ none_yet. absurd (omega (arith, none_yet)))

large-class : (size : ℕ) → 2 ^ 18 < size → get_index size ≡ 16
unfolding get_index index_from
large-class size large = ground arith

-- A request for which the break wraps.
extend-wraps :
    (grants : Grants) (size : ℕ) (a : Arena)
    → size < word
    → a.brk + meta_size < word
    → word ≤ a.brk + meta_size + size
    → ((from to : ℕ) → grants from to ≡ true)
    → extend grants size a ≡ fault
unfolding extend sbrk first_header
extend-wraps grants size a below room wraps granted =
    ground (arith, granted a.brk ((a.brk + (meta_size + size) % word) % word))

-- `malloc` behind the search.
abbrev pub settle : Grants → ℕ → Arena → Option ℕ → Outcome Answer
settle grants size a none = extend grants size a
settle grants size a (some p) = reuse p size a

malloc-steps :
    (grants : Grants) (size : ℕ) (a : Arena)
    → 0 < size
    → malloc grants size a
      ≡ (tidy grants (get_index size) a >>= λ a'. pick size a' >>= λ new. settle grants size a' new)
unfolding malloc
malloc-steps grants size a pos = ground arith

-- `malloc` as a whole, by what `pick` finds when the lists need no tidying.
pub malloc-pick :
    (grants : Grants) (size : ℕ) (a : Arena) (new : Option ℕ)
    → 0 < size
    → tidy grants (get_index size) a ≡ done a
    → pick size a ≡ done new
    → malloc grants size a ≡ settle grants size a new
malloc-pick grants size a new pos tidied picked =
    malloc-steps grants size a pos
    ∙ ap (λ (o : Outcome Arena). o >>= λ a'. pick size a' >>= λ n. settle grants size a' n) tidied
    ∙ ap (λ (o : Outcome (Option ℕ)). o >>= λ n. settle grants size a n) picked

tidy-empty : (grants : Grants) (a : Arena) → a.heads 16 ≡ none → tidy grants 16 a ≡ done a
unfolding tidy block_coalescing coalesce_from
tidy-empty grants a empty = rw (empty, coalesce_from) refl

pub pick-none : (size : ℕ) (a : Arena) → a.heads (get_index size) ≡ none → pick size a ≡ done none
unfolding pick
pick-none size a empty = rw (empty, pick) refl

-- With the free list of class 16 empty and every move of the break granted, `malloc` of a size for
-- which break, header and size pass 2 ^ 64 writes a header above the break, instead of returning
-- NULL: the sum wraps, and `sbrk` may even lower the break.
pub malloc-wraps :
    (grants : Grants) (size : ℕ) (a : Arena)
    → size < word
    → 2 ^ 18 < size
    → a.brk + meta_size < word
    → word ≤ a.brk + meta_size + size
    → a.heads 16 ≡ none
    → ((from to : ℕ) → grants from to ≡ true)
    → malloc grants size a ≡ fault
malloc-wraps grants size a below large room wraps empty granted =
    let class = large-class size large in
    malloc-pick grants size a none (omega (arith, large))
      (ap (λ (k : ℕ). tidy grants k a) class ∙ tidy-empty grants a empty)
      (pick-none size a (ap a.heads class ∙ empty))
    ∙ extend-wraps grants size a below room wraps granted
