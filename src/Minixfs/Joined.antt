-- ===== src/Minixfs/Joined.antt =====
-- finding_filesystems/minixfs.c: the bytes of the blocks of a file.
use native.Mathlib.Nat.{suc-mul}
use system_programming_uiuc.Prelude.{
  ℕ, zero, suc, ◌+◌, ◌-◌, ◌*◌, ◌≤◌, ◌<◌, ◌≡◌, refl, sym, ap, ◌∙◌, ◌⊎◌, inl, inr, some, List, [],
  ◌∷◌, ◌++◌, arith, length, get_elem?, take, drop, length-drop,
}
use system_programming_uiuc.Minixfs.{FileSystem, Sizes}

-- The bytes of the blocks, one after the other.
unfoldable pub joined : (ℕ → List ℕ) → List ℕ → List ℕ
joined blocks [] = []
joined blocks (b ∷ bs) = blocks b ++ joined blocks bs

-- Each block lies in the data and has the full size.
unfoldable pub Whole : Sizes → FileSystem → List ℕ → Type 0
Whole z fs [] = Unit
Whole z fs (b ∷ bs) = (b < z.data_number) × (length (fs.blocks b) ≡ z.block_bytes) × Whole z fs bs

no_round : {n : ℕ} → suc n ≤ 0 → ⊥
no_round h = omega (arith, h)

take-nil : (n : ℕ) → take {A = ℕ} n [] ≡ []
take-nil zero = refl
take-nil (suc n) = refl

drop-append : (r : ℕ) (xs ys : List ℕ) → r ≤ length xs → drop r (xs ++ ys) ≡ drop r xs ++ ys
drop-append zero xs ys le = refl
drop-append (suc r) [] ys le = elim (no_round le) [ ]
drop-append (suc r) (x ∷ xs) ys le = drop-append r xs ys (omega (arith, le))

drop-past : (m : ℕ) (xs ys : List ℕ) → drop (length xs + m) (xs ++ ys) ≡ drop m ys
drop-past m [] ys = ap (λ (k : ℕ). drop k ys) (omega arith)
drop-past m (x ∷ xs) ys =
    let e : suc (length xs) + m ≡ suc (length xs + m) = omega arith in
    ap (λ (k : ℕ). drop k (x ∷ (xs ++ ys))) e ∙ drop-past m xs ys

-- The same number of bytes.
take_count : {n m : ℕ} (ys : List ℕ) → n ≡ m → take n ys ≡ take m ys
take_count ys e = ap (λ (k : ℕ). take k ys) e

take-append : (n : ℕ) (xs ys : List ℕ) → take n (xs ++ ys) ≡ take n xs ++ take (n - length xs) ys
take-append zero [] ys = refl
take-append zero (x ∷ xs) ys = take_count {n = 0} {m = 0 - suc (length xs)} ys (omega arith)
take-append (suc n) [] ys = take_count {n = suc n} {m = suc n - 0} ys (omega arith)
take-append (suc n) (x ∷ xs) ys =
    let e : n - length xs ≡ suc n - suc (length xs) = omega arith in
    ap (λ l. x ∷ l) (take-append n xs ys ∙ ap (λ (k : ℕ). take n xs ++ take k ys) e)

take-all : (n : ℕ) (xs : List ℕ) → length xs ≤ n → take n xs ≡ take (length xs) xs
take-all n [] le = take-nil n
take-all zero (x ∷ xs) le = elim (no_round le) [ ]
take-all (suc n) (x ∷ xs) le = ap (λ l. x ∷ l) (take-all n xs (omega (arith, le)))

-- One round's bytes and those of the rest of the blocks.
pub chunk :
    (n r m : ℕ) (xs ys : List ℕ)
    → r ≤ length xs
    → ((n ≤ length xs - r) × (m ≡ n)) ⊎ ((length xs - r ≤ n) × (m ≡ length xs - r))
    → take n (drop r (xs ++ ys)) ≡ take m (drop r xs) ++ take (n - m) ys
chunk n r m xs ys le (inl (few, e)) =
    ap (take n) (drop-append r xs ys le)
    ∙ take-append n (drop r xs) ys
    ∙ ap (λ k. take n (drop r xs) ++ take k ys) (omega (arith, few, e, length-drop r xs))
    ∙ ap (λ k. take k (drop r xs) ++ take (n - m) ys) (sym e)
chunk n r m xs ys le (inr (many, e)) =
    ap (take n) (drop-append r xs ys le)
    ∙ take-append n (drop r xs) ys
    ∙ ap (λ k. take n (drop r xs) ++ take k ys) (omega (arith, e, length-drop r xs))
    ∙ ap (λ l. l ++ take (n - m) ys)
        (take-all n (drop r xs) (omega (arith, many, length-drop r xs))
          ∙ ap (λ k. take k (drop r xs)) (length-drop r xs ∙ sym e))

pub drop-head :
    (k b : ℕ) (l bs : List ℕ)
    → drop k l ≡ b ∷ bs
    → (get_elem? l k ≡ some b) × (drop (suc k) l ≡ bs) × (k < length l)
drop-head zero b [] bs e = cc
drop-head zero b (x ∷ l) bs e = (cc, cc, omega arith)
drop-head (suc k) b [] bs e = cc
drop-head (suc k) b (x ∷ l) bs e =
    let rest = drop-head k b l bs e in (rest.0, rest.1, omega (arith, rest.2))

-- The offset is that of the first block and the place in it.
pub joined-drop :
    (fs : FileSystem) (z : Sizes) (k r : ℕ) (bs : List ℕ)
    → Whole z fs bs
    → k ≤ length bs
    → drop (k * z.block_bytes + r) (joined fs.blocks bs) ≡ drop r (joined fs.blocks (drop k bs))
unfolding joined Whole
joined-drop fs z zero r bs whole le = ap (λ (k : ℕ). drop k (joined fs.blocks bs)) (omega arith)
joined-drop fs z (suc k) r [] whole le = elim (no_round le) [ ]
joined-drop fs z (suc k) r (b ∷ bs) (inside, full, whole) le =
    let e : suc k * z.block_bytes + r ≡ length (fs.blocks b) + (k * z.block_bytes + r) =
      omega (arith, full, suc-mul k z.block_bytes) in
    ap (λ (k : ℕ). drop k (fs.blocks b ++ joined fs.blocks bs)) e
    ∙ drop-past (k * z.block_bytes + r) (fs.blocks b) (joined fs.blocks bs)
    ∙ joined-drop fs z k r bs whole (omega (arith, le))

pub Whole-drop :
    (fs : FileSystem) (z : Sizes) (k : ℕ) (bs : List ℕ) → Whole z fs bs → Whole z fs (drop k bs)
unfolding Whole
Whole-drop fs z zero bs whole = whole
Whole-drop fs z (suc k) [] whole = tt
Whole-drop fs z (suc k) (b ∷ bs) (inside, full, whole) = Whole-drop fs z k bs whole
