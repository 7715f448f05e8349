-- ===== src/Malloc/Links.antt =====
-- malloc/alloc.c: doubly linked lists in the headers, as segments.
pub use system_programming_uiuc.Prelude.{update-same, update-other}
use system_programming_uiuc.Prelude.{
  ℕ, ◌≡◌, ◌≢◌, refl, sym, ap, subst, ◌∙◌, Bool, true, false, Option, some, List, [], ◌∷◌, ◌++◌,
  some_inj,
}
use system_programming_uiuc.Malloc.{Meta, update, get_index}

abbrev pub Headers : Type 0
Headers = ℕ → Option Meta

unfoldable pub first_or : Option ℕ → List ℕ → Option ℕ
first_or q [] = q
first_or q (x ∷ xs) = some x

unfoldable pub last_or : Option ℕ → List ℕ → Option ℕ
last_or q [] = q
last_or q (x ∷ xs) = last_or (some x) xs

unfoldable pub Apart : ℕ → List ℕ → Type 0
Apart a [] = Unit
Apart a (x ∷ xs) = (a ≢ x) × Apart a xs

unfoldable pub Distinct : List ℕ → Type 0
unfolding Apart
Distinct [] = Unit
Distinct (x ∷ xs) = Apart x xs × Distinct xs

-- A free block of a class between its neighbours.
pub record Node (i : ℕ) (prev next : Option ℕ) (m : Meta) : Type 0 where
  pub of_class : get_index m.size ≡ i
  pub free : m.is_free ≡ true
  pub prev_is : m.prev ≡ prev
  pub next_is : m.next ≡ next

-- The blocks `xs` of class `i`, linked both ways, between `prev` and `next`.
unfoldable pub Seg : Headers → ℕ → Option ℕ → List ℕ → Option ℕ → Type 0
unfolding first_or
Seg h i prev [] next = Unit
Seg h i prev (x ∷ xs) next =
    ((m : Meta) × (h x ≡ some m) × Node i prev (first_or next xs) m) × Seg h i (some x) xs next

pub Seg-update :
    (h : Headers) (i : ℕ) (p : ℕ) (v : Option Meta) (prev : Option ℕ) (xs : List ℕ)
    (next : Option ℕ)
    → Apart p xs
    → Seg h i prev xs next
    → Seg (update h p v) i prev xs next
unfolding Seg Apart
Seg-update h i p v prev [] next ne s = tt
Seg-update h i p v prev (x ∷ xs) next ne s = (
  (s.0.0, update-other h p x v ne.0 ∙ s.0.1, s.0.2),
  Seg-update h i p v (some x) xs next ne.1 s.1,
)

-- A header of another class is none of the list's.
pub class-Apart :
    (h : Headers) (i p : ℕ) (m : Meta) (prev : Option ℕ) (xs : List ℕ) (next : Option ℕ)
    → h p ≡ some m
    → get_index m.size ≢ i
    → Seg h i prev xs next
    → Apart p xs
unfolding Seg Apart
class-Apart h i p m prev [] next at ne s = tt
class-Apart h i p m prev (x ∷ xs) next at ne s = (
  λ same. ne (
      ap (λ (k : Meta). get_index k.size) (some_inj (sym at ∙ ap h same ∙ s.0.1)) ∙ s.0.2.of_class),
  class-Apart h i p m (some x) xs next at ne s.1,
)

clash : {b : Bool} → b ≡ false → b ≡ true → ⊥
clash p q = cc

-- A header that is not free is none of the list's.
pub live-Apart :
    (h : Headers) (i p : ℕ) (m : Meta) (prev : Option ℕ) (xs : List ℕ) (next : Option ℕ)
    → h p ≡ some m
    → m.is_free ≡ false
    → Seg h i prev xs next
    → Apart p xs
unfolding Seg Apart
live-Apart h i p m prev [] next at live s = tt
live-Apart h i p m prev (x ∷ xs) next at live s = (
  λ same.
      clash live
        (ap (λ (k : Meta). k.is_free) (some_inj (sym at ∙ ap h same ∙ s.0.1)) ∙ s.0.2.free),
  live-Apart h i p m (some x) xs next at live s.1,
)

first_or-append :
    (q : Option ℕ) (ys zs : List ℕ) → first_or q (ys ++ zs) ≡ first_or (first_or q zs) ys
unfolding first_or
first_or-append q [] zs = refl
first_or-append q (y ∷ ys) zs = refl

pub Seg-split :
    (h : Headers) (i : ℕ) (prev : Option ℕ) (ys zs : List ℕ) (next : Option ℕ)
    → Seg h i prev (ys ++ zs) next
    → Seg h i prev ys (first_or next zs) × Seg h i (last_or prev ys) zs next
unfolding Seg last_or first_or
Seg-split h i prev [] zs next s = (tt, s)
Seg-split h i prev (y ∷ ys) zs next s =
    let rest = Seg-split h i (some y) ys zs next s.1 in
    (
      ((s.0.0, s.0.1, subst (λ q. Node i prev q s.0.0) (first_or-append next ys zs) s.0.2), rest.0),
      rest.1,
    )

pub Seg-join :
    (h : Headers) (i : ℕ) (prev : Option ℕ) (ys zs : List ℕ) (next : Option ℕ)
    → Seg h i prev ys (first_or next zs)
    → Seg h i (last_or prev ys) zs next
    → Seg h i prev (ys ++ zs) next
unfolding Seg last_or first_or
Seg-join h i prev [] zs next s t = t
Seg-join h i prev (y ∷ ys) zs next s t = (
  (s.0.0, s.0.1, subst (λ q. Node i prev q s.0.0) (sym (first_or-append next ys zs)) s.0.2),
  Seg-join h i (some y) ys zs next s.1 t,
)

pub Apart-append : (a : ℕ) (ys zs : List ℕ) → Apart a ys → Apart a zs → Apart a (ys ++ zs)
unfolding Apart
Apart-append a [] zs p q = q
Apart-append a (y ∷ ys) zs p q = (p.0, Apart-append a ys zs p.1 q)

pub Apart-split : (a : ℕ) (ys zs : List ℕ) → Apart a (ys ++ zs) → Apart a ys × Apart a zs
unfolding Apart
Apart-split a [] zs p = (tt, p)
Apart-split a (y ∷ ys) zs p = let rest = Apart-split a ys zs p.1 in ((p.0, rest.0), rest.1)

-- An entry of a list without repetition is none of the others.
pub Distinct-middle :
    (ys : List ℕ) (x : ℕ) (zs : List ℕ)
    → Distinct (ys ++ x ∷ zs)
    → Apart x ys × Apart x zs × Distinct (ys ++ zs)
unfolding Distinct Apart
Distinct-middle [] x zs d = (tt, d.0, d.1)
Distinct-middle (y ∷ ys) x zs d =
    let rest = Distinct-middle ys x zs d.1 in
    let apart = Apart-split y ys (x ∷ zs) d.0 in
    (
      (λ same. apart.1.0 (sym same), rest.0),
      rest.1,
      (Apart-append y ys zs apart.0 apart.1.1, rest.2),
    )
