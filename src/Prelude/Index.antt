-- ===== src/Prelude/Index.antt =====
-- Reading a list by index after it was written, cut, joined or mapped, in `if` form.
use Prim.Native.Nat.{ℕ, zero, suc, ◌+◌, ◌-◌, ◌<◌, ◌≤◌}
use mathlib.Core.Path.{◌≡◌, refl, ap, ◌∙◌}
use mathlib.Core.Bool.{◌&&◌}
use mathlib.Core.List.{List, [], ◌∷◌, ◌++◌, map, reverse, reverse-cons}
use mathlib.Core.Option.{none, some}
use mathlib.Core.Option
use native.Mathlib.Omega.{arith}
use native.Mathlib.Decide.{dec_lt}
use system_programming_uiuc.Prelude.Tests.{ltb, leb, ◌==◌, if◌then◌else◌}
use system_programming_uiuc.Prelude.Lists.{
  length, length-set, length-append, get_elem?, set, take, drop, replicate,
}

sub_eq_zero : (j i : ℕ) → j ≤ i → j - i ≡ 0
sub_eq_zero j i h = omega arith

module _ {ℓ} {A : Type ℓ} where
  pub get_elem?_lt : (xs : List A) (i : ℕ) → i < length xs → (x : A) × (get_elem? xs i ≡ some x)
  get_elem?_lt [] i h = absurd (omega arith)
  get_elem?_lt (x ∷ xs) zero h = (x, refl)
  get_elem?_lt (x ∷ xs) (suc i) h = get_elem?_lt xs i (omega arith)

  pub get_elem?_of_le : (xs : List A) (i : ℕ) → length xs ≤ i → get_elem? xs i ≡ none
  get_elem?_of_le [] i h = refl
  get_elem?_of_le (x ∷ xs) zero h = absurd (omega arith)
  get_elem?_of_le (x ∷ xs) (suc i) h = get_elem?_of_le xs i (omega arith)

  pub lt_of_get_elem? : (xs : List A) (i : ℕ) {x : A} → get_elem? xs i ≡ some x → i < length xs
  lt_of_get_elem? [] i h = absurd (ground arith)
  lt_of_get_elem? (x ∷ xs) zero h = omega arith
  lt_of_get_elem? (x ∷ xs) (suc i) h = omega (arith, lt_of_get_elem? xs i h)

  pub get_elem?-set :
      (xs : List A) (i : ℕ) (v : A) (j : ℕ)
      → i < length xs
      → get_elem? (set xs i v) j ≡ (if i == j then some v else get_elem? xs j)
  get_elem?-set [] i v j h = absurd (omega arith)
  get_elem?-set (x ∷ xs) zero v zero h = refl
  get_elem?-set (x ∷ xs) zero v (suc j) h = ground arith
  get_elem?-set (x ∷ xs) (suc i) v zero h = ground arith
  get_elem?-set (x ∷ xs) (suc i) v (suc j) h = ground (arith, get_elem?-set xs i v j)

  pub get_elem?-append :
      (xs ys : List A) (j : ℕ)
      → get_elem? (xs ++ ys) j
        ≡ (if ltb j (length xs) then get_elem? xs j else get_elem? ys (j - length xs))
  get_elem?-append [] ys j = ground arith
  get_elem?-append (x ∷ xs) ys zero = ground arith
  get_elem?-append (x ∷ xs) ys (suc j) = ground (arith, get_elem?-append xs ys j)

  pub get_elem?-take :
      (n : ℕ) (xs : List A) (j : ℕ)
      → get_elem? (take n xs) j ≡ (if ltb j n then get_elem? xs j else none)
  get_elem?-take zero xs j = ground arith
  get_elem?-take (suc n) [] j = ground arith
  get_elem?-take (suc n) (x ∷ xs) zero = ground arith
  get_elem?-take (suc n) (x ∷ xs) (suc j) = ground (arith, get_elem?-take n xs j)

  pub get_elem?-drop :
      (n : ℕ) (xs : List A) (j : ℕ) → get_elem? (drop n xs) j ≡ get_elem? xs (n + j)
  get_elem?-drop zero xs j = ap (get_elem? xs) (omega arith)
  get_elem?-drop (suc n) [] j = refl
  get_elem?-drop (suc n) (x ∷ xs) j = ground (arith, get_elem?-drop n xs j)

  -- An element put in front of position `n`.
  pub length-splice :
      (n : ℕ) (y : A) (xs : List A)
      → n ≤ length xs
      → length (take n xs ++ y ∷ drop n xs) ≡ length xs + 1
  length-splice zero y xs h = omega arith
  length-splice (suc n) y [] h = absurd (omega arith)
  length-splice (suc n) y (x ∷ xs) h = omega (arith, length-splice n y xs)

  pub get_elem?-splice :
      (n : ℕ) (y : A) (xs : List A) (j : ℕ)
      → n ≤ length xs
      → get_elem? (take n xs ++ y ∷ drop n xs) j
        ≡ (if ltb j n then get_elem? xs j else if j == n then some y else get_elem? xs (j - 1))
  get_elem?-splice zero y xs zero h = ground arith
  get_elem?-splice zero y xs (suc j) h = ground arith
  get_elem?-splice (suc n) y [] j h = absurd (omega arith)
  get_elem?-splice (suc n) y (x ∷ xs) zero h = ground arith
  get_elem?-splice (suc n) y (x ∷ xs) (suc zero) h = ground (arith, get_elem?-splice n y xs 0)
  get_elem?-splice (suc n) y (x ∷ xs) (suc (suc j)) h =
      ground (arith, get_elem?-splice n y xs (suc j))

  -- The elements of a list written one by one from an index on.
  abbrev pub overwrite : List A → ℕ → List A → List A
  overwrite [] i xs = xs
  overwrite (z ∷ zs) i xs = overwrite zs (i + 1) (set xs i z)

  pub length-overwrite :
      (zs : List A) (i : ℕ) (xs : List A) → length (overwrite zs i xs) ≡ length xs
  length-overwrite [] i xs = refl
  length-overwrite (z ∷ zs) i xs = length-overwrite zs (i + 1) (set xs i z) ∙ length-set xs i z

  pub get_elem?-overwrite :
      (zs : List A) (i : ℕ) (xs : List A) (j : ℕ)
      → i + length zs ≤ length xs
      → get_elem? (overwrite zs i xs) j
        ≡ (if leb i j && ltb j (i + length zs) then get_elem? zs (j - i) else get_elem? xs j)
  get_elem?-overwrite [] i xs j h = ground arith
  get_elem?-overwrite (z ∷ zs) i xs j h = elim (dec_lt i j) [
    | yes above ↦
        let next : j - i ≡ suc (j - (i + 1)) = omega arith in
        rw next (
          ground (
            arith,
            length-set xs i z,
            get_elem?-overwrite zs (i + 1) (set xs i z) j,
            get_elem?-set xs i z j,
          ))
    | no upto ↦ ground (
      arith,
      length-set xs i z,
      get_elem?-overwrite zs (i + 1) (set xs i z) j,
      get_elem?-set xs i z j,
      ap (get_elem? (z ∷ zs)) (sub_eq_zero j i (omega arith)),
    )
  ]

  pub length-reverse : (xs : List A) → length (reverse xs) ≡ length xs
  length-reverse [] = refl
  length-reverse (x ∷ xs) =
      rw reverse-cons (omega (arith, length-append (reverse xs) (x ∷ []), length-reverse xs))

  pub get_elem?-reverse :
      (xs : List A) (j : ℕ)
      → j < length xs
      → get_elem? (reverse xs) j ≡ get_elem? xs (length xs - 1 - j)
  get_elem?-reverse [] j h = absurd (omega arith)
  get_elem?-reverse (x ∷ xs) j h = elim (dec_lt j (length xs)) [
    | yes front ↦
        let back : suc (length xs) - 1 - j ≡ suc (length xs - 1 - j) = omega arith in
        rw (reverse-cons, back)
          (ground (
            arith,
            get_elem?-append (reverse xs) (x ∷ []) j,
            length-reverse xs,
            get_elem?-reverse xs j,
          ))
    | no last ↦
        let top : suc (length xs) - 1 - j ≡ 0 = omega arith in
        let first : j - length (reverse xs) ≡ 0 = omega (arith, length-reverse xs) in
        rw (reverse-cons, top, get_elem?-append, first) (ground (arith, length-reverse xs))
  ]

  pub get_elem?-map {κ} :
      {B : Type κ} (f : A → B) (xs : List A) (j : ℕ)
      → get_elem? (map f xs) j ≡ Option.map f (get_elem? xs j)
  get_elem?-map f [] j = refl
  get_elem?-map f (x ∷ xs) zero = refl
  get_elem?-map f (x ∷ xs) (suc j) = get_elem?-map f xs j

  pub get_elem?-replicate :
      (n : ℕ) (a : A) (j : ℕ) → get_elem? (replicate n a) j ≡ (if ltb j n then some a else none)
  get_elem?-replicate zero a j = ground arith
  get_elem?-replicate (suc n) a zero = ground arith
  get_elem?-replicate (suc n) a (suc j) = ground (arith, get_elem?-replicate n a j)
