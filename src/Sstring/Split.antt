-- ===== src/Sstring/Split.antt =====
-- vector/sstring.c: the pieces of sstring_split put together again.
use system_programming_uiuc.Prelude.{
  ℕ, zero, suc, ◌+◌, ◌≤◌, ◌<◌, ◌≡◌, ◌≢◌, refl, sym, ap, ◌∙◌, ◌⊎◌, inl, inr, Bool, true, false, none,
  some, List, [], ◌∷◌, ◌++◌, append_assoc, append-nil, arith, ◌==◌, Bool-cases, length,
}
use system_programming_uiuc.Prelude.Outcome.{done}
use system_programming_uiuc.Sstring.{Text, token, split_loop, sstring_split}

-- The delimiter does not occur.
unfoldable pub Without : ℕ → Text → Type 0
Without d [] = Unit
Without d (c ∷ cs) = (c ≢ d) × Without d cs

unfoldable pub AllWithout : ℕ → List Text → Type 0
AllWithout d [] = Unit
AllWithout d (p ∷ ps) = Without d p × AllWithout d ps

-- Each piece with a delimiter behind it.
unfoldable pub terminated : ℕ → List Text → Text
terminated d [] = []
terminated d (p ∷ ps) = p ++ d ∷ terminated d ps

differ : (c d : ℕ) → (c == d) ≡ false → c ≢ d
differ c d h = ground arith

agree : (c d : ℕ) → (c == d) ≡ true → c ≡ d
agree c d h = ground arith

record Found (d : ℕ) (s before behind : Text) : Type 0 where
  pub whole : s ≡ before ++ d ∷ behind
  pub without : Without d before
  pub shorter : length behind < length s

token-cases :
    (s : Text) (d : ℕ)
    → ((token s d ≡ none) × Without d s)
      ⊎ ((b : Text × Text) × (token s d ≡ some b) × Found d s b.0 b.1)
unfolding token Without
token-cases [] d = inl (refl, tt)
token-cases (c ∷ cs) d = elim (Bool-cases (c == d)) [
  | inl hit ↦ inr (
    ([], cs),
    rw hit refl,
    record { whole = ap (λ e. e ∷ cs) (agree c d hit); without = tt; shorter = omega arith },
  )
  | inr miss ↦ elim (token-cases cs d) [
    | inl (no_token, free) ↦ inl (rw (miss, no_token) refl, (differ c d miss, free))
    | inr (b, at, found) ↦ inr (
      (c ∷ b.0, b.1),
      rw (miss, at) refl,
      record {
        whole = ap (λ l. c ∷ l) found.whole;
        without = (differ c d miss, found.without);
        shorter = omega (arith, found.shorter);
      },
    )
  ]
]

split_loop-last :
    (malloc : ℕ → Bool) (d fuel c : ℕ) (cs : Text) (out : List Text)
    → token (c ∷ cs) d ≡ none
    → split_loop malloc d (suc fuel) (c ∷ cs) out ≡ done (some (out ++ (c ∷ cs) ∷ []))
unfolding split_loop
split_loop-last malloc d fuel c cs out at = rw (at, split_loop) refl

split_loop-more :
    (malloc : ℕ → Bool) (d fuel c : ℕ) (cs : Text) (out : List Text) (before behind : Text)
    → token (c ∷ cs) d ≡ some (before, behind)
    → malloc (length before + 1) ≡ true
    → split_loop malloc d (suc fuel) (c ∷ cs) out
      ≡ split_loop malloc d fuel behind (out ++ before ∷ [])
unfolding split_loop
split_loop-more malloc d fuel c cs out before behind at room = rw (at, room, split_loop) refl

no_round : {n : ℕ} → suc n ≤ 0 → ⊥
no_round h = omega (arith, h)

-- What the loop gives for the rest `s` of the string.
abbrev Rest : ℕ → Text → List Text → Type 0
Rest d s ps = AllWithout d ps × ((terminated d ps ≡ s) ⊎ (terminated d ps ≡ s ++ d ∷ []))

Rest-more :
    (d : ℕ) (s before behind : Text) (ps : List Text)
    → Found d s before behind
    → Rest d behind ps
    → Rest d s (before ∷ ps)
unfolding AllWithout terminated
Rest-more d s before behind ps found rest = (
  (found.without, rest.0),
  elim rest.1 [
    | inl e ↦ inl (ap (λ l. before ++ d ∷ l) e ∙ sym found.whole)
    | inr e ↦ inr (
        ap (λ l. before ++ d ∷ l) e
        ∙ sym (append_assoc before (d ∷ behind) (d ∷ []))
        ∙ ap (λ l. l ++ d ∷ []) (sym found.whole))
  ],
)

split_loop-Rest :
    (malloc : ℕ → Bool) (d fuel : ℕ) (s : Text) (out : List Text)
    → ((n : ℕ) → malloc n ≡ true)
    → length s ≤ fuel
    → (ps : List Text) × (split_loop malloc d fuel s out ≡ done (some (out ++ ps))) × Rest d s ps
unfolding AllWithout terminated
split_loop-Rest malloc d fuel [] out room le =
    ([], unfold split_loop in ap (λ l. done (some l)) (sym (append-nil out)), (tt, inl refl))
split_loop-Rest malloc d zero (c ∷ cs) out room le = elim (no_round le) [ ]
split_loop-Rest malloc d (suc fuel) (c ∷ cs) out room le = elim (token-cases (c ∷ cs) d) [
  | inl (at, free) ↦
      ((c ∷ cs) ∷ [], split_loop-last malloc d fuel c cs out at, ((free, tt), inr refl))
  | inr (b, at, found) ↦
      let (ps, e, rest) =
        split_loop-Rest malloc d fuel b.1 (out ++ b.0 ∷ []) room
          (omega (arith, le, found.shorter)) in
      (
        b.0 ∷ ps,
        split_loop-more malloc d fuel c cs out b.0 b.1 at (room (length b.0 + 1))
            ∙ e
            ∙ ap (λ l. done (some l)) (append_assoc out (b.0 ∷ []) ps),
        Rest-more d (c ∷ cs) b.0 b.1 ps found rest,
      )
]

-- `sstring_split`, when every `malloc` succeeds, ends with pieces in which the delimiter does not
-- occur; the pieces, each with a delimiter behind it, are the string, or the string and one more
-- delimiter.
pub sstring_split-terminated :
    (malloc : ℕ → Bool) (s : Text) (d : ℕ)
    → ((n : ℕ) → malloc n ≡ true)
    → (ps : List Text) × (sstring_split malloc s d ≡ done (some ps))
      × AllWithout d ps
      × ((terminated d ps ≡ s) ⊎ (terminated d ps ≡ s ++ d ∷ []))
unfolding sstring_split
sstring_split-terminated malloc s d room =
    let (ps, e, rest) = split_loop-Rest malloc d (length s) s [] room (omega arith) in
    (ps, e, rest.0, rest.1)
