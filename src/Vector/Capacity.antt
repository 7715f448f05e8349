-- ===== src/Vector/Capacity.antt =====
-- vector/vector.c, get_new_capacity: what it returns and when it returns.
use system_programming_uiuc.Prelude.{
  ℕ, zero, suc, ◌*◌, ◌%◌, ◌^◌, ◌≤◌, ◌<◌, ◌≡◌, refl, ap, ◌∙◌, ◌⊎◌, inl, inr, arith, dec_lt,
}
use system_programming_uiuc.Prelude.Outcome.{done, no_fuel}
use native.Mathlib.Nat.{pow-suc, pow-zero}
use system_programming_uiuc.Vector.Slots.{word, pointer_size}
use system_programming_uiuc.Vector.State.{capacity_loop, get_new_capacity, grow_fuel}

-- `c` is the least power of the growth factor that is not below `target`.
abbrev pub IsCapacity : ℕ → ℕ → Type 0
IsCapacity target c = (e : ℕ) × (c ≡ 2 ^ e) × (target ≤ c) × ((c ≡ 1) ⊎ (c < 2 * target))

capacity_loop-more :
    (f n target : ℕ)
    → n < target
    → capacity_loop (suc f) n target ≡ capacity_loop f (n * 2 % word) target
unfolding capacity_loop
capacity_loop-more f n target h = ground arith

capacity_loop-stop : (f n target : ℕ) → target ≤ n → capacity_loop (suc f) n target ≡ done n
unfolding capacity_loop
capacity_loop-stop f n target h = ground arith

-- Fuel `suc f` is enough from `n` when `f` doublings reach the target.
capacity_loop-done :
    (f e n target : ℕ)
    → n ≡ 2 ^ e
    → target ≤ n * 2 ^ f
    → target ≤ 2 ^ 63
    → (n ≡ 1) ⊎ (n < 2 * target)
    → (c : ℕ) × (capacity_loop (suc f) n target ≡ done c) × IsCapacity target c
capacity_loop-done zero e n target power enough small low =
    let over : target ≤ n = omega (arith, pow-zero 2) in
    (n, capacity_loop-stop zero n target over, (e, power, over, low))
capacity_loop-done (suc f) e n target power enough small low = elim (dec_lt n target) [
  | yes more ↦
      let double : n * 2 % word ≡ n * 2 = omega arith in
      rw (capacity_loop-more (suc f) n target more, double)
        (capacity_loop-done f (suc e) (n * 2) target (omega (arith, pow-suc 2 e))
          (omega (arith, ap (λ (t : ℕ). n * t) (pow-suc 2 f))) small (inr (omega arith)))
  | no stop ↦
      let over : target ≤ n = omega arith in
      (n, capacity_loop-stop (suc f) n target over, (e, power, over, low))
]

-- For a target of at most 2 ^ 63, `get_new_capacity` returns the least power of two that is not
-- below the target, and 65 rounds of its loop are enough.
pub get_new_capacity-done :
    (target : ℕ)
    → target ≤ 2 ^ 63
    → (c : ℕ) × (get_new_capacity grow_fuel target ≡ done c) × IsCapacity target c
unfolding get_new_capacity
get_new_capacity-done target small =
    capacity_loop-done 64 0 1 target refl (omega arith) small (inl refl)

-- A word that the loop visits: 0, or a power of two of at most 2 ^ 63.
Visited : ℕ → Type 0
Visited n = (n ≡ 0) ⊎ ((k : ℕ) × (n * 2 ^ k ≡ 2 ^ 63))

le-shifted : (n k : ℕ) → n ≤ n * 2 ^ k
le-shifted n zero = omega (arith, pow-zero 2)
le-shifted n (suc k) = omega (arith, le-shifted n k, ap (λ (t : ℕ). n * t) (pow-suc 2 k))

-- `n * 2` stands for one more halving of the same product.
shift-double : (n k : ℕ) → n * 2 * 2 ^ k ≡ n * 2 ^ suc k
shift-double n k = omega (arith, ap (λ (t : ℕ). n * t) (pow-suc 2 k))

Visited-le : (n : ℕ) → Visited n → n ≤ 2 ^ 63
unfolding Visited
Visited-le n (inl e) = omega arith
Visited-le n (inr (k, e)) = omega (arith, le-shifted n k)

Visited-double : (n : ℕ) → Visited n → Visited (n * 2 % word)
unfolding Visited
Visited-double n (inl e) = inl (omega arith)
Visited-double n (inr (zero, e)) = inl (omega (arith, pow-zero 2))
Visited-double n (inr (suc k, e)) =
    let same : n * 2 * 2 ^ k ≡ 2 ^ 63 = shift-double n k ∙ e in
    let fits : n * 2 % word ≡ n * 2 = omega (arith, le-shifted (n * 2) k) in inr (k, rw fits same)

capacity_loop-no_fuel :
    (f n target : ℕ) → Visited n → 2 ^ 63 < target → capacity_loop f n target ≡ no_fuel
unfolding capacity_loop
capacity_loop-no_fuel zero n target v big = refl
capacity_loop-no_fuel (suc f) n target v big =
    capacity_loop-more f n target (omega (arith, Visited-le n v))
    ∙ capacity_loop-no_fuel f (n * 2 % word) target (Visited-double n v) big

-- For a target above 2 ^ 63 the doubled word wraps to 0, and `get_new_capacity` never returns:
-- no number of rounds is enough.
pub get_new_capacity-diverges :
    (fuel target : ℕ) → 2 ^ 63 < target → get_new_capacity fuel target ≡ no_fuel
unfolding get_new_capacity Visited
get_new_capacity-diverges fuel target big = capacity_loop-no_fuel fuel 1 target (inr (63, refl)) big

-- The capacity that a full vector, or a larger request, gets.
pub grow_fits :
    (target : ℕ)
    → 0 < target
    → target ≤ 2 ^ 60
    → (c : ℕ) × (get_new_capacity grow_fuel target ≡ done c)
      × (target ≤ c)
      × (c * pointer_size < word)
grow_fits target positive small =
    let (c, e, (_, _, big, low)) = get_new_capacity-done target (omega arith) in
    (c, e, big, omega arith)
