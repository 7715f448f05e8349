-- ===== src/Prelude/Updates.antt =====
-- A function that is changed at one number: arrays, heaps and families indexed by thread.
use Prim.Native.Nat.{ℕ}
use mathlib.Core.Path.{◌≡◌, refl}
use mathlib.Core.Logic.{◌≢◌}
use system_programming_uiuc.Prelude.Tests.{◌==◌, if◌then◌else◌, eq-true, eq-false}

abbrev pub update {ℓ} : {A : Type ℓ} → (ℕ → A) → ℕ → A → ℕ → A
update f i a j = if i == j then a else f j

pub update-same {ℓ} : {A : Type ℓ} (f : ℕ → A) (i : ℕ) (a : A) → update f i a i ≡ a
update-same f i a = rw (eq-true i i refl) refl

pub update-other {ℓ} : {A : Type ℓ} (f : ℕ → A) (i j : ℕ) (a : A) → i ≢ j → update f i a j ≡ f j
update-other f i j a ne = rw (eq-false i j ne) refl
