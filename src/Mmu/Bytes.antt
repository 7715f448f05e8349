-- ===== src/Mmu/Bytes.antt =====
-- ideal_indirection/mmu.c: the two calls of memcpy.
use system_programming_uiuc.Prelude.{
  ℕ, zero, suc, ◌+◌, ◌≤◌, ◌≡◌, refl, List, [], ◌∷◌, length, update, update-same, update-other,
  arith,
}
use system_programming_uiuc.Mmu.{load_bytes, store_bytes}

load_bytes-alike :
    (n : ℕ) (f g : ℕ → ℕ) (offset : ℕ)
    → ((i : ℕ) → offset ≤ i → f i ≡ g i)
    → load_bytes f offset n ≡ load_bytes g offset n
unfolding load_bytes
load_bytes-alike zero f g offset same = refl
load_bytes-alike (suc n) f g offset same =
    let head = same offset (omega arith) in
    let tail = load_bytes-alike n f g (offset + 1) (λ i h. same i (omega arith)) in cc

pub read-store_bytes :
    (buffer : List ℕ) (frame : ℕ → ℕ) (offset : ℕ)
    → load_bytes (store_bytes frame offset buffer) offset (length buffer) ≡ buffer
unfolding load_bytes store_bytes
read-store_bytes [] frame offset = refl
read-store_bytes (b ∷ buffer) frame offset =
    let rest = store_bytes frame (offset + 1) buffer in
    let head = update-same rest offset b in
    let tail =
      load_bytes-alike (length buffer) (update rest offset b) rest (offset + 1)
        (λ i h. update-other rest offset i b (λ e. absurd (omega arith))) in
    let same = read-store_bytes buffer frame (offset + 1) in cc
