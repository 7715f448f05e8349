-- ===== src/Minixfs/Rounds.antt =====
-- finding_filesystems/minixfs.c: the rounds of the loop of minixfs_read.
use native.Mathlib.Nat.{suc-mul}
use system_programming_uiuc.Prelude.{
  ℕ, zero, suc, ◌+◌, ◌-◌, ◌*◌, ◌≤◌, ◌<◌, ◌≡◌, ◌≢◌, refl, sym, ap, ◌∙◌, ◌⊎◌, inl, inr, some, List,
  [], ◌∷◌, ◌++◌, append_assoc, append-nil, arith, length, get_elem?, take, drop, ℕ_discrete,
}
use system_programming_uiuc.Prelude.Outcome.{done}
use system_programming_uiuc.Minixfs.{Inode, FileSystem, Sizes}
use system_programming_uiuc.Minixfs.Read.{
  Cursor, in_data, direct_place, read_place, read_size, copied, read_loop,
}
use system_programming_uiuc.Minixfs.Joined.{joined, Whole, chunk, drop-head}

-- A direct block is found.
read_place-direct :
    (z : Sizes) (node : Inode) (k b : ℕ)
    → get_elem? node.direct k ≡ some b
    → k ≤ z.num_direct_blocks
    → b < z.data_number
    → read_place z node k ≡ done b
unfolding read_place direct_place in_data
read_place-direct z node k b at le inside = ground (arith)

size-cases :
    (z : Sizes) (count : ℕ) (c : Cursor) (len : ℕ)
    → len ≡ z.block_bytes
    → ((count - c.read_byte ≤ len - c.block_remain) × (read_size z count c ≡ count - c.read_byte))
      ⊎ ((len - c.block_remain ≤ count - c.read_byte)
          × (read_size z count c ≡ len - c.block_remain))
unfolding read_size
size-cases z count c len e = ground arith

-- What is left to read lies in `bs`, the blocks from the cursor on.
abbrev pub Left : Sizes → FileSystem → Inode → ℕ → ℕ → Cursor → List ℕ → Type 0
Left z fs node fuel count c bs =
    (drop c.block_count node.direct ≡ bs)
    × Whole z fs bs
    × (c.read_byte ≤ count)
    × (count - c.read_byte ≤ fuel)
    × (c.block_remain < z.block_bytes)
    × (count - c.read_byte + c.block_remain ≤ length bs * z.block_bytes)

-- The loop ends with the bytes asked for.
abbrev pub Reads : Sizes → FileSystem → Inode → ℕ → ℕ → Cursor → List ℕ → Type 0
Reads z fs node fuel count c bs =
    (c' : Cursor) × (read_loop (suc fuel) z fs node count c ≡ done c')
    × (c'.buf ≡ c.buf ++ take (count - c.read_byte) (drop c.block_remain (joined fs.blocks bs)))
    × (c'.off ≡ c.off + (count - c.read_byte))
    × (c'.read_byte ≡ count)

loop-end :
    (fuel : ℕ) (z : Sizes) (fs : FileSystem) (node : Inode) (count : ℕ) (c : Cursor) (bs : List ℕ)
    → c.read_byte ≡ count
    → Reads z fs node fuel count c bs
unfolding read_loop
loop-end fuel z fs node count c bs e =
    let none_left : count - c.read_byte ≡ 0 = omega (arith, e) in
    (
      c,
      ground (arith),
      sym (
          ap (λ (k : ℕ). c.buf ++ take k (drop c.block_remain (joined fs.blocks bs))) none_left
          ∙ append-nil c.buf),
      omega (arith, none_left),
      e,
    )

loop-round :
    (fuel : ℕ) (z : Sizes) (fs : FileSystem) (node : Inode) (count : ℕ) (c : Cursor) (b : ℕ)
    → c.read_byte ≢ count
    → read_place z node c.block_count ≡ done b
    → read_loop (suc fuel) z fs node count c
      ≡ read_loop fuel z fs node count (copied fs b (read_size z count c) c)
unfolding read_loop
loop-round fuel z fs node count c b differ place = ground (arith)

-- A round ends with the block or with what is asked for.
round-count :
    (z : Sizes) (count : ℕ) (c : Cursor) (k n : ℕ)
    → c.read_byte ≢ count
    → c.read_byte ≤ count
    → c.block_remain < z.block_bytes
    → count - c.read_byte + c.block_remain ≤ suc k * z.block_bytes
    → ((count - c.read_byte ≤ z.block_bytes - c.block_remain) × (n ≡ count - c.read_byte))
      ⊎ ((z.block_bytes - c.block_remain ≤ count - c.read_byte)
          × (n ≡ z.block_bytes - c.block_remain))
    → (c.read_byte + n ≤ count) × (count - (c.read_byte + n) ≤ k * z.block_bytes) × (1 ≤ n)
round-count z count c k n differ le remain enough (inl (few, e)) =
    (omega (arith, e, le), omega (arith, e, le), omega (arith, e, le, differ))
round-count z count c k n differ le remain enough (inr (many, e)) = (
  omega (arith, e, le, many),
  omega (arith, e, le, many, enough, remain, suc-mul k z.block_bytes),
  omega (arith, e, remain),
)

-- A round leaves the rest of the blocks.
round-Left :
    (fuel : ℕ) (z : Sizes) (fs : FileSystem) (node : Inode) (count : ℕ) (c : Cursor) (b : ℕ)
    (bs : List ℕ)
    → c.read_byte ≢ count
    → Left z fs node (suc fuel) count c (b ∷ bs)
    → Left z fs node fuel count (copied fs b (read_size z count c) c) bs
unfolding copied Whole
round-Left fuel z fs node count c b bs differ
      (at, (inside, full, whole), le, fuel_le, remain, enough) =
    let sizes = size-cases z count c z.block_bytes refl in
    let counts =
      round-count z count c (length bs) (read_size z count c) differ le remain enough sizes in
    let next : c.block_count + 1 ≡ suc c.block_count = omega arith in
    (
      ap (λ (k : ℕ). drop k node.direct) next ∙ (drop-head c.block_count b node.direct bs at).1,
      whole,
      counts.0,
      omega (arith, fuel_le, differ, counts.2, counts.0),
      omega (arith, remain),
      omega (arith, counts.1),
    )

-- The bytes of a round and of the rounds after it.
round-buf :
    (z : Sizes) (fs : FileSystem) (count : ℕ) (c : Cursor) (b : ℕ) (bs : List ℕ)
    → length (fs.blocks b) ≡ z.block_bytes
    → c.block_remain < z.block_bytes
    → (copied fs b (read_size z count c) c).buf
        ++ take (count - (copied fs b (read_size z count c) c).read_byte) (joined fs.blocks bs)
      ≡ c.buf ++ take (count - c.read_byte) (drop c.block_remain (joined fs.blocks (b ∷ bs)))
unfolding copied joined
round-buf z fs count c b bs full remain =
    let n = read_size z count c in
    let rest : count - (c.read_byte + n) ≡ count - c.read_byte - n = omega arith in
    append_assoc c.buf (take n (drop c.block_remain (fs.blocks b)))
      (take (count - (c.read_byte + n)) (joined fs.blocks bs))
    ∙ ap (λ l. c.buf ++ l)
        (ap (λ (k : ℕ). take n (drop c.block_remain (fs.blocks b)) ++ take k (joined fs.blocks bs))
            rest
          ∙ sym (
              chunk (count - c.read_byte) c.block_remain n (fs.blocks b) (joined fs.blocks bs)
                (omega (arith, full, remain)) (size-cases z count c (length (fs.blocks b)) full)))

-- The loop copies the bytes asked for.
pub loop-Reads :
    (fuel : ℕ) (z : Sizes) (fs : FileSystem) (node : Inode) (count : ℕ) (c : Cursor) (bs : List ℕ)
    → length node.direct ≤ z.num_direct_blocks
    → Left z fs node fuel count c bs
    → Reads z fs node fuel count c bs
unfolding Whole joined copied
loop-Reads zero z fs node count c bs fits (at, whole, le, fuel_le, remain, enough) =
    loop-end zero z fs node count c bs (omega (arith, le, fuel_le))
loop-Reads (suc fuel) z fs node count c [] fits (at, whole, le, fuel_le, remain, enough) =
    loop-end (suc fuel) z fs node count c [] (omega (arith, le, enough))
loop-Reads (suc fuel) z fs node count c (b ∷ bs) fits (at, whole, le, fuel_le, remain, enough) =
    elim (ℕ_discrete c.read_byte count) [
      | yes e ↦ loop-end (suc fuel) z fs node count c (b ∷ bs) e
      | no differ ↦
          let head = drop-head c.block_count b node.direct bs at in
          let left =
            round-Left fuel z fs node count c b bs differ
              (at, whole, le, fuel_le, remain, enough) in
          let place =
            read_place-direct z node c.block_count b head.0 (omega (arith, head.2, fits)) whole.0 in
          let (c', run, bytes, moved, all) =
            loop-Reads fuel z fs node count (copied fs b (read_size z count c) c) bs fits left in
          (
            c',
            loop-round (suc fuel) z fs node count c b differ place ∙ run,
            bytes ∙ round-buf z fs count c b bs whole.1 remain,
            moved ∙ omega (arith, left.2),
            all,
          )
    ]
