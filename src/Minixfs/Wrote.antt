-- ===== src/Minixfs/Wrote.antt =====
-- finding_filesystems/minixfs.c: minixfs_write, and minixfs_read of what it wrote.
use native.Mathlib.Nat.{suc-mul}
use system_programming_uiuc.Prelude.{
  ℕ, ◌+◌, ◌*◌, ◌^◌, ◌≤◌, ◌<◌, ◌≡◌, refl, sym, ap, subst, ◌∙◌, true, List, [], ◌∷◌, ◌++◌,
  append_assoc, length-append, length-drop, arith, length, take, drop, eq-true, eq-false,
  ℕ_discrete,
}
use system_programming_uiuc.Prelude.Outcome.{Outcome, done}
use system_programming_uiuc.Minixfs.{Inode, FileSystem, Sizes, Result, ok, put_inode}
use system_programming_uiuc.Minixfs.Read.{ReadAnswer, read_inode, clipped}
use system_programming_uiuc.Minixfs.Create.{put_block}
use system_programming_uiuc.Minixfs.Joined.{joined, Whole}
use system_programming_uiuc.Minixfs.Contents.{read_inode-contents}
use system_programming_uiuc.Minixfs.Write.{MinBlockcount, write_inode}
use system_programming_uiuc.Minixfs.WriteEmpty.{written, write_empty}

take-front : (xs ys : List ℕ) → take (length xs) (xs ++ ys) ≡ xs
take-front [] ys = refl
take-front (x ∷ xs) ys = ap (λ l. x ∷ l) (take-front xs ys)

-- A write of a whole block keeps the blocks whole.
written-Whole :
    (z : Sizes) (i b now : ℕ) (bs buf : List ℕ) (fs : FileSystem)
    → length (fs.blocks b) ≡ z.block_bytes
    → length buf ≤ z.block_bytes
    → Whole z fs bs
    → Whole z (written i b now buf fs) bs
unfolding Whole put_inode put_block
written-Whole z i b now [] buf fs full fits whole = tt
written-Whole z i b now (c ∷ bs) buf fs full fits (inside, size, whole) = (
  inside,
  elim (ℕ_discrete b c) [
    | yes e ↦ rw (eq-true b c e) (
        length-append buf (drop (length buf) (fs.blocks b))
        ∙ omega (arith, length-drop (length buf) (fs.blocks b), full, fits))
    | no differ ↦ rw (eq-false b c differ) size
  ],
  written-Whole z i b now bs buf fs full fits whole,
)

-- The inode after the write.
written-inode :
    (i b now : ℕ) (buf : List ℕ) (fs : FileSystem)
    → (written i b now buf fs).inodes i
      ≡ record (fs.inodes i) { size = length buf; mtim = now; atim = now }
unfolding put_inode put_block
written-inode i b now buf fs = rw (eq-true i i refl) refl

clipped-all : (size count n : ℕ) → size ≡ n → n ≤ count → count < 2 ^ 64 → clipped size count 0 ≡ n
unfolding clipped
clipped-all size count n e le fits = ground arith

abbrev told : FileSystem → ℕ → List ℕ → ℕ → Outcome (Result ReadAnswer × FileSystem)
told fs n bytes off = done (ok (record { returned = n; bytes = bytes; offset = off }), fs)

-- The first bytes of the file are those written.
first-read :
    (i b now : ℕ) (bs buf : List ℕ) (fs : FileSystem)
    → take (length buf) (joined (written i b now buf fs).blocks (b ∷ bs)) ≡ buf
unfolding joined put_inode put_block
first-read i b now bs buf fs =
    rw (eq-true b b refl)
      (ap (λ (l : List ℕ). take (length buf) l) (append_assoc buf _ _) ∙ take-front buf _)

-- Into a file of size 0 that has a block already, and whose blocks are all direct,
-- `num_direct_blocks` at most and of full size, a write at offset 0 of one to `block_bytes` bytes
-- returns their number and moves the offset past them, when `minixfs_min_blockcount` of 0 succeeds and
-- changes nothing; a read of as many bytes or more, fewer than 2 ^ 64, from offset 0 then returns
-- exactly these bytes.
pub write_inode-read :
    (z : Sizes) (min_blockcount : MinBlockcount) (i b now later count : ℕ) (bs buf : List ℕ)
    (fs : FileSystem)
    → (fs.inodes i).size ≡ 0
    → (fs.inodes i).direct ≡ b ∷ bs
    → Whole z fs (b ∷ bs)
    → length (b ∷ bs) ≤ z.num_direct_blocks
    → 0 < length buf
    → length buf ≤ z.block_bytes
    → length buf ≤ count
    → count < 2 ^ 64
    → min_blockcount fs 0 ≡ (true, fs)
    → (fs' : FileSystem) × (fs'' : FileSystem) × (write_inode z min_blockcount i buf 0 now fs
        ≡ done (ok (length buf), length buf, fs'))
      × (read_inode z i count 0 later fs'
          ≡ done (ok (record { returned = length buf; bytes = buf; offset = length buf }), fs''))
unfolding Whole
write_inode-read z min_blockcount i b now later count bs buf fs empty direct whole fit some_bytes
      fits asked small enough =
    let fs' = written i b now buf fs in
    let node = written-inode i b now buf fs in
    let blocks = ap (λ (n : Inode). n.direct) node ∙ direct in
    let size = ap (λ (n : Inode). n.size) node in
    let room =
      ap (λ (l : List ℕ). length l * z.block_bytes) blocks ∙ suc-mul (length bs) z.block_bytes in
    let fs'' = put_inode i (record (fs'.inodes i) { atim = later }) fs' in
    let n = clipped-all (fs'.inodes i).size count (length buf) size asked small in
    let moved : 0 + length buf ≡ length buf = omega arith in
    let read =
      ap
        (λ (k : ℕ). told fs'' k (take k (drop 0 (joined fs'.blocks (fs'.inodes i).direct))) (0 + k))
        n
      ∙ ap (λ (l : List ℕ). told fs'' (length buf) l (0 + length buf))
          (ap (λ (l : List ℕ). take (length buf) (joined fs'.blocks l)) blocks
            ∙ first-read i b now bs buf fs)
      ∙ ap (λ (k : ℕ). told fs'' (length buf) buf k) moved in
    (
      fs',
      put_inode i (record (fs'.inodes i) { atim = later }) fs',
      write_empty z min_blockcount i b now bs buf fs empty direct whole.0 (omega (arith, fit))
          (omega (arith, some_bytes, fits)) fits enough,
      read_inode-contents z fs' i count 0 later
            (subst (λ l. length l ≤ z.num_direct_blocks) (sym blocks) fit)
            (subst (Whole z fs') (sym blocks)
              (written-Whole z i b now (b ∷ bs) buf fs whole.1 fits whole))
            (omega (arith, some_bytes, fits)) (omega (arith, size, fits, room))
            (omega (arith, size, some_bytes)) (omega (arith, small))
          ∙ read,
    )
