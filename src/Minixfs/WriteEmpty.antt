-- ===== src/Minixfs/WriteEmpty.antt =====
-- finding_filesystems/minixfs.c: minixfs_write into an empty file.
use native.Mathlib.Nat.{zero-mod, zero-div}
use system_programming_uiuc.Prelude.{
  ℕ, ◌+◌, ◌/◌, ◌%◌, ◌≤◌, ◌<◌, ◌≡◌, refl, ap, ◌∙◌, Bool, true, some, List, [], ◌∷◌, ◌++◌, arith,
  ◌==◌, if◌then◌else◌, length, get_elem?, take, drop, lt→ltb, le→leb,
}
use system_programming_uiuc.Prelude.Outcome.{Outcome, done, ◌>>=◌}
use system_programming_uiuc.Minixfs.{FileSystem, Sizes, ok, put_inode}
use system_programming_uiuc.Minixfs.Read.{in_data}
use system_programming_uiuc.Minixfs.Create.{put_block, copy_to}
use system_programming_uiuc.Minixfs.Write.{
  MinBlockcount, Writing, write_bytes, write_from, finish_write, write_blocks, write_checked,
  write_inode,
}

-- The file system after a write to an empty file of one block.
abbrev pub written : ℕ → ℕ → ℕ → List ℕ → FileSystem → FileSystem
written i b now buf fs =
    put_inode i (record (fs.inodes i) { size = length buf; mtim = now; atim = now })
      (put_block b (buf ++ drop (length buf) (fs.blocks b)) fs)

take-whole : (xs : List ℕ) → take (length xs) xs ≡ xs
take-whole [] = refl
take-whole (x ∷ xs) = ap (λ l. x ∷ l) (take-whole xs)

-- The start of the write of `buf` into the blocks from `k` on.
abbrev pub begun : FileSystem → ℕ → ℕ → List ℕ → Writing
begun fs k off buf = record { fs = fs; block_count = k; off = off; written_byte = 0; rest = buf }

copy_to-all :
    (z : Sizes) (b : ℕ) (bytes : List ℕ) (fs : FileSystem)
    → b < z.data_number
    → length bytes ≤ z.block_bytes
    → copy_to z b 0 bytes fs ≡ done (put_block b (bytes ++ drop (length bytes) (fs.blocks b)) fs)
unfolding copy_to in_data put_block
copy_to-all z b bytes fs inside fits =
    let zero_add : 0 + length bytes ≡ length bytes = omega arith in
    rw
      (
        zero_add,
        le→leb (length bytes) z.block_bytes fits,
        lt→ltb b z.data_number inside,
        copy_to,
        in_data,
      )
      (ap (λ (k : ℕ). done (put_block b (bytes ++ drop k (fs.blocks b)) fs)) zero_add)

-- The whole buffer into the start of a block.
write_bytes-all :
    (z : Sizes) (b : ℕ) (w : Writing)
    → b < z.data_number
    → length w.rest ≤ z.block_bytes
    → write_bytes z b 0 (length w.rest) w
      ≡ done (record w {
        fs = put_block b (w.rest ++ drop (length w.rest) (w.fs.blocks b)) w.fs;
        written_byte = w.written_byte + length w.rest;
        rest = drop (length w.rest) w.rest;
      })
unfolding write_bytes
write_bytes-all z b w inside fits =
    rw (le→leb (length w.rest) (length w.rest) (omega arith), write_bytes)
      (ap
          (λ (l : List ℕ). copy_to z b 0 l w.fs >>= λ fs'. done (record w {
            fs = fs';
            written_byte = w.written_byte + length w.rest;
            rest = drop (length w.rest) w.rest;
          }))
          (take-whole w.rest)
        ∙ ap
            (λ (o : Outcome FileSystem). o >>= λ fs'. done (record w {
              fs = fs';
              written_byte = w.written_byte + length w.rest;
              rest = drop (length w.rest) w.rest;
            }))
            (copy_to-all z b w.rest w.fs inside fits))

write_from-all :
    (z : Sizes) (i b : ℕ) (w : Writing)
    → length w.rest ≤ z.block_bytes
    → write_from z i b 0 (length w.rest) w ≡ write_bytes z b 0 (length w.rest) w
unfolding write_from
write_from-all z i b w fits = ground (arith)

write_blocks-direct :
    (z : Sizes) (i b remain count now : ℕ) (w w' : Writing)
    → w.block_count < z.num_direct_blocks
    → get_elem? (w.fs.inodes i).direct w.block_count ≡ some b
    → write_from z i b remain count w ≡ done w'
    → w'.written_byte ≡ count
    → write_blocks z i remain count now w ≡ finish_write i now count (w'.off + count) w'
unfolding write_blocks
write_blocks-direct z i b remain count now w w' block at run all = ground (arith)

write_blocks-all :
    (z : Sizes) (i b now : ℕ) (bs buf : List ℕ) (fs : FileSystem)
    → (fs.inodes i).direct ≡ b ∷ bs
    → b < z.data_number
    → 0 < z.num_direct_blocks
    → length buf ≤ z.block_bytes
    → write_blocks z i 0 (length buf) now (begun fs 0 0 buf)
      ≡ done (ok (length buf), length buf, written i b now buf fs)
unfolding finish_write put_inode put_block
write_blocks-all z i b now bs buf fs direct inside some_blocks fits =
    let zero_add : 0 + length buf ≡ length buf = omega arith in
    write_blocks-direct z i b 0 (length buf) now (begun fs 0 0 buf) _ some_blocks
      (ap (λ (l : List ℕ). get_elem? l 0) direct)
      (write_from-all z i b (begun fs 0 0 buf) fits
        ∙ write_bytes-all z b (begun fs 0 0 buf) inside fits)
      (omega arith)
    ∙ ap
        (λ (k : ℕ). finish_write i now (length buf) k (record {
          fs = put_block b (buf ++ drop (length buf) (fs.blocks b)) fs;
          block_count = 0;
          off = 0;
          written_byte = 0 + length buf;
          rest = drop (length buf) buf;
        }))
        zero_add

pub write_empty :
    (z : Sizes) (min_blockcount : MinBlockcount) (i b now : ℕ) (bs buf : List ℕ) (fs : FileSystem)
    → (fs.inodes i).size ≡ 0
    → (fs.inodes i).direct ≡ b ∷ bs
    → b < z.data_number
    → 0 < z.num_direct_blocks
    → 0 < z.block_bytes
    → length buf ≤ z.block_bytes
    → min_blockcount fs 0 ≡ (true, fs)
    → write_inode z min_blockcount i buf 0 now fs
      ≡ done (ok (length buf), length buf, written i b now buf fs)
unfolding write_inode write_checked
write_empty z min_blockcount i b now bs buf fs empty direct inside some_blocks some_bytes fits
      enough =
    let whole : (fs.inodes i).size % z.block_bytes ≡ 0 =
      ap (λ (k : ℕ). k % z.block_bytes) empty ∙ zero-mod z.block_bytes in
    let first : (fs.inodes i).size / z.block_bytes ≡ 0 =
      ap (λ (k : ℕ). k / z.block_bytes) empty ∙ zero-div z.block_bytes in
    ap
      (λ (r : ℕ).
        write_checked z i ((fs.inodes i).size / z.block_bytes + (if r == 0 then 0 else 1)) r buf 0
          now (min_blockcount fs ((fs.inodes i).size / z.block_bytes + (if r == 0 then 0 else 1))))
      whole
    ∙ ap (λ (k : ℕ). write_checked z i (k + 0) 0 buf 0 now (min_blockcount fs (k + 0))) first
    ∙ ap (λ (r : Bool × FileSystem). write_checked z i 0 0 buf 0 now r) enough
    ∙ write_blocks-all z i b now bs buf fs direct inside some_blocks fits
