-- ===== src/Minixfs/Write.antt =====
-- finding_filesystems/minixfs.c: minixfs_write.
use system_programming_uiuc.Prelude.{
  ℕ, zero, suc, ◌+◌, ◌-◌, ◌*◌, ◌/◌, ◌%◌, ◌^◌, Bool, true, false, Option, none, some, List, ltb, leb,
  ◌==◌, if◌then◌else◌, length, get_elem?, take, drop,
}
use system_programming_uiuc.Prelude.Outcome.{Outcome, done, fault, no_fuel, ◌>>=◌}
use system_programming_uiuc.Minixfs.{
  FileSystem, Sizes, Caller, Result, ok, enospc, failed, put_inode,
}
use system_programming_uiuc.Minixfs.Create.{Library, copy_to, minixfs_create_inode_for_path}

-- `minixfs_min_blockcount` of the path: whether it did not return -1, and the file system after it.
abbrev pub MinBlockcount : Type 0
MinBlockcount = FileSystem → ℕ → Bool × FileSystem

-- The sum of the two parts, as an `int`.
unfoldable pub max_filesize : Sizes → ℕ
max_filesize z =
    (z.num_direct_blocks * z.block_bytes + z.num_indirect_blocks * z.block_bytes) % 2 ^ 32

-- `a > b` of two words as `int`s
unfoldable pub int_gt : ℕ → ℕ → Bool
int_gt a b = ltb ((b + 2 ^ 31) % 2 ^ 32) ((a + 2 ^ 31) % 2 ^ 32)

-- The variables of the function; `rest` is what `buf` points to.
pub record Writing : Type 0 where
  pub fs : FileSystem
  pub block_count : ℕ
  pub off : ℕ
  pub written_byte : ℕ
  pub rest : List ℕ

-- `n` bytes of the buffer into a block; past the end of the buffer is a fault.
unfoldable pub write_bytes : Sizes → ℕ → ℕ → ℕ → Writing → Outcome Writing
unfolding copy_to
write_bytes z b place n w = elim (leb n (length w.rest)) [
  | true ↦ copy_to z b place (take n w.rest) w.fs >>= λ fs'.
      done (record w { fs = fs'; written_byte = w.written_byte + n; rest = drop n w.rest })
  | false ↦ fault
]

unfoldable pub direct_loop : ℕ → Sizes → ℕ → ℕ → Writing → Outcome Writing
unfolding write_bytes
direct_loop zero z i count w = no_fuel
direct_loop (suc fuel) z i count w = elim (w.written_byte == count) [
  | true ↦ done w
  | false ↦ elim (ltb w.block_count z.num_direct_blocks) [
    | false ↦ done w
    | true ↦ elim (get_elem? (w.fs.inodes i).direct (w.block_count + 1)) [
      | none ↦ fault
      | some b ↦
          let left = count - w.written_byte in
          let n = if ltb z.block_bytes left then z.block_bytes else left in
          write_bytes z b 0 n (record w { block_count = w.block_count + 1 }) >>= λ w'.
          direct_loop fuel z i count w'
    ]
  ]
]

-- One block, or the rest of it and the direct blocks after it.
unfoldable pub write_from : Sizes → ℕ → ℕ → ℕ → ℕ → Writing → Outcome Writing
unfolding direct_loop write_bytes
write_from z i b block_remain count w = elim (leb (block_remain + count) z.block_bytes) [
  | true ↦ write_bytes z b block_remain count w
  | false ↦
      let n = z.block_bytes - block_remain in
      write_bytes z b block_remain n (record w { off = w.off + n }) >>= λ w'.
      direct_loop (count + 1) z i count w'
]

unfoldable pub finish_write : ℕ → ℕ → ℕ → ℕ → Writing → Outcome (Result ℕ × ℕ × FileSystem)
unfolding put_inode
finish_write i now count off w = done (
  ok count,
  off,
  put_inode i (record (w.fs.inodes i) { size = off; mtim = now; atim = now }) w.fs,
)

-- The block of `data_root + indirect + (block_count - NUM_DIRECT_BLOCKS)`.
unfoldable pub after_indirect : Sizes → Option ℕ → ℕ → Outcome ℕ
after_indirect z none block_count = elim (block_count - z.num_direct_blocks == 0) [
  | true ↦ fault
  | false ↦ done (block_count - z.num_direct_blocks - 1)
]
after_indirect z (some b) block_count = done (b + (block_count - z.num_direct_blocks))

unfoldable pub write_indirect :
    Sizes → ℕ → ℕ → ℕ → ℕ → Writing → Outcome (Result ℕ × ℕ × FileSystem)
unfolding after_indirect write_from finish_write
write_indirect z i block_remain count now w =
    after_indirect z (w.fs.inodes i).indirect w.block_count >>= λ b.
    write_from z i b block_remain count w >>= λ w'. finish_write i now count w'.off w'

unfoldable pub write_blocks : Sizes → ℕ → ℕ → ℕ → ℕ → Writing → Outcome (Result ℕ × ℕ × FileSystem)
unfolding write_from finish_write write_indirect
write_blocks z i block_remain count now w = elim (ltb w.block_count z.num_direct_blocks) [
  | false ↦ write_indirect z i block_remain count now w
  | true ↦ elim (get_elem? (w.fs.inodes i).direct w.block_count) [
    | none ↦ fault
    | some b ↦ write_from z i b block_remain count w >>= λ w'. elim (w'.written_byte == count) [
      | true ↦ finish_write i now count (w'.off + count) w'
      | false ↦ write_indirect z i block_remain count now w'
    ]
  ]
]

-- After `minixfs_min_blockcount`.
unfoldable pub write_checked :
    Sizes → ℕ → ℕ → ℕ → List ℕ → ℕ → ℕ → Bool × FileSystem → Outcome (Result ℕ × ℕ × FileSystem)
unfolding write_blocks
write_checked z i block_count block_remain buf off now (false, fs) = done (failed, off, fs)
write_checked z i block_count block_remain buf off now (true, fs) =
    write_blocks z i block_remain (length buf) now
      (record { fs = fs; block_count = block_count; off = off; written_byte = 0; rest = buf })

-- With the file's inode.
unfoldable pub write_inode :
    Sizes → MinBlockcount → ℕ → List ℕ → ℕ → ℕ → FileSystem → Outcome (Result ℕ × ℕ × FileSystem)
unfolding write_checked
write_inode z min_blockcount i buf off now fs =
    let block_remain = (fs.inodes i).size % z.block_bytes in
    let block_count = (fs.inodes i).size / z.block_bytes + (if block_remain == 0 then 0 else 1) in
    write_checked z i block_count block_remain buf off now (min_blockcount fs block_count)

-- All the bytes of `buf` are asked for.
unfoldable pub minixfs_write :
    Sizes
    → Library
    → MinBlockcount
    → Caller
    → List ℕ
    → ℕ
    → ℕ
    → FileSystem
    → Outcome (Result ℕ × ℕ × FileSystem)
unfolding max_filesize int_gt minixfs_create_inode_for_path write_inode
minixfs_write z lib min_blockcount who buf off now fs =
    elim (int_gt ((off + length buf) % 2 ^ 32) (max_filesize z)) [
      | true ↦ done (enospc, off, fs)
      | false ↦ elim (lib.get_inode fs) [
        | some i ↦ write_inode z min_blockcount i buf off now fs
        | none ↦ minixfs_create_inode_for_path z lib who fs >>= λ (made, fs'). elim made [
          | none ↦ done (enospc, off, fs')
          | some i ↦ write_inode z min_blockcount i buf off now fs'
        ]
      ]
    ]
