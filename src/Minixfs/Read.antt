-- ===== src/Minixfs/Read.antt =====
-- finding_filesystems/minixfs.c: minixfs_read and minixfs_virtual_read.
use system_programming_uiuc.Prelude.{
  ℕ, zero, suc, ◌+◌, ◌-◌, ◌/◌, ◌%◌, ◌^◌, Bool, true, false, none, some, List, [], ◌++◌, ltb, leb,
  ◌==◌, if◌then◌else◌, length, get_elem?, take, drop,
}
use system_programming_uiuc.Prelude.Outcome.{Outcome, done, fault, no_fuel, ◌>>=◌}
use system_programming_uiuc.Minixfs.{Inode, FileSystem, Sizes, Result, ok, enoent, put_inode}

-- The variables of the loop; `buf` holds the bytes copied so far.
pub record Cursor : Type 0 where
  pub block_count : ℕ
  pub block_remain : ℕ
  pub off : ℕ
  pub buf : List ℕ
  pub read_byte : ℕ

-- `read_place` as a block number; an index past the array and a block past the data are faults.
unfoldable pub in_data : Sizes → ℕ → Outcome ℕ
in_data z b = elim (ltb b z.data_number) [ true ↦ done b | false ↦ fault ]

unfoldable pub direct_place : Sizes → Inode → ℕ → Outcome ℕ
unfolding in_data
direct_place z node k = elim (get_elem? node.direct k) [ none ↦ fault | some b ↦ in_data z b ]

-- The blocks after block `indirect`; without one the sum starts from -1.
unfoldable pub indirect_place : Sizes → Inode → ℕ → Outcome ℕ
unfolding in_data
indirect_place z node k = elim node.indirect [
  | none ↦ in_data z (k - z.num_direct_blocks - 1)
  | some b ↦ in_data z (b + (k - z.num_direct_blocks))
]

-- Past both, `read_place` stays NULL.
unfoldable pub read_place : Sizes → Inode → ℕ → Outcome ℕ
unfolding direct_place indirect_place
read_place z node k = elim (leb k z.num_direct_blocks) [
  | true ↦ direct_place z node k
  | false ↦ elim (leb k (z.num_direct_blocks + z.num_indirect_blocks)) [
    | true ↦ indirect_place z node k
    | false ↦ fault
  ]
]

unfoldable pub read_size : Sizes → ℕ → Cursor → ℕ
read_size z count c =
    if ltb (count - c.read_byte) (z.block_bytes - c.block_remain)
    then count - c.read_byte
    else z.block_bytes - c.block_remain

unfoldable pub copied : FileSystem → ℕ → ℕ → Cursor → Cursor
copied fs place n c = record {
  block_count = c.block_count + 1;
  block_remain = 0;
  off = c.off + n;
  buf = c.buf ++ take n (drop c.block_remain (fs.blocks place));
  read_byte = c.read_byte + n;
}

unfoldable pub read_loop : ℕ → Sizes → FileSystem → Inode → ℕ → Cursor → Outcome Cursor
unfolding read_place read_size copied
read_loop zero z fs node count c = no_fuel
read_loop (suc fuel) z fs node count c = elim (c.read_byte == count) [
  | true ↦ done c
  | false ↦ read_place z node c.block_count >>= λ place.
      read_loop fuel z fs node count (copied fs place (read_size z count c) c)
]

-- What a read returns: the count, the bytes, the new offset.
pub record ReadAnswer : Type 0 where
  pub returned : ℕ
  pub bytes : List ℕ
  pub offset : ℕ

abbrev pub nothing : ℕ → ReadAnswer
nothing off = record { returned = 0; bytes = []; offset = off }

unfoldable pub finish_read : ℕ → ℕ → FileSystem → Cursor → Result ReadAnswer × FileSystem
unfolding put_inode
finish_read i now fs c = (
  ok (record { returned = c.read_byte; bytes = c.buf; offset = c.off }),
  put_inode i (record (fs.inodes i) { atim = now }) fs,
)

-- The bytes up to the end of the file at most, unless the sum wraps.
unfoldable pub clipped : ℕ → ℕ → ℕ → ℕ
clipped size count off = if leb size ((off + count) % 2 ^ 64) then size - off else count

-- `minixfs_read` of a path that is not virtual, with its inode; each round copies a byte or more,
-- so `count` plus one rounds are enough.
unfoldable pub read_inode :
    Sizes → ℕ → ℕ → ℕ → ℕ → FileSystem → Outcome (Result ReadAnswer × FileSystem)
unfolding read_loop finish_read clipped
read_inode z i count off now fs = elim (leb (fs.inodes i).size off) [
  | true ↦ done (ok (nothing off), fs)
  | false ↦ elim (ltb (z.num_direct_blocks + z.num_indirect_blocks) (off / z.block_bytes)) [
    | true ↦ done (ok (nothing off), fs)
    | false ↦
        let n = clipped (fs.inodes i).size count off in
        read_loop (n + 1) z fs (fs.inodes i) n (record {
          block_count = off / z.block_bytes;
          block_remain = off % z.block_bytes;
          off = off;
          buf = [];
          read_byte = 0;
        })
        >>= λ c. done (finish_read i now fs c)
  ]
]

-- The decimal digits of the two counts are the C library's: `info` makes the text of them.
unfoldable pub count_used : (ℕ → Bool) → ℕ → ℕ
count_used used zero = 0
count_used used (suc n) = count_used used n + (if used n then 1 else 0)

-- For the virtual path "info" the bytes are copied and `*off` moves, then -1 is returned as for any
-- other path. `off` lies within the text.
unfoldable pub minixfs_virtual_read :
    Sizes
    → (FileSystem → ℕ → Bool)
    → (ℕ → ℕ → List ℕ)
    → Bool
    → ℕ
    → ℕ
    → FileSystem
    → Result ReadAnswer × ReadAnswer
unfolding count_used
minixfs_virtual_read z get_data_used info false count off fs = (enoent, nothing off)
minixfs_virtual_read z get_data_used info true count off fs =
    let used_blocks = count_used (get_data_used fs) z.data_number in
    let text = info (z.data_number - used_blocks) used_blocks in
    let n = if ltb count (length text - off) then count else length text - off in
    (enoent, record { returned = n; bytes = take n (drop off text); offset = off + n })

-- The three ways of `minixfs_read`: a virtual path, no inode, an inode.
pub data Target : Type 0 where
  virtual : Bool → Target
  missing : Target
  inode_at : ℕ → Target

unfoldable pub minixfs_read :
    Sizes
    → (FileSystem → ℕ → Bool)
    → (ℕ → ℕ → List ℕ)
    → Target
    → ℕ
    → ℕ
    → ℕ
    → FileSystem
    → Outcome (Result ReadAnswer × FileSystem)
unfolding minixfs_virtual_read read_inode
minixfs_read z get_data_used info (virtual is_info) count off now fs =
    done ((minixfs_virtual_read z get_data_used info is_info count off fs).0, fs)
minixfs_read z get_data_used info missing count off now fs = done (enoent, fs)
minixfs_read z get_data_used info (inode_at i) count off now fs = read_inode z i count off now fs
