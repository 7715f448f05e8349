-- ===== src/Minixfs/Create.antt =====
-- finding_filesystems/minixfs.c: minixfs_create_inode_for_path.
use system_programming_uiuc.Prelude.{
  ℕ, ◌+◌, ◌-◌, ◌*◌, ◌/◌, ◌%◌, ◌≡◌, Bool, true, false, Option, none, some, List, ◌++◌, ltb, leb,
  ◌==◌, length, get_elem?, set, take, drop,
}
use system_programming_uiuc.Prelude.Outcome.{Outcome, done, fault, ◌>>=◌}
use system_programming_uiuc.Minixfs.{
  Inode, FileSystem, Sizes, Caller, put_inode, permission_set, write_permission, update,
}
use system_programming_uiuc.Minixfs.Read.{in_data}

-- The functions of minixfs_utils.h, for one path.
pub record Library : Type 0 where
  pub get_inode : FileSystem → Option ℕ
  pub first_unused_inode : FileSystem → Option ℕ
  -- The directory's inode and the file's name.
  pub parent_directory : FileSystem → Option (ℕ × List ℕ)
  pub valid_filename : List ℕ → Bool
  pub first_unused_data : FileSystem → Option ℕ
  -- The block is used from now on.
  pub set_data_used : ℕ → FileSystem → FileSystem
  -- The entry of a name and an inode number.
  pub make_string_from_dirent : List ℕ → ℕ → List ℕ
  -- The new inode, from its directory's.
  pub init_inode : Inode → Inode → Inode
  -- A data block as an array of block numbers: how the machine stores them.
  pub number_at : List ℕ → ℕ → ℕ
  pub put_number : ℕ → ℕ → List ℕ → List ℕ

unfoldable pub put_block : ℕ → List ℕ → FileSystem → FileSystem
put_block b bytes fs = record fs { blocks = update fs.blocks b bytes }

-- `memcpy` into a block; past the end of the block is a fault.
unfoldable pub copy_to : Sizes → ℕ → ℕ → List ℕ → FileSystem → Outcome FileSystem
unfolding in_data put_block
copy_to z b place bytes fs = in_data z b >>= λ b. elim (leb (place + length bytes) z.block_bytes) [
  | true ↦
      let old = fs.blocks b in
      done (put_block b (take place old ++ bytes ++ drop (place + length bytes) old) fs)
  | false ↦ fault
]

-- `set_data_used` leaves the inodes as they are.
unfoldable pub MarksOnly : Library → Type 0
MarksOnly lib = (b i : ℕ) (fs : FileSystem) → (lib.set_data_used b fs).inodes i ≡ fs.inodes i

-- `direct[ k ] = b`
unfoldable pub put_direct : ℕ → ℕ → ℕ → FileSystem → Outcome FileSystem
unfolding put_inode
put_direct p k b fs =
    let node = fs.inodes p in
    elim (ltb k (length node.direct)) [
      | true ↦ done (put_inode p (record node { direct = set node.direct k b }) fs)
      | false ↦ fault
    ]

-- `NULL`, or the new inode.
abbrev pub Made : Type 0
Made = Outcome (Option ℕ × FileSystem)

abbrev pub null : FileSystem → Made
null fs = done (none, fs)

-- The entry is written: the directory grows by it and the inode is set up.
unfoldable pub finish_create : Sizes → Library → ℕ → ℕ → FileSystem → Made
unfolding put_inode
finish_create z lib p new fs =
    let node = fs.inodes p in
    let parent_inode = record node { size = node.size + z.file_name_entry } in
    let fs' = put_inode p parent_inode fs in
    done (some new, put_inode new (lib.init_inode parent_inode (fs'.inodes new)) fs')

unfoldable pub create_direct : Sizes → Library → ℕ → ℕ → List ℕ → FileSystem → Made
unfolding copy_to put_direct finish_create
create_direct z lib p new entry fs =
    let node = fs.inodes p in
    let block_num = node.size / z.block_bytes in
    let block_remain = node.size % z.block_bytes in
    elim (block_remain == 0) [
      | true ↦ elim (lib.first_unused_data fs) [
        | none ↦ null fs
        | some b ↦ copy_to z b 0 entry fs >>= λ fs'. put_direct p block_num b fs' >>= λ fs'.
            finish_create z lib p new (lib.set_data_used b fs')
      ]
      | false ↦ elim (get_elem? node.direct block_num) [
        | none ↦ fault
        | some b ↦ copy_to z b block_remain entry fs >>= λ fs'. finish_create z lib p new fs'
      ]
    ]

-- `block_arr[ k ] = b`
unfoldable pub put_in_array : Sizes → Library → ℕ → ℕ → ℕ → FileSystem → Outcome FileSystem
unfolding in_data put_block
put_in_array z lib arr k b fs = in_data z arr >>= λ arr. elim (ltb k z.num_indirect_blocks) [
  | true ↦ done (put_block arr (lib.put_number k b (fs.blocks arr)) fs)
  | false ↦ fault
]

-- A new block for the entry: entry `k` of the array `arr`.
unfoldable pub create_in_array : Sizes → Library → ℕ → ℕ → List ℕ → ℕ → ℕ → FileSystem → Made
unfolding put_in_array copy_to finish_create
create_in_array z lib p new entry arr k fs = elim (lib.first_unused_data fs) [
  | none ↦ null fs
  | some b ↦ put_in_array z lib arr k b fs >>= λ fs'.
      copy_to z b 0 entry (lib.set_data_used b fs') >>= λ fs'. finish_create z lib p new fs'
]

unfoldable pub create_indirect : Sizes → Library → ℕ → ℕ → List ℕ → FileSystem → Made
unfolding copy_to put_inode finish_create create_in_array in_data
create_indirect z lib p new entry fs =
    let node = fs.inodes p in
    let block_index = node.size / z.block_bytes - z.num_direct_blocks in
    let block_remain = node.size % z.block_bytes in
    elim node.indirect [
      | none ↦ elim (lib.first_unused_data fs) [
        | none ↦ null fs
        | some arr ↦
            create_in_array z lib p new entry arr 0
              (lib.set_data_used arr (put_inode p (record node { indirect = some arr }) fs))
      ]
      | some arr ↦ elim (block_remain == 0) [
        | true ↦ create_in_array z lib p new entry arr block_index fs
        | false ↦ in_data z arr >>= λ arr.
            copy_to z (lib.number_at (fs.blocks arr) block_index) block_remain entry fs >>= λ fs'.
            finish_create z lib p new fs'
      ]
    ]

unfoldable pub create_entry : Sizes → Library → ℕ → ℕ → List ℕ → FileSystem → Made
unfolding create_direct create_indirect
create_entry z lib p new entry fs =
    let size = (fs.inodes p).size in
    elim (leb size (z.num_direct_blocks * z.block_bytes)) [
      | true ↦ create_direct z lib p new entry fs
      | false ↦ elim (leb size ((z.num_direct_blocks + z.num_indirect_blocks) * z.block_bytes)) [
        | true ↦ create_indirect z lib p new entry fs
        | false ↦ null fs
      ]
    ]

unfoldable pub create_in : Sizes → Library → Caller → ℕ → ℕ → List ℕ → FileSystem → Made
unfolding create_entry permission_set write_permission
create_in z lib who new p filename fs = elim (lib.valid_filename filename) [
  | false ↦ null fs
  | true ↦ elim (write_permission (permission_set who (fs.inodes p)) (fs.inodes p)) [
    | false ↦ null fs
    | true ↦ create_entry z lib p new (lib.make_string_from_dirent filename new) fs
  ]
]

unfoldable pub minixfs_create_inode_for_path : Sizes → Library → Caller → FileSystem → Made
unfolding create_in
minixfs_create_inode_for_path z lib who fs = elim (lib.get_inode fs) [
  | some child ↦ null fs
  | none ↦ elim (lib.first_unused_inode fs) [
    | none ↦ null fs
    | some new ↦ elim (lib.parent_directory fs) [
      | none ↦ null fs
      | some (p, filename) ↦ create_in z lib who new p filename fs
    ]
  ]
]
