-- ===== src/Minixfs.antt =====
-- finding_filesystems/minixfs.c: permissions, reading, and new files.
-- The header minixfs.h and the functions of its library are not in the repository: the sizes and
-- the functions that look up paths are parameters. A data block is the list of its bytes.
pub mod Read
pub mod Create
pub mod Grows
pub mod Made
pub mod Write
pub mod Joined
pub mod Rounds
pub mod Contents
pub mod WriteEmpty
pub mod Wrote
pub mod Bound
pub mod Paths
mod Tests
use Prim.Native.Nat.{bit_and, bit_or}
pub use system_programming_uiuc.Prelude.{update}
use system_programming_uiuc.Prelude.{
  ℕ, ◌-◌, ◌*◌, ◌/◌, ◌^◌, Bool, false, ◌&&◌, ◌||◌, not, Option, none, some, List, ◌==◌,
  if◌then◌else◌,
}

pub record Inode : Type 0 where
  pub uid : ℕ
  pub gid : ℕ
  pub mode : ℕ
  pub size : ℕ
  -- A block number of -1 is one past the data.
  pub direct : List ℕ
  -- `none` is -1.
  pub indirect : Option ℕ
  pub atim : ℕ
  pub mtim : ℕ
  pub ctim : ℕ

pub record FileSystem : Type 0 where
  pub inodes : ℕ → Inode
  pub blocks : ℕ → List ℕ
  pub used : ℕ → Bool

-- The constants of minixfs.h.
pub record Sizes : Type 0 where
  pub block_bytes : ℕ
  pub num_direct_blocks : ℕ
  pub num_indirect_blocks : ℕ
  pub data_number : ℕ
  pub file_name_entry : ℕ
  pub rwx_bits_number : ℕ

-- -1 with `errno`, or a value.
pub data Result (A : Type 0) : Type 0 where
  ok : A → Result A
  enoent : Result A
  enospc : Result A
  -- `errno` is that of a function that is called.
  failed : Result A

unfoldable pub put_inode : ℕ → Inode → FileSystem → FileSystem
put_inode i node fs = record fs { inodes = update fs.inodes i node }

-- The new mode of `minixfs_chmod`: the new permissions, or-ed with their own upper bits.
unfoldable pub chmod_mode : Sizes → ℕ → ℕ
chmod_mode z new_permissions =
    bit_or new_permissions (new_permissions / 2 ^ z.rwx_bits_number * 2 ^ z.rwx_bits_number)

-- `found` is the inode of the path, `now` the time.
unfoldable pub minixfs_chmod :
    Sizes → Option ℕ → ℕ → ℕ → FileSystem → Result (Unit {0}) × FileSystem
unfolding put_inode chmod_mode
minixfs_chmod z none new_permissions now fs = (enoent, fs)
minixfs_chmod z (some i) new_permissions now fs = (
  ok tt,
  put_inode i (record (fs.inodes i) { mode = chmod_mode z new_permissions; ctim = now }) fs,
)

-- `(uid_t) -1` and `(gid_t) -1`
abbrev pub no_id : ℕ
no_id = 2 ^ 32 - 1

unfoldable pub minixfs_chown : Option ℕ → ℕ → ℕ → ℕ → FileSystem → Result (Unit {0}) × FileSystem
unfolding put_inode
minixfs_chown none owner group now fs = (enoent, fs)
minixfs_chown (some i) owner group now fs =
    let node = fs.inodes i in
    (
      ok tt,
      put_inode i
          (record node {
            uid = if owner == no_id then node.uid else owner;
            gid = if group == no_id then node.gid else group;
            ctim = now;
          })
          fs,
    )

-- Who calls: `geteuid()` and `getegid()`.
pub record Caller : Type 0 where
  pub euid : ℕ
  pub egid : ℕ

-- 1: user, 2: group, 3: others
unfoldable pub permission_set : Caller → Inode → ℕ
permission_set c node =
    if c.euid == 0 || c.euid == node.uid
    then 1
    else if not (c.euid == node.uid) && c.egid == node.gid
    then 2
    else 3

-- `S_IWUSR`, `S_IWGRP` and `S_IWOTH`
unfoldable pub write_permission : ℕ → Inode → Bool
write_permission perm_set node =
    if perm_set == 1
    then not (bit_and node.mode 128 == 0)
    else if perm_set == 2
    then not (bit_and node.mode 16 == 0)
    else if perm_set == 3
    then not (bit_and node.mode 2 == 0)
    else false
