-- ===== src/Minixfs/Tests.antt =====
-- finding_filesystems/minixfs.c: a small file system.
use system_programming_uiuc.Prelude.{
  ℕ, ◌≡◌, refl, ◌||◌, true, none, some, List, [], ◌∷◌, arith, ◌==◌, if◌then◌else◌, get_elem?, set,
}
use system_programming_uiuc.Prelude.Outcome.{done, fault}
use system_programming_uiuc.Minixfs.{
  Inode, FileSystem, Sizes, Caller, ok, put_inode, minixfs_chmod, update,
}
use system_programming_uiuc.Minixfs.Read.{read_inode}
use system_programming_uiuc.Minixfs.Joined.{Whole}
use system_programming_uiuc.Minixfs.Bound.{read_inode-past_direct}
use system_programming_uiuc.Minixfs.Create.{Library, MarksOnly, minixfs_create_inode_for_path}
use system_programming_uiuc.Minixfs.Made.{Created, create_inode-Created}
use system_programming_uiuc.Minixfs.Write.{MinBlockcount, write_inode}
use system_programming_uiuc.Minixfs.Wrote.{write_inode-read}

abbrev small : Sizes
small = record {
  block_bytes = 4;
  num_direct_blocks = 2;
  num_indirect_blocks = 3;
  data_number = 8;
  file_name_entry = 4;
  rwx_bits_number = 9;
}

abbrev file_of : ℕ → Inode
file_of size = record {
  uid = 1;
  gid = 1;
  mode = 438;
  size = size;
  direct = 3 ∷ 4 ∷ [];
  indirect = none;
  atim = 0;
  mtim = 0;
  ctim = 0;
}

-- Inode 2 has 6 bytes, inode 3 has 10, inode 4 none; inode 0 is the directory.
abbrev disk : FileSystem
disk = record {
  inodes = λ i. if i == 2 then file_of 6 else if i == 3 then file_of 10 else file_of 0;
  blocks = λ b.
      if b == 3
      then 1 ∷ 2 ∷ 3 ∷ 4 ∷ []
      else if b == 4
      then 5 ∷ 6 ∷ 7 ∷ 8 ∷ []
      else 0 ∷ 0 ∷ 0 ∷ 0 ∷ [];
  used = λ b. b == 3 || b == 4;
}

abbrev first_number : List ℕ → ℕ → ℕ
first_number bytes k = elim (get_elem? bytes k) [ none ↦ 0 | some n ↦ n ]

abbrev library : Library
library = record {
  get_inode = λ fs. none;
  first_unused_inode = λ fs. some 5;
  parent_directory = λ fs. some (0, 97 ∷ []);
  valid_filename = λ name. true;
  first_unused_data = λ fs. some 6;
  set_data_used = λ b fs. record fs { used = update fs.used b true };
  make_string_from_dirent = λ name n. 97 ∷ 0 ∷ n ∷ 0 ∷ [];
  init_inode = λ parent node. record node { uid = parent.uid; gid = parent.gid; size = 0 };
  number_at = first_number;
  put_number = λ k b bytes. set bytes k b;
}

abbrev owner : Caller
owner = record { euid = 1; egid = 1 }

abbrev enough : MinBlockcount
enough fs k = (true, fs)

chmod_drops_type :
    ((minixfs_chmod small
        (some 2)
        420
        9
        (put_inode 2 (record (file_of 6) { mode = 1024 }) disk)).1.inodes
      2).mode
    ≡ 420
unfolding minixfs_chmod put_inode
chmod_drops_type = refl

disk-Whole : Whole small disk (3 ∷ 4 ∷ [])
unfolding Whole
disk-Whole = (omega arith, refl, (omega arith, refl, tt))

read_inode-past_direct_example : read_inode small 3 1 8 9 disk ≡ fault
read_inode-past_direct_example =
    read_inode-past_direct small disk 3 1 8 9 refl refl (omega arith) (omega arith)

library-MarksOnly : MarksOnly library
unfolding MarksOnly
library-MarksOnly b i fs = refl

create_inode-Created_example :
    Created small library owner disk (minixfs_create_inode_for_path small library owner disk)
create_inode-Created_example = create_inode-Created small library owner disk library-MarksOnly

write_inode-read_example :
    (fs' : FileSystem) × (fs'' : FileSystem) × (write_inode small enough 4 (7 ∷ 8 ∷ 9 ∷ []) 0 9 disk
      ≡ done (ok 3, 3, fs'))
    × (read_inode small 4 5 0 10 fs'
        ≡ done (ok (record { returned = 3; bytes = 7 ∷ 8 ∷ 9 ∷ []; offset = 3 }), fs''))
write_inode-read_example =
    write_inode-read small enough 4 3 9 10 5 (4 ∷ []) (7 ∷ 8 ∷ 9 ∷ []) disk refl refl disk-Whole
      (omega arith) (omega arith) (omega arith) (omega arith) (omega arith) refl
