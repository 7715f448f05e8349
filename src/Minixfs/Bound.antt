-- ===== src/Minixfs/Bound.antt =====
-- finding_filesystems/minixfs.c: minixfs_read and minixfs_create_inode_for_path at the end of the
-- direct blocks.
use system_programming_uiuc.Prelude.{
  ℕ, zero, suc, ◌+◌, ◌/◌, ◌≤◌, ◌<◌, ◌≡◌, ◌≢◌, refl, ap, ◌∙◌, none, List, [], ◌∷◌, arith, length,
  get_elem?,
}
use system_programming_uiuc.Prelude.Outcome.{Outcome, done, fault, ◌>>=◌}
use system_programming_uiuc.Minixfs.{Inode, FileSystem, Sizes}
use system_programming_uiuc.Minixfs.Read.{
  Cursor, direct_place, read_place, read_loop, finish_read, clipped, read_inode,
}
use system_programming_uiuc.Minixfs.Contents.{read_inode-loop, start}

get_elem-past : (l : List ℕ) (k : ℕ) → length l ≤ k → get_elem? l k ≡ none
get_elem-past [] k le = refl
get_elem-past (x ∷ l) zero le = ground (arith)
get_elem-past (x ∷ l) (suc k) le = get_elem-past l k (omega (arith, le))

loop-fault :
    (fuel : ℕ) (z : Sizes) (fs : FileSystem) (node : Inode) (count : ℕ) (c : Cursor)
    → c.read_byte ≢ count
    → read_place z node c.block_count ≡ fault
    → read_loop (suc fuel) z fs node count c ≡ fault
unfolding read_loop
loop-fault fuel z fs node count c differ place = ground (arith)

place-fault :
    (z : Sizes) (node : Inode) (k : ℕ)
    → length node.direct ≡ z.num_direct_blocks
    → k ≡ z.num_direct_blocks
    → read_place z node k ≡ fault
unfolding read_place direct_place
place-fault z node k full block =
    let past : get_elem? node.direct k ≡ none =
      get_elem-past node.direct k (omega (arith, full, block)) in
    ground (arith)

clipped-pos : (size count off : ℕ) → off < size → 0 < count → 0 ≢ clipped size count off
unfolding clipped
clipped-pos size count off before some_bytes e = ground arith

-- A read that starts in the block after the direct ones, before the end of the file, and asks for a
-- byte or more, reads past the array `direct`.
pub read_inode-past_direct :
    (z : Sizes) (fs : FileSystem) (i count off now : ℕ)
    → length (fs.inodes i).direct ≡ z.num_direct_blocks
    → off / z.block_bytes ≡ z.num_direct_blocks
    → off < (fs.inodes i).size
    → 0 < count
    → read_inode z i count off now fs ≡ fault
read_inode-past_direct z fs i count off now full block before some_bytes =
    let node = fs.inodes i in
    let n = clipped node.size count off in
    let next : n + 1 ≡ suc n = omega arith in
    let stop =
      loop-fault n z fs node n (start z off) (clipped-pos node.size count off before some_bytes)
        (place-fault z node (off / z.block_bytes) full block) in
    read_inode-loop z fs i count off now before (omega (arith, block))
    ∙ ap (λ (k : ℕ). read_loop k z fs node n (start z off) >>= λ c. done (finish_read i now fs c))
        next
    ∙ ap (λ (o : Outcome Cursor). o >>= λ c. done (finish_read i now fs c)) stop
