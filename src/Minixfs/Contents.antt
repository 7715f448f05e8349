-- ===== src/Minixfs/Contents.antt =====
-- finding_filesystems/minixfs.c: minixfs_read gives the bytes of the file.
use native.Mathlib.Nat.{div-add-mod', add-mul, mod-lt, div-lt_iff_lt-mul}
use system_programming_uiuc.Prelude.{
  ℕ, suc, ◌+◌, ◌-◌, ◌*◌, ◌/◌, ◌%◌, ◌^◌, ◌≤◌, ◌<◌, ◌≡◌, refl, sym, ap, ◌∙◌, List, [], arith, length,
  take, drop, length-drop,
}
use system_programming_uiuc.Prelude.Outcome.{Outcome, done, ◌>>=◌}
use system_programming_uiuc.Minixfs.{Inode, FileSystem, Sizes, Result, ok, put_inode}
use system_programming_uiuc.Minixfs.Read.{
  Cursor, read_loop, ReadAnswer, finish_read, clipped, read_inode,
}
use system_programming_uiuc.Minixfs.Joined.{joined, Whole, joined-drop, Whole-drop}
use system_programming_uiuc.Minixfs.Rounds.{Left, loop-Reads}

clipped-le :
    (size count off : ℕ) → off < size → off + count < 2 ^ 64 → off + clipped size count off ≤ size
unfolding clipped
clipped-le size count off before fits = ground arith

abbrev pub start : Sizes → ℕ → Cursor
start z off = record {
  block_count = off / z.block_bytes;
  block_remain = off % z.block_bytes;
  off = off;
  buf = [];
  read_byte = 0;
}

-- The block of an offset before the end.
block-lt :
    (z : Sizes) (off size len : ℕ)
    → 0 < z.block_bytes
    → off < size
    → size ≤ len * z.block_bytes
    → off / z.block_bytes < len
block-lt z off size len some_bytes before enough =
    (div-lt_iff_lt-mul some_bytes).1 (omega (arith, before, enough))

start_room :
    (z : Sizes) (node : Inode) (off n : ℕ)
    → 0 < z.block_bytes
    → off + n ≤ length node.direct * z.block_bytes
    → off / z.block_bytes < length node.direct
    → n - 0 + off % z.block_bytes ≤ length (drop (off / z.block_bytes) node.direct) * z.block_bytes
start_room z node off n some_bytes enough block =
    let q = off / z.block_bytes in
    let rest = length (drop q node.direct) in
    let e : length node.direct ≡ q + rest = omega (arith, length-drop q node.direct, block) in
    let both : length node.direct * z.block_bytes ≡ q * z.block_bytes + rest * z.block_bytes =
      ap (λ (k : ℕ). k * z.block_bytes) e ∙ add-mul q rest z.block_bytes in
    omega (arith, both, enough, div-add-mod' off z.block_bytes)

start-Left :
    (z : Sizes) (fs : FileSystem) (node : Inode) (n off : ℕ)
    → Whole z fs node.direct
    → 0 < z.block_bytes
    → off + n ≤ length node.direct * z.block_bytes
    → off / z.block_bytes < length node.direct
    → Left z fs node n n (start z off) (drop (off / z.block_bytes) node.direct)
start-Left z fs node n off whole some_bytes enough block = (
  refl,
  Whole-drop fs z (off / z.block_bytes) node.direct whole,
  omega arith,
  omega arith,
  mod-lt off some_bytes,
  start_room z node off n some_bytes enough block,
)

-- Before the end the loop is entered.
pub read_inode-loop :
    (z : Sizes) (fs : FileSystem) (i count off now : ℕ)
    → off < (fs.inodes i).size
    → off / z.block_bytes ≤ z.num_direct_blocks
    → let n = clipped (fs.inodes i).size count off in
      read_inode z i count off now fs ≡ (
        read_loop (n + 1) z fs (fs.inodes i) n (start z off) >>= λ c. done (finish_read i now fs c))
unfolding read_inode
read_inode-loop z fs i count off now before block = ground (arith)

-- The answer with its bytes, offset and count.
answer : FileSystem → ℕ → ℕ → ℕ → List ℕ → ℕ → Outcome (Result ReadAnswer × FileSystem)
answer fs i now n bytes off = done (
  ok (record { returned = n; bytes = bytes; offset = off }),
  put_inode i (record (fs.inodes i) { atim = now }) fs,
)

pub read_inode-contents :
    (z : Sizes) (fs : FileSystem) (i count off now : ℕ)
    → length (fs.inodes i).direct ≤ z.num_direct_blocks
    → Whole z fs (fs.inodes i).direct
    → 0 < z.block_bytes
    → (fs.inodes i).size ≤ length (fs.inodes i).direct * z.block_bytes
    → off < (fs.inodes i).size
    → off + count < 2 ^ 64
    → let n = clipped (fs.inodes i).size count off in
      read_inode z i count off now fs
      ≡ done (
        ok (record {
          returned = n;
          bytes = take n (drop off (joined fs.blocks (fs.inodes i).direct));
          offset = off + n;
        }),
        put_inode i (record (fs.inodes i) { atim = now }) fs,
      )
unfolding read_inode finish_read answer
read_inode-contents z fs i count off now fits whole some_bytes enough before sum =
    let n = clipped (fs.inodes i).size count off in
    let node = fs.inodes i in
    let block = block-lt z off node.size (length node.direct) some_bytes before enough in
    let room = clipped-le node.size count off before sum in
    let (c, run, bytes, moved, all) =
      loop-Reads n z fs node n (start z off) (drop (off / z.block_bytes) node.direct) fits
        (start-Left z fs node n off whole some_bytes (omega (arith, room, enough)) block) in
    let same : n - 0 ≡ n = omega arith in
    let next : n + 1 ≡ suc n = omega arith in
    let place = sym (
      joined-drop fs z (off / z.block_bytes) (off % z.block_bytes) node.direct whole
        (omega (arith, block))) in
    let whole_off =
      ap (λ (k : ℕ). drop k (joined fs.blocks node.direct)) (div-add-mod' off z.block_bytes) in
    let from_start =
      bytes
      ∙ ap
          (λ (k : ℕ). take k (
            drop (off % z.block_bytes) (joined fs.blocks (drop (off / z.block_bytes) node.direct))))
          same
      ∙ ap (λ (l : List ℕ). take n l) (place ∙ whole_off) in
    read_inode-loop z fs i count off now before (omega (arith, block, fits))
    ∙ ap (λ (k : ℕ). read_loop k z fs node n (start z off) >>= λ c. done (finish_read i now fs c))
        next
    ∙ ap (λ (o : Outcome Cursor). o >>= λ c. done (finish_read i now fs c)) run
    ∙ ap (λ (k : ℕ). answer fs i now k c.buf c.off) all
    ∙ ap (λ (l : List ℕ). answer fs i now n l c.off) from_start
    ∙ ap (λ (k : ℕ). answer fs i now n (take n (drop off (joined fs.blocks node.direct))) k)
        (moved ∙ ap (λ (k : ℕ). off + k) same)
