-- ===== src/Minixfs/Grows.antt =====
-- finding_filesystems/minixfs.c: the directory that gets a new entry.
use system_programming_uiuc.Prelude.{
  ℕ, ◌+◌, ◌*◌, ◌/◌, ◌%◌, ◌≡◌, ◌≢◌, refl, sym, ap, ◌∙◌, Bool, true, false, Option, none, some, List,
  ltb, leb, ◌==◌, length, get_elem?, eq-true, eq-false, update-same,
}
use system_programming_uiuc.Prelude.Outcome.{Outcome, done, fault, abort, no_fuel, ◌>>=◌}
use system_programming_uiuc.Minixfs.{Inode, FileSystem, Sizes, put_inode}
use system_programming_uiuc.Minixfs.Read.{in_data}
use system_programming_uiuc.Minixfs.Create.{
  Library, Made, null, put_block, copy_to, put_direct, finish_create, create_direct, put_in_array,
  create_in_array, MarksOnly, create_indirect, create_entry,
}

-- The directory `p` grows by an entry when the inode `new` is made, and stays otherwise.
unfoldable pub Grows : Sizes → ℕ → ℕ → FileSystem → Made → Type 0
Grows z p new fs (done (some k, fs')) =
    (k ≡ new) × (p ≢ new → (fs'.inodes p).size ≡ (fs.inodes p).size + z.file_name_entry)
Grows z p new fs (done (none, fs')) = (fs'.inodes p).size ≡ (fs.inodes p).size
Grows z p new fs abort = Unit
Grows z p new fs fault = Unit
Grows z p new fs no_fuel = Unit

-- A step keeps the size of the directory.
unfoldable pub KeepsSize : ℕ → FileSystem → Outcome FileSystem → Type 0
KeepsSize p fs (done fs') = (fs'.inodes p).size ≡ (fs.inodes p).size
KeepsSize p fs abort = Unit
KeepsSize p fs fault = Unit
KeepsSize p fs no_fuel = Unit

KeepsSize-bind :
    (z : Sizes) (p new : ℕ) (fs : FileSystem) (m : Outcome FileSystem) (f : FileSystem → Made)
    → KeepsSize p fs m
    → ((fs' : FileSystem) → (fs'.inodes p).size ≡ (fs.inodes p).size → Grows z p new fs (f fs'))
    → Grows z p new fs (m >>= f)
unfolding KeepsSize Grows
KeepsSize-bind z p new fs (done fs') f keeps rest = rest fs' keeps
KeepsSize-bind z p new fs abort f keeps rest = tt
KeepsSize-bind z p new fs fault f keeps rest = tt
KeepsSize-bind z p new fs no_fuel f keeps rest = tt

marks-size :
    (lib : Library) (p b : ℕ) (fs fs' : FileSystem)
    → MarksOnly lib
    → (fs'.inodes p).size ≡ (fs.inodes p).size
    → ((lib.set_data_used b fs').inodes p).size ≡ (fs.inodes p).size
unfolding MarksOnly
marks-size lib p b fs fs' marks same = ap (λ (n : Inode). n.size) (marks b p fs') ∙ same

-- Both ways of a test, and both of an option.
either :
    {A : Type 0} (P : A → Type 0) (b : Bool) (x y : A)
    → P x
    → P y
    → P (elim b [ true ↦ x | false ↦ y ])
either P true x y px py = px
either P false x y px py = py

maybe :
    {A B : Type 0} (P : A → Type 0) (o : Option B) (x : A) (f : B → A)
    → P x
    → ((b : B) → P (f b))
    → P (elim o [ none ↦ x | some b ↦ f b ])
maybe P none x f px pf = px
maybe P (some b) x f px pf = pf b

no_keep : (p : ℕ) (fs : FileSystem) → KeepsSize p fs fault
unfolding KeepsSize
no_keep p fs = tt

in_data-KeepsSize :
    (z : Sizes) (p b : ℕ) (fs : FileSystem) (f : ℕ → Outcome FileSystem)
    → ((b : ℕ) → KeepsSize p fs (f b))
    → KeepsSize p fs (in_data z b >>= f)
unfolding in_data KeepsSize
in_data-KeepsSize z p b fs f keeps =
    either (λ (m : Outcome ℕ). KeepsSize p fs (m >>= f)) (ltb b z.data_number) (done b) fault
      (keeps b) (no_keep p fs)

copy_to-KeepsSize :
    (z : Sizes) (p b place : ℕ) (bytes : List ℕ) (fs fs' : FileSystem)
    → (fs'.inodes p).size ≡ (fs.inodes p).size
    → KeepsSize p fs (copy_to z b place bytes fs')
unfolding copy_to put_block KeepsSize
copy_to-KeepsSize z p b place bytes fs fs' same =
    in_data-KeepsSize z p b fs _
      (λ b. either (KeepsSize p fs) (leb (place + length bytes) z.block_bytes) _ fault same tt)

put_in_array-KeepsSize :
    (z : Sizes) (lib : Library) (p arr k b : ℕ) (fs fs' : FileSystem)
    → (fs'.inodes p).size ≡ (fs.inodes p).size
    → KeepsSize p fs (put_in_array z lib arr k b fs')
unfolding put_in_array put_block KeepsSize
put_in_array-KeepsSize z lib p arr k b fs fs' same =
    in_data-KeepsSize z p arr fs _
      (λ b. either (KeepsSize p fs) (ltb k z.num_indirect_blocks) _ fault same tt)

put_direct-KeepsSize :
    (p k b : ℕ) (fs fs' : FileSystem)
    → (fs'.inodes p).size ≡ (fs.inodes p).size
    → KeepsSize p fs (put_direct p k b fs')
unfolding put_direct put_inode KeepsSize
put_direct-KeepsSize p k b fs fs' same =
    either (KeepsSize p fs) (ltb k (length (fs'.inodes p).direct)) _ fault
      (ap (λ (n : Inode). n.size) (update-same fs'.inodes p _) ∙ same) tt

finish-Grows :
    (z : Sizes) (lib : Library) (p new : ℕ) (fs fs' : FileSystem)
    → (fs'.inodes p).size ≡ (fs.inodes p).size
    → Grows z p new fs (finish_create z lib p new fs')
unfolding Grows finish_create put_inode
finish-Grows z lib p new fs fs' same = (
  refl,
  λ other.
      rw (eq-false new p (λ e. other (sym e)), eq-true p p refl)
        (ap (λ (n : ℕ). n + z.file_name_entry) same),
)

create_direct-Grows :
    (z : Sizes) (lib : Library) (p new : ℕ) (entry : List ℕ) (fs : FileSystem)
    → MarksOnly lib
    → Grows z p new fs (create_direct z lib p new entry fs)
unfolding create_direct Grows
create_direct-Grows z lib p new entry fs marks =
    either (Grows z p new fs) ((fs.inodes p).size % z.block_bytes == 0) _ _
      (maybe (Grows z p new fs) (lib.first_unused_data fs) (null fs) _ refl (λ b.
        KeepsSize-bind z p new fs _ _ (copy_to-KeepsSize z p b 0 entry fs fs refl) (λ fs1 same.
          KeepsSize-bind z p new fs _ _ (put_direct-KeepsSize p _ b fs fs1 same) (λ fs2 same.
            finish-Grows z lib p new fs (lib.set_data_used b fs2)
              (marks-size lib p b fs fs2 marks same)))))
      (maybe (Grows z p new fs)
        (get_elem? (fs.inodes p).direct ((fs.inodes p).size / z.block_bytes)) fault _ tt
        (λ b.
          KeepsSize-bind z p new fs _ _ (copy_to-KeepsSize z p b _ entry fs fs refl)
            (λ fs1 same. finish-Grows z lib p new fs fs1 same)))

create_in_array-Grows :
    (z : Sizes) (lib : Library) (p new : ℕ) (entry : List ℕ) (arr k : ℕ) (fs fs' : FileSystem)
    → (fs'.inodes p).size ≡ (fs.inodes p).size
    → MarksOnly lib
    → Grows z p new fs (create_in_array z lib p new entry arr k fs')
unfolding create_in_array Grows
create_in_array-Grows z lib p new entry arr k fs fs' same marks =
    maybe (Grows z p new fs) (lib.first_unused_data fs') (null fs') _ same (λ b.
      KeepsSize-bind z p new fs _ _ (put_in_array-KeepsSize z lib p arr k b fs fs' same)
        (λ fs1 same.
          KeepsSize-bind z p new fs _ _
            (copy_to-KeepsSize z p b 0 entry fs (lib.set_data_used b fs1)
              (marks-size lib p b fs fs1 marks same))
            (λ fs2 same. finish-Grows z lib p new fs fs2 same)))

in_data-Grows :
    (z : Sizes) (p new b : ℕ) (fs : FileSystem) (f : ℕ → Made)
    → ((b : ℕ) → Grows z p new fs (f b))
    → Grows z p new fs (in_data z b >>= f)
unfolding in_data Grows
in_data-Grows z p new b fs f grows =
    either (λ (m : Outcome ℕ). Grows z p new fs (m >>= f)) (ltb b z.data_number) (done b) fault
      (grows b) tt

create_indirect-Grows :
    (z : Sizes) (lib : Library) (p new : ℕ) (entry : List ℕ) (fs : FileSystem)
    → MarksOnly lib
    → Grows z p new fs (create_indirect z lib p new entry fs)
unfolding create_indirect put_inode Grows
create_indirect-Grows z lib p new entry fs marks =
    maybe (Grows z p new fs) (fs.inodes p).indirect _ _
      (maybe (Grows z p new fs) (lib.first_unused_data fs) (null fs) _ refl (λ arr.
        create_in_array-Grows z lib p new entry arr 0 fs _
          (marks-size lib p arr fs _ marks (ap (λ (n : Inode). n.size) (update-same fs.inodes p _)))
          marks))
      (λ arr.
        either (Grows z p new fs) ((fs.inodes p).size % z.block_bytes == 0) _ _
          (create_in_array-Grows z lib p new entry arr _ fs fs refl marks)
          (in_data-Grows z p new arr fs _ (λ arr.
            KeepsSize-bind z p new fs _ _ (copy_to-KeepsSize z p _ _ entry fs fs refl)
              (λ fs1 same. finish-Grows z lib p new fs fs1 same))))

pub create_entry-Grows :
    (z : Sizes) (lib : Library) (p new : ℕ) (entry : List ℕ) (fs : FileSystem)
    → MarksOnly lib
    → Grows z p new fs (create_entry z lib p new entry fs)
unfolding create_entry Grows
create_entry-Grows z lib p new entry fs marks =
    either (Grows z p new fs) (leb (fs.inodes p).size (z.num_direct_blocks * z.block_bytes)) _ _
      (create_direct-Grows z lib p new entry fs marks)
      (either (Grows z p new fs)
        (leb (fs.inodes p).size ((z.num_direct_blocks + z.num_indirect_blocks) * z.block_bytes)) _ _
        (create_indirect-Grows z lib p new entry fs marks) refl)
