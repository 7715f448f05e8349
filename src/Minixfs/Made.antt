-- ===== src/Minixfs/Made.antt =====
-- finding_filesystems/minixfs.c: what minixfs_create_inode_for_path leaves.
use system_programming_uiuc.Prelude.{
  ℕ, ◌+◌, ◌≡◌, ◌≢◌, refl, sym, ap, subst, ◌∙◌, Bool, true, false, Option, none, some, List,
}
use system_programming_uiuc.Prelude.Outcome.{done, fault, abort, no_fuel}
use system_programming_uiuc.Minixfs.{FileSystem, Sizes, Caller, permission_set, write_permission}
use system_programming_uiuc.Minixfs.Create.{
  Library, MarksOnly, Made, null, create_in, minixfs_create_inode_for_path,
}
use system_programming_uiuc.Minixfs.Grows.{Grows, create_entry-Grows}

-- What holds when an inode is made; otherwise the size of the directory is as before.
unfoldable pub Created : Sizes → Library → Caller → FileSystem → Made → Type 0
Created z lib who fs (done (some k, fs')) =
    (lib.get_inode fs ≡ none)
    × (lib.first_unused_inode fs ≡ some k)
    × (p : ℕ) × (filename : List ℕ) × (lib.parent_directory fs ≡ some (p, filename))
    × (lib.valid_filename filename ≡ true)
    × (write_permission (permission_set who (fs.inodes p)) (fs.inodes p) ≡ true)
    × (p ≢ k → (fs'.inodes p).size ≡ (fs.inodes p).size + z.file_name_entry)
Created z lib who fs (done (none, fs')) =
    (p : ℕ) (filename : List ℕ)
    → lib.parent_directory fs ≡ some (p, filename)
    → (fs'.inodes p).size ≡ (fs.inodes p).size
Created z lib who fs abort = Unit
Created z lib who fs fault = Unit
Created z lib who fs no_fuel = Unit

-- A test with its value, and an option with its.
either-known :
    {A : Type 0} (P : A → Type 0) (b : Bool) (x y : A)
    → (b ≡ true → P x)
    → P y
    → P (elim b [ true ↦ x | false ↦ y ])
either-known P true x y px py = px refl
either-known P false x y px py = py

maybe-known :
    {A B : Type 0} (P : A → Type 0) (o : Option B) (x : A) (f : B → A)
    → (o ≡ none → P x)
    → ((b : B) → o ≡ some b → P (f b))
    → P (elim o [ none ↦ x | some b ↦ f b ])
maybe-known P none x f px pf = px refl
maybe-known P (some b) x f px pf = pf b refl

created :
    (z : Sizes) (lib : Library) (who : Caller) (fs : FileSystem) (p k : ℕ) (filename : List ℕ)
    (m : Made)
    → lib.get_inode fs ≡ none
    → lib.first_unused_inode fs ≡ some k
    → lib.parent_directory fs ≡ some (p, filename)
    → lib.valid_filename filename ≡ true
    → write_permission (permission_set who (fs.inodes p)) (fs.inodes p) ≡ true
    → Grows z p k fs m
    → Created z lib who fs m
unfolding Grows Created
created z lib who fs p k filename (done (some k', fs')) absent unused parent valid may
      (same, grown) =
    (
      absent,
      unused ∙ ap some (sym same),
      p,
      filename,
      parent,
      valid,
      may,
      λ other. grown (λ e. other (e ∙ sym same)),
    )
created z lib who fs p k filename (done (none, fs')) absent unused parent valid may size =
    λ q name e.
      let same : q ≡ p = cc in
      subst (λ (i : ℕ). (fs'.inodes i).size ≡ (fs.inodes i).size) (sym same) size
created z lib who fs p k filename abort absent unused parent valid may size = tt
created z lib who fs p k filename fault absent unused parent valid may size = tt
created z lib who fs p k filename no_fuel absent unused parent valid may size = tt

-- When `set_data_used` leaves the inodes as they are, `minixfs_create_inode_for_path` makes an inode only for a path that has none; the inode is the
-- first unused one, the path's directory exists, its name for the file is valid, the caller may write
-- to the directory, and the directory, unless it is the new inode, grows by one entry. When it
-- returns NULL, the directory, if there is one, has its old size.
pub create_inode-Created :
    (z : Sizes) (lib : Library) (who : Caller) (fs : FileSystem)
    → MarksOnly lib
    → Created z lib who fs (minixfs_create_inode_for_path z lib who fs)
unfolding minixfs_create_inode_for_path create_in Created
create_inode-Created z lib who fs marks =
    maybe-known (Created z lib who fs) (lib.get_inode fs) _ (λ child. null fs)
      (λ absent.
        maybe-known (Created z lib who fs) (lib.first_unused_inode fs) (null fs) _
          (λ e p name d. refl)
          (λ k unused.
            maybe-known (Created z lib who fs) (lib.parent_directory fs) (null fs) _
              (λ e p name d. refl)
              (λ (p, filename) parent.
                either-known (Created z lib who fs) (lib.valid_filename filename) _ (null fs)
                  (λ valid.
                    either-known (Created z lib who fs)
                      (write_permission (permission_set who (fs.inodes p)) (fs.inodes p)) _
                      (null fs)
                      (λ may. created z lib who fs p k filename _ absent unused parent valid may (
                        create_entry-Grows z lib p k (lib.make_string_from_dirent filename k) fs
                          marks))
                      (λ p name d. refl))
                  (λ p name d. refl))))
      (λ child e p name d. refl)
