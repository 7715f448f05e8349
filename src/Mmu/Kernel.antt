-- ===== src/Mmu/Kernel.antt =====
-- What ideal_indirection/mmu.c uses of kernel.h, page_table.h and tlb.h, which are not in the
-- repository: the entries, the memory, and the calls of the kernel and of the TLB.
use system_programming_uiuc.Prelude.{ℕ, ◌/◌, ◌≡◌, ◌≢◌, ◌⊎◌, Bool, false, Option, none, some, update}

-- An entry of a page directory or of a page table.
pub record TableEntry : Type 0 where
  pub base_addr : ℕ
  pub present : Bool
  pub read_write : Bool
  pub user_supervisor : Bool
  pub accessed : Bool
  pub dirty : Bool

-- A pointer to an entry: the number of the frame that holds it, and its index there.
pub record Slot : Type 0 where
  pub table : ℕ
  pub index : ℕ

abbrev pub slot : ℕ → ℕ → Slot
slot t i = record { table = t; index = i }

-- The kernel's own state, the entries in the frames of directories and tables, and the bytes in the
-- frames of pages.
pub record Machine (State : Type 0) : Type 0 where
  pub kernel : State
  pub entries : ℕ → ℕ → TableEntry
  pub bytes : ℕ → ℕ → ℕ

module _ {State : Type 0} where
  abbrev pub entry : Machine State → Slot → TableEntry
  entry m q = m.entries q.table q.index

  abbrev pub put : Slot → TableEntry → Machine State → Machine State
  put q e m = record m { entries = update m.entries q.table (update (m.entries q.table) q.index e) }

-- `Owner` holds of the entries that the kernel may still change, since it gave a frame for their page
-- or gave no one the frame that they stand in, and `Reserved` of the frames that it gave to no entry,
-- which it leaves alone.
pub record Kernel : Type 1 where
  pub State : Type 0
  pub ask_kernel_for_frame : Option Slot → Machine State → ℕ × Machine State
  pub read_page_from_disk : Slot → Machine State → Machine State
  pub return_frame_to_kernel : ℕ → Machine State → Machine State
  pub remove_swap_file : Slot → Machine State → Machine State
  pub Owner : State → Slot → Type 0
  pub Reserved : State → ℕ → Type 0
  pub ask-frame :
      (o : Option Slot) (m : Machine State) (b : ℕ)
      → Reserved m.kernel b
      → (ask_kernel_for_frame o m).0 / 4096 ≢ b
  pub ask_none-Reserved :
      (m : Machine State)
      → Reserved (ask_kernel_for_frame none m).1.kernel ((ask_kernel_for_frame none m).0 / 4096)
  pub ask_none-unowned :
      (m : Machine State) (i : ℕ)
      → Owner
          (ask_kernel_for_frame none m).1.kernel
          (slot ((ask_kernel_for_frame none m).0 / 4096) i)
      → ⊥
  -- A new frame is blank.
  pub ask_none-blank :
      (m : Machine State) (i : ℕ)
      → (entry
          (ask_kernel_for_frame none m).1
          (slot ((ask_kernel_for_frame none m).0 / 4096) i)).present
        ≡ false
  pub ask-Reserved :
      (o : Option Slot) (m : Machine State) (b : ℕ)
      → Reserved m.kernel b
      → Reserved (ask_kernel_for_frame o m).1.kernel b
  pub ask-Owner :
      (o : Option Slot) (m : Machine State) (q : Slot)
      → Owner (ask_kernel_for_frame o m).1.kernel q
      → (o ≡ some q) ⊎ Owner m.kernel q
  pub ask-entries :
      (o : Option Slot) (m : Machine State) (q : Slot)
      → (Owner m.kernel q → ⊥)
      → entry (ask_kernel_for_frame o m).1 q ≡ entry m q
  pub read-entries :
      (p : Slot) (m : Machine State) (q : Slot)
      → q.table ≢ (entry m p).base_addr
      → entry (read_page_from_disk p m) q ≡ entry m q
  pub read-kernel : (p : Slot) (m : Machine State) → (read_page_from_disk p m).kernel ≡ m.kernel

pub record Tlb : Type 1 where
  pub Cache : Type 0
  pub tlb_create : Cache
  pub tlb_get_pte : ℕ → Cache → Option Slot × Cache
  pub tlb_add_pte : ℕ → Slot → Cache → Cache
  pub tlb_flush : Cache → Cache
  pub create-get : (a : ℕ) → (tlb_get_pte a tlb_create).0 ≡ none
  pub flush-get : (a : ℕ) (t : Cache) → (tlb_get_pte a (tlb_flush t)).0 ≡ none
  pub add-get :
      (a b : ℕ) (p q : Slot) (t : Cache)
      → (tlb_get_pte b (tlb_add_pte a p t)).0 ≡ some q
      → ((a ≡ b) × (p ≡ q)) ⊎ ((tlb_get_pte b t).0 ≡ some q)
  pub get-get :
      (a b : ℕ) (q : Slot) (t : Cache)
      → (tlb_get_pte b (tlb_get_pte a t).1).0 ≡ some q
      → (tlb_get_pte b t).0 ≡ some q
