-- ===== src/Mmu.antt =====
-- ideal_indirection/mmu.c: virtual memory. A page directory or a page table is known by the number
-- of its frame, and a pointer to an entry by the frame and the index. NUM_OFFSET_BITS is 12, as the
-- mask 0xFFF of an offset says, and VIRTUAL_ADDR_SPACE the 32 bits of an `addr32`.
pub mod Kernel
pub mod Access
pub mod Tables
pub mod Faults
pub mod Coherent
pub mod Lookup
pub mod Enter
pub mod Bytes
pub mod Stored
pub mod Written
pub mod Process
pub mod Added
mod Tests
use system_programming_uiuc.Prelude.{
  ℕ, ◌+◌, ◌*◌, ◌-◌, ◌/◌, ◌%◌, ◌^◌, Bool, true, Option, none, some, List, [], ◌∷◌, ltb, ◌==◌,
  if◌then◌else◌, update, suc, zero,
}
use system_programming_uiuc.Prelude.Outcome.{Outcome, done, fault, ◌>>=◌}
use Kernel.{TableEntry, Slot, slot, Machine, entry, put}

abbrev pub page_size : ℕ
page_size = 2 ^ 12

abbrev pub num_entries : ℕ
num_entries = 1024

pub data Section : Type 0 where
  stack : Section
  mmap : Section
  heap : Section
  bss : Section
  data_section : Section
  text : Section
  testing : Section

-- The flags READ, WRITE and EXEC of a segment.
pub record Permissions : Type 0 where
  pub read : Bool
  pub write : Bool
  pub exec : Bool

pub record VmSegmentation : Type 0 where
  pub start : ℕ
  pub end : ℕ
  pub permissions : Permissions
  pub grows_down : Bool

abbrev pub VmSegmentations : Type 0
VmSegmentations = Section → VmSegmentation

-- `address_in_segmentations` and `find_segment` of segments.h.
pub record Segments : Type 0 where
  pub address_in_segmentations : VmSegmentations → ℕ → Bool
  pub find_segment : VmSegmentations → ℕ → Option VmSegmentation

unfoldable pub top_level : ℕ → ℕ
top_level virtual_address = virtual_address / 2 ^ (32 - 12)

unfoldable pub second_level : ℕ → ℕ
second_level virtual_address = virtual_address / 2 ^ 12 % 2 ^ 10

-- `virtual_address & 0xFFFFF000`.
unfoldable pub page_of : ℕ → ℕ
page_of virtual_address = virtual_address / page_size * page_size

unfoldable pub mapped : ℕ → TableEntry → TableEntry
mapped address e = record e {
  base_addr = address / 2 ^ 12;
  present = true;
  read_write = true;
  user_supervisor = true;
}

unfoldable pub load_bytes : (ℕ → ℕ) → ℕ → ℕ → List ℕ
load_bytes frame offset zero = []
load_bytes frame offset (suc n) = frame offset ∷ load_bytes frame (offset + 1) n

unfoldable pub store_bytes : (ℕ → ℕ) → ℕ → List ℕ → ℕ → ℕ
store_bytes frame offset [] = frame
store_bytes frame offset (b ∷ buffer) = update (store_bytes frame (offset + 1) buffer) offset b

module _ (K : Kernel.Kernel) where
  open K use {State, ask_kernel_for_frame, read_page_from_disk}

  -- The machine behind `base_addr = ask_kernel_for_frame(owner) >> NUM_OFFSET_BITS`, the read from
  -- the disk and the three flags.
  unfoldable pub page_in : Option Slot → Slot → Machine State → Machine State
  page_in owner p m =
      let asked = ask_kernel_for_frame owner m in
      let based = put p (record (entry asked.1 p) { base_addr = asked.0 / 2 ^ 12 }) asked.1 in
      let filled = read_page_from_disk p based in
      put p (record (entry filled p) { present = true; read_write = true; user_supervisor = true })
        filled

  -- An entry that is given a frame and the three flags.
  unfoldable pub grant : Option Slot → Slot → Machine State → Machine State
  grant owner p m =
      let asked = ask_kernel_for_frame owner m in put p (mapped asked.0 (entry asked.1 p)) asked.1

module _ (K : Kernel.Kernel) (T : Kernel.Tlb) where
  open K use {State}
  open T use {Cache, tlb_create, tlb_get_pte, tlb_add_pte, tlb_flush}

  pub record Mmu : Type 0 where
    pub tlb : Cache
    pub curr_pid : ℕ
    pub page_directories : ℕ → Option ℕ
    pub segmentations : ℕ → Option VmSegmentations
    pub num_tlb_misses : ℕ
    pub num_page_faults : ℕ
    pub num_segmentation_faults : ℕ
    pub machine : Machine State

  unfoldable pub mmu_create : Machine State → Mmu
  mmu_create m = record {
    tlb = tlb_create;
    curr_pid = 0;
    page_directories = λ pid. none;
    segmentations = λ pid. none;
    num_tlb_misses = 0;
    num_page_faults = 0;
    num_segmentation_faults = 0;
    machine = m;
  }

  unfoldable pub mmu_tlb_miss : Mmu → Mmu
  mmu_tlb_miss this = record this { num_tlb_misses = this.num_tlb_misses + 1 }

  unfoldable pub mmu_raise_page_fault : Mmu → Mmu
  mmu_raise_page_fault this = record this { num_page_faults = this.num_page_faults + 1 }

  unfoldable pub mmu_raise_segmentation_fault : Mmu → Mmu
  mmu_raise_segmentation_fault this = record this {
    num_segmentation_faults = this.num_segmentation_faults + 1;
  }

  unfoldable pub with_page : Option Slot → Slot → Mmu → Mmu
  with_page owner p this =
      if (entry this.machine p).present
      then this
      else record (mmu_raise_page_fault this) { machine = page_in K owner p this.machine }

  -- The entry of the page table that the page directory leads to. An index past the directory's end
  -- is a fault.
  unfoldable pub walk : Mmu → ℕ → Outcome (Slot × Mmu)
  walk this virtual_address = elim (this.page_directories this.curr_pid) [
    | none ↦ fault
    | some pd ↦
        if ltb (top_level virtual_address) num_entries
        then (let pde = slot pd (top_level virtual_address) in
            let found = with_page none pde this in
            done (slot (entry found.machine pde).base_addr (second_level virtual_address), found))
        else fault
  ]

  unfoldable pub lookup : Mmu → ℕ → Outcome (Slot × Mmu)
  lookup this virtual_address =
      let got = tlb_get_pte (page_of virtual_address) this.tlb in
      let looked = record this { tlb = got.1 } in
      elim got.0 [
        | some pte ↦ done (pte, looked)
        | none ↦ walk (mmu_tlb_miss looked) virtual_address
      ]

  unfoldable pub touch : ℕ → Slot → Mmu → Mmu
  touch virtual_address pte this = record this {
    machine = put pte (record (entry this.machine pte) { accessed = true }) this.machine;
    tlb = tlb_add_pte (page_of virtual_address) pte this.tlb;
  }

  unfoldable pub get_table_entry : Mmu → ℕ → Outcome (Slot × Mmu)
  get_table_entry this virtual_address = lookup this virtual_address >>= λ found.
      done (found.0, touch virtual_address found.0 (with_page (some found.0) found.0 found.1))

  unfoldable pub switch_to : ℕ → Mmu → Mmu
  switch_to pid this =
      if this.curr_pid == pid
      then this
      else record this { tlb = tlb_flush this.tlb; curr_pid = pid }

  unfoldable pub write_frame : Slot → ℕ → List ℕ → Mmu → Mmu
  write_frame pte virtual_address buffer this =
      let e = entry this.machine pte in
      let marked = put pte (record e { dirty = true }) this.machine in
      record this {
        machine = record marked {
          bytes =
              update marked.bytes e.base_addr
                (store_bytes (marked.bytes e.base_addr) (virtual_address % 2 ^ 12) buffer);
        };
      }
