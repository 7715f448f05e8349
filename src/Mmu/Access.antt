-- ===== src/Mmu/Access.antt =====
-- ideal_indirection/mmu.c: reading and writing at a virtual address.
use system_programming_uiuc.Prelude.{
  ℕ, ◌+◌, ◌%◌, ◌^◌, Bool, Option, none, some, List, ltb, leb, ◌==◌, if◌then◌else◌, ◌&&◌, ◌||◌, not,
  length,
}
use system_programming_uiuc.Prelude.Outcome.{Outcome, done, abort, fault, ◌>>=◌}
use system_programming_uiuc.Mmu.{
  Segments, Permissions, VmSegmentations, Mmu, page_size, get_table_entry, switch_to, load_bytes,
  write_frame, mmu_raise_segmentation_fault,
}
use system_programming_uiuc.Mmu.Kernel.{Kernel, Tlb, entry}

-- `permissions && READ`: any flag counts.
unfoldable pub may_read : Permissions → Bool
may_read p = p.read || p.write || p.exec

module _ (K : Kernel) (T : Tlb) where
  -- Behind the segmentation check, for the segment that was found: the bytes that are copied.
  unfoldable pub read_segment : Permissions → Mmu K T → ℕ → ℕ → Outcome (Option (List ℕ) × Mmu K T)
  unfolding may_read get_table_entry mmu_raise_segmentation_fault load_bytes
  read_segment permissions this virtual_address num_bytes =
      if may_read permissions
      then (get_table_entry K T this virtual_address >>= λ found.
          let frame = (entry found.1.machine found.0).base_addr in
          done (
            some (load_bytes (found.1.machine.bytes frame) (virtual_address % 2 ^ 12) num_bytes),
            found.1,
          ))
      else done (none, mmu_raise_segmentation_fault K T this)

  unfoldable pub write_segment : Permissions → Mmu K T → ℕ → List ℕ → Outcome (Mmu K T)
  unfolding get_table_entry mmu_raise_segmentation_fault write_frame
  write_segment permissions this virtual_address buffer =
      if permissions.write
      then (get_table_entry K T this virtual_address >>= λ found.
          done (write_frame K T found.0 virtual_address buffer found.1))
      else done (mmu_raise_segmentation_fault K T this)

module _ (K : Kernel) (T : Tlb) (S : Segments) (max_process_id : ℕ) where
  -- The three assertions.
  unfoldable pub accepts : ℕ → ℕ → ℕ → Bool
  accepts virtual_address pid num_bytes =
      ltb pid max_process_id && leb ((num_bytes + virtual_address % page_size) % 2 ^ 64) page_size

  unfoldable pub out_of_segments : VmSegmentations → ℕ → Bool
  out_of_segments segs virtual_address =
      not (S.address_in_segmentations segs virtual_address) || (virtual_address == 0)

  -- A process without segments is a fault, as is a segment that is not found.
  unfoldable pub mmu_read_from_virtual_address :
      Mmu K T → ℕ → ℕ → ℕ → Outcome (Option (List ℕ) × Mmu K T)
  unfolding accepts out_of_segments read_segment switch_to mmu_raise_segmentation_fault
  mmu_read_from_virtual_address this virtual_address pid num_bytes =
      if not (accepts virtual_address pid num_bytes)
      then abort
      else elim ((switch_to K T pid this).segmentations pid) [
        | none ↦ fault
        | some segs ↦
            if out_of_segments segs virtual_address
            then done (none, mmu_raise_segmentation_fault K T (switch_to K T pid this))
            else elim (S.find_segment segs virtual_address) [
              | none ↦ fault
              | some seg ↦
                  read_segment K T seg.permissions (switch_to K T pid this) virtual_address
                    num_bytes
            ]
      ]

  unfoldable pub mmu_write_to_virtual_address : Mmu K T → ℕ → ℕ → List ℕ → Outcome (Mmu K T)
  unfolding accepts out_of_segments write_segment switch_to mmu_raise_segmentation_fault
  mmu_write_to_virtual_address this virtual_address pid buffer =
      if not (accepts virtual_address pid (length buffer))
      then abort
      else elim ((switch_to K T pid this).segmentations pid) [
        | none ↦ fault
        | some segs ↦
            if out_of_segments segs virtual_address
            then done (mmu_raise_segmentation_fault K T (switch_to K T pid this))
            else elim (S.find_segment segs virtual_address) [
              | none ↦ done (mmu_raise_segmentation_fault K T (switch_to K T pid this))
              | some seg ↦
                  write_segment K T seg.permissions (switch_to K T pid this) virtual_address buffer
            ]
      ]
