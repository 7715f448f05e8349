-- ===== src/Mmu/Written.antt =====
-- ideal_indirection/mmu.c: a write and the read behind it, with their checks.
use system_programming_uiuc.Prelude.{
  ◌^◌, ◌≤◌, arith, ℕ, ◌+◌, ◌<◌, ◌≤◌, ◌≡◌, refl, ap, ◌∙◌, ◌⊎◌, inl, inr, true, false, none, some,
  List, length, Bool-cases,
}
use system_programming_uiuc.Prelude.Outcome.{done, fault}
use system_programming_uiuc.Mmu.{
  Segments, VmSegmentation, VmSegmentations, Permissions, Mmu, top_level, num_entries, switch_to,
  mmu_raise_segmentation_fault,
}
use system_programming_uiuc.Mmu.Kernel.{Kernel, Tlb}
use system_programming_uiuc.Mmu.Access.{
  may_read, accepts, out_of_segments, read_segment, write_segment, mmu_read_from_virtual_address,
  mmu_write_to_virtual_address,
}
use system_programming_uiuc.Mmu.Coherent.{Sound}
use system_programming_uiuc.Mmu.Enter.{get_table_entry-fault}
use system_programming_uiuc.Mmu.Stored.{
  switch_to-Sound, switch_to-same, switch_to-running, switch_to-machine, write_segment-Holds,
  read_segment-Holds,
}

-- The index of an address in the upper three quarters.
top_level-high : (v : ℕ) → 2 ^ 30 ≤ v → v < 2 ^ 32 → num_entries ≤ top_level v
unfolding top_level
top_level-high v high word = omega arith

writable_may_read : (p : Permissions) → p.write ≡ true → may_read p ≡ true
unfolding may_read
writable_may_read p h = elim (Bool-cases p.read) [
  | inl reads ↦ rw reads refl
  | inr hidden ↦ rw (hidden, h) refl
]

module _ (K : Kernel) (T : Tlb) (S : Segments) (max_process_id : ℕ) where
  -- Behind the checks of both calls.
  write-checked :
      (this : Mmu K T) (v pid : ℕ) (buffer : List ℕ) (segs : VmSegmentations) (seg : VmSegmentation)
      → accepts K T S max_process_id v pid (length buffer) ≡ true
      → (switch_to K T pid this).segmentations pid ≡ some segs
      → out_of_segments K T S max_process_id segs v ≡ false
      → S.find_segment segs v ≡ some seg
      → mmu_write_to_virtual_address K T S max_process_id this v pid buffer
        ≡ write_segment K T seg.permissions (switch_to K T pid this) v buffer
  unfolding mmu_write_to_virtual_address
  write-checked this v pid buffer segs seg ok has inside found = rw (ok, has, inside, found) refl

  read-checked :
      (this : Mmu K T) (v pid n : ℕ) (segs : VmSegmentations) (seg : VmSegmentation)
      → accepts K T S max_process_id v pid n ≡ true
      → (switch_to K T pid this).segmentations pid ≡ some segs
      → out_of_segments K T S max_process_id segs v ≡ false
      → S.find_segment segs v ≡ some seg
      → mmu_read_from_virtual_address K T S max_process_id this v pid n
        ≡ read_segment K T seg.permissions (switch_to K T pid this) v n
  unfolding mmu_read_from_virtual_address
  read-checked this v pid n segs seg ok has inside found = rw (ok, has, inside, found) refl

  -- In a sound unit, a write at an address that passes the checks, into a segment that may be written,
  -- of a process with a page directory, and for a directory index below 1024, returns a sound unit,
  -- and a read of as many bytes at the address next returns those that were written and a sound unit.
  pub write-read :
      (this : Mmu K T) (d v pid : ℕ) (buffer : List ℕ) (segs : VmSegmentations)
      (seg : VmSegmentation)
      → Sound K T this
      → this.page_directories pid ≡ some d
      → top_level v < num_entries
      → accepts K T S max_process_id v pid (length buffer) ≡ true
      → this.segmentations pid ≡ some segs
      → out_of_segments K T S max_process_id segs v ≡ false
      → S.find_segment segs v ≡ some seg
      → seg.permissions.write ≡ true
      → (this' : Mmu K T) × (mmu_write_to_virtual_address K T S max_process_id this v pid buffer
          ≡ done this')
        × Sound K T this'
        × (this'' : Mmu K T) × (mmu_read_from_virtual_address K T S max_process_id this' v pid
              (length buffer)
            ≡ done (some buffer, this''))
        × Sound K T this''
  write-read this d v pid buffer segs seg s dir low ok has inside found may =
      let now = switch_to K T pid this in
      let (at, dirs, segments) = switch_to-running K T this pid in
      let now_has = ap (λ f. f pid) segments ∙ has in
      let now_dir = ap now.page_directories at ∙ ap (λ f. f pid) dirs ∙ dir in
      let (this', e, h) =
        write_segment-Holds K T seg.permissions now d v buffer (switch_to-Sound K T this pid s)
          now_dir low may in
      let at' = h.kept.curr_pid ∙ at in
      let dir' =
        ap this'.page_directories h.kept.curr_pid
        ∙ ap (λ f. f now.curr_pid) h.kept.page_directories
        ∙ now_dir in
      let (this'', e', s'') =
        read_segment-Holds K T seg.permissions now this' d v buffer h dir'
          (writable_may_read seg.permissions may) in
      let stays = switch_to-same K T this' pid at' in
      (
        this',
        write-checked this v pid buffer segs seg ok now_has inside found ∙ e,
        h.sound,
        this'',
        read-checked this' v pid (length buffer) segs seg ok
              (ap (λ t. t.segmentations pid) stays ∙ ap (λ f. f pid) h.kept.segmentations ∙ now_has)
              inside found
            ∙ ap (λ t. read_segment K T seg.permissions t v (length buffer)) stays
            ∙ e',
        s'',
      )

  -- In a sound unit, a write and a read at an address of 32 bits from 0x40000000 on access memory
  -- outside of the page directory, although they pass the checks and the segment may be written.
  pub beyond-fault :
      (this : Mmu K T) (v pid : ℕ) (buffer : List ℕ) (segs : VmSegmentations) (seg : VmSegmentation)
      → Sound K T this
      → 2 ^ 30 ≤ v
      → v < 2 ^ 32
      → accepts K T S max_process_id v pid (length buffer) ≡ true
      → this.segmentations pid ≡ some segs
      → out_of_segments K T S max_process_id segs v ≡ false
      → S.find_segment segs v ≡ some seg
      → seg.permissions.write ≡ true
      → (mmu_write_to_virtual_address K T S max_process_id this v pid buffer ≡ fault)
        × (mmu_read_from_virtual_address K T S max_process_id this v pid (length buffer) ≡ fault)
  unfolding write_segment read_segment
  beyond-fault this v pid buffer segs seg s high word ok has inside found may =
      let now = switch_to K T pid this in
      let now_has = ap (λ f. f pid) (switch_to-running K T this pid).2 ∙ has in
      let beyond = top_level-high v high word in
      let entry_fault = get_table_entry-fault K T now v (switch_to-Sound K T this pid s) beyond in
      (
        write-checked this v pid buffer segs seg ok now_has inside found
            ∙ rw (may, entry_fault) refl,
        read-checked this v pid (length buffer) segs seg ok now_has inside found
            ∙ rw (writable_may_read seg.permissions may, entry_fault) refl,
      )

  -- A write that passes the assertions and is outside of the segments, in no segment that is found, or
  -- in one that may not be written, changes no memory and counts one segmentation fault.
  pub write-refused :
      (this : Mmu K T) (v pid : ℕ) (buffer : List ℕ) (segs : VmSegmentations)
      → accepts K T S max_process_id v pid (length buffer) ≡ true
      → this.segmentations pid ≡ some segs
      → (seg : VmSegmentation)
      → (out_of_segments K T S max_process_id segs v ≡ true)
        ⊎ ((S.find_segment segs v ≡ none)
            ⊎ ((S.find_segment segs v ≡ some seg) × (seg.permissions.write ≡ false)))
      → (this' : Mmu K T) × (mmu_write_to_virtual_address K T S max_process_id this v pid buffer
          ≡ done this')
        × (this'.machine ≡ this.machine)
        × (this'.num_segmentation_faults ≡ this.num_segmentation_faults + 1)
  unfolding mmu_write_to_virtual_address write_segment mmu_raise_segmentation_fault
  write-refused this v pid buffer segs ok has seg why =
      let now = switch_to K T pid this in
      let now_has = ap (λ f. f pid) (switch_to-running K T this pid).2 ∙ has in
      let (machine, faults) = switch_to-machine K T this pid in
      (
        mmu_raise_segmentation_fault K T now,
        (elim why [
          | inl out ↦ rw (ok, now_has, out) refl
          | inr (inl lost) ↦ elim (Bool-cases (out_of_segments K T S max_process_id segs v)) [
            | inl out ↦ rw (ok, now_has, out) refl
            | inr inside ↦ rw (ok, now_has, inside, lost) refl
          ]
          | inr (inr (found, may)) ↦
              elim (Bool-cases (out_of_segments K T S max_process_id segs v)) [
                | inl out ↦ rw (ok, now_has, out) refl
                | inr inside ↦ rw (ok, now_has, inside, found, may) refl
              ]
        ]),
        machine,
        ap (λ n. n + 1) faults,
      )
