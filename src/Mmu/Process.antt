-- ===== src/Mmu/Process.antt =====
-- ideal_indirection/mmu.c: processes come and go.
use system_programming_uiuc.Prelude.{
  ℕ, zero, suc, ◌+◌, ◌*◌, ◌/◌, ◌^◌, true, false, Option, none, some, ltb, ◌==◌, if◌then◌else◌, not,
  update,
}
use system_programming_uiuc.Prelude.Outcome.{Outcome, done, abort}
use system_programming_uiuc.Mmu.{
  stack, mmap, heap, bss, data_section, text, testing, Permissions, VmSegmentations, Mmu, page_size,
  num_entries, grant,
}
use system_programming_uiuc.Mmu.Kernel.{Slot, slot, Machine, entry, Kernel, Tlb}

abbrev pub read_write : Permissions
read_write = record { read = true; write = true; exec = false }

-- The addresses are 0xBFFFE000, 0xC07FE000, 0x08072000, 0x0805A000, 0x08052000 and 0x08048000.
unfoldable pub initial_segments : VmSegmentations
initial_segments stack = record {
  start = 3221217280;
  end = 3229605888;
  permissions = read_write;
  grows_down = true;
}
initial_segments mmap = record {
  start = 3229605888;
  end = 3229605888;
  permissions = record { read = true; write = true; exec = true };
  grows_down = true;
}
initial_segments heap = record {
  start = 134684672;
  end = 134684672;
  permissions = read_write;
  grows_down = false;
}
initial_segments bss = record {
  start = 134586368;
  end = 134684672;
  permissions = read_write;
  grows_down = false;
}
initial_segments data_section = record {
  start = 134553600;
  end = 134586368;
  permissions = read_write;
  grows_down = false;
}
initial_segments text = record {
  start = 134512640;
  end = 134553600;
  permissions = record { read = true; write = false; exec = true };
  grows_down = false;
}
initial_segments testing = record {
  start = page_size;
  end = 3 * page_size;
  permissions = read_write;
  grows_down = false;
}

module _ (K : Kernel) where
  open K use {State, ask_kernel_for_frame, return_frame_to_kernel, remove_swap_file}

  -- One turn of the loop over the entries 1 and 2 of the first page table.
  unfoldable pub grant_page : ℕ → ℕ → Machine State → Machine State
  unfolding grant
  grant_page pd i m = let pte = slot (entry m (slot pd 0)).base_addr i in grant K (some pte) pte m

  -- The frame of a new directory, and the memory behind it.
  unfoldable pub new_directory : Machine State → ℕ × Machine State
  unfolding grant grant_page
  new_directory m =
      let asked = ask_kernel_for_frame none m in
      let pd = asked.0 / 2 ^ 12 in
      (pd, grant_page pd 2 (grant_page pd 1 (grant K none (slot pd 0) asked.1)))

  unfoldable pub remove_page : Slot → Machine State → Machine State
  remove_page pte m =
      remove_swap_file pte
        (if (entry m pte).present then return_frame_to_kernel (entry m pte).base_addr m else m)

  -- The turns of the inner loop from `vpn2` on.
  unfoldable pub remove_pages : ℕ → ℕ → ℕ → Machine State → Machine State
  unfolding remove_page
  remove_pages zero pt vpn2 m = m
  remove_pages (suc n) pt vpn2 m = remove_pages n pt (vpn2 + 1) (remove_page (slot pt vpn2) m)

  unfoldable pub remove_table : Slot → Machine State → Machine State
  unfolding remove_pages
  remove_table pde m =
      let pt = (entry m pde).base_addr in
      if (entry m pde).present
      then return_frame_to_kernel pt (remove_pages num_entries pt 0 m)
      else m

  unfoldable pub remove_tables : ℕ → ℕ → ℕ → Machine State → Machine State
  unfolding remove_table
  remove_tables zero pd vpn1 m = m
  remove_tables (suc n) pd vpn1 m = remove_tables n pd (vpn1 + 1) (remove_table (slot pd vpn1) m)

  unfoldable pub remove_directory : Option ℕ → Machine State → Machine State
  unfolding remove_tables
  remove_directory none m = m
  remove_directory (some pd) m = return_frame_to_kernel pd (remove_tables num_entries pd 0 m)

module _ (K : Kernel) (T : Tlb) (max_process_id : ℕ) where
  unfoldable pub mmu_add_process : Mmu K T → ℕ → Outcome (Mmu K T)
  unfolding new_directory initial_segments
  mmu_add_process this pid =
      if not (ltb pid max_process_id)
      then abort
      else done (record this {
        page_directories = update this.page_directories pid (some (new_directory K this.machine).0);
        segmentations = update this.segmentations pid (some initial_segments);
        machine = (new_directory K this.machine).1;
      })

  unfoldable pub mmu_remove_process : Mmu K T → ℕ → Outcome (Mmu K T)
  unfolding remove_directory
  mmu_remove_process this pid =
      if not (ltb pid max_process_id)
      then abort
      else done (record this {
        tlb = if this.curr_pid == pid then T.tlb_flush this.tlb else this.tlb;
        page_directories = update this.page_directories pid none;
        segmentations = update this.segmentations pid none;
        machine = remove_directory K (this.page_directories pid) this.machine;
      })
