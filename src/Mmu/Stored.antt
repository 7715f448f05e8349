-- ===== src/Mmu/Stored.antt =====
-- ideal_indirection/mmu.c: what is written at an address is read there.
use system_programming_uiuc.Prelude.{
  ℕ, ◌%◌, ◌^◌, ◌<◌, ◌≡◌, refl, sym, ap, ◌∙◌, inl, inr, true, some, List, length, eq-false, eq-true,
  Bool-cases, ◌==◌, update-same, ℕ_discrete,
}
use system_programming_uiuc.Prelude.Outcome.{done}
use system_programming_uiuc.Mmu.{
  Permissions, Mmu, top_level, num_entries, load_bytes, store_bytes, switch_to, write_frame,
}
use system_programming_uiuc.Mmu.Kernel.{Slot, entry, Kernel, Tlb}
use system_programming_uiuc.Mmu.Access.{may_read, read_segment, write_segment}
use system_programming_uiuc.Mmu.Tables.{Walks, Alike, put-Alike, Alike-Tables, Alike-Walks}
use system_programming_uiuc.Mmu.Faults.{some-none}
use system_programming_uiuc.Mmu.Coherent.{Sound, Kept}
use system_programming_uiuc.Mmu.Bytes.{read-store_bytes}
use system_programming_uiuc.Mmu.Enter.{Entered, get_table_entry-Entered}

module _ (K : Kernel) (T : Tlb) where
  pub switch_to-Sound :
      (this : Mmu K T) (pid : ℕ) → Sound K T this → Sound K T (switch_to K T pid this)
  unfolding switch_to
  switch_to-Sound this pid s = elim (Bool-cases (this.curr_pid == pid)) [
    | inl same ↦ rw same s
    | inr other ↦ rw other (record {
      tables = s.tables;
      cached = λ v p h. absurd (some-none (sym (T.flush-get _ this.tlb) ∙ h));
    })
  ]

  pub switch_to-same :
      (this : Mmu K T) (pid : ℕ) → this.curr_pid ≡ pid → switch_to K T pid this ≡ this
  unfolding switch_to
  switch_to-same this pid same = rw (eq-true this.curr_pid pid same) refl

  -- The process is switched to and keeps its directory and its segments.
  pub switch_to-running :
      (this : Mmu K T) (pid : ℕ)
      → ((switch_to K T pid this).curr_pid ≡ pid)
        × ((switch_to K T pid this).page_directories ≡ this.page_directories)
        × ((switch_to K T pid this).segmentations ≡ this.segmentations)
  unfolding switch_to
  switch_to-running this pid = elim (ℕ_discrete this.curr_pid pid) [
    | yes same ↦ rw (eq-true this.curr_pid pid same) (same, refl, refl)
    | no other ↦ rw (eq-false this.curr_pid pid other) (refl, refl, refl)
  ]

  pub switch_to-machine :
      (this : Mmu K T) (pid : ℕ)
      → ((switch_to K T pid this).machine ≡ this.machine)
        × ((switch_to K T pid this).num_segmentation_faults ≡ this.num_segmentation_faults)
  unfolding switch_to
  switch_to-machine this pid = elim (Bool-cases (this.curr_pid == pid)) [
    | inl same ↦ rw same (refl, refl)
    | inr other ↦ rw other (refl, refl)
  ]

  -- The page of the address is there and holds the bytes.
  pub record Holds (this : Mmu K T) (d v : ℕ) (buffer : List ℕ) (this' : Mmu K T) : Type 0 where
    pub sound : Sound K T this'
    pub kept : Kept K T this this'
    pub pte : Slot
    pub walks : Walks K this'.page_directories this'.machine d v pte
    pub present : (entry this'.machine pte).present ≡ true
    pub bytes :
        load_bytes
          (this'.machine.bytes (entry this'.machine pte).base_addr)
          (v % 2 ^ 12)
          (length buffer)
        ≡ buffer

  write_frame-Holds :
      (this now : Mmu K T) (d v : ℕ) (p : Slot) (buffer : List ℕ)
      → Entered K T this d v (p, now)
      → Holds this d v buffer (write_frame K T p v buffer now)
  unfolding write_frame
  write_frame-Holds this now d v p buffer e =
      let marked = (write_frame K T p v buffer now).machine in
      let frame = (entry now.machine p).base_addr in
      let l =
        put-Alike K now.page_directories p (record (entry now.machine p) { dirty = true })
          now.machine refl refl in
      let a : Alike K now.page_directories now.machine marked = record {
        kernel = l.kernel;
        present = l.present;
        base_addr = l.base_addr;
      } in
      let written = store_bytes (now.machine.bytes frame) (v % 2 ^ 12) buffer in
      record {
        sound = record {
          tables = Alike-Tables K now.page_directories now.machine marked a e.sound.tables;
          cached = λ w q h.
              let (d', dir, way) = e.sound.cached w q h in
              (d', dir, Alike-Walks K now.page_directories now.machine marked d' w q a way);
        };
        kept = record {
          curr_pid = e.kept.curr_pid;
          page_directories = e.kept.page_directories;
          segmentations = e.kept.segmentations;
        };
        pte = p;
        walks = Alike-Walks K now.page_directories now.machine marked d v p a e.walks;
        present = a.present p ∙ e.present;
        bytes =
            ap (λ b. load_bytes (marked.bytes b) (v % 2 ^ 12) (length buffer)) (a.base_addr p)
            ∙ ap (λ f. load_bytes f (v % 2 ^ 12) (length buffer))
                (update-same now.machine.bytes frame written)
            ∙ read-store_bytes buffer (now.machine.bytes frame) (v % 2 ^ 12);
      }

  pub write_segment-Holds :
      (permissions : Permissions) (this : Mmu K T) (d v : ℕ) (buffer : List ℕ)
      → Sound K T this
      → this.page_directories this.curr_pid ≡ some d
      → top_level v < num_entries
      → permissions.write ≡ true
      → (this' : Mmu K T) × (write_segment K T permissions this v buffer ≡ done this')
        × Holds this d v buffer this'
  unfolding write_segment
  write_segment-Holds permissions this d v buffer s dir low may =
      let ((p, now), e, entered) = get_table_entry-Entered K T this d v s dir low in
      (
        write_frame K T p v buffer now,
        rw (may, e) refl,
        write_frame-Holds this now d v p buffer entered,
      )

  pub read_segment-Holds :
      (permissions : Permissions) (this now : Mmu K T) (d v : ℕ) (buffer : List ℕ)
      → Holds this d v buffer now
      → now.page_directories now.curr_pid ≡ some d
      → may_read permissions ≡ true
      → (this' : Mmu K T) × (read_segment K T permissions now v (length buffer)
          ≡ done (some buffer, this'))
        × Sound K T this'
  unfolding read_segment
  read_segment-Holds permissions this now d v buffer h dir may =
      let ((p, then_now), e, entered) = get_table_entry-Entered K T now d v h.sound dir h.walks.0 in
      let (it, base, bytes) = entered.again h.pte h.walks h.present in
      let same =
        ap
          (λ q.
            load_bytes (then_now.machine.bytes (entry then_now.machine q).base_addr) (v % 2 ^ 12)
              (length buffer))
          it
        ∙ ap (λ b. load_bytes (then_now.machine.bytes b) (v % 2 ^ 12) (length buffer)) base
        ∙ ap (λ f. load_bytes (f (entry now.machine h.pte).base_addr) (v % 2 ^ 12) (length buffer))
            bytes
        ∙ h.bytes in
      (then_now, rw (may, e) (ap (λ b. done (some b, then_now)) same), entered.sound)
