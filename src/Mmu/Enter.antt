-- ===== src/Mmu/Enter.antt =====
-- ideal_indirection/mmu.c: get_table_entry brings in the page of an address, from the TLB or not.
use system_programming_uiuc.Prelude.{
  ℕ, ◌<◌, ◌≤◌, ◌≡◌, refl, sym, ap, subst, ◌∙◌, inl, inr, true, some, Option-cases, ltb-false, arith,
}
use system_programming_uiuc.Prelude.Outcome.{done, fault}
use system_programming_uiuc.Mmu.{
  Mmu, top_level, page_of, num_entries, with_page, walk, lookup, touch, get_table_entry,
  mmu_tlb_miss,
}
use system_programming_uiuc.Mmu.Kernel.{Slot, entry, Kernel, Tlb}
use system_programming_uiuc.Mmu.Tables.{IsDirectory, Walks, Alike-Walks, put-same}
use system_programming_uiuc.Mmu.Faults.{page-Fault}
use system_programming_uiuc.Mmu.Coherent.{Sound, Kept, with_page-present, with_page-Paged}
use system_programming_uiuc.Mmu.Lookup.{lookup-Found, touch-Alike, touch-Sound}

module _ (K : Kernel) (T : Tlb) where
  open T use {tlb_get_pte}

  -- How `get_table_entry` ends: the entry is present and marked, it is the one to which the directory
  -- leads, and the frame and the bytes are those from before if its page was there.
  pub record Entered (this : Mmu K T) (d v : ℕ) (r : Slot × Mmu K T) : Type 0 where
    pub sound : Sound K T r.1
    pub kept : Kept K T this r.1
    pub walks : Walks K r.1.page_directories r.1.machine d v r.0
    pub present : (entry r.1.machine r.0).present ≡ true
    pub accessed : (entry r.1.machine r.0).accessed ≡ true
    pub again :
        (q : Slot)
        → Walks K this.page_directories this.machine d v q
        → (entry this.machine q).present ≡ true
        → (r.0 ≡ q)
          × ((entry r.1.machine q).base_addr ≡ (entry this.machine q).base_addr)
          × (r.1.machine.bytes ≡ this.machine.bytes)

  entered-machine :
      (this : Mmu K T) (v : ℕ) (p : Slot)
      → (entry this.machine p).present ≡ true
      → ((entry (touch K T v p (with_page K T (some p) p this)).machine p).base_addr
          ≡ (entry this.machine p).base_addr)
        × ((touch K T v p (with_page K T (some p) p this)).machine.bytes ≡ this.machine.bytes)
  unfolding touch
  entered-machine this v p here =
      let same = with_page-present K T (some p) p this here in
      (
        ap (λ t. (entry (touch K T v p t).machine p).base_addr) same
            ∙ (touch-Alike K T this v p).base_addr p,
        ap (λ t. t.machine.bytes) same,
      )

  pub get_table_entry-Entered :
      (this : Mmu K T) (d v : ℕ)
      → Sound K T this
      → this.page_directories this.curr_pid ≡ some d
      → top_level v < num_entries
      → (r : Slot × Mmu K T) × (get_table_entry K T this v ≡ done r) × Entered this d v r
  unfolding get_table_entry touch
  get_table_entry-Entered this d v s dir low =
      let (found, e, f) = lookup-Found K T this d v s dir low in
      let (p, now) = found in
      let same_dirs = f.kept.page_directories in
      let is = ap (λ ds. ds this.curr_pid) same_dirs ∙ dir in
      let now_dir = ap now.page_directories f.kept.curr_pid ∙ is in
      let way = subst (λ ds. Walks K ds now.machine d v p) (sym same_dirs) f.walks in
      let leads = f.sound.tables.leads d (this.curr_pid, is) (top_level v) way.1 in
      let table = ap (λ q. q.table) (sym way.2) in
      let g = with_page-Paged K T now (some p) p f.sound (
        page-Fault K now.page_directories now.machine p f.sound.tables
          (subst (K.Reserved now.machine.kernel) table leads.0)
          (λ is'. leads.1 (subst (IsDirectory K now.page_directories) (sym table) is'))) in
      let paged = with_page K T (some p) p now in
      let walks = g.walks d v p (this.curr_pid, is) way in
      let dir' =
        ap paged.page_directories g.kept.curr_pid
        ∙ ap (λ ds. ds now.curr_pid) g.kept.page_directories
        ∙ now_dir in
      (
        (p, touch K T v p paged),
        rw e refl,
        record {
          sound = touch-Sound K T paged d v p g.sound dir' walks;
          kept = record {
            curr_pid = g.kept.curr_pid ∙ f.kept.curr_pid;
            page_directories = g.kept.page_directories ∙ f.kept.page_directories;
            segmentations = g.kept.segmentations ∙ f.kept.segmentations;
          };
          walks =
              Alike-Walks K paged.page_directories paged.machine (touch K T v p paged).machine d v p
                (touch-Alike K T paged v p) walks;
          present = (touch-Alike K T paged v p).present p ∙ g.present;
          accessed = ap (λ x. x.accessed) (put-same p _ paged.machine);
          again = λ q before here.
              let (it, m) = f.again q before in
              let here' = ap (λ x. (entry x q).present) m ∙ here in
              let after =
                entered-machine now v p (ap (λ x. (entry now.machine x).present) it ∙ here') in
              (
                it,
                subst
                      (λ x.
                        (entry (touch K T v p paged).machine x).base_addr
                        ≡ (entry now.machine x).base_addr)
                      it after.0
                    ∙ ap (λ x. (entry x q).base_addr) m,
                after.1 ∙ ap (λ x. x.bytes) m,
              );
        },
      )

  walk-fault : (this : Mmu K T) (v : ℕ) → num_entries ≤ top_level v → walk K T this v ≡ fault
  unfolding walk
  walk-fault this v beyond = elim (Option-cases (this.page_directories this.curr_pid)) [
    | inl without ↦ rw (without, walk) refl
    | inr (d, dir) ↦ rw (dir, ltb-false (top_level v) num_entries beyond, walk) refl
  ]

  lookup-fault :
      (this : Mmu K T) (v : ℕ)
      → Sound K T this
      → num_entries ≤ top_level v
      → lookup K T this v ≡ fault
  unfolding lookup
  lookup-fault this v s beyond = elim (Option-cases (tlb_get_pte (page_of v) this.tlb).0) [
    | inl missed ↦
        rw (missed, lookup)
          (walk-fault
            (mmu_tlb_miss K T (record this { tlb = (tlb_get_pte (page_of v) this.tlb).1 })) v
            beyond)
    | inr (p, hit) ↦ let low = (s.cached v p hit).2.0 in absurd (omega arith)
  ]

  -- A unit whose TLB is coherent finds no entry behind the end of the directory.
  pub get_table_entry-fault :
      (this : Mmu K T) (v : ℕ)
      → Sound K T this
      → num_entries ≤ top_level v
      → get_table_entry K T this v ≡ fault
  unfolding get_table_entry
  get_table_entry-fault this v s beyond = rw (lookup-fault this v s beyond) refl
