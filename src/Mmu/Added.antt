-- ===== src/Mmu/Added.antt =====
-- ideal_indirection/mmu.c: mmu_add_process keeps the unit sound.
use system_programming_uiuc.Prelude.{
  ℕ, ◌/◌, ◌^◌, ◌<◌, ◌≡◌, refl, sym, ap, subst, ◌∙◌, ◌⊎◌, inl, inr, true, Option, none, some, update,
  update-same, update-other, ℕ_discrete, lt→ltb, ltb→lt,
}
use system_programming_uiuc.Prelude.Outcome.{done}
use system_programming_uiuc.Graph.{true-false}
use system_programming_uiuc.Mmu.{Mmu, top_level, second_level, page_of, num_entries, grant}
use system_programming_uiuc.Mmu.Kernel.{Slot, slot, Machine, entry, Kernel, Tlb}
use system_programming_uiuc.Mmu.Tables.{IsDirectory, Tables, Walks, grant-Brings}
use system_programming_uiuc.Mmu.Faults.{
  directory-Fault, page-Fault, Brings-Tables, Brings-Walks, some-none, some_inj,
}
use system_programming_uiuc.Mmu.Coherent.{Sound}
use system_programming_uiuc.Mmu.Process.{
  grant_page, new_directory, initial_segments, mmu_add_process,
}

module _ (K : Kernel) (old : ℕ → Option ℕ) (pid : ℕ) (m : Machine K.State) where
  open K use {State, ask_kernel_for_frame, Reserved}

  abbrev asked : ℕ × Machine State
  asked = ask_kernel_for_frame none m

  abbrev pd : ℕ
  pd = asked.0 / 2 ^ 12

  abbrev now : ℕ → Option ℕ
  now = update old pid (some pd)

  IsDirectory-cases : (d : ℕ) → IsDirectory K now d → (d ≡ pd) ⊎ IsDirectory K old d
  IsDirectory-cases d (p, h) = elim (ℕ_discrete pid p) [
    | yes same ↦ inl (some_inj (sym h ∙ ap now (sym same) ∙ update-same old pid (some pd)))
    | no other ↦ inr (p, sym (update-other old pid p (some pd) other) ∙ h)
  ]

  asked-keeps :
      Tables K old m
      → (d : ℕ) → IsDirectory K old d
      → (i : ℕ) → entry asked.1 (slot d i) ≡ entry m (slot d i)
  asked-keeps t d is i = K.ask-entries none m (slot d i) (t.unowned d is i)

  asked-Tables : Tables K old m → Tables K now asked.1
  asked-Tables t = record {
    reserved = λ d is. elim (IsDirectory-cases d is) [
      | inl new ↦ subst (Reserved asked.1.kernel) (sym new) (K.ask_none-Reserved m)
      | inr was ↦ K.ask-Reserved none m d (t.reserved d was)
    ];
    unowned = λ d is i own. elim (IsDirectory-cases d is) [
      | inl new ↦ K.ask_none-unowned m i (subst (λ t. K.Owner asked.1.kernel (slot t i)) new own)
      | inr was ↦ elim (K.ask-Owner none m (slot d i) own) [
        | inl for_it ↦ absurd (some-none for_it)
        | inr before ↦ t.unowned d was i before
      ]
    ];
    leads = λ d is i here. elim (IsDirectory-cases d is) [
      | inl new ↦ absurd (
          true-false (ap (λ t. (entry asked.1 (slot t i)).present) (sym new) ∙ here)
            (K.ask_none-blank m i))
      | inr was ↦
          let e = asked-keeps t d was i in
          let (kept, apart) = t.leads d was i (ap (λ x. x.present) (sym e) ∙ here) in
          let b = ap (λ x. x.base_addr) e in
          (
            subst (Reserved asked.1.kernel) (sym b) (K.ask-Reserved none m _ kept),
            λ is'. elim (IsDirectory-cases (entry asked.1 (slot d i)).base_addr is') [
              | inl new ↦ K.ask-frame none m (entry m (slot d i)).base_addr kept (sym new ∙ b)
              | inr was' ↦ apart (subst (IsDirectory K old) b was')
            ],
          )
    ];
  }

  asked-Walks :
      (d v : ℕ) (q : Slot)
      → Tables K old m
      → IsDirectory K old d
      → Walks K old m d v q
      → Walks K now asked.1 d v q
  asked-Walks d v q t is (low, here, at) =
      let e = asked-keeps t d is (top_level v) in
      (low, ap (λ x. x.present) e ∙ here, at ∙ ap (λ x. slot x.base_addr (second_level v)) (sym e))

  -- The new directory with a first page table, and every other way as before.
  pub record Ready (m' : Machine State) : Type 0 where
    pub tables : Tables K now m'
    pub here : (entry m' (slot pd 0)).present ≡ true
    pub walks :
        (d v : ℕ) (q : Slot)
        → IsDirectory K old d
        → IsDirectory K now d
        → Walks K old m d v q
        → Walks K now m' d v q

  new_is : IsDirectory K now pd
  new_is = (pid, update-same old pid (some pd))

  directory-Ready : Tables K old m → Ready (grant K none (slot pd 0) asked.1)
  directory-Ready t =
      let first = grant K none (slot pd 0) asked.1 in
      let f = directory-Fault K now asked.1 pd 0 (asked-Tables t) new_is in
      let b = grant-Brings K now none (slot pd 0) asked.1 in
      record {
        tables = Brings-Tables K now none (slot pd 0) asked.1 first f b;
        here = b.present;
        walks = λ d v q is still way.
            Brings-Walks K now none (slot pd 0) asked.1 first f b d v q still
              (λ at. K.ask_none-blank m 0) (asked-Walks d v q t is way);
      }

  page-Ready : (i : ℕ) (m' : Machine State) → Ready m' → Ready (grant_page K pd i m')
  unfolding grant_page top_level
  page-Ready i m' r =
      let p = slot (entry m' (slot pd 0)).base_addr i in
      let (kept, apart) = r.tables.leads pd new_is 0 r.here in
      let after = grant K (some p) p m' in
      let f = page-Fault K now m' p r.tables kept apart in
      let b = grant-Brings K now (some p) p m' in
      let stays = Brings-Walks K now (some p) p m' after f b in
      record {
        tables = Brings-Tables K now (some p) p m' after f b;
        here =
            (stays pd 0 (slot (entry m' (slot pd 0)).base_addr (second_level 0)) new_is
              (λ at. absurd (apart at)) (ltb→lt 0 num_entries refl, r.here, refl)).1;
        walks = λ d v q is still way.
            stays d v q still (λ at. absurd (apart at)) (r.walks d v q is still way);
      }

  new_directory-Ready : Tables K old m → Ready (new_directory K m).1
  unfolding new_directory
  new_directory-Ready t =
      page-Ready 2 (grant_page K pd 1 (grant K none (slot pd 0) asked.1))
        (page-Ready 1 (grant K none (slot pd 0) asked.1) (directory-Ready t))

module _ (K : Kernel) (T : Tlb) (max_process_id : ℕ) where
  open T use {tlb_get_pte}

  -- In a sound unit, for a process number below the bound, and where the TLB is empty if the process
  -- is the running one, mmu_add_process returns a sound unit in which the process has a page directory
  -- whose first entry, the one for the first page table, is present.
  pub mmu_add_process-Sound :
      (this : Mmu K T) (pid : ℕ)
      → Sound K T this
      → pid < max_process_id
      → (pid ≡ this.curr_pid → (v : ℕ) → (tlb_get_pte (page_of v) this.tlb).0 ≡ none)
      → (this' : Mmu K T) × (mmu_add_process K T max_process_id this pid ≡ done this')
        × Sound K T this'
        × (d : ℕ) × (this'.page_directories pid ≡ some d)
        × ((entry this'.machine (slot d 0)).present ≡ true)
  unfolding mmu_add_process new_directory
  mmu_add_process-Sound this pid s low empty =
      let old = this.page_directories in
      let m = this.machine in
      let r = new_directory-Ready K old pid m s.tables in
      let now = update old pid (some (new_directory K m).0) in
      (
        record this {
          page_directories = now;
          segmentations = update this.segmentations pid (some initial_segments);
          machine = (new_directory K m).1;
        },
        rw (lt→ltb pid max_process_id low, mmu_add_process) refl,
        record {
          tables = r.tables;
          cached = λ v p h.
              let (d, dir, way) = s.cached v p h in
              elim (ℕ_discrete pid this.curr_pid) [
                | yes same ↦ absurd (some-none (sym (empty same v) ∙ h))
                | no other ↦
                    let dir' =
                      update-other old pid this.curr_pid (some (new_directory K m).0) other ∙ dir in
                    (d, dir', r.walks d v p (this.curr_pid, dir) (this.curr_pid, dir') way)
              ];
        },
        (new_directory K m).0,
        update-same old pid (some (new_directory K m).0),
        r.here,
      )
