-- ===== src/Mmu/Lookup.antt =====
-- ideal_indirection/mmu.c: get_table_entry finds what the page directory leads to.
use system_programming_uiuc.Prelude.{
  ℕ, ◌<◌, ◌≡◌, refl, sym, ap, subst, ◌∙◌, inl, inr, true, none, some, Option-cases, ltb, lt→ltb,
}
use system_programming_uiuc.Prelude.Outcome.{done}
use system_programming_uiuc.Mmu.{
  Mmu, top_level, second_level, page_of, num_entries, with_page, walk, lookup, touch, mmu_tlb_miss,
}
use system_programming_uiuc.Mmu.Kernel.{Slot, slot, entry, Kernel, Tlb}
use system_programming_uiuc.Mmu.Tables.{Walks, Alike, put-Alike, Alike-Tables, Alike-Walks}
use system_programming_uiuc.Mmu.Faults.{directory-Fault, some_inj}
use system_programming_uiuc.Mmu.Coherent.{
  Sound, Kept, Walks-page_of, with_page-present, with_page-Paged,
}

module _ (K : Kernel) (T : Tlb) where
  open T use {tlb_get_pte, tlb_add_pte}

  -- An entry to which the directory `d` leads, and the unit behind the search for it.
  pub record Found (this : Mmu K T) (d v : ℕ) (r : Slot × Mmu K T) : Type 0 where
    pub sound : Sound K T r.1
    pub kept : Kept K T this r.1
    pub walks : Walks K this.page_directories r.1.machine d v r.0
    pub again :
        (q : Slot)
        → Walks K this.page_directories this.machine d v q
        → (r.0 ≡ q) × (r.1.machine ≡ this.machine)

  abbrev reached : Mmu K T → ℕ → ℕ → Slot × Mmu K T
  reached this d v =
      let found = with_page K T none (slot d (top_level v)) this in
      (slot (entry found.machine (slot d (top_level v))).base_addr (second_level v), found)

  walk-done :
      (this : Mmu K T) (d v : ℕ)
      → this.page_directories this.curr_pid ≡ some d
      → ltb (top_level v) num_entries ≡ true
      → walk K T this v ≡ done (reached this d v)
  unfolding walk
  walk-done this d v dir low = rw (dir, low, walk) refl

  looked-Sound :
      (this : Mmu K T) (v : ℕ)
      → Sound K T this
      → Sound K T (record this { tlb = (tlb_get_pte (page_of v) this.tlb).1 })
  looked-Sound this v s = record {
    tables = s.tables;
    cached = λ w q h. s.cached w q (T.get-get (page_of v) (page_of w) q this.tlb h);
  }

  walk-Found :
      (this : Mmu K T) (d v : ℕ)
      → Sound K T this
      → this.page_directories this.curr_pid ≡ some d
      → top_level v < num_entries
      → (r : Slot × Mmu K T) × (walk K T this v ≡ done r) × Found this d v r
  walk-Found this d v s dir low =
      let pde = slot d (top_level v) in
      let g = with_page-Paged K T this none pde s (
        directory-Fault K this.page_directories this.machine d (top_level v) s.tables
          (this.curr_pid, dir)) in
      (
        reached this d v,
        walk-done this d v dir (lt→ltb (top_level v) num_entries low),
        record {
          sound = g.sound;
          kept = g.kept;
          walks = (low, g.present, refl);
          again = λ q (low', here, at).
              let same = with_page-present K T none pde this here in
              (
                ap (λ t. slot (entry t.machine pde).base_addr (second_level v)) same ∙ sym at,
                ap (λ t. t.machine) same,
              );
        },
      )

  pub lookup-Found :
      (this : Mmu K T) (d v : ℕ)
      → Sound K T this
      → this.page_directories this.curr_pid ≡ some d
      → top_level v < num_entries
      → (r : Slot × Mmu K T) × (lookup K T this v ≡ done r) × Found this d v r
  unfolding lookup mmu_tlb_miss
  lookup-Found this d v s dir low =
      let got = tlb_get_pte (page_of v) this.tlb in
      let l = looked-Sound this v s in
      elim (Option-cases got.0) [
        | inl missed ↦
            let miss = mmu_tlb_miss K T (record this { tlb = got.1 }) in
            let (r, e, f) =
              walk-Found miss d v (record { tables = s.tables; cached = l.cached }) dir low in
            (
              r,
              rw (missed, lookup) e,
              record {
                sound = f.sound;
                kept = record {
                  curr_pid = f.kept.curr_pid;
                  page_directories = f.kept.page_directories;
                  segmentations = f.kept.segmentations;
                };
                walks = f.walks;
                again = f.again;
              },
            )
        | inr (p, hit) ↦
            let old = s.cached v p hit in
            let is = some_inj (sym dir ∙ old.1) in
            (
              (p, record this { tlb = got.1 }),
              rw (hit, lookup) refl,
              record {
                sound = record { tables = s.tables; cached = l.cached };
                kept = record { curr_pid = refl; page_directories = refl; segmentations = refl };
                walks =
                    subst (λ b. Walks K this.page_directories this.machine b v p) (sym is) old.2;
                again = λ q (low', here, at). (
                  old.2.2
                      ∙ ap
                          (λ b.
                            slot (entry this.machine (slot b (top_level v))).base_addr
                              (second_level v))
                          (sym is)
                      ∙ sym at,
                  refl,
                );
              },
            )
      ]

  pub touch-Alike :
      (this : Mmu K T) (v : ℕ) (p : Slot)
      → Alike K this.page_directories this.machine (touch K T v p this).machine
  unfolding touch
  touch-Alike this v p =
      put-Alike K this.page_directories p (record (entry this.machine p) { accessed = true })
        this.machine refl refl

  pub touch-Sound :
      (this : Mmu K T) (d v : ℕ) (p : Slot)
      → Sound K T this
      → this.page_directories this.curr_pid ≡ some d
      → Walks K this.page_directories this.machine d v p
      → Sound K T (touch K T v p this)
  unfolding touch
  touch-Sound this d v p s dir way =
      let m' = (touch K T v p this).machine in
      let a = touch-Alike this v p in
      record {
        tables = Alike-Tables K this.page_directories this.machine m' a s.tables;
        cached = λ w q h. elim (T.add-get (page_of v) (page_of w) p q this.tlb h) [
          | inl (same, it) ↦ (
            d,
            dir,
            Alike-Walks K this.page_directories this.machine m' d w q a (
                subst (Walks K this.page_directories this.machine d w) it
                  (Walks-page_of K T this.page_directories this.machine d v w p same way)),
          )
          | inr old ↦
              let (d', dir', way') = s.cached w q old in
              (d', dir', Alike-Walks K this.page_directories this.machine m' d' w q a way')
        ];
      }
