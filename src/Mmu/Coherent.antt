-- ===== src/Mmu/Coherent.antt =====
-- ideal_indirection/mmu.c: the TLB holds only what the page directory of the running process leads to.
use system_programming_uiuc.Prelude.{
  ℕ, ◌/◌, ◌%◌, ◌<◌, ◌≡◌, refl, sym, ap, subst, ◌∙◌, inl, inr, true, Option, some, Bool-cases, arith,
}
use system_programming_uiuc.Mmu.{
  Mmu, top_level, second_level, page_of, num_entries, with_page, mmu_raise_page_fault, page_in,
}
use system_programming_uiuc.Mmu.Kernel.{Slot, slot, Machine, entry, Kernel, Tlb}
use system_programming_uiuc.Mmu.Tables.{IsDirectory, Tables, Walks, page_in-Brings}
use system_programming_uiuc.Mmu.Faults.{Fault, Brings-Tables, Brings-Walks}

-- Addresses of one page are led to one entry.
page_number : (v w : ℕ) → page_of v ≡ page_of w → v / 4096 ≡ w / 4096
unfolding page_of
page_number v w h = omega arith

top_level_page : (v : ℕ) → top_level v ≡ v / 4096 / 256
unfolding top_level
top_level_page v = omega arith

top_level-page_of : (v w : ℕ) → page_of v ≡ page_of w → top_level v ≡ top_level w
top_level-page_of v w h =
    top_level_page v ∙ ap (λ n. n / 256) (page_number v w h) ∙ sym (top_level_page w)

second_level-page_of : (v w : ℕ) → page_of v ≡ page_of w → second_level v ≡ second_level w
unfolding second_level
second_level-page_of v w h = ap (λ n. n % 1024) (page_number v w h)

module _ (K : Kernel) (T : Tlb) where
  open K use {State}
  open T use {tlb_get_pte, tlb_add_pte}

  pub record Sound (this : Mmu K T) : Type 0 where
    pub tables : Tables K this.page_directories this.machine
    pub cached :
        (v : ℕ) (p : Slot)
        → (tlb_get_pte (page_of v) this.tlb).0 ≡ some p
        → (d : ℕ) × (this.page_directories this.curr_pid ≡ some d)
          × Walks K this.page_directories this.machine d v p

  -- What no access to memory changes.
  pub record Kept (this this' : Mmu K T) : Type 0 where
    pub curr_pid : this'.curr_pid ≡ this.curr_pid
    pub page_directories : this'.page_directories ≡ this.page_directories
    pub segmentations : this'.segmentations ≡ this.segmentations

  pub Walks-page_of :
      (dirs : ℕ → Option ℕ) (m : Machine State) (d v w : ℕ) (p : Slot)
      → page_of v ≡ page_of w
      → Walks K dirs m d v p
      → Walks K dirs m d w p
  Walks-page_of dirs m d v w p same (low, here, at) =
      let t = top_level-page_of v w same in
      (
        subst (λ n. n < num_entries) t low,
        subst (λ n. (entry m (slot d n)).present ≡ true) t here,
        subst (λ n. p ≡ slot (entry m (slot d n)).base_addr (second_level w)) t
            (at
              ∙ ap (slot (entry m (slot d (top_level v))).base_addr)
                  (second_level-page_of v w same)),
      )

  -- How `with_page` ends.
  pub record Paged (this : Mmu K T) (o : Option Slot) (p : Slot) (this' : Mmu K T) : Type 0 where
    pub sound : Sound this'
    pub kept : Kept this this'
    pub present : (entry this'.machine p).present ≡ true
    pub walks :
        (d v : ℕ) (q : Slot)
        → IsDirectory K this.page_directories d
        → Walks K this.page_directories this.machine d v q
        → Walks K this'.page_directories this'.machine d v q

  pub with_page-present :
      (o : Option Slot) (p : Slot) (this : Mmu K T)
      → (entry this.machine p).present ≡ true
      → with_page K T o p this ≡ this
  unfolding with_page
  with_page-present o p this h = rw h refl

  pub with_page-Paged :
      (this : Mmu K T) (o : Option Slot) (p : Slot)
      → Sound this
      → Fault K this.page_directories o p this.machine
      → Paged this o p (with_page K T o p this)
  unfolding with_page mmu_raise_page_fault
  with_page-Paged this o p s f =
      let brought = page_in K o p this.machine in
      let b = page_in-Brings K this.page_directories o p this.machine in
      elim (Bool-cases (entry this.machine p).present) [
        | inl here ↦ subst (Paged this o p) (sym (with_page-present o p this here)) (record {
          sound = s;
          kept = record { curr_pid = refl; page_directories = refl; segmentations = refl };
          present = here;
          walks = λ d v q is w. w;
        })
        | inr absent ↦ rw absent (record {
          sound = record {
            tables = Brings-Tables K this.page_directories o p this.machine brought f b;
            cached = λ v q h.
                let old = s.cached v q h in
                (
                  old.0,
                  old.1,
                  Brings-Walks K this.page_directories o p this.machine brought f b old.0 v q
                      (this.curr_pid, old.1) (λ at. absent) old.2,
                );
          };
          kept = record { curr_pid = refl; page_directories = refl; segmentations = refl };
          present = b.present;
          walks = λ d v q is w.
              Brings-Walks K this.page_directories o p this.machine brought f b d v q is
                (λ at. absent) w;
        })
      ]
