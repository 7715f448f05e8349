-- ===== src/Mmu/Faults.antt =====
-- ideal_indirection/mmu.c: a page fault keeps the directories in order and what they lead to.
use system_programming_uiuc.Prelude.{
  ℕ, ◌/◌, ◌^◌, ◌≡◌, ◌≢◌, refl, sym, ap, subst, ◌∙◌, inl, inr, false, Option, none, some,
}
use system_programming_uiuc.Graph.{true-false}
use system_programming_uiuc.Mmu.{top_level, second_level}
use system_programming_uiuc.Mmu.Kernel.{Slot, slot, Machine, entry, Kernel}
use system_programming_uiuc.Mmu.Tables.{IsDirectory, Tables, Walks, Slot-cases, frame, Brings}

pub some-none {ℓ} : {A : Type ℓ} {p : A} → none ≡ some p → ⊥
some-none h = cc

pub some_inj {ℓ} : {A : Type ℓ} {p q : A} → some p ≡ some q → p ≡ q
some_inj h = cc

module _ (K : Kernel) (directories : ℕ → Option ℕ) where
  open K use {State, ask_kernel_for_frame, Reserved}

  -- An entry that stands in a reserved frame is given a page, on its own behalf unless it is an
  -- entry of a directory.
  pub record Fault (o : Option Slot) (p : Slot) (m : Machine State) : Type 0 where
    pub tables : Tables K directories m
    pub table : Reserved m.kernel p.table
    pub owner : (d : ℕ) → IsDirectory K directories d → (i : ℕ) → o ≡ some (slot d i) → ⊥
    pub for_table : (d : ℕ) → IsDirectory K directories d → (i : ℕ) → p ≡ slot d i → o ≡ none

  pub directory-Fault :
      (m : Machine State) (d i : ℕ)
      → Tables K directories m
      → IsDirectory K directories d
      → Fault none (slot d i) m
  directory-Fault m d i t is = record {
    tables = t;
    table = t.reserved d is;
    owner = λ d' is' j h. some-none h;
    for_table = λ d' is' j h. refl;
  }

  pub page-Fault :
      (m : Machine State) (p : Slot)
      → Tables K directories m
      → Reserved m.kernel p.table
      → (IsDirectory K directories p.table → ⊥)
      → Fault (some p) p m
  page-Fault m p t r apart = record {
    tables = t;
    table = r;
    owner = λ d is j h.
        apart (subst (IsDirectory K directories) (sym (ap (λ s. s.table) (some_inj h))) is);
    for_table = λ d is j h.
        absurd (apart (subst (IsDirectory K directories) (sym (ap (λ s. s.table) h)) is));
  }

  module _ (o : Option Slot) (p : Slot) (m m' : Machine State) (f : Fault o p m)
      (b : Brings K directories o p m m') where
    fresh : (d : ℕ) → IsDirectory K directories d → d ≢ frame K directories o p m
    fresh d is h = K.ask-frame o m d (f.tables.reserved d is) (sym h)

    keeps :
        (d : ℕ)
        → IsDirectory K directories d
        → (i : ℕ) → p ≢ slot d i
        → entry m' (slot d i) ≡ entry m (slot d i)
    keeps d is i ne = b.other (slot d i) ne (f.tables.unowned d is i) (fresh d is)

    framed : (entry m' p).base_addr ≡ frame K directories o p m
    framed = b.base_addr (λ h. K.ask-frame o m p.table f.table (sym h))

    still_reserved : (t : ℕ) → Reserved m.kernel t → Reserved m'.kernel t
    still_reserved t r = subst (λ k. Reserved k t) (sym b.kernel) (K.ask-Reserved o m t r)

    new_reserved : o ≡ none → Reserved m'.kernel (frame K directories o p m)
    new_reserved e =
        subst (λ k. Reserved k (frame K directories o p m)) (sym b.kernel)
          (subst
            (λ x.
              Reserved (ask_kernel_for_frame x m).1.kernel ((ask_kernel_for_frame x m).0 / 2 ^ 12))
            (sym e) (K.ask_none-Reserved m))

    pub Brings-Tables : Tables K directories m'
    Brings-Tables = record {
      reserved = λ d is. still_reserved d (f.tables.reserved d is);
      unowned = λ d is i own.
          elim (K.ask-Owner o m (slot d i) (subst (λ k. K.Owner k (slot d i)) b.kernel own)) [
            | inl for_it ↦ f.owner d is i for_it
            | inr old ↦ f.tables.unowned d is i old
          ];
      leads = λ d is i here. elim (Slot-cases p (slot d i)) [
        | inl same ↦
            let base = ap (λ q. (entry m' q).base_addr) (sym same) ∙ framed in
            (
              subst (Reserved m'.kernel) (sym base) (new_reserved (f.for_table d is i same)),
              λ is'. fresh (entry m' (slot d i)).base_addr is' base,
            )
        | inr other ↦
            let e = keeps d is i other in
            let old = f.tables.leads d is i (ap (λ x. x.present) (sym e) ∙ here) in
            (
              subst (Reserved m'.kernel) (ap (λ x. x.base_addr) (sym e))
                  (still_reserved (entry m (slot d i)).base_addr old.0),
              λ is'. old.1 (subst (IsDirectory K directories) (ap (λ x. x.base_addr) e) is'),
            )
      ];
    }

    -- Every way through a directory stays, since an entry of a directory is brought in only when it is not
    -- present.
    pub Brings-Walks :
        (d v : ℕ) (q : Slot)
        → IsDirectory K directories d
        → (IsDirectory K directories p.table → (entry m p).present ≡ false)
        → Walks K directories m d v q
        → Walks K directories m' d v q
    Brings-Walks d v q is absent (low, here, at) = elim (Slot-cases p (slot d (top_level v))) [
      | inl same ↦
          let table = subst (IsDirectory K directories) (sym (ap (λ s. s.table) same)) is in
          absurd (true-false here (ap (λ s. (entry m s).present) (sym same) ∙ absent table))
      | inr other ↦
          let e = keeps d is (top_level v) other in
          (
            low,
            ap (λ x. x.present) e ∙ here,
            at ∙ ap (λ x. slot x.base_addr (second_level v)) (sym e),
          )
    ]
