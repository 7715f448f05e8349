-- ===== src/Mmu/Tables.antt =====
-- ideal_indirection/mmu.c: what bringing in a page leaves of the page directories.
use system_programming_uiuc.Prelude.{
  ℕ, ◌/◌, ◌^◌, ◌<◌, ◌≡◌, ◌≢◌, refl, sym, ap, subst, ◌∙◌, ◌⊎◌, inl, inr, true, Option, some, update,
  update-same, update-other, ℕ_discrete,
}
use system_programming_uiuc.Mmu.{num_entries, top_level, second_level, mapped, page_in, grant}
use system_programming_uiuc.Mmu.Kernel.{TableEntry, Slot, slot, Machine, entry, put, Kernel}

module _ {State : Type 0} where
  pub put-same : (q : Slot) (e : TableEntry) (m : Machine State) → entry (put q e m) q ≡ e
  put-same q e m =
      ap (λ row. row q.index) (update-same m.entries q.table (update (m.entries q.table) q.index e))
      ∙ update-same (m.entries q.table) q.index e

  pub put-other :
      (p q : Slot) (e : TableEntry) (m : Machine State) → p ≢ q → entry (put p e m) q ≡ entry m q
  put-other p q e m ne =
      let row = update (m.entries p.table) p.index e in
      elim (ℕ_discrete p.table q.table) [
        | no other ↦ ap (λ r. r q.index) (update-other m.entries p.table q.table row other)
        | yes same ↦ elim (ℕ_discrete p.index q.index) [
          | yes too ↦ absurd (ne (ap (λ t. slot t p.index) same ∙ ap (slot q.table) too))
          | no other ↦
              ap (λ t. update m.entries p.table row t q.index) (sym same)
              ∙ ap (λ r. r q.index) (update-same m.entries p.table row)
              ∙ update-other (m.entries p.table) p.index q.index e other
              ∙ ap (λ t. m.entries t q.index) same
        ]
      ]

pub Slot-cases : (p q : Slot) → (p ≡ q) ⊎ (p ≢ q)
Slot-cases p q = elim (ℕ_discrete p.table q.table) [
  | no other ↦ inr (λ h. other (ap (λ s. s.table) h))
  | yes same ↦ elim (ℕ_discrete p.index q.index) [
    | no other ↦ inr (λ h. other (ap (λ s. s.index) h))
    | yes too ↦ inl (ap (λ t. slot t p.index) same ∙ ap (slot q.table) too)
  ]
]

module _ (K : Kernel) (directories : ℕ → Option ℕ) where
  open K use {State, ask_kernel_for_frame, Owner, Reserved}

  abbrev pub IsDirectory : ℕ → Type 0
  IsDirectory d = (pid : ℕ) × (directories pid ≡ some d)

  -- The frames of directories are reserved and their entries unowned, and a present entry of a
  -- directory leads to a reserved frame that is no directory.
  pub record Tables (m : Machine State) : Type 0 where
    pub reserved : (d : ℕ) → IsDirectory d → Reserved m.kernel d
    pub unowned : (d : ℕ) → IsDirectory d → (i : ℕ) → Owner m.kernel (slot d i) → ⊥
    pub leads :
        (d : ℕ)
        → IsDirectory d
        → (i : ℕ) → (entry m (slot d i)).present ≡ true
        → Reserved m.kernel (entry m (slot d i)).base_addr
          × (IsDirectory (entry m (slot d i)).base_addr → ⊥)

  -- The directory `d` leads from the address to the entry `p`.
  abbrev pub Walks : Machine State → ℕ → ℕ → Slot → Type 0
  Walks m d v p =
      (top_level v < num_entries)
      × ((entry m (slot d (top_level v))).present ≡ true)
      × (p ≡ slot (entry m (slot d (top_level v))).base_addr (second_level v))

  -- Only marks of entries differ.
  pub record Alike (m m' : Machine State) : Type 0 where
    pub kernel : m'.kernel ≡ m.kernel
    pub present : (q : Slot) → (entry m' q).present ≡ (entry m q).present
    pub base_addr : (q : Slot) → (entry m' q).base_addr ≡ (entry m q).base_addr

  pub put-Alike :
      (q : Slot) (e : TableEntry) (m : Machine State)
      → e.present ≡ (entry m q).present
      → e.base_addr ≡ (entry m q).base_addr
      → Alike m (put q e m)
  put-Alike q e m p b = record {
    kernel = refl;
    present = λ r. elim (Slot-cases q r) [
      | inl same ↦
          subst (λ s. (entry (put q e m) s).present ≡ (entry m s).present) same
            (ap (λ x. x.present) (put-same q e m) ∙ p)
      | inr other ↦ ap (λ x. x.present) (put-other q r e m other)
    ];
    base_addr = λ r. elim (Slot-cases q r) [
      | inl same ↦
          subst (λ s. (entry (put q e m) s).base_addr ≡ (entry m s).base_addr) same
            (ap (λ x. x.base_addr) (put-same q e m) ∙ b)
      | inr other ↦ ap (λ x. x.base_addr) (put-other q r e m other)
    ];
  }

  pub Alike-Tables : (m m' : Machine State) → Alike m m' → Tables m → Tables m'
  Alike-Tables m m' a t = record {
    reserved = λ d is. subst (λ k. Reserved k d) (sym a.kernel) (t.reserved d is);
    unowned = λ d is i o. t.unowned d is i (subst (λ k. Owner k (slot d i)) a.kernel o);
    leads = λ d is i here.
        let old = t.leads d is i (sym (a.present (slot d i)) ∙ here) in
        let base = sym (a.base_addr (slot d i)) in
        (
          subst (λ k. Reserved k (entry m' (slot d i)).base_addr) (sym a.kernel)
              (subst (Reserved m.kernel) base old.0),
          λ is'. old.1 (subst IsDirectory (sym base) is'),
        );
  }

  pub Alike-Walks :
      (m m' : Machine State) (d v : ℕ) (p : Slot) → Alike m m' → Walks m d v p → Walks m' d v p
  Alike-Walks m m' d v p a (low, here, at) = (
    low,
    a.present (slot d (top_level v)) ∙ here,
    at ∙ ap (λ b. slot b (second_level v)) (sym (a.base_addr (slot d (top_level v)))),
  )

  module _ (o : Option Slot) (p : Slot) (m : Machine State) where
    abbrev pub frame : ℕ
    frame = (ask_kernel_for_frame o m).0 / 2 ^ 12

    -- What a frame that is asked for on behalf of `o` and given to the entry `p` makes of `m`.
    pub record Brings (m' : Machine State) : Type 0 where
      pub kernel : m'.kernel ≡ (ask_kernel_for_frame o m).1.kernel
      pub other :
          (q : Slot) → p ≢ q → (Owner m.kernel q → ⊥) → q.table ≢ frame → entry m' q ≡ entry m q
      pub present : (entry m' p).present ≡ true
      pub base_addr : p.table ≢ frame → (entry m' p).base_addr ≡ frame

    abbrev based : Machine State
    based =
        let asked = ask_kernel_for_frame o m in
        put p (record (entry asked.1 p) { base_addr = frame }) asked.1

    based-frame : (entry based p).base_addr ≡ frame
    based-frame = ap (λ x. x.base_addr) (put-same p _ (ask_kernel_for_frame o m).1)

    pub page_in-Brings : Brings (page_in K o p m)
    unfolding page_in
    page_in-Brings = record {
      kernel = K.read-kernel p based;
      other = λ q ne free apart.
          put-other p q _ (K.read_page_from_disk p based) ne
          ∙ K.read-entries p based q (λ h. apart (h ∙ based-frame))
          ∙ put-other p q _ (ask_kernel_for_frame o m).1 ne
          ∙ K.ask-entries o m q free;
      present = ap (λ x. x.present) (put-same p _ (K.read_page_from_disk p based));
      base_addr = λ apart.
          ap (λ x. x.base_addr) (put-same p _ (K.read_page_from_disk p based))
          ∙ ap (λ x. x.base_addr) (K.read-entries p based p (λ h. apart (h ∙ based-frame)))
          ∙ based-frame;
    }

    pub grant-Brings : Brings (grant K o p m)
    unfolding grant mapped
    grant-Brings = record {
      kernel = refl;
      other = λ q ne free apart.
          put-other p q _ (ask_kernel_for_frame o m).1 ne ∙ K.ask-entries o m q free;
      present = ap (λ x. x.present) (put-same p _ (ask_kernel_for_frame o m).1);
      base_addr = λ apart. ap (λ x. x.base_addr) (put-same p _ (ask_kernel_for_frame o m).1);
    }
