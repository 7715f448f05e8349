-- ===== src/Mmu/Tests.antt =====
-- Runs of the code of ideal_indirection/mmu.c, and the hypotheses of its theorems at concrete values.
use system_programming_uiuc.Prelude.{
  ℕ, ◌+◌, ◌*◌, ◌/◌, ◌<◌, ◌≡◌, ◌≢◌, refl, sym, ap, subst, ◌∙◌, inl, inr, Bool, true, false, Option,
  none, some, List, [], ◌∷◌, ltb, leb, ◌&&◌, if◌then◌else◌, ◌==◌, update, update-same, update-other,
  ℕ_discrete, eq-true, eq-false, ◌≤◌, arith,
}
use system_programming_uiuc.Prelude.Outcome.{Outcome, done, fault, ◌>>=◌}
use system_programming_uiuc.Mmu.{
  Segments, VmSegmentation, VmSegmentations, Mmu, stack, testing, text, mmu_create, page_of,
  top_level, second_level, lookup, walk, mmu_tlb_miss, touch, with_page, mapped, store_bytes,
}
use system_programming_uiuc.Mmu.Kernel.{TableEntry, Slot, slot, Machine, entry, Kernel, Tlb}
use system_programming_uiuc.Mmu.Faults.{some-none, some_inj}
use system_programming_uiuc.Mmu.Coherent.{Sound}
use system_programming_uiuc.Mmu.Process.{initial_segments, new_directory, mmu_add_process}
use system_programming_uiuc.Mmu.Access.{
  accepts, out_of_segments, mmu_read_from_virtual_address, mmu_write_to_virtual_address,
}
use system_programming_uiuc.Mmu.Added.{mmu_add_process-Sound}
use system_programming_uiuc.Mmu.Written.{write-read, beyond-fault}

-- A kernel that hands out its frames in turn, from the next one on, and clears them.
abbrev no_entry : TableEntry
no_entry = record {
  base_addr = 0;
  present = false;
  read_write = false;
  user_supervisor = false;
  accessed = false;
  dirty = false;
}

abbrev hand_out : Option Slot → Machine ℕ → ℕ × Machine ℕ
hand_out none m = (
  m.kernel * 4096,
  record {
    kernel = m.kernel + 1;
    entries = update m.entries m.kernel (λ i. no_entry);
    bytes = m.bytes;
  },
)
hand_out (some q) m = (m.kernel * 4096, record m { kernel = m.kernel + 1 })

frame_number : (n : ℕ) → n * 4096 / 4096 ≡ n
frame_number n = omega arith

apart : (n b : ℕ) → b < n → n * 4096 / 4096 ≢ b
apart n b low h = absurd (omega arith)

asked_apart : (o : Option Slot) (m : Machine ℕ) (b : ℕ) → b < m.kernel → (hand_out o m).0 / 4096 ≢ b
asked_apart none m b low = apart m.kernel b low
asked_apart (some q) m b low = apart m.kernel b low

asked_keeps :
    (o : Option Slot) (m : Machine ℕ) (q : Slot)
    → (m.kernel ≤ q.table → ⊥)
    → entry (hand_out o m).1 q ≡ entry m q
asked_keeps none m q free =
    ap (λ row. row q.index)
      (update-other m.entries m.kernel q.table (λ i. no_entry) (λ h. free (omega arith)))
asked_keeps (some p) m q free = refl

asked_owner :
    (o : Option Slot) (m : Machine ℕ) (q : Slot)
    → (hand_out o m).1.kernel ≤ q.table
    → m.kernel ≤ q.table
asked_owner none m q h = omega arith
asked_owner (some p) m q h = omega arith

asked_later : (o : Option Slot) (m : Machine ℕ) (b : ℕ) → b < m.kernel → b < (hand_out o m).1.kernel
asked_later none m b h = omega arith
asked_later (some q) m b h = omega arith

abbrev clearing : Kernel
clearing = record {
  State = ℕ;
  ask_kernel_for_frame = hand_out;
  read_page_from_disk = λ p m. m;
  return_frame_to_kernel = λ b m. m;
  remove_swap_file = λ p m. m;
  Owner = λ s q. s ≤ q.table;
  Reserved = λ s b. b < s;
  ask-frame = asked_apart;
  ask_none-Reserved = λ m. omega arith;
  ask_none-unowned = λ m i h. absurd (omega arith);
  ask_none-blank = λ m i.
      ap (λ t. (update m.entries m.kernel (λ j. no_entry) t i).present) (frame_number m.kernel)
      ∙ ap (λ row. (row i).present) (update-same m.entries m.kernel (λ j. no_entry));
  ask-Reserved = asked_later;
  ask-Owner = λ o m q h. inr (asked_owner o m q h);
  ask-entries = asked_keeps;
  read-entries = λ p m q h. refl;
  read-kernel = λ p m. refl;
}

-- A TLB of one entry.
abbrev get_one : ℕ → Option (ℕ × Slot) → Option Slot
get_one a none = none
get_one a (some (b, p)) = if a == b then some p else none

one_added : (a b : ℕ) (p q : Slot) → get_one b (some (a, p)) ≡ some q → (a ≡ b) × (p ≡ q)
one_added a b p q h = elim (ℕ_discrete b a) [
  | yes same ↦
      (sym same, some_inj (sym (ap (λ t. if t then some p else none) (eq-true b a same)) ∙ h))
  | no other ↦
      absurd (some-none (sym (ap (λ t. if t then some p else none) (eq-false b a other)) ∙ h))
]

abbrev one_entry : Tlb
one_entry = record {
  Cache = Option (ℕ × Slot);
  tlb_create = none;
  tlb_get_pte = λ a t. (get_one a t, t);
  tlb_add_pte = λ a p t. some (a, p);
  tlb_flush = λ t. none;
  create-get = λ a. refl;
  flush-get = λ a t. refl;
  add-get = λ a b p q t h. inl (one_added a b p q h);
  get-get = λ a b q t h. h;
}

abbrev within : VmSegmentation → ℕ → Bool
within seg a = leb seg.start a && ltb a seg.end

-- The segment for testing, the text and the stack.
abbrev find : VmSegmentations → ℕ → Option VmSegmentation
find segs a =
    if within (segs testing) a
    then some (segs testing)
    else if within (segs text) a
    then some (segs text)
    else if within (segs stack) a
    then some (segs stack)
    else none

abbrev is_some : Option VmSegmentation → Bool
is_some none = false
is_some (some seg) = true

abbrev three : Segments
three = record { address_in_segmentations = λ segs a. is_some (find segs a); find_segment = find }

abbrev blank_machine : Machine ℕ
blank_machine = record { kernel = 1; entries = λ t i. no_entry; bytes = λ t i. 0 }

abbrev created : Mmu clearing one_entry
created = mmu_create clearing one_entry blank_machine

read_result : Outcome (Option (List ℕ) × Mmu clearing one_entry) → Option (List ℕ)
read_result (done (bytes, this)) = bytes
read_result _ = none

-- Two bytes that a new process writes are read back.
two_bytes :
    read_result (
      mmu_add_process clearing one_entry 4 created 1 >>= λ added.
      mmu_write_to_virtual_address clearing one_entry three 4 added 4100 1 (7 ∷ 8 ∷ []) >>= λ wrote.
      mmu_read_from_virtual_address clearing one_entry three 4 wrote 4100 1 2)
    ≡ some (7 ∷ 8 ∷ [])
unfolding mmu_create mmu_add_process read_result initial_segments mmu_write_to_virtual_address
    mmu_read_from_virtual_address lookup walk mmu_tlb_miss top_level touch with_page mapped
    second_level page_of store_bytes
two_bytes = refl

created-Sound : Sound clearing one_entry created
unfolding mmu_create
created-Sound = record {
  tables = record {
    reserved = λ d is. absurd (some-none is.1);
    unowned = λ d is i own. some-none is.1;
    leads = λ d is i here. absurd (some-none is.1);
  };
  cached = λ v p h. absurd (some-none h);
}

mmu_add_process-Sound_example :
    (this' : Mmu clearing one_entry) × (mmu_add_process clearing one_entry 4 created 1 ≡ done this')
    × Sound clearing one_entry this'
    × (d : ℕ) × (this'.page_directories 1 ≡ some d)
    × ((entry this'.machine (slot d 0)).present ≡ true)
unfolding mmu_create
mmu_add_process-Sound_example =
    mmu_add_process-Sound clearing one_entry 4 created 1 created-Sound (omega arith) (λ h v. refl)

abbrev unit_of : Outcome (Mmu clearing one_entry) → Mmu clearing one_entry
unit_of (done this) = this
unit_of _ = created

-- The unit behind `mmu_add_process`.
abbrev added : Mmu clearing one_entry
added = unit_of (mmu_add_process clearing one_entry 4 created 1)

added-Sound : Sound clearing one_entry added
unfolding mmu_create
added-Sound =
    let (this, e, sound, d, at, first) =
      mmu_add_process-Sound clearing one_entry 4 created 1 created-Sound (omega arith)
        (λ h v. refl) in
    subst (Sound clearing one_entry) (sym (ap unit_of e)) sound

write-read_example :
    (this' : Mmu clearing one_entry) × (mmu_write_to_virtual_address clearing one_entry three 4
        added 4100 1
        (7 ∷ 8 ∷ [])
      ≡ done this')
    × Sound clearing one_entry this'
    × (this'' : Mmu clearing one_entry) × (mmu_read_from_virtual_address clearing one_entry three 4
          this' 4100 1 2
        ≡ done (some (7 ∷ 8 ∷ []), this''))
    × Sound clearing one_entry this''
unfolding mmu_create mmu_add_process top_level accepts out_of_segments initial_segments
    new_directory
write-read_example =
    write-read clearing one_entry three 4 added 1 4100 1 (7 ∷ 8 ∷ []) initial_segments
      (initial_segments testing) added-Sound refl (omega arith) refl refl refl refl refl

beyond-fault_example :
    (mmu_write_to_virtual_address clearing one_entry three 4 added 3221217284 1 (7 ∷ []) ≡ fault)
    × (mmu_read_from_virtual_address clearing one_entry three 4 added 3221217284 1 1 ≡ fault)
unfolding mmu_create mmu_add_process top_level accepts out_of_segments initial_segments
    new_directory
beyond-fault_example =
    beyond-fault clearing one_entry three 4 added 3221217284 1 (7 ∷ []) initial_segments
      (initial_segments stack) added-Sound (omega arith) (omega arith) refl refl refl refl refl
