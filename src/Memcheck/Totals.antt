-- ===== src/Memcheck/Totals.antt =====
-- mini_memcheck/mini_memcheck.c: what is requested and not yet freed is what the live blocks hold.
use system_programming_uiuc.Prelude.{
  ℕ, ◌+◌, ◌*◌, ◌%◌, ◌<◌, ◌≡◌, refl, ap, ◌∙◌, ◌≢◌, inl, inr, Bool, true, false, ◌&&◌, none, some,
  List, [], ◌∷◌, arith, dec_lt, ℕ_discrete, ◌==◌, if◌then◌else◌, Bool-cases, Option-cases, le→leb,
  leb-false, eq-true, eq-false,
}
use system_programming_uiuc.Prelude.Outcome.{Outcome, done}
use system_programming_uiuc.Memcheck.{
  word, Entry, Memcheck, find, unlink, rewrite, record_block, mini_malloc, mini_calloc, meta_of,
  mini_free, resize_entry, allocated, read_block, resized, mini_realloc,
}

-- The bytes of the live blocks.
abbrev pub live : List Entry → ℕ
live [] = 0
live (e ∷ es) = e.request_size + live es

-- No two live blocks stand at one address.
abbrev pub AllDistinct : List Entry → Type 0
AllDistinct [] = Unit
AllDistinct (e ∷ es) = (find e.address es ≡ none) × AllDistinct es

pub record IsValid (s : Memcheck) : Type 0 where
  pub bounded : s.total_memory_requested < word
  pub balanced : s.total_memory_requested ≡ (s.total_memory_freed + live s.head) % word
  pub distinct : AllDistinct s.head

pub find-address : (a : ℕ) (es : List Entry) (e : Entry) → find a es ≡ some e → e.address ≡ a
unfolding find
find-address a [] e h = cc
find-address a (x ∷ es) e h = ground (arith, find-address a es e)

live-unlink :
    (a : ℕ) (es : List Entry) (e : Entry)
    → find a es ≡ some e
    → live es ≡ live (unlink a es) + e.request_size
unfolding find unlink
live-unlink a [] e h = cc
live-unlink a (x ∷ es) e h = ground (arith, live-unlink a es e)

live-rewrite :
    (a : ℕ) (new : Entry) (es : List Entry) (e : Entry)
    → find a es ≡ some e
    → live (rewrite a new es) + e.request_size ≡ live es + new.request_size
unfolding find rewrite
live-rewrite a new [] e h = cc
live-rewrite a new (x ∷ es) e h = ground (arith, live-rewrite a new es e)

-- Taking an entry out adds no address.
find-unlink : (a b : ℕ) (es : List Entry) → find b es ≡ none → find b (unlink a es) ≡ none
unfolding find unlink
find-unlink a b [] h = refl
find-unlink a b (x ∷ es) h = ground (arith, find-unlink a b es)

pub find-unlink_self : (a : ℕ) (es : List Entry) → AllDistinct es → find a (unlink a es) ≡ none
unfolding find unlink
find-unlink_self a [] d = refl
find-unlink_self a (x ∷ es) d = ground (arith, find-unlink_self a es, find-unlink a a es)

AllDistinct-unlink : (a : ℕ) (es : List Entry) → AllDistinct es → AllDistinct (unlink a es)
unfolding unlink
AllDistinct-unlink a [] d = tt
AllDistinct-unlink a (x ∷ es) d =
    ground (arith, AllDistinct-unlink a es, find-unlink a x.address es)

find-rewrite :
    (a b : ℕ) (new : Entry) (es : List Entry)
    → new.address ≡ a
    → find b es ≡ none
    → find b (rewrite a new es) ≡ none
unfolding find rewrite
find-rewrite a b new [] same h = refl
find-rewrite a b new (x ∷ es) same h = ground (arith, find-rewrite a b new es)

AllDistinct-rewrite :
    (a : ℕ) (new : Entry) (es : List Entry)
    → new.address ≡ a
    → AllDistinct es
    → AllDistinct (rewrite a new es)
unfolding rewrite
AllDistinct-rewrite a new [] same d = tt
AllDistinct-rewrite a new (x ∷ es) same d =
    ground (arith, AllDistinct-rewrite a new es, find-rewrite a x.address new es)

module _ (meta_size : ℕ) where
  record_block-IsValid :
      (address size filename instruction : ℕ) {s : Memcheck}
      → IsValid s
      → find address s.head ≡ none
      → IsValid (record_block meta_size address size filename instruction s).1
  unfolding record_block
  record_block-IsValid address size filename instruction v fresh = record {
    bounded = omega arith;
    balanced = omega (arith, v.balanced);
    distinct = (fresh, v.distinct);
  }

  -- `mini_malloc` keeps the counts right, when `malloc` answers an address of no live block.
  pub mini_malloc-IsValid :
      (malloc : ℕ → ℕ) (request_size filename instruction : ℕ) {s : Memcheck}
      → IsValid s
      → find (malloc ((request_size + meta_size) % word)) s.head ≡ none
      → IsValid (mini_malloc meta_size malloc request_size filename instruction s).1
  unfolding mini_malloc
  mini_malloc-IsValid malloc n filename instruction {s} v fresh =
      ground (
        arith,
        record_block-IsValid (malloc ((n + meta_size) % word)) n filename instruction v fresh,
      )

  -- The same for `mini_calloc`.
  pub mini_calloc-IsValid :
      (malloc : ℕ → ℕ) (num_elements element_size filename instruction : ℕ) {s : Memcheck}
      → IsValid s
      → find (malloc ((num_elements * element_size % word + meta_size) % word)) s.head ≡ none
      → IsValid (mini_calloc meta_size malloc num_elements element_size filename instruction s).1
  unfolding mini_calloc
  mini_calloc-IsValid malloc n m filename instruction {s} v fresh = ground (
    arith,
    record_block-IsValid (malloc ((n * m % word + meta_size) % word)) (n * m % word) filename
        instruction v fresh,
  )

  -- `mini_free` of an address that the list does not have.
  pub mini_free-none :
      (payload : ℕ) (s : Memcheck)
      → payload ≢ 0
      → find (meta_of meta_size payload) s.head ≡ none
      → mini_free meta_size payload s
        ≡ record s { invalid_addresses = (s.invalid_addresses + 1) % word }
  unfolding mini_free
  mini_free-none payload s ne h = rw (eq-false payload 0 ne, h)

  pub mini_free-some :
      (payload : ℕ) (s : Memcheck) (e : Entry)
      → payload ≢ 0
      → find (meta_of meta_size payload) s.head ≡ some e
      → mini_free meta_size payload s ≡ record s {
        head = unlink (meta_of meta_size payload) s.head;
        total_memory_freed = (s.total_memory_freed + e.request_size) % word;
      }
  unfolding mini_free
  mini_free-some payload s e ne h = rw (eq-false payload 0 ne, h)

  -- `mini_free` keeps the counts right for every argument, known or not.
  pub mini_free-IsValid :
      (payload : ℕ) {s : Memcheck} → IsValid s → IsValid (mini_free meta_size payload s)
  mini_free-IsValid payload {s} v = elim (ℕ_discrete payload 0) [
    | yes null ↦ unfold mini_free in rw (eq-true payload 0 null) v
    | no ne ↦ elim (Option-cases (find (meta_of meta_size payload) s.head)) [
      | inl missing ↦
          rw (mini_free-none payload s ne missing)
            (record { bounded = v.bounded; balanced = v.balanced; distinct = v.distinct })
      | inr found ↦
          let (e, here) = found in
          rw (mini_free-some payload s e ne here) (record {
            bounded = v.bounded;
            balanced =
                omega (arith, v.balanced, live-unlink (meta_of meta_size payload) s.head e here);
            distinct = AllDistinct-unlink (meta_of meta_size payload) s.head v.distinct;
          })
    ]
  ]

resize_entry-IsValid :
    (cur : Entry) (request_size filename instruction : ℕ) {s : Memcheck}
    → IsValid s
    → find cur.address s.head ≡ some cur
    → request_size < word
    → IsValid (resize_entry cur request_size filename instruction s)
unfolding resize_entry
resize_entry-IsValid cur n filename instruction {s} v here fits =
    let new : Entry = record cur {
      request_size = n;
      filename = filename;
      instruction = instruction;
    } in
    elim (dec_lt n cur.request_size) [
      | yes less ↦ rw (leb-false cur.request_size n less) (record {
        bounded = v.bounded;
        balanced = omega (arith, v.balanced, live-rewrite cur.address new s.head cur here);
        distinct = AllDistinct-rewrite cur.address new s.head refl v.distinct;
      })
      | no more ↦ rw (le→leb cur.request_size n (omega arith)) (record {
        bounded = omega arith;
        balanced = omega (arith, v.balanced, live-rewrite cur.address new s.head cur here);
        distinct = AllDistinct-rewrite cur.address new s.head refl v.distinct;
      })
    ]

-- What a call that returned says of its state.
abbrev pub Keeps : Outcome (ℕ × Memcheck) → Type 0
Keeps (done (p, s)) = IsValid s
Keeps _ = Unit

Keeps-if :
    (b : Bool) (x y : Outcome (ℕ × Memcheck))
    → Keeps x
    → (b ≡ false → Keeps y)
    → Keeps (if b then x else y)
Keeps-if true x y kx ky = kx
Keeps-if false x y kx ky = ky refl

module _ (meta_size : ℕ) where
  resized-Keeps :
      (cur : Entry) (new request_size filename instruction : ℕ) {s : Memcheck}
      → IsValid s
      → find cur.address s.head ≡ some cur
      → request_size < word
      → Keeps (resized meta_size cur new request_size filename instruction s)
  unfolding resized read_block allocated
  resized-Keeps cur new n filename instruction v here fits =
      let itself = eq-true cur.address cur.address refl in
      elim (Bool-cases (new == cur.address)) [
        | inl same ↦
            rw (itself, same)
              (rw same (resize_entry-IsValid cur n filename instruction v here fits))
        | inr moved ↦ rw (itself, moved) tt
      ]

  -- `mini_realloc` keeps the counts right whenever it returns.
  pub mini_realloc-IsValid :
      (malloc : ℕ → ℕ) (realloc : ℕ → ℕ → ℕ) (payload request_size filename instruction : ℕ)
      {s : Memcheck}
      → IsValid s
      → request_size < word
      → find (malloc ((request_size + meta_size) % word)) s.head ≡ none
      → Keeps (mini_realloc meta_size malloc realloc payload request_size filename instruction s)
  unfolding mini_realloc
  mini_realloc-IsValid malloc realloc payload n filename instruction {s} v fits fresh =
      Keeps-if (payload == 0 && n == 0) _ _ v λ _.
        Keeps-if (n == 0) _ _ (mini_free-IsValid meta_size payload v) λ _.
          Keeps-if (payload == 0) _ _
            (mini_malloc-IsValid meta_size malloc n filename instruction v fresh)
            λ _. elim (Option-cases (find (meta_of meta_size payload) s.head)) [
              | inl missing ↦
                  rw missing
                    (record { bounded = v.bounded; balanced = v.balanced; distinct = v.distinct })
              | inr found ↦
                  let (e, here) = found in
                  let same : e.address ≡ meta_of meta_size payload =
                    find-address (meta_of meta_size payload) s.head e here in
                  rw here (
                    Keeps-if (realloc e.address ((n + meta_size) % word) == 0) _ _ v λ _.
                      resized-Keeps e (realloc e.address ((n + meta_size) % word)) n filename
                        instruction v (ap (λ a. find a s.head) same ∙ here) fits)
            ]
