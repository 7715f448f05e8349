-- ===== src/Memcheck/Misuse.antt =====
-- mini_memcheck/mini_memcheck.c: matched calls, double frees and sizes that overflow.
use system_programming_uiuc.Prelude.{
  ℕ, ◌+◌, ◌-◌, ◌*◌, ◌%◌, ◌≤◌, ◌<◌, ◌≡◌, sym, ap, subst, ◌∙◌, ◌≢◌, none, some, List, ◌∷◌, arith,
  eq-true, eq-false,
}
use system_programming_uiuc.Prelude.Outcome.{done}
use system_programming_uiuc.Memcheck.{
  word, Entry, Memcheck, find, unlink, record_block, mini_malloc, mini_calloc, meta_of, mini_free,
  mini_realloc,
}
use system_programming_uiuc.Memcheck.Totals.{
  live, IsValid, find-unlink_self, mini_free-none, mini_free-some, mini_malloc-IsValid,
  mini_calloc-IsValid, mini_free-IsValid, mini_realloc-IsValid, Keeps,
}

find-front : (a : ℕ) (e : Entry) (es : List Entry) → e.address ≡ a → find a (e ∷ es) ≡ some e
unfolding find
find-front a e es h = rw (eq-true e.address a h)

unlink-front : (a : ℕ) (e : Entry) (es : List Entry) → e.address ≡ a → unlink a (e ∷ es) ≡ es
unfolding unlink
unlink-front a e es h = rw (eq-true e.address a h)

module _ (meta_size : ℕ) where
  mini_malloc-some :
      (malloc : ℕ → ℕ) (n filename instruction : ℕ) (s : Memcheck)
      → n ≢ 0
      → malloc ((n + meta_size) % word) ≢ 0
      → mini_malloc meta_size malloc n filename instruction s
        ≡ record_block meta_size (malloc ((n + meta_size) % word)) n filename instruction s
  unfolding mini_malloc
  mini_malloc-some malloc n filename instruction s pos ok =
      rw (eq-false n 0 pos, eq-false (malloc ((n + meta_size) % word)) 0 ok)

  free-front :
      (payload : ℕ) (e : Entry) (s : Memcheck)
      → payload ≢ 0
      → meta_of meta_size payload ≡ e.address
      → mini_free meta_size payload (record s { head = e ∷ s.head })
        ≡ record s { total_memory_freed = (s.total_memory_freed + e.request_size) % word }
  free-front payload e s ne same =
      mini_free-some meta_size payload (record s { head = e ∷ s.head }) e ne
        (find-front (meta_of meta_size payload) e s.head (sym same))
      ∙ ap
          (λ (l : List Entry). record s {
            head = l;
            total_memory_freed = (s.total_memory_freed + e.request_size) % word;
          })
          (unlink-front (meta_of meta_size payload) e s.head (sym same))

  free-record_block :
      (address n filename instruction : ℕ) (s : Memcheck)
      → address ≢ 0
      → address + meta_size < word
      → mini_free meta_size
          (record_block meta_size address n filename instruction s).0
          (record_block meta_size address n filename instruction s).1
        ≡ record s {
          total_memory_requested = (s.total_memory_requested + n) % word;
          total_memory_freed = (s.total_memory_freed + n) % word;
        }
  unfolding record_block
  free-record_block address n filename instruction s ne fits =
      free-front ((address + meta_size) % word) _
        (record s { total_memory_requested = (s.total_memory_requested + n) % word }) (omega arith)
        (omega arith)

  -- `mini_free` of what `mini_malloc` returned takes the block out of the list again, and both
  -- totals have grown by its size.
  pub mini_free-mini_malloc :
      (malloc : ℕ → ℕ) (n filename instruction : ℕ) (s : Memcheck)
      → n ≢ 0
      → malloc ((n + meta_size) % word) ≢ 0
      → malloc ((n + meta_size) % word) + meta_size < word
      → mini_free meta_size
          (mini_malloc meta_size malloc n filename instruction s).0
          (mini_malloc meta_size malloc n filename instruction s).1
        ≡ record s {
          total_memory_requested = (s.total_memory_requested + n) % word;
          total_memory_freed = (s.total_memory_freed + n) % word;
        }
  mini_free-mini_malloc malloc n filename instruction s pos ok fits =
      rw (mini_malloc-some malloc n filename instruction s pos ok)
        (free-record_block (malloc ((n + meta_size) % word)) n filename instruction s ok fits)

  -- A second `mini_free` of one pointer frees nothing, and is counted as an invalid address.
  pub mini_free-twice :
      (payload : ℕ) (s : Memcheck) (e : Entry)
      → IsValid s
      → payload ≢ 0
      → find (meta_of meta_size payload) s.head ≡ some e
      → mini_free meta_size payload (mini_free meta_size payload s)
        ≡ record (mini_free meta_size payload s) {
          invalid_addresses = (s.invalid_addresses + 1) % word;
        }
  mini_free-twice payload s e v ne here = rw (mini_free-some meta_size payload s e ne here) (
      mini_free-none meta_size payload _ ne
        (find-unlink_self (meta_of meta_size payload) s.head v.distinct))

  -- When the product of the two arguments does not fit a `size_t`, `mini_calloc` makes a block that
  -- is smaller than asked for, and returns it as if nothing was wrong.
  pub mini_calloc-overflow :
      (malloc : ℕ → ℕ) (num size filename instruction : ℕ) (s : Memcheck)
      → word ≤ num * size
      → malloc ((num * size % word + meta_size) % word) ≢ 0
      → malloc ((num * size % word + meta_size) % word) + meta_size < word
      → (e : Entry) × ((mini_calloc meta_size malloc num size filename instruction s).1.head
          ≡ e ∷ s.head)
        × (e.request_size < num * size)
        × ((mini_calloc meta_size malloc num size filename instruction s).0 ≢ 0)
  unfolding mini_calloc record_block
  mini_calloc-overflow malloc num size filename instruction s big ok fits =
      let num_pos : num ≢ 0 = λ e. absurd (omega (arith, ap (λ (t : ℕ). t * size) e)) in
      let size_pos : size ≢ 0 = λ e. absurd (omega (arith, ap (λ (t : ℕ). num * t) e)) in
      (
        record {
          address = malloc ((num * size % word + meta_size) % word);
          request_size = num * size % word;
          filename = filename;
          instruction = instruction;
        },
        rw (
          eq-false num 0 num_pos,
          eq-false size 0 size_pos,
          eq-false (malloc ((num * size % word + meta_size) % word)) 0 ok,
        ),
        omega arith,
        rw
            (
              eq-false num 0 num_pos,
              eq-false size 0 size_pos,
              eq-false (malloc ((num * size % word + meta_size) % word)) 0 ok,
            )
            (omega arith),
      )

  -- One call of a program that uses the library, with any answers of the C library that give no
  -- live address out twice.
  pub data Step (s : Memcheck) : Memcheck → Type 0 where
    malloc_call :
        (malloc : ℕ → ℕ) (n filename instruction : ℕ)
        → find (malloc ((n + meta_size) % word)) s.head ≡ none
        → Step s (mini_malloc meta_size malloc n filename instruction s).1
    calloc_call :
        (malloc : ℕ → ℕ) (num size filename instruction : ℕ)
        → find (malloc ((num * size % word + meta_size) % word)) s.head ≡ none
        → Step s (mini_calloc meta_size malloc num size filename instruction s).1
    free_call : (payload : ℕ) → Step s (mini_free meta_size payload s)
    realloc_call :
        (malloc : ℕ → ℕ) (realloc : ℕ → ℕ → ℕ) (payload n filename instruction p : ℕ)
        {s' : Memcheck}
        → n < word
        → find (malloc ((n + meta_size) % word)) s.head ≡ none
        → mini_realloc meta_size malloc realloc payload n filename instruction s ≡ done (p, s')
        → Step s s'

  pub data Reach (s : Memcheck) : Memcheck → Type 0 where
    start : Reach s s
    later : {t u : Memcheck} → Reach s t → Step t u → Reach s u

  Step-IsValid : {s t : Memcheck} → Step s t → IsValid s → IsValid t
  Step-IsValid (malloc_call malloc n f i fresh) v =
      mini_malloc-IsValid meta_size malloc n f i v fresh
  Step-IsValid (calloc_call malloc num size f i fresh) v =
      mini_calloc-IsValid meta_size malloc num size f i v fresh
  Step-IsValid (free_call payload) v = mini_free-IsValid meta_size payload v
  Step-IsValid (realloc_call malloc realloc payload n f i p fits fresh e) v =
      subst Keeps e (mini_realloc-IsValid meta_size malloc realloc payload n f i v fits fresh)

  Reach-IsValid : {s t : Memcheck} → Reach s t → IsValid s → IsValid t
  Reach-IsValid start v = v
  Reach-IsValid (later r st) v = Step-IsValid st (Reach-IsValid r v)

  -- After any calls that return, from a valid state on, the bytes requested and not freed are the
  -- bytes of the blocks still in the list, modulo 2 ^ 64: the leak report is right.
  pub leak_report :
      {s t : Memcheck}
      → IsValid s
      → Reach s t
      → (t.total_memory_requested + word - t.total_memory_freed % word) % word ≡ live t.head % word
  leak_report {s} {t} v r = omega (arith, (Reach-IsValid r v).balanced)
