-- ===== src/Malloc/Tests.antt =====
-- malloc/alloc.c: the theorems at a concrete heap.
use system_programming_uiuc.Prelude.{
  ℕ, ◌+◌, ◌-◌, ◌*◌, ◌%◌, ◌^◌, ◌≤◌, ◌<◌, ◌≡◌, refl, ◌⊎◌, inl, true, false, none, some, List, [], ◌∷◌,
  ◌++◌, arith, ◌==◌, if◌then◌else◌, length,
}
use system_programming_uiuc.Prelude.Outcome.{done, fault}
use system_programming_uiuc.Malloc.{
  word, meta_size, search_class, free_class, Meta, Arena, update, get_index, index_from, best_fit,
}
use system_programming_uiuc.Malloc.Links.{Apart, Distinct, Seg, first_or}
use system_programming_uiuc.Malloc.Lists.{Lists, Lists-change}
use system_programming_uiuc.Malloc.Fits.{Small, AtLeast, Found}
use system_programming_uiuc.Malloc.Best.{best_fit-best}
use system_programming_uiuc.Malloc.Blocks.{behind, Grants}
use system_programming_uiuc.Malloc.Calls.{meta_of, extend, malloc, free}
use system_programming_uiuc.Malloc.Reuse.{Taken, Handed, behind_of, malloc-Handed}
use system_programming_uiuc.Malloc.Limits.{get_index-bounds, malloc-wraps}
use system_programming_uiuc.Malloc.Free.{Stays, Freed, free-Freed}
use system_programming_uiuc.Malloc.Combine.{Combined, free-Combined}
use system_programming_uiuc.Malloc.Again.{malloc-free}

-- A heap of three blocks: 24 bytes in use at 1000, 20 free bytes at 1056, and 8 bytes in use at
-- 1108, up to the break.
abbrev in_use : ℕ → Meta
in_use n = record { size = n; is_free = false; next = none; prev = none }

abbrev spare : ℕ → Meta
spare n = record { size = n; is_free = true; next = none; prev = none }

abbrev heap : Arena
heap = record {
  headers = λ p.
      if p == 1000
      then some (in_use 24)
      else if p == 1056
      then some (spare 20)
      else if p == 1108
      then some (in_use 8)
      else none;
  bytes = λ p. 0;
  brk = 1148;
  heads = λ i. if i == 2 then some 1056 else none;
  defrag = 0;
}

abbrev none_listed : ℕ → List ℕ
none_listed i = []

abbrev lists : ℕ → List ℕ
lists = update none_listed 2 (1056 ∷ [])

heap-Lists : Lists heap lists
unfolding Seg first_or Distinct Apart get_index index_from
heap-Lists =
    Lists-change (record heap { heads = λ i. none }) heap none_listed 2 (1056 ∷ [])
      (record { head = λ i. refl; linked = λ i. tt; distinct = λ i. tt }) refl
      (
        (spare 20, refl, record { of_class = refl; free = refl; prev_is = refl; next_is = refl }),
        tt,
      )
      (tt, tt) (λ j ne. ground arith) (λ j ne. tt)

abbrev always : Grants
always from to = true

get_index_24 : get_index 24 ≡ 2
unfolding get_index index_from
get_index_24 = refl

get_index-bounds_example :
    (get_index 24 ≤ 16)
    × (get_index 24 < 16 → 24 ≤ 8 * 2 ^ get_index 24)
    × (0 < get_index 24 → 8 * 2 ^ (get_index 24 - 1) < 24)
get_index-bounds_example = get_index-bounds 24

short_17 : length (lists (get_index 17)) ≤ heap.brk
unfolding get_index index_from
short_17 = omega arith

low_17 : get_index 17 < 15
unfolding get_index index_from
low_17 = omega arith

end_8 : heap.brk ≤ behind (meta_of 1140) 8
unfolding behind
end_8 = omega arith

low_8 : get_index 8 ≤ free_class
unfolding get_index index_from
low_8 = omega arith

class_8 : get_index 8 < search_class
unfolding get_index index_from
class_8 = omega arith

class_7 : get_index 7 ≡ get_index 8
unfolding get_index index_from
class_7 = refl

short_8 : length (lists (get_index 8)) < heap.brk
unfolding get_index index_from
short_8 = omega arith

near_24 : behind (meta_of 1032) 24 < heap.brk
unfolding behind
near_24 = omega arith

next_24 : heap.headers (behind (meta_of 1032) 24) ≡ some (spare 20)
unfolding behind
next_24 = refl

listed_24 : lists 2 ≡ [] ++ behind (meta_of 1032) 24 ∷ []
unfolding behind
listed_24 = refl

low_76 : Stays 1032 (record (in_use 24) { size = (24 + meta_size + 20) % word }) heap
unfolding get_index index_from
low_76 = inl (omega arith)

best_fit-best_example :
    ((best_fit 17 heap ≡ done none) × Small heap.headers 17 (lists (get_index 17)))
    ⊎ ((c : ℕ) × (bytes : ℕ) × (before : List ℕ) × (behind : List ℕ) × (best_fit 17 heap
          ≡ done (some c))
        × Found heap.headers 17 c bytes (lists (get_index 17)) before behind
        × AtLeast heap.headers 17 bytes (lists (get_index 17)))
best_fit-best_example = best_fit-best 17 heap lists heap-Lists short_17

malloc-Handed_example :
    ((malloc always 17 heap ≡ extend always 17 heap) × Small heap.headers 17 (lists (get_index 17)))
    ⊎ ((c : ℕ) × (before : List ℕ) × (behind : List ℕ) × Taken heap.headers 17 c
          (lists (get_index 17))
          before
          behind
        × (a' : Arena) × (malloc always 17 heap ≡ done (some (behind_of c), a'))
        × Handed heap a' lists (get_index 17) c before behind)
malloc-Handed_example = malloc-Handed always 17 heap lists heap-Lists (omega arith) low_17 short_17

malloc-wraps_example : malloc always (2 ^ 64 - 1032) heap ≡ fault
malloc-wraps_example =
    malloc-wraps always (2 ^ 64 - 1032) heap (omega arith) (omega arith) (omega arith) (omega arith)
      refl (λ from to. refl)

free-Freed_example :
    (a' : Arena) × (free always (some 1140) heap ≡ done a') × Freed heap a' lists (meta_of 1140) 8
free-Freed_example =
    free-Freed always 1140 heap lists (in_use 8) heap-Lists (omega arith) refl refl (inl end_8)
      (inl low_8)

free-Combined_example :
    (a' : Arena) × (a'' : Arena) × (free always (some 1032) heap ≡ done a'')
    × Combined heap a' lists 2 (meta_of 1032) [] 76
    × Freed a' a'' (update lists 2 []) (meta_of 1032) 76
free-Combined_example =
    free-Combined always 1032 2 heap lists (in_use 24) (spare 20) [] [] heap-Lists (omega arith)
      refl refl near_24 next_24 refl listed_24 low_76

malloc-free_example :
    (a' : Arena) × (a'' : Arena) × (free always (some 1140) heap ≡ done a')
    × (malloc always 7 a' ≡ done (some 1140, a''))
malloc-free_example =
    malloc-free always 1140 7 heap lists (in_use 8) heap-Lists (omega arith) (omega arith)
      (omega arith) refl refl (inl end_8) class_8 class_7 (omega arith) (omega arith) short_8
