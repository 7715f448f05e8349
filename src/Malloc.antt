-- ===== src/Malloc.antt =====
-- malloc/alloc.c: an allocator with free lists by size class.
-- A pointer is `none` for NULL or an address. The headers that the code has written are a map from
-- addresses; an access to any other address is a fault. The bytes of the payloads are a map of
-- their own. The program break is moved by this code only; whether the system grants a move is a
-- parameter.
pub mod Links
pub mod Patches
pub mod Lists
pub mod Remove
pub mod Add
pub mod Fits
pub mod Best
pub mod Blocks
pub mod Calls
pub mod Live
pub mod Reuse
pub mod Limits
pub mod Free
pub mod Combine
pub mod Again
mod Tests
pub use system_programming_uiuc.Prelude.{update}
use system_programming_uiuc.Prelude.{
  ℕ, zero, suc, ◌+◌, ◌^◌, Bool, true, false, ◌&&◌, Option, none, some, List, [], ◌∷◌, ltb, leb,
  if◌then◌else◌,
}
use system_programming_uiuc.Prelude.Outcome.{Outcome, done, fault, no_fuel, ◌>>=◌}

abbrev pub word : ℕ
word = 2 ^ 64

-- `sizeof(meta)`
abbrev pub meta_size : ℕ
meta_size = 32

abbrev pub split_rest : ℕ
split_rest = 4

abbrev pub search_class : ℕ
search_class = 5

abbrev pub free_class : ℕ
free_class = 5

abbrev pub block_size : List ℕ
block_size =
    8 ∷ 16 ∷ 32 ∷ 64 ∷ 128 ∷ 256 ∷ 512 ∷ 1024 ∷ 2048 ∷ 4096 ∷ 8192 ∷ 16384 ∷ 32768 ∷ 65536 ∷ 131072
    ∷ 262144 ∷ []

pub record Meta : Type 0 where
  pub size : ℕ
  pub is_free : Bool
  pub next : Option ℕ
  pub prev : Option ℕ

pub record Arena : Type 0 where
  pub headers : ℕ → Option Meta
  pub bytes : ℕ → ℕ
  pub brk : ℕ
  pub heads : ℕ → Option ℕ
  pub defrag : ℕ

-- The loop of `get_index` from entry `i` on.
unfoldable pub index_from : ℕ → ℕ → List ℕ → ℕ
index_from size i [] = i
index_from size i (b ∷ bs) = if leb size b then i else index_from size (i + 1) bs

unfoldable pub get_index : ℕ → ℕ
unfolding index_from
get_index size = index_from size 0 block_size

unfoldable pub header : ℕ → Arena → Outcome Meta
header p a = elim (a.headers p) [ none ↦ fault | some m ↦ done m ]

-- A store to fields of a header that is there.
unfoldable pub put : ℕ → Meta → Arena → Arena
put p m a = record a { headers = update a.headers p (some m) }

unfoldable pub set_head : ℕ → Option ℕ → Arena → Arena
set_head i p a = record a { heads = update a.heads i p }

unfoldable pub set_next : ℕ → Option ℕ → Arena → Outcome Arena
unfolding header put
set_next p n a = header p a >>= λ m. done (put p (record m { next = n }) a)

unfoldable pub set_prev : ℕ → Option ℕ → Arena → Outcome Arena
unfolding header put
set_prev p n a = header p a >>= λ m. done (put p (record m { prev = n }) a)

unfoldable pub set_free : ℕ → Bool → Arena → Outcome Arena
unfolding header put
set_free p f a = header p a >>= λ m. done (put p (record m { is_free = f }) a)

-- The four branches of `removeblock`, for the class, `prev` and `next` of the block.
unfoldable pub unlink : ℕ → Option ℕ → Option ℕ → Arena → Outcome Arena
unfolding set_next set_prev set_head
unlink index (some p) (some n) a = set_next p (some n) a >>= λ a'. set_prev n (some p) a'
unlink index (some p) none a = set_next p none a
unlink index none (some n) a = set_prev n none (set_head index (some n) a)
unlink index none none a = done (set_head index none a)

-- `cur->next = NULL; cur->prev = NULL`
unfoldable pub detach : ℕ → Arena → Outcome Arena
unfolding header put
detach cur a = header cur a >>= λ m. done (put cur (record m { next = none; prev = none }) a)

unfoldable pub removeblock : Option ℕ → Arena → Outcome Arena
unfolding header unlink detach
removeblock none a = done a
removeblock (some cur) a =
    header cur a >>= λ m. unlink (get_index m.size) m.prev m.next a >>= λ a'. detach cur a'

-- The two branches of `addblock`, for the head of the class.
unfoldable pub add_front : ℕ → ℕ → Meta → Option ℕ → Arena → Outcome Arena
unfolding put set_head set_prev header
add_front index cur m none a =
    done (put cur (record m { prev = none; next = none }) (set_head index (some cur) a))
add_front index cur m (some h) a = set_prev h (some cur) a >>= λ a'. header cur a' >>= λ m'.
    done (set_head index (some cur) (put cur (record m' { next = some h; prev = none }) a'))

unfoldable pub addblock : Option ℕ → Arena → Outcome Arena
unfolding header add_front
addblock none a = done a
addblock (some cur) a =
    header cur a >>= λ m. add_front (get_index m.size) cur m (a.heads (get_index m.size)) a

unfoldable pub fits : ℕ → Meta → Bool
fits size m = m.is_free && leb size m.size

-- The loops over a list take fuel: the break is a bound for the number of blocks below it.
unfoldable pub first_fit_from : ℕ → ℕ → Option ℕ → Arena → Outcome (Option ℕ)
unfolding header fits
first_fit_from fuel size none a = done none
first_fit_from zero size (some cur) a = no_fuel
first_fit_from (suc fuel) size (some cur) a = header cur a >>= λ m. elim (fits size m) [
  | true ↦ done (some cur)
  | false ↦ first_fit_from fuel size m.next a
]

unfoldable pub first_fit : ℕ → Arena → Outcome (Option ℕ)
unfolding first_fit_from
first_fit size a = first_fit_from (a.brk + 1) size (a.heads (get_index size)) a

-- `!chosen || chosen->size > cur->size`; the size of `chosen` was read when it was chosen, and no
-- header changes in between.
unfoldable pub better : Option (ℕ × ℕ) → ℕ → Bool
better none size = true
better (some (p, chosen_size)) size = ltb size chosen_size

unfoldable pub best_fit_from : ℕ → ℕ → Option ℕ → Option (ℕ × ℕ) → Arena → Outcome (Option (ℕ × ℕ))
unfolding header fits better
best_fit_from fuel size none chosen a = done chosen
best_fit_from zero size (some cur) chosen a = no_fuel
best_fit_from (suc fuel) size (some cur) chosen a = header cur a >>= λ m.
    best_fit_from fuel size m.next
      (if fits size m && better chosen m.size then some (cur, m.size) else chosen) a

unfoldable pub best_fit : ℕ → Arena → Outcome (Option ℕ)
unfolding best_fit_from
best_fit size a = best_fit_from (a.brk + 1) size (a.heads (get_index size)) none a >>= λ chosen.
    done (elim chosen [ none ↦ none | some c ↦ some c.0 ])
