-- ===== src/Malloc.antt =====
-- libc/malloc.c: the arena, the free list and the direct mappings. A chunk is named by its address;
-- the free list is the list of the addresses in the order of `next`. What `mmap` returns is an
-- argument, the results of its calls in order, where `none` is MAP_FAILED; when the list is used up
-- it fails. A size has its two flag bits apart. A pointer that the caller gets or passes is 16
-- above its chunk.
pub mod Fit
mod Tests
use sbunix.Base.{
  ℕ, zero, suc, ◌+◌, ◌-◌, ◌%◌, ◌^◌, ◌&&◌, ◌||◌, Bool, true, false, not, Option, none, some, List,
  [], ◌∷◌, ◌++◌, ◌==◌, ltb, leb, if◌then◌else◌, update, add64,
}
use sbunix.Base.Sets.{remove}

abbrev pub align : ℕ
align = 16

-- `sizeof(struct chunk)`
abbrev pub hdr_size : ℕ
hdr_size = 16

abbrev pub direct_threshold : ℕ
direct_threshold = 0x1000000

abbrev pub arena_size : ℕ
arena_size = 0xF00000000

-- `struct chunk`, less its `next`.
pub record Chunk : Type 0 where
  pub size : ℕ
  pub used : Bool
  pub direct : Bool

pub record Arena : Type 0 where
  pub chunk : ℕ → Chunk
  pub free_list : List ℕ
  pub arena_top : ℕ
  pub arena_end : ℕ
  pub arena_inited : Bool
  pub mmaps : List (Option ℕ)

abbrev pub set_chunk : Arena → ℕ → Chunk → Arena
set_chunk a c x = record a { chunk = update a.chunk c x }

-- 0 when the rounding would wrap around.
pub align_up : ℕ → ℕ → ℕ
align_up n a = if ltb (2 ^ 64 - 1 - (a - 1)) n then 0 else (n + a - 1) - (n + a - 1) % a

-- The result of the next call of `mmap`.
abbrev pub mmap : Arena → Option ℕ × Arena
mmap a = elim a.mmaps [ [] ↦ (none, a) | (r ∷ rs) ↦ (r, record a { mmaps = rs }) ]

-- `false` is the result -1.
pub arena_init : Arena → Bool × Arena
arena_init a =
    let (r, a') = mmap a in
    if a.arena_inited then (true, a) else elim r [
      | none ↦ (false, a')
      | some p ↦
          (true, record a' { arena_top = p; arena_end = p + arena_size; arena_inited = true })
    ]

-- The search of `arena_alloc` over the rest of the free list, with the best chunk so far.
pub best_from : (ℕ → Chunk) → List ℕ → ℕ → Option ℕ → Option ℕ
best_from h [] size best = best
best_from h (c ∷ cs) size best =
    let take = best_from h cs size (some c) in
    let leave = best_from h cs size best in
    if leb size (h c).size
    then elim best [ none ↦ take | some b ↦ if ltb (h c).size (h b).size then take else leave ]
    else leave

-- `rest` takes the place of the chunk in the list.
abbrev pub replace : ℕ → ℕ → List ℕ → List ℕ
replace c rest [] = []
replace c rest (x ∷ xs) = if x == c then rest ∷ xs else x ∷ replace c rest xs

-- A chunk taken from the free list, split when the rest is large enough.
pub take_chunk : Arena → ℕ → ℕ → Arena
take_chunk a best size =
    let old = (a.chunk best).size in
    let rest = best + hdr_size + size in
    if leb (size + hdr_size + align) old
    then record a {
      chunk =
          update
            (update a.chunk rest
              (record { size = old - size - hdr_size; used = false; direct = false }))
            best (record { size = size; used = true; direct = false });
      free_list = replace best rest a.free_list;
    }
    else record a {
      chunk = update a.chunk best (record (a.chunk best) { used = true });
      free_list = remove best a.free_list;
    }

-- The pointer for the caller, or `none` for the null pointer.
pub arena_alloc : Arena → ℕ → Option ℕ × Arena
unfolding best_from take_chunk
arena_alloc a size = elim (best_from a.chunk a.free_list size none) [
  | some best ↦ (some (best + hdr_size), take_chunk a best size)
  | none ↦ if ltb (a.arena_end - a.arena_top) (hdr_size + size) then (none, a) else (
    some (a.arena_top + hdr_size),
    record (set_chunk a a.arena_top (record { size = size; used = true; direct = false })) {
      arena_top = a.arena_top + (hdr_size + size);
    },
  )
]

pub direct_alloc : Arena → ℕ → Option ℕ × Arena
direct_alloc a size =
    let (r, a') = mmap a in
    elim r [
      | none ↦ (none, a')
      | some p ↦
          (some (p + hdr_size), set_chunk a' p (record { size = size; used = true; direct = true }))
    ]

pub malloc : Arena → ℕ → Option ℕ × Arena
unfolding align_up arena_init arena_alloc direct_alloc
malloc a size =
    let n = align_up size align in
    let (ok, a') = arena_init a in
    if size == 0
    then (none, a)
    else if n == 0
    then (none, a)
    else if ltb (2 ^ 64 - 1 - hdr_size) n
    then (none, a)
    else if leb direct_threshold (n + hdr_size)
    then direct_alloc a n
    else if not ok
    then (none, a')
    else arena_alloc a' n

-- The walk of `free` to the place of the chunk: what stands before it, and what from it on.
abbrev pub before : ℕ → List ℕ → List ℕ
before c [] = []
before c (x ∷ xs) = if ltb x c then x ∷ before c xs else []

abbrev pub from : ℕ → List ℕ → List ℕ
from c [] = []
from c (x ∷ xs) = if ltb x c then from c xs else x ∷ xs

-- The chunk joined with the next of the list when that begins where it ends.
pub join_next : Arena → ℕ → List ℕ → List ℕ × Arena
join_next a c [] = (c ∷ [], a)
join_next a c (x ∷ xs) =
    if c + hdr_size + (a.chunk c).size == x
    then (
      c ∷ xs,
      set_chunk a c
          (record (a.chunk c) { size = (a.chunk c).size + (hdr_size + (a.chunk x).size) }),
    )
    else (c ∷ x ∷ xs, a)

-- The part before the place joined with the rest, `c ∷ rest`, in the same way.
pub join_prev : Arena → List ℕ → ℕ → List ℕ → List ℕ × Arena
join_prev a [] c rest = (c ∷ rest, a)
join_prev a (p ∷ []) c rest =
    if p + hdr_size + (a.chunk p).size == c
    then (
      p ∷ rest,
      set_chunk a p
          (record (a.chunk p) { size = (a.chunk p).size + (hdr_size + (a.chunk c).size) }),
    )
    else (p ∷ c ∷ rest, a)
join_prev a (p ∷ q ∷ ps) c rest = let (xs, a') = join_prev a (q ∷ ps) c rest in (p ∷ xs, a')

-- The release of an arena chunk.
pub free_chunk : Arena → ℕ → Arena
unfolding join_next join_prev
free_chunk a c =
    let a1 = set_chunk a c (record (a.chunk c) { used = false }) in
    let (xs, a2) = join_next a1 c (from c a1.free_list) in
    let rest = elim xs as (λ _. List ℕ) [ [] ↦ [] | (_ ∷ ys) ↦ ys ] in
    let (ys, a3) = join_prev a2 (before c a1.free_list) c rest in record a3 { free_list = ys }

-- `none` is the null pointer. A direct chunk is unmapped, which the arena does not see.
pub free : Arena → Option ℕ → Arena
unfolding free_chunk
free a none = a
free a (some ptr) = if (a.chunk (ptr - hdr_size)).direct then a else free_chunk a (ptr - hdr_size)
