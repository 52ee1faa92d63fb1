-- ===== src/Bio.antt =====
-- kernel/bio.c: the buffer cache, over a disk of 512-byte blocks. A buffer is named by its index in
-- `bcache`. The ring through `bhead` is the list of these names from `bhead.next` (most recently
-- used) to `bhead.prev`. `none` is a panic. The disk is what kernel/drivers/virtio_disk.c reads and
-- writes, one block at a time; `trace` is the history of the block writes, oldest first.
pub mod Cached
pub mod Read
pub mod Write
pub mod Copy
pub mod Peek
pub mod Boot
pub mod View
mod Tests
use sbunix.Base.{
  ℕ, zero, suc, ◌+◌, ◌&&◌, Bool, true, false, not, Option, none, some, List, [], ◌∷◌, ◌++◌, ◌==◌,
  if◌then◌else◌, update, add32, sub32, ◌>>=◌,
}
use sbunix.Base.Sets.{remove}

-- The data of a block as 128 little-endian words of 32 bits.
abbrev pub Block : Type 0
Block = ℕ → ℕ

abbrev pub nbuf : ℕ
nbuf = 32

-- `struct buf`; `refcnt` is the bit pattern of the `int`.
pub record Buf : Type 0 where
  pub valid : Bool
  pub dirty : Bool
  pub refcnt : ℕ
  pub blockno : ℕ
  pub block : Block

pub record Cache : Type 0 where
  pub order : List ℕ
  pub slot : ℕ → Buf
  pub disk : ℕ → Block
  pub trace : List (ℕ × Block)

abbrev pub set_slot : Cache → ℕ → Buf → Cache
set_slot c i b = record c { slot = update c.slot i b }

-- One round of the loop of `binit`: the buffer `i` goes to the tail of the ring.
abbrev pub init_slot : Cache → ℕ → Cache
init_slot c i =
    record (set_slot c i
      (record (c.slot i) { valid = false; dirty = false; refcnt = 0; blockno = 0 })) {
        order = c.order ++ (i ∷ []);
      }

pub init_from : ℕ → ℕ → Cache → Cache
init_from zero i c = c
init_from (suc n) i c = init_from n (i + 1) (init_slot c i)

pub binit : Cache → Cache
unfolding init_from
binit c = init_from nbuf 0 (record c { order = [] })

abbrev pub is_hit : Cache → ℕ → ℕ → Bool
is_hit c b i = (c.slot i).blockno == b && (c.slot i).valid

abbrev pub is_victim : Cache → ℕ → Bool
is_victim c i = (c.slot i).refcnt == 0 && not (c.slot i).dirty

-- The first that passes, from the head of the ring.
unfoldable pub find_first : (ℕ → Bool) → List ℕ → Option ℕ
find_first f [] = none
find_first f (i ∷ is) = let rest = find_first f is in if f i then some i else rest

-- The first that passes, from the tail.
unfoldable pub find_last : (ℕ → Bool) → List ℕ → Option ℕ
find_last f [] = none
find_last f (i ∷ is) = elim (find_last f is) [
  | some j ↦ some j
  | none ↦ if f i then some i else none
]

-- The four pointer writes that move a buffer behind `bhead`.
abbrev pub to_front : Cache → ℕ → Cache
to_front c i = record c { order = i ∷ remove i c.order }

pub bget : Cache → ℕ → Option (ℕ × Cache)
unfolding find_first find_last
bget c b = elim (find_first (is_hit c b) c.order) [
  | some i ↦ some (i, set_slot c i (record (c.slot i) { refcnt = add32 (c.slot i).refcnt 1 }))
  | none ↦ elim (find_last (is_victim c) c.order) [
    | some i ↦ some (
      i,
      to_front
          (set_slot c i
            (record (c.slot i) { blockno = b; valid = false; dirty = false; refcnt = 1 }))
          i,
    )
    | none ↦ none
  ]
]

-- The read of a cold buffer.
abbrev pub fill : Cache → ℕ → Cache
fill c i =
    if (c.slot i).valid
    then c
    else set_slot c i (record (c.slot i) { block = c.disk (c.slot i).blockno; valid = true })

pub bread : Cache → ℕ → Option (ℕ × Cache)
bread c b = do (i, c') ← bget c b; some (i, fill c' i)

pub bwrite : Cache → ℕ → Cache
bwrite c i = record (set_slot c i (record (c.slot i) { dirty = false })) {
  disk = update c.disk (c.slot i).blockno (c.slot i).block;
  trace = c.trace ++ (((c.slot i).blockno, (c.slot i).block) ∷ []);
}

pub brelse : Cache → ℕ → Cache
brelse c i =
    let c' = set_slot c i (record (c.slot i) { refcnt = sub32 (c.slot i).refcnt 1 }) in
    if (c'.slot i).refcnt == 0 then to_front c' i else c'

-- `memcpy(b->data, …, BSIZE)`, and any other change of the data by a holder.
abbrev pub set_block : Cache → ℕ → Block → Cache
set_block c i d = set_slot c i (record (c.slot i) { block = d })
