-- ===== src/Log.antt =====
-- kernel/log.c: the write-ahead log of sbfs, over the buffer cache. `none` is a panic.
-- A pointer to a buffer is the buffer's index; `bufs` holds `none` for the null pointer.
-- `sie` is the hart's interrupt-enable bit, which a transaction clears.
pub mod Write
pub mod Writes
pub mod Commit
pub mod Header
pub mod Recover
pub mod Crash
pub mod Atomic
pub mod Transaction
pub mod Begin
pub mod Reboot
mod Tests
use sbunix.Base.{
  ℕ, zero, suc, ◌+◌, ◌-◌, ◌&&◌, ◌||◌, Bool, true, false, not, Option, none, some, List, [], ◌∷◌,
  ◌==◌, ltb, leb, if◌then◌else◌, update, add32, ◌>>=◌,
}
use sbunix.Bio.{Block, Cache, set_slot, bread, bwrite, brelse, set_block}

abbrev pub log_hdr_max : ℕ
log_hdr_max = 15

-- The struct `log`.
pub record Log : Type 0 where
  pub start : ℕ
  pub size : ℕ
  pub disk_size : ℕ
  pub outstanding : Bool
  pub nblocks : ℕ
  pub blocks : ℕ → ℕ
  pub bufs : ℕ → Option ℕ
  pub saved_sie : Bool

pub record System : Type 0 where
  pub log : Log
  pub cache : Cache
  pub sie : Bool

-- `lh->block[i] = log.blocks[i]` for the first `n` entries; `n` is word 0 of the header block.
unfoldable pub put_entries : ℕ → Log → Block → Block
put_entries zero l d = d
put_entries (suc i) l d = update (put_entries i l d) (1 + i) (l.blocks i)

abbrev pub header : Log → Block → Block
header l d = put_entries l.nblocks l (update d 0 l.nblocks)

pub write_log_header : Log → Cache → Option Cache
write_log_header l c = do
  (i, c1) ← bread c l.start
  some (brelse (bwrite (set_block c1 i (header l ((c1.slot i).block))) i) i)

-- One round of `install_trans`. The number of a block is a `uint32_t`.
pub install_block : Log → ℕ → Cache → Option Cache
install_block l i c = do
  (lb, c1) ← bread c (add32 l.start (1 + i))
  (db, c2) ← bread c1 (l.blocks i)
  some (brelse (brelse (bwrite (set_block c2 db ((c2.slot lb).block)) db) lb) db)

-- `n` rounds from the entry `i` on.
pub install_from : ℕ → ℕ → Log → Cache → Option Cache
install_from zero i l c = some c
install_from (suc n) i l c = do c' ← install_block l i c; install_from n (i + 1) l c'

pub install_trans : Log → Cache → Option Cache
install_trans l c = install_from l.nblocks 0 l c

pub log_init : Log → ℕ → ℕ → ℕ → Log
log_init l log_start log_size disk_size = record l {
  start = log_start;
  size = log_size;
  disk_size = disk_size;
  outstanding = false;
  nblocks = 0;
}

-- The test of an entry of the header on disk.
pub is_oob : Log → ℕ → Bool
is_oob l b =
    b == 0
    || b == 1
    || (leb l.start b && ltb b (add32 l.start l.size))
    || (not (l.disk_size == 0) && leb l.disk_size b)

-- The loop that reads the entries, `n` rounds from `i` on; `false` means that one is refused.
pub read_entries : ℕ → ℕ → Block → Log → Log × Bool
unfolding is_oob
read_entries zero i d l = (l, true)
read_entries (suc n) i d l =
    let rest = read_entries n (i + 1) d (record l { blocks = update l.blocks i (d (1 + i)) }) in
    if is_oob l (d (1 + i)) then (l, false) else rest

-- The log with no pending blocks, and its header written.
pub clear_log : Log → Cache → Option (Log × Cache)
clear_log l c = let l' = record l { nblocks = 0 } in do c' ← write_log_header l' c; some (l', c')

pub recover_from_log : Log → Cache → Option (Log × Cache)
recover_from_log l c = do
  (hb, c1) ← bread c l.start
  let d = (c1.slot hb).block
  let c2 = brelse c1 hb
  let (l', good) = read_entries (d 0) 0 d (record l { nblocks = d 0 })
  if ltb log_hdr_max (d 0)
      then clear_log l c2
      else if not good
      then clear_log l' c2
      else if ltb 0 l'.nblocks
      then (do c3 ← install_trans l' c2; clear_log l' c3)
      else some (l', c2)

-- `none` is the panic at a nested `begin_op`.
pub begin_op : System → Option System
begin_op s =
    if s.log.outstanding
    then none
    else some (record {
      log = record s.log {
        saved_sie = s.sie;
        outstanding = true;
        nblocks = 0;
        bufs = λ i. if ltb i log_hdr_max then none else s.log.bufs i;
      };
      cache = s.cache;
      sie = false;
    })

-- The first entry with this block number, among `n` from `i` on.
unfoldable pub find_entry : ℕ → ℕ → Log → ℕ → Option ℕ
find_entry zero i l b = none
find_entry (suc n) i l b =
    let rest = find_entry n (i + 1) l b in if l.blocks i == b then some i else rest

pub log_write : System → ℕ → Option System
unfolding find_entry
log_write s b =
    let l = s.log in
    let no = (s.cache.slot b).blockno in
    if not l.outstanding
    then none
    else if leb log_hdr_max l.nblocks
    then none
    else elim (find_entry l.nblocks 0 l no) [
      | some i ↦ some (record s { log = record l { bufs = update l.bufs i (some b) } })
      | none ↦ some (record s {
        log = record l {
          nblocks = l.nblocks + 1;
          blocks = update l.blocks l.nblocks no;
          bufs = update l.bufs l.nblocks (some b);
        };
        cache = set_slot s.cache b (record (s.cache.slot b) { dirty = true });
      })
    ]

-- Step 1 of `end_op`, `n` rounds from the entry `i` on. A null pointer in `bufs` is a fault.
pub log_block : Log → ℕ → Cache → Option Cache
log_block l i c = do
  (lb, c1) ← bread c (add32 l.start (1 + i))
  b ← l.bufs i
  some (brelse (bwrite (set_block c1 lb ((c1.slot b).block)) lb) lb)

pub log_blocks_from : ℕ → ℕ → Log → Cache → Option Cache
log_blocks_from zero i l c = some c
log_blocks_from (suc n) i l c = do c' ← log_block l i c; log_blocks_from n (i + 1) l c'

-- Step 5 of `end_op`, for the first `n` entries.
pub clear_bufs : ℕ → Log → Cache → Log × Cache
clear_bufs zero l c = (l, c)
clear_bufs (suc n) l c =
    let (l', c') = clear_bufs n l c in
    elim (l'.bufs n) [
      | none ↦ (l', c')
      | some b ↦ (
        record l' { bufs = update l'.bufs n none },
        set_slot c' b (record (c'.slot b) { dirty = false }),
      )
    ]

-- Steps 1 to 4 of `end_op`, the writes to the disk.
pub commit : Log → Cache → Option Cache
commit l c = do
  c1 ← log_blocks_from l.nblocks 0 l c
  c2 ← write_log_header l c1
  c3 ← install_trans l c2
  write_log_header (record l { nblocks = 0 }) c3

pub end_op : System → Option System
end_op s = if not s.log.outstanding then none else do
  c ← commit s.log s.cache
  let (l, c') = clear_bufs log_hdr_max (record s.log { nblocks = 0 }) c
  some (record {
    log = record l { outstanding = false };
    cache = c';
    sie = s.log.saved_sie || s.sie;
  })
