-- ===== src/Sbfs.antt =====
-- kernel/fs/sbfs.c: the on-disk file system, over the buffer cache and the log.
-- `none` is a panic of the cache or of the log.
pub mod Bytes
pub mod Bits
pub mod Settle
pub mod Ends
pub mod Visit
pub mod Quiet
pub mod Bitmap
pub mod Inode
pub mod Read
pub mod Write
pub mod Dir
pub mod Cache
mod Tests
use sbunix.Base.{ℕ, Option, none, some, ◌>>=◌}
use sbunix.Bio.{Block, bread, brelse, set_block}
use sbunix.Log.{System, log_write}

-- `struct sb_superblock`; `magic`, `size`, `nlog` and `logstart` are used at the mount only.
pub record Superblock : Type 0 where
  pub nblocks : ℕ
  pub ninodes : ℕ
  pub inodestart : ℕ
  pub bmapstart : ℕ

-- The holder of the buffer `i` leaves its data, or replaces it and calls `log_write`.
pub save : System → ℕ → Option Block → Option System
save s i none = some s
save s i (some d) = log_write (record s { cache = set_block s.cache i d }) i

-- `bread`, the use of the data, and `brelse`: `f` says what the code computes from the data, and
-- whether it replaces them.
pub visit : {A : Type 0} → System → ℕ → (Block → A × Option Block) → Option (A × System)
unfolding save
visit s b f = do
  (i, c) ← bread s.cache b
  s' ← save (record s { cache = c }) i ((f (c.slot i).block).1)
  some ((f (c.slot i).block).0, record s' { cache = brelse s'.cache i })
