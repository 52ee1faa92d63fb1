-- ===== src/Sbfs/Write.antt =====
-- `sbfs_writei`: blocks are allocated on the way, and the inode goes to the log with them.
pub mod Contents
pub mod Slot
pub mod Filled
pub mod Finish
pub mod OneBlock
pub mod Whole
use sbunix.Base.{
  ℕ, zero, suc, ◌+◌, ◌*◌, ◌-◌, ◌/◌, ◌%◌, ◌^◌, Bool, true, false, not, ◌&&◌, ◌||◌, Option, none,
  some, List, [], ◌∷◌, ◌==◌, ltb, leb, if◌then◌else◌, update, add64, ◌>>=◌, length, take, drop,
}
use sbunix.Base.Int.{ℤ, pos, minus}
use sbunix.Base.Errno.{efbig, enospc}
use sbunix.Bio.{Block, bread, brelse, set_block}
use sbunix.Log.{System, log_write}
use sbunix.Sbfs.{Superblock, visit}
use sbunix.Sbfs.Bytes.{put_byte}
use sbunix.Sbfs.Bitmap.{balloc}
use sbunix.Sbfs.Inode.{Inode, ilock, iupdate}
use sbunix.Sbfs.Read.{bsize, ndir, nindir, nblk_per_indir, single_end, chunk}

abbrev pub sbfs_max_file_size : ℕ
sbfs_max_file_size = 16647 * 512

-- Where the byte goes: behind the double-indirect range, nowhere as the disk is full, or a block.
pub data Place : Type 0 where
  past full : Place
  found : ℕ → Place

abbrev pub set_addr : Inode → ℕ → ℕ → Inode
set_addr si i b = record si { dirty = true; d = record si.d { addrs = update si.d.addrs i b } }

-- The slot `i` of `addrs`, filled by `balloc` when it is 0. The result 0 means that the disk is
-- full.
pub ensure_slot : Superblock → System → Inode → ℕ → Option ((ℕ × Inode) × System)
ensure_slot sb s si i =
    if si.d.addrs i == 0
    then (do
      (nb, s') ← balloc sb s
      if nb == 0 then some ((0, si), s') else some ((nb, set_addr si i nb), s'))
    else some ((si.d.addrs i, si), s)

-- The entry `i` of the indirect block `b`, filled when it is 0, with the block held meanwhile.
pub ensure_entry : Superblock → System → ℕ → ℕ → Option (ℕ × System)
ensure_entry sb s b i = do
  (k, c) ← bread s.cache b
  if (c.slot k).block i == 0
      then (do
        (nb, s1) ← balloc sb (record s { cache = c })
        if nb == 0 then some (0, record s1 { cache = brelse s1.cache k }) else (do
          s2 ←
              log_write
                (record s1 { cache = set_block s1.cache k (update ((s1.cache.slot k).block) i nb) })
                k
          some (nb, record s2 { cache = brelse s2.cache k })))
      else some ((c.slot k).block i, record s { cache = brelse c k })

abbrev pub place : ℕ → Place
place b = if b == 0 then Place.full else Place.found b

-- The choice of the data block in a round of `sbfs_writei`.
pub map_alloc : Superblock → System → Inode → ℕ → Option ((Place × Inode) × System)
unfolding ensure_slot ensure_entry
map_alloc sb s si bn =
    if ltb bn ndir
    then (do ((b, si'), s') ← ensure_slot sb s si bn; some ((place b, si'), s'))
    else if ltb bn single_end
    then (let rel = bn - ndir in
        (do
          ((indir, si'), s1) ← ensure_slot sb s si (ndir + rel / nblk_per_indir)
          if indir == 0 then some ((Place.full, si'), s1) else (do
            (b, s2) ← ensure_entry sb s1 indir (rel % nblk_per_indir)
            some ((place b, si'), s2))))
    else (let drel = bn - single_end in
        let oi = drel / nblk_per_indir in
        if leb nblk_per_indir oi then some ((Place.past, si), s) else (do
          ((outer, si'), s1) ← ensure_slot sb s si (ndir + nindir)
          if outer == 0 then some ((Place.full, si'), s1) else (do
            (inner, s2) ← ensure_entry sb s1 outer oi
            if inner == 0 then some ((Place.full, si'), s2) else (do
              (b, s3) ← ensure_entry sb s2 inner (drel % nblk_per_indir)
              some ((place b, si'), s3)))))

-- `memcpy(bp->data + k, bytes, …)`
pub splice : Block → ℕ → List ℕ → Block
splice d k [] = d
splice d k (x ∷ xs) = splice (put_byte d k x) (k + 1) xs

-- How the loop ended: the bytes written, and whether the disk was full.
pub record Written : Type 0 where
  pub total : ℕ
  pub no_space : Bool
  pub inode : Inode
  pub system : System

-- The loop, with `total` of the `n` bytes written.
pub write_from : ℕ → Superblock → System → Inode → ℕ → List ℕ → ℕ → ℕ → Option Written
unfolding map_alloc splice
write_from zero sb s si off src n total =
    some (record { total = total; no_space = false; inode = si; system = s })
write_from (suc f) sb s si off src n total =
    let p = add64 off total in
    let c = chunk p (n - total) in
    if not (ltb total n)
    then some (record { total = total; no_space = false; inode = si; system = s })
    else (do
      ((at, si'), s1) ← map_alloc sb s si (p / bsize % 2 ^ 32)
      elim at [
        | past ↦ some (record { total = total; no_space = false; inode = si'; system = s1 })
        | full ↦ some (record { total = total; no_space = true; inode = si'; system = s1 })
        | found b ↦ (do
          (u, s2) ← visit s1 b (λ x. (b, some (splice x (p % bsize) (take c (drop total src)))))
          write_from f sb s2 si' off src n (total + c))
      ])

-- The size and the time after the loop; `now` is the clock's time in seconds.
abbrev pub grown : Inode → ℕ → Inode
grown si end =
    if ltb si.d.size end
    then record si {
      dirty = true;
      d = record si.d { size = end % 2 ^ 32 };
      vnode = record si.vnode { size = end % 2 ^ 32 };
    }
    else si

abbrev pub touched : Inode → ℕ → ℕ → Inode
touched si total now =
    if ltb 0 total
    then record si {
      dirty = true;
      d = record si.d { mtime = now };
      vnode = record si.vnode { mtime = now };
    }
    else si

-- The end of `sbfs_writei`.
pub finish_write : Superblock → ℕ → ℕ → Written → Option ((ℤ × Inode) × System)
finish_write sb now off w =
    let si = touched (grown w.inode (add64 off w.total)) w.total now in
    let result = if w.total == 0 && w.no_space then minus enospc else pos w.total in
    if si.dirty
    then (do (si', s) ← iupdate sb w.system si; some ((result, si'), s))
    else some ((result, si), w.system)

pub writei : Superblock → ℕ → System → Inode → ℕ → List ℕ → Option ((ℤ × Inode) × System)
unfolding write_from finish_write
writei sb now s si off src = do
  (si', s1) ← ilock sb s si
  let n = length src
  let m = if ltb sbfs_max_file_size (add64 off n) then sbfs_max_file_size - off else n
  if ltb sbfs_max_file_size off
      then some ((minus efbig, si'), s1)
      else if n == 0
      then some ((pos 0, si'), s1)
      else (do w ← write_from m sb s1 si' off src m 0; finish_write sb now off w)
