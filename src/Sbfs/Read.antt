-- ===== src/Sbfs/Read.antt =====
-- `sbfs_readi`: the way from a position in a file to its block, and the loop over the blocks.
pub mod Walk
pub mod Bytewise
pub mod Whole
use sbunix.Base.{
  ℕ, zero, suc, ◌+◌, ◌-◌, ◌/◌, ◌%◌, ◌^◌, Option, none, some, List, [], ◌∷◌, ◌++◌, ◌==◌, ltb, leb,
  not, min, if◌then◌else◌, add64, ◌>>=◌,
}
use sbunix.Bio.{Block}
use sbunix.Log.{System}
use sbunix.Sbfs.{Superblock, visit}
use sbunix.Sbfs.Bytes.{get_byte}
use sbunix.Sbfs.Inode.{Dinode, Inode, ilock}

abbrev pub bsize : ℕ
bsize = 512

abbrev pub ndir : ℕ
ndir = 7

abbrev pub nindir : ℕ
nindir = 2

abbrev pub nblk_per_indir : ℕ
nblk_per_indir = 128

-- Where the double-indirect range begins.
abbrev pub single_end : ℕ
single_end = 263

-- A read of one address of an indirect block.
abbrev pub read_address : System → ℕ → ℕ → Option (ℕ × System)
read_address s b i = visit s b (λ d. (d i, none))

-- The block of the file's block `bn`, or 0 where the code breaks the loop.
pub map_block : System → Dinode → ℕ → Option (ℕ × System)
map_block s d bn =
    if ltb bn ndir
    then some (d.addrs bn, s)
    else if ltb bn single_end
    then (let rel = bn - ndir in
        let indir = d.addrs (ndir + rel / nblk_per_indir) in
        if indir == 0 then some (0, s) else read_address s indir (rel % nblk_per_indir))
    else (let drel = bn - single_end in
        let oi = drel / nblk_per_indir in
        let outer = d.addrs (ndir + nindir) in
        if leb nblk_per_indir oi then some (0, s) else if outer == 0 then some (0, s) else (do
          (inner, s') ← read_address s outer oi
          if inner == 0 then some (0, s') else read_address s' inner (drel % nblk_per_indir)))

-- `memcpy` of `n` bytes of the data from the byte `k` on.
unfoldable pub slice : Block → ℕ → ℕ → List ℕ
slice d k zero = []
slice d k (suc n) = get_byte d k ∷ slice d (k + 1) n

-- The bytes that a round takes at the position `p`, with `left` still to read.
abbrev pub chunk : ℕ → ℕ → ℕ
chunk p left = if ltb left (bsize - p % bsize) then left else bsize - p % bsize

-- The loop, with `total` bytes read so far. It ends with the bytes of the rounds to come.
pub read_from : ℕ → System → Dinode → ℕ → ℕ → ℕ → Option (List ℕ × System)
unfolding map_block slice
read_from zero s d off n total = some ([], s)
read_from (suc f) s d off n total =
    let p = add64 off total in
    let c = chunk p (n - total) in
    if not (ltb total n) then some ([], s) else (do
      (b, s1) ← map_block s d (p / bsize % 2 ^ 32)
      if b == 0 then some ([], s1) else (do
        (piece, s2) ← visit s1 b (λ x. (slice x (p % bsize) c, none))
        (rest, s3) ← read_from f s2 d off n (total + c)
        some (piece ++ rest, s3)))

-- How many bytes are asked for within the size.
abbrev pub clamp : ℕ → ℕ → ℕ → ℕ
clamp size off n = if ltb size (add64 off n) then size - off else n

-- The result is the bytes put into `dst`, and their number. Each round reads a byte at least.
pub readi : Superblock → System → Inode → ℕ → ℕ → Option ((List ℕ × Inode) × System)
unfolding read_from
readi sb s si off n = do
  (si', s1) ← ilock sb s si
  if ltb si'.d.size off
      then some (([], si'), s1)
      else (let m = clamp si'.d.size off n in
          if m == 0
          then some (([], si'), s1)
          else (do (bytes, s2) ← read_from m s1 si'.d off m 0; some ((bytes, si'), s2)))
