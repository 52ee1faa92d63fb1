-- ===== src/Sbfs/Tests.antt =====
-- kernel/fs/sbfs.c at concrete inputs.
use sbunix.Base.{
  List, Option, ℕ, ◌+◌, ◌≤◌, ◌<◌, ◌≡◌, ◌≢◌, refl, ◌⊎◌, inl, inr, arith, true, false, ◌==◌,
  if◌then◌else◌, none, some, [], ◌∷◌, update, Bool-cases,
}
use sbunix.Bio.{Block, Cache, find_first}
use sbunix.Bio.View.{view}
use sbunix.Log.{Log, System}
use sbunix.Log.Transaction.{Open}
use sbunix.Sbfs.{Superblock, visit}
use sbunix.Sbfs.Bits.{has_bit}
use sbunix.Sbfs.Bytes.{get_byte, byte_of}
use sbunix.Sbfs.Visit.{Room, Visited, visit-Visited}
use sbunix.Sbfs.Quiet.{Quiet}
use sbunix.Sbfs.Bitmap.{is_used, balloc, bfree}
use sbunix.Sbfs.Bitmap.Alloc.{Laid, Allocated, balloc-Allocated}
use sbunix.Sbfs.Bitmap.Free.{bfree-balloc}
use sbunix.Sbfs.Inode.{Dinode, Inode, VnodeType, ilock, iupdate, synced}
use sbunix.Sbfs.Inode.Table.{disk_inode, locked_copy, Replaced, ilock-Loaded, iupdate-Stored}
use sbunix.Sbfs.Read.{readi}
use sbunix.Sbfs.Read.Walk.{Mapped, address}
use sbunix.Sbfs.Read.Bytewise.{bytes_from}
use sbunix.Sbfs.Cache.{Icache, iget}
use sbunix.Sbfs.Cache.Unique.{Unique}
use sbunix.Sbfs.Cache.Get.{Gotten, iget-Unique}
use sbunix.Sbfs.Dir.{dirlookup}
use sbunix.Sbfs.Dir.Lookup.{Answer, dirlookup-Answer}
use sbunix.Sbfs.Read.Whole.{within, readi-bytes}
use sbunix.Base.Int.{ℤ}
use sbunix.Sbfs.Write.{writei}
use sbunix.Sbfs.Write.Contents.{Direct}
use sbunix.Sbfs.Write.OneBlock.{IsFile}
use sbunix.Sbfs.Write.Whole.{Ended, writei-Ended}

-- An image of 64 inodes and 100 data blocks, with the log in the blocks 2 to 17.
abbrev image : Superblock
image = record { nblocks = 100; ninodes = 64; inodestart = 18; bmapstart = 26 }

-- Eight empty buffers. The bitmap has its first five blocks in use, and the block 30 has text.
abbrev eight : Cache
eight = record {
  order = 0 ∷ 1 ∷ 2 ∷ 3 ∷ 4 ∷ 5 ∷ 6 ∷ 7 ∷ [];
  slot = λ i. record { valid = false; dirty = false; refcnt = 0; blockno = 0; block = λ j. 0 };
  disk = λ b j. if b == 30 then 1684234849 else if b == 26 then (if j == 0 then 31 else 0) else 0;
  trace = [];
}

abbrev empty_log : Log
empty_log = record {
  start = 2;
  size = 16;
  disk_size = 127;
  outstanding = true;
  nblocks = 0;
  blocks = λ i. 0;
  bufs = λ i. none;
  saved_sie = true;
}

abbrev begun : System
begun = record { log = empty_log; cache = eight; sie = false }

begun-Open : Open begun
begun-Open = record {
  outstanding = refl;
  ready = record {
    cached = record {
      nodup = (refl, (refl, (refl, (refl, (refl, (refl, (refl, (refl, tt))))))));
      unique = λ i j hi hj vi vj e. cc;
      coherent = λ i h v d. cc;
    };
    small = λ j. omega arith;
    room = omega arith;
    bounded = omega arith;
    clean = λ k h t. cc;
  };
  pending = record { fits = omega arith; few = omega arith; pinned = λ i h. absurd (omega arith) };
}

image-Laid : Laid image empty_log
image-Laid = record {
  log_first = omega arith;
  inodes_next = omega arith;
  one_bitmap = omega arith;
  numbers = omega arith;
}

begun-Room : (n : ℕ) → n ≤ 6 → Room n begun
begun-Room n h = record { entries = omega arith; blocks = omega arith; buffers = omega arith }

-- A file of 600 bytes with one block.
abbrev of_kind : ℕ → Dinode
of_kind k = record {
  kind = k;
  nlink = 1;
  size = 600;
  mtime = 5;
  mode = 33188;
  uid = 0;
  gid = 0;
  addrs = λ i. if i == 0 then 30 else 0;
}

abbrev file_inode : Dinode
file_inode = of_kind 1

abbrev file_copy : Inode
file_copy = record {
  vnode = record {
    kind = VnodeType.reg;
    size = 600;
    nlink = 1;
    mtime = 9;
    mode = 33188;
    uid = 0;
    gid = 0;
    refcnt = 1;
  };
  inum = 3;
  valid = true;
  dirty = true;
  d = file_inode;
}

abbrev cold_copy : Inode
cold_copy = record file_copy { valid = false; inum = 5 }

one_block : (v : ℕ → Block) (k bn : ℕ) → address v (of_kind k) bn ≡ (if bn == 0 then 30 else 0)
unfolding address
one_block v k bn = ground arith

kind-Mapped : (k : ℕ) → Mapped empty_log (view eight) (of_kind k)
unfolding find_first
kind-Mapped k = record {
  slots = λ i h. ground arith;
  inner = λ i h. inl refl;
  blocks = λ bn. rw (one_block (view eight) k bn) (ground arith);
}

visit-Visited_example :
    (a' : System) × (visit begun 40 (λ d. (d 0, some (λ j. 7))) ≡ some (0, a'))
    × Visited begun 40 (some (λ j. 7)) a'
unfolding find_first
visit-Visited_example =
    visit-Visited begun 40 (λ d. (d 0, some (λ j. 7))) begun-Open (inr (omega arith))
      (begun-Room 1 (omega arith))

balloc-Allocated_example :
    (r : ℕ) × ((s' : System) × (balloc image begun ≡ some (r, s'))
      × Open s'
      × Laid image s'.log
      × ((n : ℕ) → Room (2 + n) begun → Room n s')
      × Allocated image begun r s')
balloc-Allocated_example =
    balloc-Allocated image begun begun-Open image-Laid (begun-Room 2 (omega arith))

bfree-balloc_example :
    (r : ℕ) × ((s' : System) × (balloc image begun ≡ some (r, s'))
      × (((j : ℕ) → j < 100 → is_used (view eight 26) j ≡ true)
          ⊎ ((r ≢ 0)
              × ((s'' : System) × (bfree image s' r ≡ some s'')
                  × Open s''
                  × (view s''.cache ≡ update (view eight) r (λ j. 0))))))
bfree-balloc_example = bfree-balloc image begun begun-Open image-Laid (begun-Room 3 (omega arith))

ilock-Loaded_example :
    (s' : System) × (ilock image begun cold_copy
      ≡ some (locked_copy image (view eight) cold_copy, s'))
    × Quiet begun s'
ilock-Loaded_example = ilock-Loaded image begun cold_copy begun-Open image-Laid (omega arith)

iupdate-Stored_example :
    (s' : System) × (iupdate image begun file_copy
      ≡ some (record file_copy { d = synced file_copy; dirty = false }, s'))
    × Open s'
    × Laid image s'.log
    × ((n : ℕ) → Room (1 + n) begun → Room n s')
    × Replaced image (view eight) 3 (synced file_copy) (view s'.cache)
iupdate-Stored_example =
    iupdate-Stored image begun file_copy begun-Open image-Laid (omega arith)
      (begun-Room 1 (omega arith)) (omega arith) (λ i h. ground arith)

readi-bytes_example :
    (s' : System) × (readi image begun file_copy 1 2
      ≡ some ((bytes_from (view eight) file_inode (within 600 1 2) 1, file_copy), s'))
    × Quiet begun s'
readi-bytes_example =
    readi-bytes image begun file_copy 1 2 begun-Open image-Laid (omega arith) (omega arith)
      (omega arith) (kind-Mapped 1)

file-Direct : Direct image (view eight) file_inode
unfolding find_first is_used has_bit get_byte byte_of
file-Direct = record {
  own = λ i h. elim (Bool-cases (i == 0)) [
    | inl e ↦ inr (3, omega arith, rw e refl, refl)
    | inr e ↦ inl (rw e)
  ];
  apart = λ i j hi hj n e. ground (arith, n, e);
}

copy-IsFile : IsFile image begun file_copy
copy-IsFile = record {
  known = omega arith;
  valid = refl;
  kind = omega arith;
  ten = λ i h. ground arith;
  direct = file-Direct;
  step = refl;
  width = omega arith;
}

-- Two bytes into the empty second block.
writei-Ended_example :
    (result : ℤ) × ((si' : Inode) × ((s' : System) × (writei image 77 begun file_copy 600
            (65 ∷ 66 ∷ [])
          ≡ some ((result, si'), s'))
        × Open s'
        × Direct image (view s'.cache) si'.d
        × Ended image begun file_copy 600 (65 ∷ 66 ∷ []) result si' s'))
writei-Ended_example =
    writei-Ended image 77 begun file_copy 600 65 (66 ∷ []) begun-Open image-Laid
      (begun-Room 4 (omega arith)) copy-IsFile (omega arith) (omega arith)
      (omega arith, (omega arith, tt))

-- The same block as a directory.
abbrev dir_copy : Inode
dir_copy = record file_copy { d = of_kind 2 }

-- The name in the first 16 bytes of the block 30.
abbrev sought : List ℕ
sought = 99 ∷ 100 ∷ 97 ∷ 98 ∷ 99 ∷ 100 ∷ 97 ∷ 98 ∷ 99 ∷ 100 ∷ 97 ∷ 98 ∷ 99 ∷ 100 ∷ []

dirlookup-Answer_example :
    (k : ℕ) × ((s' : System) × (dirlookup image begun dir_copy sought ≡ some ((k, dir_copy), s'))
      × Quiet begun s'
      × Answer (view eight) (of_kind 2) sought k)
dirlookup-Answer_example =
    dirlookup-Answer image begun dir_copy sought begun-Open image-Laid (omega arith) refl refl
      (omega arith) (kind-Mapped 2)

-- The slot 0 is live as the inode 3, and the others are free.
abbrev one_live : Icache
one_live =
    λ i. record file_copy { vnode = record file_copy.vnode { refcnt = if i == 0 then 1 else 0 } }

one_live-Unique : Unique one_live
one_live-Unique = λ i j hi hj li lj e. ground (arith, li, lj)

iget-Unique_example :
    (r : Option ℕ) × ((c' : Icache) × ((s' : System) × (iget image begun one_live 5
          ≡ some ((r, c'), s'))
        × Quiet begun s'
        × Unique c'
        × Gotten one_live 5 (disk_inode image (view eight) 5) r c'))
iget-Unique_example =
    iget-Unique image begun one_live 5 begun-Open image-Laid (omega arith) one_live-Unique
      (λ i. ground arith)
