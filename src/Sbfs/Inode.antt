-- ===== src/Sbfs/Inode.antt =====
-- The inodes on disk and their copies in memory: `sbfs_ilock` and `sbfs_iupdate`.
pub mod Sync
pub mod Table
use sbunix.Base.{
  ℕ, zero, suc, ◌+◌, ◌-◌, ◌*◌, ◌/◌, ◌%◌, ◌^◌, ◌≤◌, ◌<◌, ◌≡◌, ◌≢◌, refl, ◌&&◌, Bool, true, false,
  not, Option, none, some, arith, ◌==◌, ltb, leb, if◌then◌else◌, add32, ◌>>=◌, fun_ext,
}
use sbunix.Bio.{Block}
use sbunix.Log.{System}
use sbunix.Sbfs.{Superblock, visit}

-- `struct sb_dinode`, 64 bytes. `addrs` has 10 entries.
pub record Dinode : Type 0 where
  pub kind : ℕ
  pub nlink : ℕ
  pub size : ℕ
  pub mtime : ℕ
  pub mode : ℕ
  pub uid : ℕ
  pub gid : ℕ
  pub addrs : ℕ → ℕ

-- `I_REG`, `I_DIR`, `I_LNK` and 0 of `vnode.type`.
pub data VnodeType : Type 0 where
  no_type reg dir lnk : VnodeType

-- The fields of the generic `struct inode` that sbfs keeps in step.
pub record Vnode : Type 0 where
  pub kind : VnodeType
  pub size : ℕ
  pub nlink : ℕ
  pub mtime : ℕ
  pub mode : ℕ
  pub uid : ℕ
  pub gid : ℕ
  pub refcnt : ℕ

-- `struct sbfs_inode`.
pub record Inode : Type 0 where
  pub vnode : Vnode
  pub inum : ℕ
  pub valid : Bool
  pub dirty : Bool
  pub d : Dinode

-- The word `k` of a dinode in memory; from the word 6 on they are `addrs`.
unfoldable pub word : Dinode → ℕ → ℕ
word x zero = x.kind + x.nlink * 2 ^ 16
word x (suc zero) = x.size
word x (suc (suc zero)) = x.mtime % 2 ^ 32
word x (suc (suc (suc zero))) = x.mtime / 2 ^ 32
word x (suc (suc (suc (suc zero)))) = x.mode
word x (suc (suc (suc (suc (suc zero))))) = x.uid + x.gid * 2 ^ 16
word x (suc (suc (suc (suc (suc (suc i)))))) = x.addrs i

-- `memcpy` of a dinode from and to the block, at the word `off`.
unfoldable pub get_dinode : Block → ℕ → Dinode
get_dinode b off = record {
  kind = b off % 2 ^ 16;
  nlink = b off / 2 ^ 16 % 2 ^ 16;
  size = b (off + 1);
  mtime = b (off + 2) + b (off + 3) * 2 ^ 32;
  mode = b (off + 4);
  uid = b (off + 5) % 2 ^ 16;
  gid = b (off + 5) / 2 ^ 16 % 2 ^ 16;
  addrs = λ i. if ltb i 10 then b (off + 6 + i) else 0;
}

unfoldable pub put_dinode : Block → ℕ → Dinode → Block
unfolding word
put_dinode b off x j = if leb off j && ltb j (off + 16) then word x (j - off) else b j

abbrev pub inode_block : Superblock → ℕ → ℕ
inode_block sb inum = add32 sb.inodestart (inum / 8)

-- The offset in words.
abbrev pub inode_offset : ℕ → ℕ
inode_offset inum = inum % 8 * 16

abbrev pub vnode_type : ℕ → VnodeType
vnode_type k =
    if k == 1
    then VnodeType.reg
    else if k == 2
    then VnodeType.dir
    else if k == 3
    then VnodeType.lnk
    else VnodeType.no_type

abbrev pub with_dinode : Inode → Dinode → Inode
with_dinode si d = record si {
  d = d;
  valid = true;
  vnode = record si.vnode {
    kind = vnode_type d.kind;
    size = d.size;
    nlink = d.nlink;
    mtime = d.mtime;
    mode = d.mode;
    uid = d.uid;
    gid = d.gid;
  };
}

pub ilock : Superblock → System → Inode → Option (Inode × System)
unfolding get_dinode
ilock sb s si = if si.valid then some (si, s) else (do
  (d, s') ← visit s (inode_block sb si.inum) (λ b. (get_dinode b (inode_offset si.inum), none))
  some (with_dinode si d, s'))

-- The dinode as `sbfs_iupdate` brings it in step with the generic inode.
abbrev pub synced : Inode → Dinode
synced si = record si.d {
  size = si.vnode.size % 2 ^ 32;
  nlink = si.vnode.nlink % 2 ^ 16;
  mtime = si.vnode.mtime;
  mode = si.vnode.mode;
  uid = si.vnode.uid % 2 ^ 16;
  gid = si.vnode.gid % 2 ^ 16;
}

pub iupdate : Superblock → System → Inode → Option (Inode × System)
unfolding put_dinode
iupdate sb s si =
    let d = synced si in
    (do
      (u, s') ←
          visit s (inode_block sb si.inum)
            (λ b. (si.inum, some (put_dinode b (inode_offset si.inum) d)))
      some (record si { d = d; dirty = false }, s'))

-- The fields have their C widths; `addrs` has nothing behind its end.
pub record IsDinode (x : Dinode) : Type 0 where
  pub kind_width : x.kind < 2 ^ 16
  pub nlink_width : x.nlink < 2 ^ 16
  pub uid_width : x.uid < 2 ^ 16
  pub gid_width : x.gid < 2 ^ 16
  pub ten : (i : ℕ) → 10 ≤ i → x.addrs i ≡ 0
