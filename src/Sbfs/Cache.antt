-- ===== src/Sbfs/Cache.antt =====
-- The inode cache: `sbfs_iget`. `none` in place of a slot is the null pointer.
-- The pointers that it sets in a new entry are the same for all entries and are left out.
pub mod Unique
pub mod Get
use sbunix.Base.{
  ℕ, zero, suc, ◌+◌, ◌&&◌, Bool, true, false, not, Option, none, some, ◌==◌, ltb, if◌then◌else◌,
  update, add32, ◌>>=◌,
}
use sbunix.Log.{System}
use sbunix.Sbfs.{Superblock}
use sbunix.Sbfs.Inode.{Inode, ilock}

abbrev pub icache_max : ℕ
icache_max = 64

-- The array `icache`.
abbrev pub Icache : Type 0
Icache = ℕ → Inode

abbrev pub is_free : Inode → Bool
is_free si = si.vnode.refcnt == 0

abbrev pub is_live_as : ℕ → Inode → Bool
is_live_as inum si = ltb 0 si.vnode.refcnt && si.inum == inum

-- The first slot that passes, among `n` from `i` on.
pub first_slot : (Inode → Bool) → Icache → ℕ → ℕ → Option ℕ
first_slot test c zero i = none
first_slot test c (suc n) i =
    let rest = first_slot test c n (i + 1) in if test (c i) then some i else rest

abbrev pub with_refcnt : Inode → ℕ → Inode
with_refcnt si r = record si { vnode = record si.vnode { refcnt = r } }

-- The entry of a slot that is taken for `inum`.
abbrev pub fresh_inode : Inode → ℕ → Inode
fresh_inode si inum = record (with_refcnt si 1) { inum = inum; valid = false; dirty = false }

-- What `sbfs_iget` does under its lock: a hit, a slot taken, or no slot.
pub data Slot : Type 0 where
  hit taken : ℕ → Slot
  pinned_all : Slot

pub choose_slot : Icache → ℕ → Slot
unfolding first_slot
choose_slot c inum = elim (first_slot (is_live_as inum) c icache_max 0) [
  | some i ↦ Slot.hit i
  | none ↦ elim (first_slot is_free c icache_max 0) [
    | some i ↦ Slot.taken i
    | none ↦ Slot.pinned_all
  ]
]

-- The array after the choice.
pub claim_slot : Icache → ℕ → Slot → Icache
claim_slot c inum (Slot.hit i) = update c i (with_refcnt (c i) (add32 (c i).vnode.refcnt 1))
claim_slot c inum (Slot.taken i) = update c i (fresh_inode (c i) inum)
claim_slot c inum Slot.pinned_all = c

-- After the lock: a slot that was taken is read from the disk.
pub load_slot : Superblock → System → Icache → Slot → Option ((Option ℕ × Icache) × System)
load_slot sb s c (Slot.hit i) = some ((some i, c), s)
load_slot sb s c (Slot.taken i) = do (si, s') ← ilock sb s (c i); some ((some i, update c i si), s')
load_slot sb s c Slot.pinned_all = some ((none, c), s)

pub iget : Superblock → System → Icache → ℕ → Option ((Option ℕ × Icache) × System)
unfolding choose_slot claim_slot load_slot
iget sb s c inum = let at = choose_slot c inum in load_slot sb s (claim_slot c inum at) at
