-- ===== src/Sbfs/Inode/Table.antt =====
-- `sbfs_ilock` and `sbfs_iupdate` against the table of inodes on disk.
use sbunix.Base.{
  ℕ, ◌+◌, ◌/◌, ◌^◌, ◌≤◌, ◌<◌, ◌≡◌, ◌≢◌, refl, sym, ap, ◌∙◌, ◌⊎◌, inl, inr, true, false, some, none,
  arith, ◌==◌, update, update_self, update_ne, if◌then◌else◌, Bool-cases, eq_of_==,
}
use sbunix.Bio.{Block}
use sbunix.Bio.View.{view}
use sbunix.Log.{System}
use sbunix.Log.Write.{Outside}
use sbunix.Log.Transaction.{Open}
use sbunix.Sbfs.{Superblock, visit}
use sbunix.Sbfs.Visit.{Room, Visited, visit-at}
use sbunix.Sbfs.Quiet.{Quiet, Quiet-refl, look-Quiet}
use sbunix.Sbfs.Bitmap.Alloc.{Laid}
use sbunix.Sbfs.Inode.{
  Dinode, Inode, IsDinode, get_dinode, put_dinode, inode_block, inode_offset, with_dinode, synced,
  ilock, iupdate,
}
use sbunix.Sbfs.Inode.Sync.{get_dinode-put_dinode, get_dinode-put_other}

-- The inode `inum` of an image.
abbrev pub disk_inode : Superblock → (ℕ → Block) → ℕ → Dinode
disk_inode sb v inum = get_dinode (v (inode_block sb inum)) (inode_offset inum)

-- The copy of an inode after `sbfs_ilock`.
abbrev pub locked_copy : Superblock → (ℕ → Block) → Inode → Inode
locked_copy sb v si = if si.valid then si else with_dinode si (disk_inode sb v si.inum)

-- The image `w` has `x` in place of the inode `inum` of the image `v`, and is else the same.
abbrev pub Replaced : Superblock → (ℕ → Block) → ℕ → Dinode → (ℕ → Block) → Type 0
Replaced sb v inum x w =
    (disk_inode sb w inum ≡ x)
    × ((m : ℕ) → m < sb.ninodes → m ≢ inum → disk_inode sb w m ≡ disk_inode sb v m)
    × ((b : ℕ) → b ≢ inode_block sb inum → w b ≡ v b)

pub ilock-valid :
    (sb : Superblock) (s : System) (si : Inode) → si.valid ≡ true → ilock sb s si ≡ some (si, s)
unfolding ilock
ilock-valid sb s si t = rw t refl

module _ (sb : Superblock) (s : System) (si : Inode) (o : Open s) (laid : Laid sb s.log)
    (known : si.inum < sb.ninodes) where
  block_number : inode_block sb si.inum ≡ sb.inodestart + si.inum / 8
  block_number = omega (arith, known, laid.inodes_next, laid.numbers)

  outside_log : Outside s.log (inode_block sb si.inum)
  outside_log = omega (arith, laid.log_first, block_number)

  -- Inside a transaction, on an image in the right order, `sbfs_ilock` of a known inode does not
  -- panic. It leaves a valid copy as it is; otherwise the copy becomes valid and takes the inode of
  -- the image, in the generic fields too. The image does not change.
  pub ilock-Loaded :
      (s' : System) × (ilock sb s si ≡ some (locked_copy sb (view s.cache) si, s')) × Quiet s s'
  unfolding ilock
  ilock-Loaded = elim (Bool-cases si.valid) [
    | inl t ↦ (s, simp t refl, Quiet-refl o)
    | inr f ↦
        let (s', e, q) =
          look-Quiet s (inode_block sb si.inum) (λ b. get_dinode b (inode_offset si.inum)) o
            outside_log in
        load s' f e q
  ]
    where
      load :
          (s' : System)
          → si.valid ≡ false
          → visit s (inode_block sb si.inum) (λ b. (get_dinode b (inode_offset si.inum), none))
            ≡ some (disk_inode sb (view s.cache) si.inum, s')
          → Quiet s s'
          → (s' : System) × (ilock sb s si ≡ some (locked_copy sb (view s.cache) si, s'))
            × Quiet s s'
      load s' f e q = (s', rw (f, e) refl, q)

  synced-IsDinode :
      si.d.kind < 2 ^ 16 → ((i : ℕ) → 10 ≤ i → si.d.addrs i ≡ 0) → IsDinode (synced si)
  synced-IsDinode k a = record {
    kind_width = k;
    nlink_width = omega arith;
    uid_width = omega arith;
    gid_width = omega arith;
    ten = a;
  }

  stored_image :
      (x : Dinode)
      → IsDinode x
      → (w : ℕ → Block)
      → w
        ≡ update
            (view s.cache)
            (inode_block sb si.inum)
            (put_dinode (view s.cache (inode_block sb si.inum)) (inode_offset si.inum) x)
      → Replaced sb (view s.cache) si.inum x w
  stored_image x k w e = (
    ap (λ d. get_dinode d (inode_offset si.inum)) at
        ∙ get_dinode-put_dinode (v (inode_block sb si.inum)) (inode_offset si.inum) x k,
    λ m hm ne. elim (Bool-cases (inode_block sb m == inode_block sb si.inum)) [
      | inl q ↦
          let p : inode_block sb m ≡ inode_block sb si.inum = eq_of_== _ _ q in
          let n : inode_block sb m ≡ sb.inodestart + m / 8 =
            omega (arith, hm, laid.inodes_next, laid.numbers) in
          let apart : (inode_offset m + 16 ≤ inode_offset si.inum)
              ⊎ (inode_offset si.inum + 16 ≤ inode_offset m) =
            omega (arith, p, n, block_number, ne) in
          ap (λ d. get_dinode d (inode_offset m)) (ap w p ∙ at)
          ∙ get_dinode-put_other (v (inode_block sb si.inum)) (inode_offset si.inum)
              (inode_offset m) x apart
          ∙ ap (λ k. get_dinode (v k) (inode_offset m)) (sym p)
      | inr q ↦ ap (λ d. get_dinode d (inode_offset m)) (off (inode_block sb m) (ground (arith, q)))
    ],
    off,
  )
    where
      v : ℕ → Block
      v = view s.cache

      at :
          w (inode_block sb si.inum)
          ≡ put_dinode (v (inode_block sb si.inum)) (inode_offset si.inum) x
      at = ap (λ f. f (inode_block sb si.inum)) e ∙ update_self v (inode_block sb si.inum) _

      off : (b : ℕ) → b ≢ inode_block sb si.inum → w b ≡ v b
      off b ne = ap (λ f. f b) e ∙ update_ne v (inode_block sb si.inum) b _ ne

  -- Inside a transaction with room for a block more, on an image in the right order, `sbfs_iupdate`
  -- of a known inode, whose type fits 16 bits and whose addresses are ten, does not panic. The
  -- inode of the image becomes the copy with the generic fields cut to their width, every other
  -- inode of the image and every other block stay as they are, and the copy is clean.
  pub iupdate-Stored :
      Room 1 s
      → si.d.kind < 2 ^ 16
      → ((i : ℕ) → 10 ≤ i → si.d.addrs i ≡ 0)
      → (s' : System) × (iupdate sb s si ≡ some (record si { d = synced si; dirty = false }, s'))
        × Open s'
        × Laid sb s'.log
        × ((n : ℕ) → Room (1 + n) s → Room n s')
        × Replaced sb (view s.cache) si.inum (synced si) (view s'.cache)
  unfolding iupdate
  iupdate-Stored room k a =
      let (s', e, v) =
        visit-at s (inode_block sb si.inum)
          (λ b. (si.inum, some (put_dinode b (inode_offset si.inum) (synced si)))) si.inum
          (some
            (put_dinode (view s.cache (inode_block sb si.inum)) (inode_offset si.inum) (synced si)))
          refl o outside_log room in
      done s' e v (stored_image (synced si) (synced-IsDinode k a) (view s'.cache) v.seen)
    where
      done :
          (s' : System)
          → visit s
              (inode_block sb si.inum)
              (λ b. (si.inum, some (put_dinode b (inode_offset si.inum) (synced si))))
            ≡ some (si.inum, s')
          → Visited s
              (inode_block sb si.inum)
              (some (
                put_dinode
                  (view s.cache (inode_block sb si.inum))
                  (inode_offset si.inum)
                  (synced si)))
              s'
          → Replaced sb (view s.cache) si.inum (synced si) (view s'.cache)
          → (s' : System) × (iupdate sb s si
              ≡ some (record si { d = synced si; dirty = false }, s'))
            × Open s'
            × Laid sb s'.log
            × ((n : ℕ) → Room (1 + n) s → Room n s')
            × Replaced sb (view s.cache) si.inum (synced si) (view s'.cache)
      done s' e v h = (
        s',
        rw e refl,
        v.still_open,
        record {
          log_first = omega (arith, laid.log_first, v.start, v.size);
          inodes_next = laid.inodes_next;
          one_bitmap = laid.one_bitmap;
          numbers = laid.numbers;
        },
        v.room,
        h,
      )
