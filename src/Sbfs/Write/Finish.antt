-- ===== src/Sbfs/Write/Finish.antt =====
-- The end of `sbfs_writei`: the size, the time, and the inode.
use sbunix.Base.{
  ℕ, ◌+◌, ◌/◌, ◌%◌, ◌^◌, ◌≤◌, ◌<◌, ◌≡◌, ◌≢◌, refl, sym, ap, subst, ◌∙◌, ◌⊎◌, inl, inr, ◌&&◌, true,
  false, some, arith, ◌==◌, ltb, add64, if◌then◌else◌, Bool-cases,
}
use sbunix.Base.Int.{ℤ, pos, minus}
use sbunix.Base.Errno.{enospc}
use sbunix.Bio.{Block}
use sbunix.Bio.View.{view}
use sbunix.Log.{System}
use sbunix.Log.Transaction.{Open}
use sbunix.Sbfs.{Superblock}
use sbunix.Sbfs.Bytes.{get_byte}
use sbunix.Sbfs.Visit.{Room}
use sbunix.Sbfs.Bitmap.{is_used}
use sbunix.Sbfs.Bitmap.Alloc.{Laid}
use sbunix.Sbfs.Inode.{Inode, Dinode, inode_block, iupdate, synced}
use sbunix.Sbfs.Inode.Table.{iupdate-Stored}
use sbunix.Sbfs.Write.{Written, grown, touched, finish_write}
use sbunix.Sbfs.Write.Contents.{Direct, content}

-- The larger of the old size and the end of what was written.
abbrev pub size_after : ℕ → ℕ → ℕ
size_after size end = if ltb size end then end else size

-- The copy before it goes to the log.
abbrev updated : Inode → ℕ → ℕ → ℕ → Inode
updated si end total now = touched (grown si end) total now

module _ (si : Inode) (end total now : ℕ) where
  updated_addrs : (updated si end total now).d.addrs ≡ si.d.addrs
  updated_addrs = ground arith

  updated_kind : (updated si end total now).d.kind ≡ si.d.kind
  updated_kind = ground arith

  updated_inum : (updated si end total now).inum ≡ si.inum
  updated_inum = ground arith

  updated_size :
      si.vnode.size ≡ si.d.size
      → si.d.size < 2 ^ 32
      → end < 2 ^ 32
      → ((updated si end total now).d.size ≡ size_after si.d.size end)
        × ((updated si end total now).vnode.size ≡ size_after si.d.size end)
  updated_size e h h' = (ground (arith, e, h, h'), ground (arith, e, h, h'))

-- A change of blocks that are no data blocks leaves the contents.
pub content-kept :
    (sb : Superblock) (v w : ℕ → Block) (d : Dinode) (b : ℕ)
    → Direct sb v d
    → b < sb.bmapstart
    → ((x : ℕ) → x ≢ b → w x ≡ v x)
    → ((p : ℕ) → p / 512 < 7 → content w d p ≡ content v d p) × Direct sb w d
unfolding content
content-kept sb v w d b h low same = (
  contents,
  record {
    own = λ i hi. elim (h.own i hi) [
      | inl z ↦ inl z
      | inr (k, lt, e, u) ↦
          inr (k, lt, e, ap (λ x. is_used x k) (same sb.bmapstart (omega (arith, low))) ∙ u)
    ];
    apart = h.apart;
  },
)
  where
    contents :
        (p : ℕ)
        → p / 512 < 7
        → (if d.addrs (p / 512) == 0 then 0 else get_byte (w (d.addrs (p / 512))) (p % 512))
          ≡ (if d.addrs (p / 512) == 0 then 0 else get_byte (v (d.addrs (p / 512))) (p % 512))
    contents p hp = elim (h.own (p / 512) hp) [
      | inl z ↦ let e : (d.addrs (p / 512) == 0) ≡ true = ground (arith, z) in rw e
      | inr (k, lt, e, u) ↦
          let q : w (d.addrs (p / 512)) ≡ v (d.addrs (p / 512)) =
            same (d.addrs (p / 512)) (omega (arith, e, low)) in
          rw q
    ]

-- The file after `finish_write`.
pub record Finished (sb : Superblock) (off : ℕ) (w : Written) (si : Inode) (s : System)
    : Type 0 where
  pub still_open : Open s
  pub addrs : si.d.addrs ≡ w.inode.d.addrs
  pub contents :
      (p : ℕ)
      → p / 512 < 7
      → content (view s.cache) si.d p ≡ content (view w.system.cache) w.inode.d p
  pub direct : Direct sb (view s.cache) si.d
  pub size : si.d.size ≡ size_after w.inode.d.size (off + w.total)

-- Only the addresses count.
content-addrs :
    (v : ℕ → Block) (d d' : Dinode) (p : ℕ) → d.addrs ≡ d'.addrs → content v d p ≡ content v d' p
unfolding content
content-addrs v d d' p e =
    ap (λ (a : ℕ → ℕ). if a (p / 512) == 0 then 0 else get_byte (v (a (p / 512))) (p % 512)) e

Direct-addrs :
    (sb : Superblock) (v : ℕ → Block) (d d' : Dinode)
    → d.addrs ≡ d'.addrs
    → Direct sb v d
    → Direct sb v d'
Direct-addrs sb v d d' e h = record {
  own = λ i hi.
      subst
        (λ (a : ℕ → ℕ).
          (a i ≡ 0)
          ⊎ ((k : ℕ) × (k < sb.nblocks)
              × (a i ≡ sb.bmapstart + 1 + k)
              × (is_used (v sb.bmapstart) k ≡ true)))
        e (h.own i hi);
  apart = λ i j hi hj. subst (λ (a : ℕ → ℕ). a i ≢ 0 → a i ≡ a j → i ≡ j) e (h.apart i j hi hj);
}

-- The result of `sbfs_writei` after the loop.
abbrev pub result_of : Written → ℤ
result_of w = if w.total == 0 && w.no_space then minus enospc else pos w.total

module _ (sb : Superblock) (now off : ℕ) (w : Written) (o : Open w.system)
    (laid : Laid sb w.system.log) (known : w.inode.inum < sb.ninodes) (room : Room 1 w.system)
    (kind : w.inode.d.kind < 2 ^ 16) (ten : (i : ℕ) → 10 ≤ i → w.inode.d.addrs i ≡ 0)
    (direct : Direct sb (view w.system.cache) w.inode.d)
    (step : w.inode.vnode.size ≡ w.inode.d.size) (width : w.inode.d.size < 2 ^ 32)
    (end_width : off + w.total < 2 ^ 32) where
  abbrev u : Inode
  u = updated w.inode (add64 off w.total) w.total now

  end_eq : add64 off w.total ≡ off + w.total
  end_eq = omega (arith, end_width)

  u_size :
      (u.d.size ≡ size_after w.inode.d.size (off + w.total))
      × (u.vnode.size ≡ size_after w.inode.d.size (off + w.total))
  u_size =
      subst
        (λ e.
          ((updated w.inode e w.total now).d.size ≡ size_after w.inode.d.size (off + w.total))
          × ((updated w.inode e w.total now).vnode.size
              ≡ size_after w.inode.d.size (off + w.total)))
        (sym end_eq) (updated_size w.inode (off + w.total) w.total now step width end_width)

  u_addrs : u.d.addrs ≡ w.inode.d.addrs
  u_addrs = updated_addrs w.inode (add64 off w.total) w.total now

  stored :
      (s' : System)
      → u.dirty ≡ true
      → iupdate sb w.system u ≡ some (record u { d = synced u; dirty = false }, s')
      → Open s'
      → ((b : ℕ) → b ≢ inode_block sb u.inum → view s'.cache b ≡ view w.system.cache b)
      → (si : Inode) × ((s : System) × (finish_write sb now off w ≡ some ((result_of w, si), s))
          × Finished sb off w si s)
  unfolding finish_write
  stored s' t e o' others =
      let low : inode_block sb u.inum < sb.bmapstart = omega (
        arith,
        known,
        laid.inodes_next,
        laid.numbers,
        updated_inum w.inode (add64 off w.total) w.total now,
      ) in
      let (c, h) =
        content-kept sb (view w.system.cache) (view s'.cache) w.inode.d (inode_block sb u.inum)
          direct low others in
      (
        record u { d = synced u; dirty = false },
        (
          s',
          rw (t, e) refl,
          record {
            still_open = o';
            addrs = u_addrs;
            contents =
                λ p hp. content-addrs (view s'.cache) (synced u) w.inode.d p u_addrs ∙ c p hp;
            direct = Direct-addrs sb (view s'.cache) w.inode.d (synced u) (sym u_addrs) h;
            size =
                let m : size_after w.inode.d.size (off + w.total) < 2 ^ 32 =
                  ground (arith, width, end_width) in
                omega (arith, u_size.1, m);
          },
        ),
      )

  left :
      u.dirty ≡ false
      → (si : Inode) × ((s : System) × (finish_write sb now off w ≡ some ((result_of w, si), s))
          × Finished sb off w si s)
  unfolding finish_write
  left f = (
    u,
    (
      w.system,
      rw f refl,
      record {
        still_open = o;
        addrs = u_addrs;
        contents = λ p hp. content-addrs (view w.system.cache) u.d w.inode.d p u_addrs;
        direct = Direct-addrs sb (view w.system.cache) w.inode.d u.d (sym u_addrs) direct;
        size = u_size.0;
      },
    ),
  )

  pub finish_write-Finished :
      (si : Inode) × ((s : System) × (finish_write sb now off w ≡ some ((result_of w, si), s))
        × Finished sb off w si s)
  finish_write-Finished = elim (Bool-cases u.dirty) [
    | inr f ↦ left f
    | inl t ↦
        let (s', e, o', _, _, r) =
          iupdate-Stored sb w.system u o laid
            (subst (λ n. n < sb.ninodes)
              (sym (updated_inum w.inode (add64 off w.total) w.total now)) known)
            room
            (subst (λ n. n < 2 ^ 16) (sym (updated_kind w.inode (add64 off w.total) w.total now))
              kind)
            (λ i h. ap (λ f. f i) u_addrs ∙ ten i h) in
        stored s' t e o' r.2
  ]
