-- ===== src/Sbfs/Write/Filled.antt =====
-- `ensure_slot` on a direct slot.
use sbunix.Base.{
  ℕ, ◌+◌, ◌/◌, ◌<◌, ◌≡◌, ◌≢◌, refl, sym, ap, subst, ◌∙◌, ◌⊎◌, inl, inr, true, false, some, arith,
  ◌==◌, update, update_self, update_ne, Bool-cases,
}
use sbunix.Bio.{Block}
use sbunix.Bio.View.{view}
use sbunix.Log.{System}
use sbunix.Log.Transaction.{Open}
use sbunix.Sbfs.{Superblock}
use sbunix.Sbfs.Visit.{Room}
use sbunix.Sbfs.Bitmap.{is_used, mark, balloc}
use sbunix.Sbfs.Bitmap.Alloc.{Laid, Allocated, balloc-Allocated}
use sbunix.Sbfs.Inode.{Inode}
use sbunix.Sbfs.Write.{ensure_slot, set_addr}
use sbunix.Sbfs.Write.Contents.{Direct, content}
use sbunix.Sbfs.Write.Slot.{image_after, dinode_after, fill-Direct, content-fill}

-- The copy differs in the slot `i` only, and perhaps in `dirty`.
pub record SameBut (i : ℕ) (a b : Inode) : Type 0 where
  pub vnode : b.vnode ≡ a.vnode
  pub inum : b.inum ≡ a.inum
  pub valid : b.valid ≡ a.valid
  pub kind : b.d.kind ≡ a.d.kind
  pub size : b.d.size ≡ a.d.size
  pub others : (j : ℕ) → j ≢ i → b.d.addrs j ≡ a.d.addrs j

pub record Filled (sb : Superblock) (s : System) (si : Inode) (i b : ℕ) (si' : Inode) (s' : System)
    : Type 0 where
  pub still_open : Open s'
  pub laid : Laid sb s'.log
  pub room : (n : ℕ) → Room (2 + n) s → Room n s'
  pub some_block : b ≢ 0
  pub at : si'.d.addrs i ≡ b
  pub direct : Direct sb (view s'.cache) si'.d
  pub contents :
      (p : ℕ) → p / 512 < 7 → content (view s'.cache) si'.d p ≡ content (view s.cache) si.d p
  pub same : SameBut i si si'

-- No block is free.
abbrev pub Exhausted : Superblock → (ℕ → Block) → Type 0
Exhausted sb v = (j : ℕ) → j < sb.nblocks → is_used (v sb.bmapstart) j ≡ true

abbrev pub Ensured : Superblock → System → Inode → ℕ → Type 0
Ensured sb s si i =
    ((s' : System) × (ensure_slot sb s si i ≡ some ((0, si), s'))
      × Open s'
      × Laid sb s'.log
      × ((n : ℕ) → Room (2 + n) s → Room n s')
      × Exhausted sb (view s.cache)
      × (view s'.cache ≡ view s.cache))
    ⊎ ((b : ℕ) × ((si' : Inode) × ((s' : System) × (ensure_slot sb s si i ≡ some ((b, si'), s'))
            × Filled sb s si i b si' s')))

module _ (sb : Superblock) (s : System) (si : Inode) (i : ℕ) (o : Open s) (laid : Laid sb s.log)
    (h : Direct sb (view s.cache) si.d) (small : i < 7) where
  there : (si.d.addrs i == 0) ≡ false → Ensured sb s si i
  unfolding ensure_slot
  there f = inr (
    si.d.addrs i,
    (
      si,
      (
        s,
        rw f refl,
        record {
          still_open = o;
          laid = laid;
          room = λ n r. record {
            entries = omega (arith, r.entries);
            blocks = omega (arith, r.blocks);
            buffers = omega (arith, r.buffers);
          };
          some_block = ground (arith, f);
          at = refl;
          direct = h;
          contents = λ p hp. refl;
          same = record {
            vnode = refl;
            inum = refl;
            valid = refl;
            kind = refl;
            size = refl;
            others = λ j n. refl;
          };
        },
      ),
    ),
  )

  -- The new block `r` of an empty slot.
  taken :
      (r : ℕ) (s' : System) (k : ℕ)
      → (si.d.addrs i == 0) ≡ true
      → balloc sb s ≡ some (r, s')
      → Open s'
      → Laid sb s'.log
      → ((n : ℕ) → Room (2 + n) s → Room n s')
      → k < sb.nblocks
      → r ≡ sb.bmapstart + 1 + k
      → is_used (view s.cache sb.bmapstart) k ≡ false
      → view s'.cache ≡ image_after sb (view s.cache) k
      → Ensured sb s si i
  unfolding ensure_slot
  taken r s' k z e o' laid' room lt er free ev =
      let empty : si.d.addrs i ≡ 0 = ground (arith, z) in
      let n : r ≢ 0 = omega (arith, er) in
      let n' : (r == 0) ≡ false = ground (arith, n) in
      let same : si'.d ≡ dinode_after sb si.d i k =
        ap (λ x. record si.d { addrs = update si.d.addrs i x }) er in
      inr (
        r,
        (
          si',
          (
            s',
            rw (z, e, n') refl,
            record {
              still_open = o';
              laid = laid';
              room = room;
              some_block = n;
              at = update_self si.d.addrs i r;
              direct =
                  subst (λ w. Direct sb w si'.d) (sym ev)
                    (subst (Direct sb (image_after sb (view s.cache) k)) (sym same)
                      (fill-Direct sb (view s.cache) si.d i k h small empty lt free));
              contents = λ p hp.
                  ap (λ w. content w si'.d p) ev
                  ∙ ap (λ d. content (image_after sb (view s.cache) k) d p) same
                  ∙ content-fill sb (view s.cache) si.d i k h small empty lt free p hp;
              same = record {
                vnode = refl;
                inum = refl;
                valid = refl;
                kind = refl;
                size = refl;
                others = λ j ne. update_ne si.d.addrs i j r ne;
              };
            },
          ),
        ),
      )
    where
      si' : Inode
      si' = set_addr si i r

  -- Inside a transaction with room for two blocks more, on an image in the right order, for a file
  -- whose direct blocks are data blocks in use and all different, `ensure_slot` of a direct slot
  -- does not panic. It finds the disk full and changes nothing, or the slot has a block afterwards,
  -- the contents of the file are the same, and its direct blocks are again in use and all
  -- different.
  pub ensure_slot-Ensured : Room 2 s → Ensured sb s si i
  unfolding ensure_slot
  ensure_slot-Ensured room = elim (Bool-cases (si.d.addrs i == 0)) [
    | inr f ↦ there f
    | inl z ↦
        let (r, (s', e, o', laid', more, a)) = balloc-Allocated sb s o laid room in
        go r s' z e o' laid' more a
  ]
    where
      go :
          (r : ℕ) (s' : System)
          → (si.d.addrs i == 0) ≡ true
          → balloc sb s ≡ some (r, s')
          → Open s'
          → Laid sb s'.log
          → ((n : ℕ) → Room (2 + n) s → Room n s')
          → Allocated sb s r s'
          → Ensured sb s si i
      go r s' z e o' laid' more (inl (er, full, ev)) =
          let r0 : (r == 0) ≡ true = ground (arith, er) in
          inl (s', rw (z, e, r0) refl, o', laid', more, full, ev)
      go r s' z e o' laid' more (inr (k, lt, er, free, _, ev)) =
          taken r s' k z e o' laid' more lt er free (
            ev
            ∙ ap
                (λ b.
                  update (update (view s.cache) sb.bmapstart (mark (view s.cache sb.bmapstart) k)) b
                    (λ j. 0))
                er)
