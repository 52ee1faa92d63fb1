-- ===== src/Sbfs/Cache/Get.antt =====
-- `sbfs_iget` as a whole.
use sbunix.Base.{
  ℕ, ◌^◌, ◌<◌, ◌≡◌, ◌≢◌, refl, sym, ap, ◌∙◌, Option, none, some, arith, ◌+◌, ◌⊎◌, inl, inr, true,
  false, add32, update, update_self, update_ne,
}
use sbunix.Bio.View.{view}
use sbunix.Log.{System}
use sbunix.Log.Transaction.{Open}
use sbunix.Sbfs.{Superblock}
use sbunix.Sbfs.Quiet.{Quiet, Quiet-refl}
use sbunix.Sbfs.Bitmap.Alloc.{Laid}
use sbunix.Sbfs.Inode.{Inode, Dinode, ilock}
use sbunix.Sbfs.Inode.Table.{disk_inode, locked_copy, ilock-Loaded}
use sbunix.Sbfs.Cache.{
  Icache, with_refcnt, fresh_inode, Slot, choose_slot, claim_slot, load_slot, iget,
}
use sbunix.Sbfs.Cache.Unique.{Unique, Choice, IsLive, claim_slot-Unique}

-- The entry `si` is the live entry `old` of the number, pinned once more.
abbrev pub Shared : Inode → ℕ → Inode → Type 0
Shared old inum si =
    (0 < old.vnode.refcnt)
    × (old.inum ≡ inum)
    × (si ≡ record old { vnode = record old.vnode { refcnt = old.vnode.refcnt + 1 } })

-- The entry `si` is read from the inode `d` of the image, into one that was free.
abbrev pub Fresh : Inode → ℕ → Dinode → Inode → Type 0
Fresh old inum d si =
    (old.vnode.refcnt ≡ 0)
    × (si.vnode.refcnt ≡ 1)
    × (si.inum ≡ inum)
    × (si.valid ≡ true)
    × (si.dirty ≡ false)
    × (si.d ≡ d)

abbrev pub NoneLive : Icache → ℕ → Type 0
NoneLive c inum = (j : ℕ) → j < 64 → 0 < (c j).vnode.refcnt → (c j).inum ≢ inum

-- The live entry of the number in `c`, or a free one when there is none, with all other entries
-- kept; or null and all kept, with none of the 64 entries free or of the number. `d` is the inode
-- of the image with the number.
abbrev pub Gotten : Icache → ℕ → Dinode → Option ℕ → Icache → Type 0
Gotten c inum d (some i) c' =
    (i < 64)
    × ((j : ℕ) → j ≢ i → c' j ≡ c j)
    × (Shared (c i) inum (c' i) ⊎ (Fresh (c i) inum d (c' i) × NoneLive c inum))
Gotten c inum d none c' =
    (c' ≡ c) × ((j : ℕ) → j < 64 → 0 < (c j).vnode.refcnt) × ((j : ℕ) → j < 64 → (c j).inum ≢ inum)

-- An entry that keeps its number and its count.
Unique-update :
    (c : Icache) (i : ℕ) (si : Inode)
    → si.inum ≡ (c i).inum
    → si.vnode.refcnt ≡ (c i).vnode.refcnt
    → Unique c
    → Unique (update c i si)
Unique-update c i si e r u = λ a b ha hb la lb q.
    u a b ha hb (ground (arith, la, r)) (ground (arith, lb, r)) (ground (arith, q, e))

taken_entry :
    (c : Icache) (inum i : ℕ) → claim_slot c inum (Slot.taken i) i ≡ fresh_inode (c i) inum
unfolding claim_slot
taken_entry c inum i = update_self c i (fresh_inode (c i) inum)

taken_else : (c : Icache) (inum i j : ℕ) → j ≢ i → claim_slot c inum (Slot.taken i) j ≡ c j
unfolding claim_slot
taken_else c inum i j n = update_ne c i j (fresh_inode (c i) inum) n

hit_entry :
    (c : Icache) (inum i : ℕ)
    → claim_slot c inum (Slot.hit i) i ≡ with_refcnt (c i) (add32 (c i).vnode.refcnt 1)
unfolding claim_slot
hit_entry c inum i = update_self c i (with_refcnt (c i) (add32 (c i).vnode.refcnt 1))

hit_else : (c : Icache) (inum i j : ℕ) → j ≢ i → claim_slot c inum (Slot.hit i) j ≡ c j
unfolding claim_slot
hit_else c inum i j n = update_ne c i j (with_refcnt (c i) (add32 (c i).vnode.refcnt 1)) n

pinned : (c : Icache) (inum : ℕ) → claim_slot c inum Slot.pinned_all ≡ c
unfolding claim_slot
pinned c inum = refl

-- Inside a transaction, on an image in the right order, for a known number and an inode cache with
-- one live entry at most for each number, whose counts are below 2^31, `sbfs_iget` does not panic
-- and the image does not change. It returns the live entry of the number, whose count it raises by
-- one and else keeps; or, when no live entry has the number, one that was free, now with the count
-- 1 and the valid copy of the image's inode; or null, and that only when all entries are live and
-- none has the number. It changes no other entry, and no two live entries have one number
-- afterwards.
pub iget-Unique :
    (sb : Superblock) (s : System) (c : Icache) (inum : ℕ)
    → Open s
    → Laid sb s.log
    → inum < sb.ninodes
    → Unique c
    → ((i : ℕ) → (c i).vnode.refcnt < 2 ^ 31)
    → (r : Option ℕ) × ((c' : Icache) × ((s' : System) × (iget sb s c inum ≡ some ((r, c'), s'))
          × Quiet s s'
          × Unique c'
          × Gotten c inum (disk_inode sb (view s.cache) inum) r c'))
unfolding iget load_slot
iget-Unique sb s c inum o laid known u small =
    let (h, w, l) = claim_slot-Unique c inum u small in go (choose_slot c inum) refl h w l
  where
    Goal : Type 0
    Goal =
        (r : Option ℕ) × ((c' : Icache) × ((s' : System) × (iget sb s c inum ≡ some ((r, c'), s'))
            × Quiet s s'
            × Unique c'
            × Gotten c inum (disk_inode sb (view s.cache) inum) r c'))

    run :
        {r : Slot}
        → choose_slot c inum ≡ r
        → iget sb s c inum ≡ load_slot sb s (claim_slot c inum r) r
    run e = ap (λ r. load_slot sb s (claim_slot c inum r) r) e

    go :
        (r : Slot)
        → choose_slot c inum ≡ r
        → Choice c inum r
        → Unique (claim_slot c inum r)
        → IsLive (claim_slot c inum r) inum r
        → Goal
    go (Slot.hit i) e (lt, alive, number) w l = (
      some i,
      (
        claim_slot c inum (Slot.hit i),
        (s, run e, Quiet-refl o, w, (lt, hit_else c inum i, inl (alive, number, shared i))),
      ),
    )
      where
        shared :
            (i : ℕ) → claim_slot c inum (Slot.hit i) i ≡ with_refcnt (c i) ((c i).vnode.refcnt + 1)
        shared i = hit_entry c inum i ∙ ap (λ k. with_refcnt (c i) k) (omega (arith, small i))
    go Slot.pinned_all e (full, miss) w l = (
      none,
      (claim_slot c inum Slot.pinned_all, (s, run e, Quiet-refl o, w, (pinned c inum, full, miss))),
    )
    go (Slot.taken i) e (lt, free, miss) w l =
        let (s', e', q) = ilock-Loaded sb s (fresh_inode (c i) inum) o laid known in read s' e' q
      where
        si : Inode
        si = locked_copy sb (view s.cache) (fresh_inode (c i) inum)

        read :
            (s' : System) → ilock sb s (fresh_inode (c i) inum) ≡ some (si, s') → Quiet s s' → Goal
        read s' e' q =
            let at = taken_entry c inum i in
            let number : si.inum ≡ (claim_slot c inum (Slot.taken i) i).inum =
              sym (ap (λ (x : Inode). x.inum) at) in
            let count : si.vnode.refcnt ≡ (claim_slot c inum (Slot.taken i) i).vnode.refcnt =
              sym (ap (λ (x : Inode). x.vnode.refcnt) at) in
            let last : update (claim_slot c inum (Slot.taken i)) i si i ≡ si =
              update_self (claim_slot c inum (Slot.taken i)) i si in
            (
              some i,
              (
                update (claim_slot c inum (Slot.taken i)) i si,
                (
                  s',
                  run e ∙ rw (at, e') refl,
                  q,
                  Unique-update (claim_slot c inum (Slot.taken i)) i si number count w,
                  (
                    lt,
                    (λ j n.
                        update_ne (claim_slot c inum (Slot.taken i)) i j si n
                        ∙ taken_else c inum i j n),
                    inr (rw last (free, refl, refl, refl, refl, refl), miss),
                  ),
                ),
              ),
            )
