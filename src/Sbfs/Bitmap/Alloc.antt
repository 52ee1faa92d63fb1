-- ===== src/Sbfs/Bitmap/Alloc.antt =====
-- `balloc` gives the first free block, marked and zeroed.
use sbunix.Base.{
  ℕ, zero, suc, ◌+◌, ◌/◌, ◌≤◌, ◌<◌, ◌^◌, ◌≡◌, refl, ap, ◌∙◌, ◌⊎◌, inl, inr, true, false, Option,
  none, some, arith, update, add32, Bool-cases,
}
use sbunix.Bio.{Block}
use sbunix.Bio.View.{view}
use sbunix.Log.{Log, System}
use sbunix.Log.Write.{Outside}
use sbunix.Log.Transaction.{Open}
use sbunix.Sbfs.{Superblock, visit}
use sbunix.Sbfs.Visit.{Room, Visited, visit-at}
use sbunix.Sbfs.Bitmap.{is_used, mark, first_free, taking, claim, zero_block, balloc}

-- The order of the image: the log, the inodes, the bitmap, the data blocks, all of 32-bit numbers.
pub record Laid (sb : Superblock) (l : Log) : Type 0 where
  pub log_first : l.start + l.size ≤ sb.inodestart
  pub inodes_next : sb.inodestart + (sb.ninodes + 7) / 8 ≤ sb.bmapstart
  pub one_bitmap : sb.nblocks ≤ 4096
  pub numbers : sb.bmapstart + 1 + sb.nblocks < 2 ^ 32

-- What a search for a free bit says.
abbrev pub FirstFree : ℕ → ℕ → Block → Option ℕ → Type 0
FirstFree n i d none = (j : ℕ) → i ≤ j → j < i + n → is_used d j ≡ true
FirstFree n i d (some k) =
    (i ≤ k) × (k < i + n) × (is_used d k ≡ false) × ((j : ℕ) → i ≤ j → j < k → is_used d j ≡ true)

pub first_free-FirstFree : (n i : ℕ) (d : Block) → FirstFree n i d (first_free n i d)
unfolding first_free
first_free-FirstFree zero i d = λ j h h'. absurd (omega arith)
first_free-FirstFree (suc n) i d = elim (Bool-cases (is_used d i)) [
  | inl e ↦ simp e (more (first_free n (i + 1) d) (first_free-FirstFree n (i + 1) d) e)
  | inr e ↦ simp e (omega arith, omega arith, refl, λ j h h'. absurd (omega (arith, h, h')))
]
  where
    here :
        (j : ℕ)
        → is_used d i ≡ true
        → (j ≡ i) ⊎ (i + 1 ≤ j)
        → (i + 1 ≤ j → is_used d j ≡ true)
        → is_used d j ≡ true
    here j e (inl q) f = ap (is_used d) q ∙ e
    here j e (inr q) f = f q

    more : (r : Option ℕ) → FirstFree n (i + 1) d r → is_used d i ≡ true → FirstFree (suc n) i d r
    more none f e = λ j h h'. here j e (omega arith) (λ q. f j q (omega arith))
    more (some k) f e = (
      omega (arith, f),
      omega (arith, f),
      f.2,
      λ j h h'. here j e (omega arith) (λ q. f.3 j q h'),
    )

-- What `balloc` did: no block is free, or it took the first free one.
abbrev pub Allocated : Superblock → System → ℕ → System → Type 0
Allocated sb s r s' =
    ((r ≡ 0)
      × ((j : ℕ) → j < sb.nblocks → is_used (view s.cache sb.bmapstart) j ≡ true)
      × (view s'.cache ≡ view s.cache))
    ⊎ ((i : ℕ) × (i < sb.nblocks)
        × (r ≡ sb.bmapstart + 1 + i)
        × (is_used (view s.cache sb.bmapstart) i ≡ false)
        × ((j : ℕ) → j < i → is_used (view s.cache sb.bmapstart) j ≡ true)
        × (view s'.cache
            ≡ update (update (view s.cache) sb.bmapstart (mark (view s.cache sb.bmapstart) i)) r
                (λ j. 0)))

-- Inside a transaction with room for two blocks more, on an image in the right order, `balloc` does
-- not panic and the transaction stays open. If a block is free it returns the first such block's
-- number, which is not 0, sets the bit of that block only, zeroes the block, and changes no other
-- block; if none is free it returns 0 and changes nothing. The room left is less by two blocks at
-- most.
pub balloc-Allocated :
    (sb : Superblock) (s : System)
    → Open s
    → Laid sb s.log
    → Room 2 s
    → (r : ℕ) × ((s' : System) × (balloc sb s ≡ some (r, s'))
        × Open s'
        × Laid sb s'.log
        × ((n : ℕ) → Room (2 + n) s → Room n s')
        × Allocated sb s r s')
unfolding balloc zero_block
balloc-Allocated sb s o laid room =
    go (first_free sb.nblocks 0 d) (first_free-FirstFree sb.nblocks 0 d) refl
  where
    d : Block
    d = view s.cache sb.bmapstart

    out : (b : ℕ) → sb.bmapstart ≤ b → (l : Log) → Laid sb l → Outside l b
    out b h l q = omega (arith, q.log_first, q.inodes_next)

    moved : (s' : System) → s'.log.start ≡ s.log.start → s'.log.size ≡ s.log.size → Laid sb s'.log
    moved s' e e' = record {
      log_first = omega (arith, laid.log_first, e, e');
      inodes_next = laid.inodes_next;
      one_bitmap = laid.one_bitmap;
      numbers = laid.numbers;
    }

    less : (n m : ℕ) (a : System) → Room n a → m ≤ n → Room m a
    less n m a r h = record {
      entries = omega (arith, r.entries);
      blocks = omega (arith, r.blocks);
      buffers = omega (arith, r.buffers);
    }

    Goal : Type 0
    Goal =
        (r : ℕ) × ((s' : System) × (balloc sb s ≡ some (r, s'))
          × Open s'
          × Laid sb s'.log
          × ((n : ℕ) → Room (2 + n) s → Room n s')
          × Allocated sb s r s')

    full :
        (s1 : System)
        → visit s sb.bmapstart (claim sb.nblocks) ≡ some (none, s1)
        → Visited s sb.bmapstart none s1
        → FirstFree sb.nblocks 0 d none
        → Goal
    full s1 e1 v1 f = (
      0,
      (
        s1,
        rw e1 refl,
        v1.still_open,
        moved s1 v1.start v1.size,
        λ n r. v1.room n (less (2 + n) (0 + n) s r (omega arith)),
        inl (refl, λ j h. f j (omega arith) (omega arith), v1.seen),
      ),
    )

    taken :
        (i : ℕ) (s1 s2 : System)
        → FirstFree sb.nblocks 0 d (some i)
        → visit s sb.bmapstart (claim sb.nblocks) ≡ some (some i, s1)
        → Visited s sb.bmapstart (some (mark d i)) s1
        → visit s1 (sb.bmapstart + 1 + i) (λ d. (sb.bmapstart + 1 + i, some (λ j. 0)))
          ≡ some (sb.bmapstart + 1 + i, s2)
        → Visited s1 (sb.bmapstart + 1 + i) (some (λ j. 0)) s2
        → Goal
    taken i s1 s2 (_, lt, free, below) e1 v1 e2 v2 =
        let wrap : add32 (add32 sb.bmapstart 1) i ≡ sb.bmapstart + 1 + i =
          omega (arith, laid.numbers, lt) in
        (
          sb.bmapstart + 1 + i,
          (
            s2,
            rw (e1, wrap, e2) refl,
            v2.still_open,
            moved s2 (v2.start ∙ v1.start) (v2.size ∙ v1.size),
            λ n r. v2.room n (v1.room (1 + n) (less (2 + n) (1 + (1 + n)) s r (omega arith))),
            inr (
              i,
              omega (arith, lt),
              refl,
              free,
              λ j h. below j (omega arith) h,
              v2.seen ∙ ap (λ v. update v (sb.bmapstart + 1 + i) (λ j. 0)) v1.seen,
            ),
          ),
        )

    next :
        (i : ℕ) (s1 : System)
        → FirstFree sb.nblocks 0 d (some i)
        → visit s sb.bmapstart (claim sb.nblocks) ≡ some (some i, s1)
        → Visited s sb.bmapstart (some (mark d i)) s1
        → Goal
    next i s1 f e1 v1 =
        let (s2, e2, v2) =
          visit-at s1 (sb.bmapstart + 1 + i) (λ d. (sb.bmapstart + 1 + i, some (λ j. 0)))
            (sb.bmapstart + 1 + i) (some (λ j. 0)) refl v1.still_open
            (out (sb.bmapstart + 1 + i) (omega arith) s1.log (moved s1 v1.start v1.size))
            (v1.room 1 (less 2 (1 + 1) s room (omega arith))) in
        taken i s1 s2 f e1 v1 e2 v2

    go : (r : Option ℕ) → FirstFree sb.nblocks 0 d r → first_free sb.nblocks 0 d ≡ r → Goal
    go none f e =
        let (s1, e1, v1) =
          visit-at s sb.bmapstart (claim sb.nblocks) none none (ap (taking d) e) o
            (out sb.bmapstart (omega arith) s.log laid) (less 2 0 s room (omega arith)) in
        full s1 e1 v1 f
    go (some i) f e =
        let (s1, e1, v1) =
          visit-at s sb.bmapstart (claim sb.nblocks) (some i) (some (mark d i)) (ap (taking d) e) o
            (out sb.bmapstart (omega arith) s.log laid) (less 2 1 s room (omega arith)) in
        next i s1 f e1 v1
