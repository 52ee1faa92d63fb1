-- ===== src/Sbfs/Bitmap/Free.antt =====
-- `bfree`, alone and after `balloc`.
use sbunix.Base.{
  ℕ, ◌+◌, ◌^◌, ◌≤◌, ◌<◌, ◌≡◌, ◌≢◌, refl, sym, ap, ◌∙◌, ◌⊎◌, inl, inr, true, false, ◌||◌, some,
  arith, ltb, leb, update, update_self, update_ne, add32, sub32, ◌==◌, Bool-cases, fun_ext,
  eq_of_==,
}
use sbunix.Bio.{Block}
use sbunix.Bio.View.{view}
use sbunix.Log.{System}
use sbunix.Log.Transaction.{Open}
use sbunix.Sbfs.{Superblock, visit}
use sbunix.Sbfs.Visit.{Room, Visited, visit-at}
use sbunix.Sbfs.Bitmap.{is_used, mark, unmark, balloc, bfree, unmark-mark}
use sbunix.Sbfs.Bitmap.Alloc.{Laid, Allocated, balloc-Allocated}

-- `bfree` of a number that is no data block does nothing.
pub bfree-bad :
    (sb : Superblock) (s : System) (b : ℕ)
    → sb.bmapstart + 1 + sb.nblocks < 2 ^ 32
    → (b ≤ sb.bmapstart) ⊎ (sb.bmapstart + 1 + sb.nblocks ≤ b)
    → bfree sb s b ≡ some s
unfolding bfree
bfree-bad sb s b small bad = ground arith

-- Inside a transaction with room for a block more, on an image in the right order, `bfree` of a
-- data block clears its bit and changes nothing else.
pub bfree-Freed :
    (sb : Superblock) (s : System) (i : ℕ)
    → Open s
    → Laid sb s.log
    → Room 1 s
    → i < sb.nblocks
    → (s' : System) × (bfree sb s (sb.bmapstart + 1 + i) ≡ some s')
      × Open s'
      × ((n : ℕ) → Room (1 + n) s → Room n s')
      × (view s'.cache ≡ update (view s.cache) sb.bmapstart (unmark (view s.cache sb.bmapstart) i))
unfolding bfree
bfree-Freed sb s i o laid room lt =
    let (s', e, v) =
      visit-at s sb.bmapstart (λ d. (sb.bmapstart + 1 + i, some (unmark d i)))
        (sb.bmapstart + 1 + i) (some (unmark (view s.cache sb.bmapstart) i)) refl o
        (omega (arith, laid.log_first, laid.inodes_next)) room in
    done s' e v
  where
    b : ℕ
    b = sb.bmapstart + 1 + i

    start : add32 sb.bmapstart 1 ≡ sb.bmapstart + 1
    start = omega (arith, laid.numbers)

    end : add32 (sb.bmapstart + 1) sb.nblocks ≡ sb.bmapstart + 1 + sb.nblocks
    end = omega (arith, laid.numbers)

    inside : (ltb b (sb.bmapstart + 1) || leb (sb.bmapstart + 1 + sb.nblocks) b) ≡ false
    inside = ground (arith, lt)

    index : sub32 b (sb.bmapstart + 1) ≡ i
    index = omega (arith, laid.numbers, lt)

    done :
        (s' : System)
        → visit s sb.bmapstart (λ d. (b, some (unmark d i))) ≡ some (b, s')
        → Visited s sb.bmapstart (some (unmark (view s.cache sb.bmapstart) i)) s'
        → (s' : System) × (bfree sb s b ≡ some s')
          × Open s'
          × ((n : ℕ) → Room (1 + n) s → Room n s')
          × (view s'.cache
              ≡ update (view s.cache) sb.bmapstart (unmark (view s.cache sb.bmapstart) i))
    done s' e v = (s', rw (start, end, inside, index, e) refl, v.still_open, v.room, v.seen)

-- Inside a transaction with room for three blocks more, on an image in the right order, `balloc`
-- does not panic, and unless every block is in use `bfree` of its result, which is not 0, does not
-- panic either. The bitmap and all blocks are then as before `balloc`, but for the block itself,
-- which is left zeroed.
pub bfree-balloc :
    (sb : Superblock) (s : System)
    → Open s
    → Laid sb s.log
    → Room 3 s
    → (r : ℕ) × ((s' : System) × (balloc sb s ≡ some (r, s'))
        × (((j : ℕ) → j < sb.nblocks → is_used (view s.cache sb.bmapstart) j ≡ true)
            ⊎ ((r ≢ 0)
                × ((s'' : System) × (bfree sb s' r ≡ some s'')
                    × Open s''
                    × (view s''.cache ≡ update (view s.cache) r (λ j. 0))))))
bfree-balloc sb s o laid room =
    let (r, (s', e, o', laid', more, a)) = balloc-Allocated sb s o laid (two room) in
    (r, (s', e, go r s' o' laid' (more 1 room) a))
  where
    v : ℕ → Block
    v = view s.cache

    two : Room 3 s → Room 2 s
    two w = record {
      entries = omega (arith, w.entries);
      blocks = omega (arith, w.blocks);
      buffers = omega (arith, w.buffers);
    }

    Back : ℕ → System → Type 0
    Back r s' =
        (s'' : System) × (bfree sb s' r ≡ some s'')
        × Open s''
        × (view s''.cache ≡ update v r (λ j. 0))

    -- The bitmap twice changed, with the block zeroed between.
    undone :
        (i : ℕ)
        → is_used (v sb.bmapstart) i ≡ false
        → (w : ℕ → Block)
        → w
          ≡ update (update v sb.bmapstart (mark (v sb.bmapstart) i)) (sb.bmapstart + 1 + i) (λ j. 0)
        → update w sb.bmapstart (unmark (w sb.bmapstart) i)
          ≡ update v (sb.bmapstart + 1 + i) (λ j. 0)
    undone i free w e =
        let m : Block = mark (v sb.bmapstart) i in
        let k = sb.bmapstart + 1 + i in
        let at : w sb.bmapstart ≡ m =
          ap (λ f. f sb.bmapstart) e
          ∙ update_ne (update v sb.bmapstart m) k sb.bmapstart (λ j. 0) (omega arith)
          ∙ update_self v sb.bmapstart m in
        let back : unmark (w sb.bmapstart) i ≡ v sb.bmapstart =
          ap (λ x. unmark x i) at ∙ unmark-mark (v sb.bmapstart) i free in
        fun_ext λ b. elim (Bool-cases (b == sb.bmapstart)) [
          | inl p ↦
              let x : b ≡ sb.bmapstart = eq_of_== b sb.bmapstart p in
              let ne : (b == k) ≡ false = ground arith in rw (p, ne) (back ∙ ap v (sym x))
          | inr p ↦ rw (e, p) (ground (arith, p))
        ]

    done :
        (r : ℕ) (s' : System) (i : ℕ) (s'' : System)
        → r ≡ sb.bmapstart + 1 + i
        → is_used (v sb.bmapstart) i ≡ false
        → view s'.cache ≡ update (update v sb.bmapstart (mark (v sb.bmapstart) i)) r (λ j. 0)
        → bfree sb s' (sb.bmapstart + 1 + i) ≡ some s''
        → Open s''
        → view s''.cache
          ≡ update (view s'.cache) sb.bmapstart (unmark (view s'.cache sb.bmapstart) i)
        → Back r s'
    done r s' i s'' er free ev e2 o2 v2 = (
      s'',
      ap (bfree sb s') er ∙ e2,
      o2,
      v2
          ∙ undone i free (view s'.cache) (
              ev ∙ ap (λ k. update (update v sb.bmapstart (mark (v sb.bmapstart) i)) k (λ j. 0)) er)
          ∙ ap (λ k. update v k (λ j. 0)) (sym er),
    )

    go :
        (r : ℕ) (s' : System)
        → Open s'
        → Laid sb s'.log
        → Room 1 s'
        → Allocated sb s r s'
        → ((j : ℕ) → j < sb.nblocks → is_used (v sb.bmapstart) j ≡ true) ⊎ ((r ≢ 0) × Back r s')
    go r s' o' laid' room' (inl (z, full, _)) = inl full
    go r s' o' laid' room' (inr (i, lt, er, free, below, ev)) =
        let (s'', e2, o2, _, v2) = bfree-Freed sb s' i o' laid' room' lt in
        inr (omega (arith, er), done r s' i s'' er free ev e2 o2 v2)
