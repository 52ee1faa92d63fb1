-- ===== src/Sbfs/Write/Whole.antt =====
-- `sbfs_writei` as a whole, for a range inside one direct block.
use sbunix.Base.{
  ℕ, suc, ◌+◌, ◌-◌, ◌/◌, ◌%◌, ◌^◌, ◌≤◌, ◌<◌, ◌≡◌, ◌≢◌, refl, sym, ap, ap₂, ◌∙◌, ◌⊎◌, inl, inr, ◌&&◌,
  false, some, List, ◌∷◌, arith, ◌==◌, ltb, leb, add64, if◌then◌else◌, length, get_or, All,
}
use sbunix.Base.Int.{ℤ, pos, minus}
use sbunix.Base.Errno.{enospc}
use sbunix.Bio.View.{view}
use sbunix.Log.{System}
use sbunix.Log.Transaction.{Open}
use sbunix.Sbfs.{Superblock}
use sbunix.Sbfs.Visit.{Room}
use sbunix.Sbfs.Bitmap.Alloc.{Laid}
use sbunix.Sbfs.Inode.{Inode, ilock}
use sbunix.Sbfs.Inode.Table.{ilock-valid}
use sbunix.Sbfs.Write.{Written, write_from, writei, finish_write, sbfs_max_file_size}
use sbunix.Sbfs.Write.Contents.{Direct, content}
use sbunix.Sbfs.Write.Filled.{Exhausted}
use sbunix.Sbfs.Write.Finish.{Finished, result_of, size_after, finish_write-Finished}
use sbunix.Sbfs.Write.OneBlock.{IsFile, Outcome, looped}

-- The ways in which the write of one block ends, with the result, the copy and the system.
abbrev pub Ended : Superblock → System → Inode → ℕ → List ℕ → ℤ → Inode → System → Type 0
Ended sb s si off src result si' s' =
    ((result ≡ minus enospc)
      × Exhausted sb (view s.cache)
      × ((p : ℕ) → p / 512 < 7 → content (view s'.cache) si'.d p ≡ content (view s.cache) si.d p)
      × (si'.d.size ≡ size_after si.d.size off))
    ⊎ ((result ≡ pos (length src))
        × (si'.d.addrs (off / 512) ≢ 0)
        × ((p : ℕ)
            → p / 512 < 7
            → content (view s'.cache) si'.d p ≡ (
                if leb off p && ltb p (off + length src)
                then get_or src (p - off) 0
                else content (view s.cache) si.d p))
        × (si'.d.size ≡ size_after si.d.size (off + length src)))

-- Inside a transaction with room for four blocks more, on an image in the right order,
-- `sbfs_writei` of some bytes within one direct block does not panic, for a valid copy of a known
-- inode that is in step with its generic fields and whose direct blocks are data blocks in use and
-- all different. Either no block is free: the result is -ENOSPC, the contents stay, and a size
-- below `off` becomes `off`. Or the result is the number of the bytes: the block is there, the
-- contents of the direct blocks are the bytes in the range and else as before, and the size covers
-- the range. The direct blocks stay data blocks in use and all different.
pub writei-Ended :
    (sb : Superblock) (now : ℕ) (s : System) (si : Inode) (off x : ℕ) (xs : List ℕ)
    → Open s
    → Laid sb s.log
    → Room 4 s
    → IsFile sb s si
    → off % 512 + length (x ∷ xs) ≤ 512
    → off / 512 < 7
    → All (λ b. b < 256) (x ∷ xs)
    → (result : ℤ) × ((si' : Inode) × ((s' : System) × (writei sb now s si off (x ∷ xs)
            ≡ some ((result, si'), s'))
          × Open s'
          × Direct sb (view s'.cache) si'.d
          × Ended sb s si off (x ∷ xs) result si' s'))
unfolding writei
writei-Ended sb now s si off x xs o laid room file inside near bytes =
    let (w, e, (o', laid', room', file', sz, how)) =
      looped sb s si off (x ∷ xs) o laid file (omega arith) inside near bytes (length xs) room in
    go w e o' laid' room' file' sz how
  where
    n : ℕ
    n = length (x ∷ xs)

    Goal : Type 0
    Goal =
        (result : ℤ) × ((si' : Inode) × ((s' : System) × (writei sb now s si off (x ∷ xs)
              ≡ some ((result, si'), s'))
            × Open s'
            × Direct sb (view s'.cache) si'.d
            × Ended sb s si off (x ∷ xs) result si' s'))

    locked : ilock sb s si ≡ some (si, s)
    locked = ilock-valid sb s si file.valid

    short : ltb sbfs_max_file_size (add64 off n) ≡ false
    short = ground (arith, inside, near)

    not_empty : (n == 0) ≡ false
    not_empty = ground arith

    low : ltb sbfs_max_file_size off ≡ false
    low = ground (arith, near)

    go :
        (w : Written)
        → write_from (suc (length xs)) sb s si off (x ∷ xs) n 0 ≡ some w
        → Open w.system
        → Laid sb w.system.log
        → Room 1 w.system
        → IsFile sb w.system w.inode
        → w.inode.d.size ≡ si.d.size
        → Outcome sb s si off (x ∷ xs) w
        → Goal
    go w e o' laid' room' file' sz how =
        let small : off + w.total < 2 ^ 32 = elim how [
          | inl (t, _, _, _, _) ↦ omega (arith, t, near)
          | inr (t, _, _, _) ↦ omega (arith, t, near, inside)
        ] in
        let (si', (s', ef, fin)) =
          finish_write-Finished sb now off w o' laid' file'.known room' file'.kind file'.ten
            file'.direct file'.step file'.width small in
        (
          result_of w,
          (si', (s', ran w s' si' e ef, fin.still_open, fin.direct, ended w s' si' sz fin how)),
        )
      where
        ran :
            (w : Written) (s' : System) (si' : Inode)
            → write_from (suc (length xs)) sb s si off (x ∷ xs) n 0 ≡ some w
            → finish_write sb now off w ≡ some ((result_of w, si'), s')
            → writei sb now s si off (x ∷ xs) ≡ some ((result_of w, si'), s')
        ran w s' si' e ef = rw (locked, short, low, not_empty, e) ef

        ended :
            (w : Written) (s' : System) (si' : Inode)
            → w.inode.d.size ≡ si.d.size
            → Finished sb off w si' s'
            → Outcome sb s si off (x ∷ xs) w
            → Ended sb s si off (x ∷ xs) (result_of w) si' s'
        ended w s' si' sz fin (inl (t, f, _, full, c)) = inl (
          rw (t, f) refl,
          full,
          λ p hp. fin.contents p hp ∙ c p hp,
          fin.size ∙ ap₂ size_after sz (omega (arith, t)),
        )
        ended w s' si' sz fin (inr (t, f, a, c)) = inr (
          rw (t, f, not_empty) refl,
          λ z. a (ap (λ g. g (off / 512)) (sym fin.addrs) ∙ z),
          λ p hp. fin.contents p hp ∙ c p hp,
          fin.size ∙ ap₂ size_after sz (omega (arith, t)),
        )
