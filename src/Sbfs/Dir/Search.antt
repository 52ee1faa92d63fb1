-- ===== src/Sbfs/Dir/Search.antt =====
-- The loop over the entries of a directory finds the first that passes its test.
use sbunix.Base.{
  ℕ, zero, suc, ◌+◌, ◌*◌, ◌^◌, ◌≤◌, ◌<◌, ◌≡◌, ◌≢◌, refl, subst, ◌⊎◌, inl, inr, Bool, true, false,
  some, List, arith, ◌==◌, ltb, Bool-cases, length,
}
use sbunix.Bio.{Block}
use sbunix.Bio.View.{view}
use sbunix.Log.{System}
use sbunix.Log.Transaction.{Open}
use sbunix.Sbfs.{Superblock}
use sbunix.Sbfs.Quiet.{Quiet, Quiet-refl, Quiet-trans}
use sbunix.Sbfs.Bitmap.Alloc.{Laid}
use sbunix.Sbfs.Inode.{Inode, Dinode}
use sbunix.Sbfs.Read.{readi}
use sbunix.Sbfs.Read.Walk.{Mapped}
use sbunix.Sbfs.Read.Bytewise.{bytes_from, Mapped-Quiet}
use sbunix.Sbfs.Read.Whole.{within, readi-valid}
use sbunix.Sbfs.Dir.{Found, scan}

-- The bytes at the offset `off` of a directory, 16 of them where the entry is complete.
abbrev pub entry : (ℕ → Block) → Dinode → ℕ → List ℕ
entry v d off = bytes_from v d (within d.size off 16) off

-- The entries at `off`, `off + 16` and so on below `end` are complete and fail the test.
abbrev pub Failing : (ℕ → Block) → Dinode → (List ℕ → Bool) → ℕ → ℕ → Type 0
Failing v d test off end =
    (k : ℕ)
    → off + k * 16 < end
    → (length (entry v d (off + k * 16)) ≡ 16) × (test (entry v d (off + k * 16)) ≡ false)

-- What the search from `off` on found: the first entry that passes, or the end of the directory or
-- an incomplete entry with none before it that passes.
abbrev pub IsFirst : (ℕ → Block) → Dinode → (List ℕ → Bool) → ℕ → Found → Type 0
IsFirst v d test off (Found.found o de) =
    (o < d.size)
    × (de ≡ entry v d o)
    × (length de ≡ 16)
    × (test de ≡ true)
    × ((m : ℕ) × (o ≡ off + m * 16))
    × Failing v d test off o
IsFirst v d test off (Found.ended o) =
    ((d.size ≤ o) ⊎ (length (entry v d o) ≢ 16))
    × ((m : ℕ) × (o ≡ off + m * 16))
    × Failing v d test off o

-- One entry more in front.
Failing-cons :
    (v : ℕ → Block) (d : Dinode) (test : List ℕ → Bool) (off end : ℕ)
    → length (entry v d off) ≡ 16
    → test (entry v d off) ≡ false
    → Failing v d test (off + 16) end
    → Failing v d test off end
Failing-cons v d test off end full fails rest zero h =
    let e : off ≡ off + 0 * 16 = omega arith in
    subst (λ o. (length (entry v d o) ≡ 16) × (test (entry v d o) ≡ false)) e (full, fails)
Failing-cons v d test off end full fails rest (suc k) h =
    let e : off + 16 + k * 16 ≡ off + suc k * 16 = omega arith in
    subst (λ o. (length (entry v d o) ≡ 16) × (test (entry v d o) ≡ false)) e
      (rest k (omega (arith, h)))

IsFirst-cons :
    (v : ℕ → Block) (d : Dinode) (test : List ℕ → Bool) (off : ℕ) (r : Found)
    → length (entry v d off) ≡ 16
    → test (entry v d off) ≡ false
    → IsFirst v d test (off + 16) r
    → IsFirst v d test off r
IsFirst-cons v d test off (Found.found o de) full fails (lt, e, l, t, (m, em), f) =
    (lt, e, l, t, (m + 1, omega (arith, em)), Failing-cons v d test off o full fails f)
IsFirst-cons v d test off (Found.ended o) full fails (end, (m, em), f) =
    (end, (m + 1, omega (arith, em)), Failing-cons v d test off o full fails f)

-- The search as a whole, from `off` on.
abbrev pub Scanned : ℕ → Superblock → System → Inode → (List ℕ → Bool) → ℕ → Type 0
Scanned f sb s si test off =
    (r : Found) × ((s' : System) × (scan f sb s si test off ≡ some ((r, si), s'))
      × Quiet s s'
      × IsFirst (view s.cache) si.d test off r)

-- Inside a transaction, on an image in the right order, for a valid copy of a known inode whose
-- addresses stay out of the log, the loop over the entries from `off` on, with enough rounds for
-- those up to the size, does not panic and changes nothing. It finds the first entry that passes
-- the test, all before it being complete, or ends at the size or at an incomplete entry, with no
-- entry before that passes.
pub scan-Scanned :
    (f : ℕ) (sb : Superblock) (s : System) (si : Inode) (test : List ℕ → Bool) (off : ℕ)
    → si.d.size < off + f * 16
    → Open s
    → Laid sb s.log
    → si.inum < sb.ninodes
    → si.valid ≡ true
    → si.d.size < 2 ^ 32
    → Mapped s.log (view s.cache) si.d
    → Scanned f sb s si test off
unfolding scan
scan-Scanned zero sb s si test off enough o laid known ok width m = (
  Found.ended off,
  (
    s,
    refl,
    Quiet-refl o,
    (inl (omega (arith, enough)), (0, omega arith), λ k h. absurd (omega arith)),
  ),
)
scan-Scanned (suc f) sb s si test off enough o laid known ok width m =
    elim (Bool-cases (ltb off si.d.size)) [
      | inr past ↦ (
        Found.ended off,
        (
          s,
          rw past refl,
          Quiet-refl o,
          (inl (ground (arith, past)), (0, omega arith), λ k h. absurd (omega arith)),
        ),
      )
      | inl inside ↦
          let (s1, e1, q1) =
            readi-valid sb s si off 16 o laid known ok (ground (arith, inside, width)) width m in
          round
            (λ s' o' laid' m'.
              scan-Scanned f sb s' si test (off + 16) (omega (arith, enough)) o' laid' known ok
                width m')
            s1 inside e1 q1 (Bool-cases (length (entry (view s.cache) si.d off) == 16))
            (Bool-cases (test (entry (view s.cache) si.d off)))
    ]
  where
    v : ℕ → Block
    v = view s.cache

    de : List ℕ
    de = entry v si.d off

    round :
        ((s' : System)
          → Open s'
          → Laid sb s'.log
          → Mapped s'.log (view s'.cache) si.d
          → Scanned f sb s' si test (off + 16))
        → (s1 : System) → ltb off si.d.size ≡ true
        → readi sb s si off 16 ≡ some ((de, si), s1)
        → Quiet s s1
        → ((length de == 16) ≡ true) ⊎ ((length de == 16) ≡ false)
        → (test de ≡ true) ⊎ (test de ≡ false)
        → Scanned (suc f) sb s si test off
    round ih s1 inside e1 q1 (inr short) t = (
      Found.ended off,
      (
        s1,
        rw (inside, e1, short) refl,
        q1,
        (inr (ground (arith, short)), (0, omega arith), λ k h. absurd (omega arith)),
      ),
    )
    round ih s1 inside e1 q1 (inl full) (inl t) = (
      Found.found off de,
      (
        s1,
        rw (inside, e1, full, t) refl,
        q1,
        (
          ground (arith, inside),
          refl,
          ground (arith, full),
          t,
          (0, omega arith),
          λ k h. absurd (omega arith),
        ),
      ),
    )
    round ih s1 inside e1 q1 (inl full) (inr t) =
        let laid1 : Laid sb s1.log = record {
          log_first = omega (arith, laid.log_first, q1.start, q1.size);
          inodes_next = laid.inodes_next;
          one_bitmap = laid.one_bitmap;
          numbers = laid.numbers;
        } in
        let (r, (s2, e2, q2, h)) = ih s1 q1.still_open laid1 (Mapped-Quiet si.d q1 m) in
        (
          r,
          (
            s2,
            rw (inside, e1, full, t) e2,
            Quiet-trans q1 q2,
            IsFirst-cons v si.d test off r (ground (arith, full)) t
                (subst (λ w. IsFirst w si.d test (off + 16) r) q1.seen h),
          ),
        )
