-- ===== src/Sbfs/Read/Whole.antt =====
-- `sbfs_readi` as a whole.
use sbunix.Base.{
  ℕ, List, ◌+◌, ◌-◌, ◌^◌, ◌≤◌, ◌<◌, ◌≡◌, refl, sym, ap, ap₂, subst, ◌∙◌, ◌⊎◌, inl, inr, true, false,
  some, [], arith, ◌==◌, ltb, if◌then◌else◌, Bool-cases,
}
use sbunix.Bio.{Block}
use sbunix.Bio.View.{view}
use sbunix.Log.{System}
use sbunix.Log.Transaction.{Open}
use sbunix.Sbfs.{Superblock}
use sbunix.Sbfs.Bitmap.Alloc.{Laid}
use sbunix.Sbfs.Inode.{Inode, ilock}
use sbunix.Sbfs.Inode.Table.{locked_copy, ilock-Loaded}
use sbunix.Sbfs.Read.{clamp, read_from, readi}
use sbunix.Sbfs.Quiet.{Quiet, Quiet-trans}
use sbunix.Sbfs.Read.Walk.{Mapped}
use sbunix.Sbfs.Read.Bytewise.{bytes_from, bytes_from-none, Looped, Mapped-Quiet, read_from-bytes}

-- How many bytes there are of the `n` from `off` on.
abbrev pub within : ℕ → ℕ → ℕ → ℕ
within size off n = if ltb size off then 0 else if ltb (size - off) n then size - off else n

clamp-within :
    (size off n : ℕ) → off + n < 2 ^ 64 → off ≤ size → clamp size off n ≡ within size off n
clamp-within size off n h le = ground (arith, h, le)

-- Inside a transaction, on an image in the right order, `sbfs_readi` of a known inode whose
-- addresses stay out of the log, with an end of the range below 2^64, does not panic, gives the
-- bytes of the file from `off` on within the size, up to the first block that is missing, and
-- changes nothing but the copy of the inode, which is valid.
pub readi-bytes :
    (sb : Superblock) (s : System) (si : Inode) (off n : ℕ)
    → Open s
    → Laid sb s.log
    → si.inum < sb.ninodes
    → off + n < 2 ^ 64
    → (locked_copy sb (view s.cache) si).d.size < 2 ^ 32
    → Mapped s.log (view s.cache) ((locked_copy sb (view s.cache) si).d)
    → (s' : System) × (readi sb s si off n
        ≡ some (
          (
            bytes_from
                (view s.cache)
                ((locked_copy sb (view s.cache) si).d)
                (within ((locked_copy sb (view s.cache) si).d.size) off n)
                off,
            locked_copy sb (view s.cache) si,
          ),
          s',
        ))
      × Quiet s s'
unfolding readi
readi-bytes sb s si off n o laid known small width m =
    let (s1, e1, q1) = ilock-Loaded sb s si o laid known in
    ended s1 e1 q1 (Bool-cases (ltb size off))
  where
    v : ℕ → Block
    v = view s.cache

    si' : Inode
    si' = locked_copy sb v si

    size : ℕ
    size = si'.d.size

    Goal : Type 0
    Goal =
        (s' : System) × (readi sb s si off n
          ≡ some ((bytes_from v si'.d (within size off n) off, si'), s'))
        × Quiet s s'

    ran :
        (s1 s2 : System) (w : ℕ) (bytes : List ℕ)
        → ilock sb s si ≡ some (si', s1)
        → ltb size off ≡ false
        → clamp size off n ≡ w
        → (w == 0) ≡ false
        → read_from w s1 si'.d off w 0 ≡ some (bytes, s2)
        → readi sb s si off n ≡ some ((bytes, si'), s2)
    ran s1 s2 w bytes e1 past c full e2 = rw (e1, past, c, full, e2) refl

    looped :
        (s1 : System)
        → ilock sb s si ≡ some (si', s1)
        → Quiet s s1
        → ltb size off ≡ false
        → clamp size off n ≡ within size off n
        → (within size off n == 0) ≡ false
        → Looped (within size off n) s1 si'.d off (within size off n) 0
        → Goal
    looped s1 e1 q1 past c full (s2, e2, q2) =
        let q = Quiet-trans q1 q2 in
        let all : within size off n - 0 ≡ within size off n = omega arith in
        let here : off + 0 ≡ off = omega arith in
        let same : bytes_from (view s1.cache) si'.d (within size off n - 0) (off + 0)
            ≡ bytes_from v si'.d (within size off n) off =
          ap (λ w. bytes_from w si'.d (within size off n - 0) (off + 0)) q1.seen
          ∙ ap₂ (bytes_from v si'.d) all here in
        (
          s2,
          ran s1 s2 (within size off n) _ e1 past c full e2 ∙ ap (λ b. some ((b, si'), s2)) same,
          q,
        )

    stopped :
        (s1 : System)
        → ilock sb s si ≡ some (si', s1)
        → ltb size off ≡ true
        → readi sb s si off n ≡ some (([], si'), s1)
    stopped s1 e1 past = rw (e1, past) refl

    nothing :
        (s1 : System) (w : ℕ)
        → ilock sb s si ≡ some (si', s1)
        → ltb size off ≡ false
        → clamp size off n ≡ w
        → (w == 0) ≡ true
        → readi sb s si off n ≡ some (([], si'), s1)
    nothing s1 w e1 past c z = rw (e1, past, c, z) refl

    empty : within size off n ≡ 0 → [] ≡ bytes_from v si'.d (within size off n) off
    empty e = sym (ap (λ k. bytes_from v si'.d k off) e ∙ bytes_from-none v si'.d off)

    ended :
        (s1 : System)
        → ilock sb s si ≡ some (si', s1)
        → Quiet s s1
        → (ltb size off ≡ true) ⊎ (ltb size off ≡ false)
        → Goal
    ended s1 e1 q1 (inl past) =
        let none_left : within size off n ≡ 0 = ground (arith, past) in
        (s1, stopped s1 e1 past ∙ ap (λ b. some ((b, si'), s1)) (empty none_left), q1)
    ended s1 e1 q1 (inr past) =
        let c = clamp-within size off n small (ground (arith, past)) in
        elim (Bool-cases (within size off n == 0)) [
          | inl z ↦
              let none_left : within size off n ≡ 0 = ground (arith, z) in
              (
                s1,
                nothing s1 (within size off n) e1 past c z
                    ∙ ap (λ b. some ((b, si'), s1)) (empty none_left),
                q1,
              )
          | inr full ↦ looped s1 e1 q1 past c full (
              read_from-bytes (within size off n) s1 si'.d off (within size off n) 0 (omega arith)
                (omega arith) (ground (arith, width, past)) q1.still_open (Mapped-Quiet si'.d q1 m))
        ]

-- The same for a valid copy.
pub readi-valid :
    (sb : Superblock) (s : System) (si : Inode) (off n : ℕ)
    → Open s
    → Laid sb s.log
    → si.inum < sb.ninodes
    → si.valid ≡ true
    → off + n < 2 ^ 64
    → si.d.size < 2 ^ 32
    → Mapped s.log (view s.cache) si.d
    → (s' : System) × (readi sb s si off n
        ≡ some ((bytes_from (view s.cache) si.d (within si.d.size off n) off, si), s'))
      × Quiet s s'
readi-valid sb s si off n o laid known ok small width m =
    let same : locked_copy sb (view s.cache) si ≡ si = rw ok refl in
    subst
      (λ (x : Inode).
        (s' : System) × (readi sb s si off n
          ≡ some ((bytes_from (view s.cache) x.d (within x.d.size off n) off, x), s'))
        × Quiet s s')
      same
      (readi-bytes sb s si off n o laid known small
        (subst (λ (x : Inode). x.d.size < 2 ^ 32) (sym same) width)
        (subst (λ (x : Inode). Mapped s.log (view s.cache) x.d) (sym same) m))
