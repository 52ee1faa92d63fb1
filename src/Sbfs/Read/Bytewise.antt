-- ===== src/Sbfs/Read/Bytewise.antt =====
-- `sbfs_readi` gives the bytes that a reading of the image byte by byte gives.
use sbunix.Base.{
  ℕ, zero, suc, ◌+◌, ◌-◌, ◌*◌, ◌/◌, ◌%◌, ◌^◌, ◌≤◌, ◌<◌, ◌≡◌, ◌≢◌, refl, sym, ap, ap₂, subst, ◌∙◌,
  ◌⊎◌, inl, inr, true, false, none, some, List, [], ◌∷◌, ◌++◌, arith, ◌==◌, ltb, add64,
  if◌then◌else◌, Bool-cases,
}
use sbunix.Bio.{Block}
use sbunix.Bio.View.{view}
use sbunix.Log.{System}
use sbunix.Log.Write.{Outside}
use sbunix.Log.Transaction.{Open}
use sbunix.Sbfs.{visit}
use sbunix.Sbfs.Bytes.{get_byte}
use sbunix.Sbfs.Inode.{Dinode}
use sbunix.Sbfs.Read.{slice, chunk, map_block, read_from}
use sbunix.Sbfs.Quiet.{Quiet, Quiet-refl, Quiet-trans, look-Quiet}
use sbunix.Sbfs.Read.Walk.{Mapped, address, map_block-address}

-- The `n` bytes of the file from the position `p` on, as far as there are blocks for them.
pub bytes_from : (ℕ → Block) → Dinode → ℕ → ℕ → List ℕ
bytes_from v d zero p = []
bytes_from v d (suc n) p =
    let rest = bytes_from v d n (p + 1) in
    let b = address v d (p / 512) in if b == 0 then [] else get_byte (v b) (p % 512) ∷ rest

pub bytes_from-none : (v : ℕ → Block) (d : Dinode) (p : ℕ) → bytes_from v d 0 p ≡ []
unfolding bytes_from
bytes_from-none v d p = refl

bytes_from-block :
    (v : ℕ → Block) (d : Dinode) (n p q : ℕ)
    → p / 512 ≡ q
    → address v d q ≢ 0
    → bytes_from v d (suc n) p ≡ get_byte (v (address v d q)) (p % 512) ∷ bytes_from v d n (p + 1)
unfolding bytes_from
bytes_from-block v d n p q e a =
    let full : (address v d q == 0) ≡ false = ground (arith, a) in rw (e, full)

bytes_from-hole :
    (v : ℕ → Block) (d : Dinode) (n p : ℕ) → address v d (p / 512) ≡ 0 → bytes_from v d n p ≡ []
unfolding bytes_from
bytes_from-hole v d zero p a = refl
bytes_from-hole v d (suc n) p a =
    let none_here : (address v d (p / 512) == 0) ≡ true = ground (arith, a) in rw none_here

-- A run of bytes in one block.
bytes_from-slice :
    (v : ℕ → Block) (d : Dinode) (q k c m : ℕ)
    → k + c ≤ 512
    → address v d q ≢ 0
    → bytes_from v d (c + m) (q * 512 + k)
      ≡ slice (v (address v d q)) k c ++ bytes_from v d m (q * 512 + k + c)
unfolding slice bytes_from
bytes_from-slice v d q k zero m h a =
    let e : 0 + m ≡ m = omega arith in
    let e' : q * 512 + k + 0 ≡ q * 512 + k = omega arith in rw (e, e')
bytes_from-slice v d q k (suc c) m h a = head (bytes_from-slice v d q (k + 1) c m (omega arith) a)
  where
    block : (q * 512 + k) / 512 ≡ q
    block = omega arith

    offset : (q * 512 + k) % 512 ≡ k
    offset = omega arith

    count : suc c + m ≡ suc (c + m)
    count = omega arith

    step : q * 512 + k + 1 ≡ q * 512 + (k + 1)
    step = omega arith

    far : q * 512 + (k + 1) + c ≡ q * 512 + k + suc c
    far = omega arith

    Tail : Type 0
    Tail =
        bytes_from v d (c + m) (q * 512 + (k + 1))
        ≡ slice (v (address v d q)) (k + 1) c ++ bytes_from v d m (q * 512 + (k + 1) + c)

    tail :
        Tail
        → bytes_from v d (c + m) (q * 512 + k + 1)
          ≡ slice (v (address v d q)) (k + 1) c ++ bytes_from v d m (q * 512 + k + suc c)
    tail ih =
        ap (bytes_from v d (c + m)) step
        ∙ ih
        ∙ ap (λ p. slice (v (address v d q)) (k + 1) c ++ bytes_from v d m p) far

    opened :
        bytes_from v d (suc (c + m)) (q * 512 + k)
        ≡ get_byte (v (address v d q)) k ∷ bytes_from v d (c + m) (q * 512 + k + 1)
    opened =
        bytes_from-block v d (c + m) (q * 512 + k) q block a
        ∙ ap (λ o. get_byte (v (address v d q)) o ∷ bytes_from v d (c + m) (q * 512 + k + 1)) offset

    head :
        Tail
        → bytes_from v d (suc c + m) (q * 512 + k)
          ≡ slice (v (address v d q)) k (suc c) ++ bytes_from v d m (q * 512 + k + suc c)
    head ih =
        ap (λ x. bytes_from v d x (q * 512 + k)) count
        ∙ opened
        ∙ ap (λ t. get_byte (v (address v d q)) k ∷ t) (tail ih)

-- The addresses of a file after a use that changes nothing.
pub Mapped-Quiet :
    {s s' : System} (d : Dinode)
    → Quiet s s'
    → Mapped s.log (view s.cache) d
    → Mapped s'.log (view s'.cache) d
Mapped-Quiet {s} {s'} d q m =
    subst (λ w. Mapped s'.log w d) (sym q.seen)
      (record {
        slots = λ i h. omega (arith, m.slots i h, q.start, q.size);
        inner = λ i h. omega (arith, m.inner i h, q.start, q.size);
        blocks = λ bn. omega (arith, m.blocks bn, q.start, q.size);
      })

-- What the loop returns with the fuel `f`, from `total` on.
abbrev pub Looped : ℕ → System → Dinode → ℕ → ℕ → ℕ → Type 0
Looped f s d off n total =
    (s' : System) × (read_from f s d off n total
      ≡ some (bytes_from (view s.cache) d (n - total) (off + total), s'))
    × Quiet s s'

-- The loop, with the fuel that the bytes to come are.
pub read_from-bytes :
    (f : ℕ) (s : System) (d : Dinode) (off n total : ℕ)
    → n ≤ total + f
    → total ≤ n
    → off + n < 2 ^ 32
    → Open s
    → Mapped s.log (view s.cache) d
    → Looped f s d off n total
unfolding read_from bytes_from
read_from-bytes zero s d off n total h le small o m =
    let z : n - total ≡ 0 = omega arith in (s, rw z refl, Quiet-refl o)
read_from-bytes (suc f) s d off n total h le small o m = elim (Bool-cases (ltb total n)) [
  | inr done ↦
      let z : n - total ≡ 0 = ground (arith, done, le) in (s, rw (z, done) refl, Quiet-refl o)
  | inl more ↦
      let (s1, e1, q1) = map_block-address s d (p / 512) o m in
      round (λ s' t h' le' o' m'. read_from-bytes f s' d off n t h' le' small o' m') s1
        (ground (arith, more)) more e1 q1 (Bool-cases (address v d (p / 512) == 0))
]
  where
    v : ℕ → Block
    v = view s.cache

    p : ℕ
    p = off + total

    c : ℕ
    c = chunk p (n - total)

    no_wrap : add64 off total ≡ p
    no_wrap = omega (arith, small, le)

    few : p / 512 % 2 ^ 32 ≡ p / 512
    few = omega (arith, small, le)

    progress : total < n → (0 < c) × (c ≤ n - total) × (p % 512 + c ≤ 512)
    progress lt = (ground (arith, lt), ground (arith, lt), ground (arith, lt))

    Goal : Type 0
    Goal = Looped (suc f) s d off n total

    -- The bytes of this round and of those to come.
    joined :
        total < n
        → address v d (p / 512) ≢ 0
        → (w1 w2 : ℕ → Block) → w1 ≡ v
        → w2 ≡ v
        → slice (w1 (address v d (p / 512))) (p % 512) c
            ++ bytes_from w2 d (n - (total + c)) (off + (total + c))
          ≡ bytes_from v d (n - total) p
    joined lt a w1 w2 x1 x2 =
        let left : c + (n - (total + c)) ≡ n - total = omega (arith, progress lt) in
        let here : p / 512 * 512 + p % 512 ≡ p = omega arith in
        let next : p / 512 * 512 + p % 512 + c ≡ off + (total + c) = omega arith in
        ap₂
          (λ w w'.
            slice (w (address v d (p / 512))) (p % 512) c
            ++ bytes_from w' d (n - (total + c)) (off + (total + c)))
          x1 x2
        ∙ ap
            (λ x.
              slice (v (address v d (p / 512))) (p % 512) c ++ bytes_from v d (n - (total + c)) x)
            (sym next)
        ∙ sym (bytes_from-slice v d (p / 512) (p % 512) c (n - (total + c)) (progress lt).2 a)
        ∙ ap₂ (bytes_from v d) left here

    finish :
        (s1 s2 s3 : System)
        → total < n
        → ltb total n ≡ true
        → address v d (p / 512) ≢ 0
        → (address v d (p / 512) == 0) ≡ false
        → map_block s d (p / 512) ≡ some (address v d (p / 512), s1)
        → visit s1 (address v d (p / 512)) (λ x. (slice x (p % 512) c, none))
          ≡ some (slice (view s1.cache (address v d (p / 512))) (p % 512) c, s2)
        → read_from f s2 d off n (total + c)
          ≡ some (bytes_from (view s2.cache) d (n - (total + c)) (off + (total + c)), s3)
        → Quiet s s1
        → Quiet s1 s2
        → Quiet s2 s3
        → Goal
    finish s1 s2 s3 lt more a full e1 e2 e3 q1 q2 q3 = (
      s3,
      rw (no_wrap, few, more, e1, full, e2, e3)
          (ap (λ b. some (b, s3))
            (joined lt a (view s1.cache) (view s2.cache) q1.seen (q2.seen ∙ q1.seen))),
      Quiet-trans q1 (Quiet-trans q2 q3),
    )

    round :
        ((s' : System) (t : ℕ)
          → n ≤ t + f
          → t ≤ n
          → Open s'
          → Mapped s'.log (view s'.cache) d
          → Looped f s' d off n t)
        → (s1 : System) → total < n
        → ltb total n ≡ true
        → map_block s d (p / 512) ≡ some (address v d (p / 512), s1)
        → Quiet s s1
        → ((address v d (p / 512) == 0) ≡ true) ⊎ ((address v d (p / 512) == 0) ≡ false)
        → Goal
    round ih s1 lt more e1 q1 (inl hole) = (
      s1,
      rw (no_wrap, few, more, e1, hole)
          (ap (λ b. some (b, s1)) (sym (bytes_from-hole v d (n - total) p (ground (arith, hole))))),
      q1,
    )
    round ih s1 lt more e1 q1 (inr full) =
        let a : address v d (p / 512) ≢ 0 = ground (arith, full) in
        let out : Outside s1.log (address v d (p / 512)) =
          omega (arith, m.blocks (p / 512), a, q1.start, q1.size) in
        let (s2, e2, q2) =
          look-Quiet s1 (address v d (p / 512)) (λ x. slice x (p % 512) c) q1.still_open out in
        let q12 = Quiet-trans q1 q2 in
        let (s3, e3, q3) =
          ih s2 (total + c) (omega (arith, progress lt)) (omega (arith, progress lt)) q12.still_open
            (Mapped-Quiet d q12 m) in
        finish s1 s2 s3 lt more a full e1 e2 e3 q1 q2 q3
