-- ===== src/Sbfs/Write/Contents.antt =====
-- The contents of the direct blocks of a file, with zeros for missing blocks, and `splice`.
use sbunix.Base.{
  ℕ, suc, ◌+◌, ◌-◌, ◌/◌, ◌%◌, ◌<◌, ◌≡◌, ◌≢◌, ap, ◌∙◌, ◌⊎◌, inl, inr, ◌&&◌, true, false, List, [],
  ◌∷◌, arith, ◌==◌, ltb, leb, if◌then◌else◌, update, update_self, update_ne, length, get_or, All,
  Bool-cases, eq_of_==,
}
use sbunix.Bio.{Block}
use sbunix.Sbfs.{Superblock}
use sbunix.Sbfs.Bytes.{get_byte, put_byte, get_byte-put_byte}
use sbunix.Sbfs.Bitmap.{is_used}
use sbunix.Sbfs.Inode.{Dinode}
use sbunix.Sbfs.Write.{splice}

-- The bytes of a block after a `splice`.
pub get_byte-splice :
    (d : Block) (k : ℕ) (xs : List ℕ) (j : ℕ)
    → All (λ x. x < 256) xs
    → get_byte (splice d k xs) j
      ≡ (if leb k j && ltb j (k + length xs) then get_or xs (j - k) 0 else get_byte d j)
unfolding splice
get_byte-splice d k [] j b = let out : (leb k j && ltb j (k + 0)) ≡ false = ground arith in rw out
get_byte-splice d k (x ∷ xs) j b =
    get_byte-splice (put_byte d k x) (k + 1) xs j b.1 ∙ step (Bool-cases (j == k))
  where
    step :
        ((j == k) ≡ true) ⊎ ((j == k) ≡ false)
        → (if leb (k + 1) j && ltb j (k + 1 + length xs)
            then get_or xs (j - (k + 1)) 0
            else get_byte (put_byte d k x) j)
          ≡ (if leb k j && ltb j (k + suc (length xs))
              then get_or (x ∷ xs) (j - k) 0
              else get_byte d j)
    step (inl q) =
        let p : j ≡ k = eq_of_== j k q in
        let out : (leb (k + 1) j && ltb j (k + 1 + length xs)) ≡ false = ground (arith, p) in
        let into : (leb k j && ltb j (k + suc (length xs))) ≡ true = ground (arith, p) in
        let z : j - k ≡ 0 = omega (arith, p) in rw (out, into, z, get_byte-put_byte d k x j b.0, q)
    step (inr q) = elim (Bool-cases (leb (k + 1) j && ltb j (k + 1 + length xs))) [
      | inl t ↦
          let into : (leb k j && ltb j (k + suc (length xs))) ≡ true = ground (arith, t) in
          let z : j - k ≡ suc (j - (k + 1)) = ground (arith, t) in rw (t, into, z)
      | inr f ↦
          let out : (leb k j && ltb j (k + suc (length xs))) ≡ false = ground (arith, f, q) in
          rw (f, out, get_byte-put_byte d k x j b.0, q)
    ]

-- The byte at the position `p` below 3584, for which there are direct blocks.
unfoldable pub content : (ℕ → Block) → Dinode → ℕ → ℕ
content v d p = if d.addrs (p / 512) == 0 then 0 else get_byte (v (d.addrs (p / 512))) (p % 512)

pub content-at :
    (v : ℕ → Block) (d : Dinode) (p b : ℕ)
    → d.addrs (p / 512) ≡ b
    → b ≢ 0
    → content v d p ≡ get_byte (v b) (p % 512)
unfolding content
content-at v d p b e n = let f : (b == 0) ≡ false = ground (arith, n) in rw (e, f)

-- The direct blocks of a file are data blocks in use, all different.
pub record Direct (sb : Superblock) (v : ℕ → Block) (d : Dinode) : Type 0 where
  pub own :
      (i : ℕ)
      → i < 7
      → (d.addrs i ≡ 0)
        ⊎ ((k : ℕ) × (k < sb.nblocks)
            × (d.addrs i ≡ sb.bmapstart + 1 + k)
            × (is_used (v sb.bmapstart) k ≡ true))
  pub apart : (i j : ℕ) → i < 7 → j < 7 → d.addrs i ≢ 0 → d.addrs i ≡ d.addrs j → i ≡ j

-- A block of the file with other data.
pub content-update :
    (sb : Superblock) (v w : ℕ → Block) (d : Dinode) (i : ℕ) (x : Block) (p : ℕ)
    → Direct sb v d
    → i < 7
    → d.addrs i ≢ 0
    → w ≡ update v (d.addrs i) x
    → p / 512 < 7
    → content w d p ≡ (if p / 512 == i then get_byte x (p % 512) else content v d p)
unfolding content
content-update sb v w d i x p h lt full e small = elim (Bool-cases (p / 512 == i)) [
  | inl q ↦
      let r : p / 512 ≡ i = eq_of_== (p / 512) i q in
      let f : (d.addrs i == 0) ≡ false = ground (arith, full) in
      let at : w (d.addrs i) ≡ x = ap (λ u. u (d.addrs i)) e ∙ update_self v (d.addrs i) x in
      rw (q, r, f, at)
  | inr q ↦ elim (Bool-cases (d.addrs (p / 512) == 0)) [
    | inl z ↦ rw (q, z)
    | inr f ↦
        let n : d.addrs (p / 512) ≢ 0 = ground (arith, f) in
        let ne : d.addrs (p / 512) ≢ d.addrs i =
          λ r. ground (arith, h.apart (p / 512) i small lt n r, q) in
        let at : w (d.addrs (p / 512)) ≡ v (d.addrs (p / 512)) =
          ap (λ u. u (d.addrs (p / 512))) e ∙ update_ne v (d.addrs i) (d.addrs (p / 512)) x ne in
        rw (q, f, at)
  ]
]
